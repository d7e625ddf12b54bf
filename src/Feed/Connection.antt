-- ===== src/Feed/Connection.antt =====
-- backend/src/cryptoswarm/feed/ws_client.py: the streams that are asked for, and the delays before a
-- new connection. `lower` is Python's `str.lower`. The connection itself is a parameter: whether it
-- ended without an exception.
use aicrypto_trader.Base.{
  ◌+◌, ◌*◌, ◌≡◌, refl, String, Bool, true, false, List, [], ◌∷◌, All, cat, length, arith,
}
use aicrypto_trader.Float.{Float, IsExact, ◌⊗◌, le, fmin, literal}

-- The streams of the symbols, and the one of all liquidations.
unfoldable pub streams_of : (String → String) → List String → List String
streams_of lower [] = "!forceOrder@arr" ∷ []
streams_of lower (s ∷ ss) =
    cat (lower s) "@kline_1m"
    ∷ cat (lower s) "@markPrice"
    ∷ cat (lower s) "@bookTicker"
    ∷ streams_of lower ss

length-streams_of :
    (lower : String → String) (symbols : List String)
    → length (streams_of lower symbols) ≡ 3 * length symbols + 1
unfolding streams_of
length-streams_of lower [] = refl
length-streams_of lower (s ∷ ss) = omega (arith, length-streams_of lower ss)

module _ {F : Type 0} ⦃fl : Float F⦄ where
  abbrev pub backoff_initial : F
  backoff_initial = literal 1 0

  abbrev pub backoff_max : F
  backoff_max = literal 60 0

  -- The delays of `run`, one before each connection that follows a failed one.
  unfoldable pub delays_from : F → List Bool → List F
  delays_from backoff [] = []
  delays_from backoff (true ∷ clean) = delays_from backoff_initial clean
  delays_from backoff (false ∷ clean) =
      backoff ∷ delays_from (fmin (backoff ⊗ literal 2 0) backoff_max) clean

  abbrev IsShort : F → Type 0
  IsShort delay = le delay backoff_max ≡ true

  delays_from-IsShort :
      (ex : IsExact F) (backoff : F) (clean : List Bool)
      → le {F = F} backoff_initial backoff_max ≡ true
      → IsShort backoff
      → All IsShort (delays_from backoff clean)
  unfolding delays_from
  delays_from-IsShort ex backoff [] h b = tt
  delays_from-IsShort ex backoff (true ∷ clean) h b =
      delays_from-IsShort ex backoff_initial clean h h
  delays_from-IsShort ex backoff (false ∷ clean) h b = (
    b,
    delays_from-IsShort ex (fmin (backoff ⊗ literal 2 0) backoff_max) clean h (
        ground (
          arith,
          ex.lt_iff backoff_max (backoff ⊗ literal 2 0),
          ex.le_iff (backoff ⊗ literal 2 0) backoff_max,
          ex.le_iff backoff_max backoff_max,
        )),
  )
