-- ===== src/Config/Symbols.antt =====
-- The comma-separated symbol list of settings.py: `[s.strip() for s in text.split(",") if s.strip()]`.
use Prim.Native.Char.{Char, code}
use Prim.Native.String.{String}
use aicrypto_trader.Base.{
  ℕ, ◌≡◌, refl, Bool, true, false, ◌&&◌, ◌||◌, List, [], ◌∷◌, arith, leb, ◌==◌, if◌then◌else◌, All,
}

-- What `str.strip()` strips: the code points for which `str.isspace()` holds.
pub is_space : ℕ → Bool
is_space c =
    leb 9 c && leb c 13
    || leb 28 c && leb c 32
    || c == 0x85
    || c == 0xa0
    || c == 0x1680
    || leb 0x2000 c && leb c 0x200a
    || c == 0x2028
    || c == 0x2029
    || c == 0x202f
    || c == 0x205f
    || c == 0x3000

abbrev is_blank : String → Bool
is_blank String.[] = true
is_blank (String.◌∷◌ c s) = false

abbrev push_head : Char → List String → List String
push_head c [] = String.◌∷◌ c String.[] ∷ []
push_head c (w ∷ ws) = String.◌∷◌ c w ∷ ws

-- `text.split(",")`
pub split_commas : String → List String
split_commas String.[] = String.[] ∷ []
split_commas (String.◌∷◌ c s) =
    let rest = split_commas s in if code c == b',' then String.[] ∷ rest else push_head c rest

lstrip : String → String
lstrip String.[] = String.[]
lstrip (String.◌∷◌ c s) = let rest = lstrip s in if is_space (code c) then rest else String.◌∷◌ c s

rstrip : String → String
rstrip String.[] = String.[]
rstrip (String.◌∷◌ c s) =
    let rest = rstrip s in
    if is_blank rest && is_space (code c) then String.[] else String.◌∷◌ c rest

unfoldable pub strip : String → String
unfolding lstrip rstrip is_space
strip s = rstrip (lstrip s)

keep_stripped : List String → List String
keep_stripped [] = []
keep_stripped (w ∷ ws) = if is_blank (strip w) then keep_stripped ws else strip w ∷ keep_stripped ws

unfoldable pub symbols_of : String → List String
unfolding split_commas strip keep_stripped
symbols_of text = keep_stripped (split_commas text)

keep_stripped_nonempty : (ws : List String) → All (λ w. is_blank w ≡ false) (keep_stripped ws)
unfolding keep_stripped
keep_stripped_nonempty [] = tt
keep_stripped_nonempty (w ∷ ws) = ground (arith, keep_stripped_nonempty ws)

default_symbols : symbols_of " BTCUSDT, ETHUSDT,, SOL " ≡ "BTCUSDT" ∷ "ETHUSDT" ∷ "SOL" ∷ []
unfolding symbols_of
default_symbols = refl
