-- ===== src/Backtest/Zones.antt =====
-- backend/scripts/backtest_3_sentiment.py: the zones of the fear and greed index, and the contrarian
-- strategy. A row is a day with its index and the return of the next day. The means of an empty
-- selection are NaN, which is `none` here.
use aicrypto_trader.Base.{
  ℕ, zero, suc, ◌+◌, ◌≤◌, ◌≡◌, ◌≢◌, refl, Option, none, some, Bool, true, false, ◌&&◌, List, [],
  ◌∷◌, All, arith, length, ltb, leb, if◌then◌else◌, map,
}
use aicrypto_trader.Int.{ℤ, pos, negsuc, is_zero}
use aicrypto_trader.Float.{Float, ◌⊕◌, ◌⊖◌, ◌⊗◌, ◌⊘◌, lt, nought, literal, of_int, sum_from}

pub data Zone : Type 0 where
  extreme_fear fear neutral greed extreme_greed unknown : Zone

pub record ZoneRange : Type 0 where
  pub name : Zone
  pub lo : ℕ
  pub hi : ℕ

-- `ZONES`
abbrev pub zones : List ZoneRange
zones =
    record { name = extreme_fear; lo = 0; hi = 25 }
    ∷ record { name = fear; lo = 26; hi = 49 }
    ∷ record { name = neutral; lo = 50; hi = 55 }
    ∷ record { name = greed; lo = 56; hi = 74 }
    ∷ record { name = extreme_greed; lo = 75; hi = 100 }
    ∷ []

abbrev pub is_in : ZoneRange → ℕ → Bool
is_in z fng = leb z.lo fng && leb fng z.hi

abbrev pub label_in : List ZoneRange → ℕ → Zone
label_in [] fng = unknown
label_in (z ∷ zs) fng = if is_in z fng then z.name else label_in zs fng

unfoldable pub zone_label : ℕ → Zone
zone_label fng = label_in zones fng

pub record Day (F : Type 0) : Type 0 where
  pub fng : ℕ
  pub ret_next : F

-- A row of `analyse_zones`.
pub record ZoneRow (F : Type 0) : Type 0 where
  pub zone : Zone
  pub count : ℕ
  pub accuracy : Option F
  pub avg_ret : Option F

-- What the strategy did on a day.
pub record DayResult (F : Type 0) : Type 0 where
  pub position : ℤ
  pub ret : F
  pub correct : Bool
  pub active : Bool

-- The equity curves without their first value.
pub record Strategy (F : Type 0) : Type 0 where
  pub accuracy : Option F
  pub contrarian_pnl : F
  pub bh_pnl : F
  pub equity_contrarian : List F
  pub equity_bh : List F

-- Long below 30, short above 70.
abbrev pub position_of : ℕ → ℤ
position_of fng = if ltb fng 30 then pos 1 else if ltb 70 fng then negsuc 0 else pos 0

module _ {F : Type 0} ⦃fl : Float F⦄ where
  -- `df[(df["fng"] >= lo) & (df["fng"] <= hi)]`
  unfoldable pub days_in : ZoneRange → List (Day F) → List (Day F)
  days_in z [] = []
  days_in z (d ∷ ds) = let rest = days_in z ds in if is_in z d.fng then d ∷ rest else rest

  -- `(ret_next > 0).astype(int)`
  abbrev pub ups : List (Day F) → ℕ
  ups [] = 0
  ups (d ∷ ds) = let rest = ups ds in if lt nought d.ret_next then suc rest else rest

  abbrev pub returns_of : List (Day F) → List F
  returns_of [] = []
  returns_of (d ∷ ds) = d.ret_next ∷ returns_of ds

  abbrev pub real : ℕ → F
  real n = of_int (pos n)

  abbrev pub zone_row : List (Day F) → ZoneRange → ZoneRow F
  zone_row ds z =
      let sub = days_in z ds in
      record {
        zone = z.name;
        count = length sub;
        accuracy = if ltb 0 (length sub) then some (real (ups sub) ⊘ real (length sub)) else none;
        avg_ret =
            if ltb 0 (length sub)
            then some (sum_from nought (returns_of sub) ⊘ real (length sub))
            else none;
      }

  -- `analyse_zones`
  unfoldable pub analyse_zones : List (Day F) → List (ZoneRow F)
  analyse_zones ds = map (zone_row ds) zones

  -- `(pos == 1 and ret > 0) or (pos == -1 and ret < 0)`, at a position of -1, 0 or 1.
  abbrev pub is_right : ℤ → F → Bool
  is_right (negsuc n) ret = lt ret nought
  is_right (pos zero) ret = false
  is_right (pos (suc n)) ret = lt nought ret

  unfoldable pub day_result : Day F → DayResult F
  day_result d = record {
    position = position_of d.fng;
    ret = d.ret_next;
    correct = is_right (position_of d.fng) d.ret_next;
    active = if is_zero (position_of d.fng) then false else true;
  }

  -- The equity after each day, from the equity before.
  unfoldable pub equities : (Day F → F) → F → List (Day F) → List F
  equities day_return equity [] = []
  equities day_return equity (d ∷ ds) =
      let after = equity ⊗ (literal 1 0 ⊕ day_return d) in after ∷ equities day_return after ds

  abbrev pub last_or : F → List F → F
  last_or x [] = x
  last_or x (y ∷ ys) = last_or y ys

  abbrev pub strategy_return : Day F → F
  strategy_return d = of_int (position_of d.fng) ⊗ d.ret_next

  abbrev pub count_days : (DayResult F → Bool) → List (Day F) → ℕ
  count_days test [] = 0
  count_days test (d ∷ ds) =
      let rest = count_days test ds in if test (day_result d) then suc rest else rest

  abbrev pub is_hit : DayResult F → Bool
  is_hit r = r.active && r.correct

  abbrev pub percent : F → F
  percent equity = (equity ⊖ literal 1 0) ⊗ literal 100 0

  -- `contrarian_strategy`
  unfoldable pub contrarian_strategy : List (Day F) → Strategy F
  contrarian_strategy ds =
      let active = count_days (λ r. r.active) ds in
      let contrarian = equities strategy_return (literal 1 0) ds in
      let bh = equities (λ d. d.ret_next) (literal 1 0) ds in
      record {
        accuracy = if ltb 0 active then some (real (count_days is_hit ds) ⊘ real active) else none;
        contrarian_pnl = percent (last_or (literal 1 0) contrarian);
        bh_pnl = percent (last_or (literal 1 0) bh);
        equity_contrarian = contrarian;
        equity_bh = bh;
      }

  abbrev pub zone_counts : List (ZoneRow F) → ℕ
  zone_counts [] = 0
  zone_counts (r ∷ rs) = r.count + zone_counts rs

  -- An index of the day is at most 100.
  abbrev pub IsIndex : Day F → Type 0
  IsIndex d = d.fng ≤ 100

  -- The zones cover the index without overlap: if the index of every day is at most 100, then each
  -- day has a zone, and the counts of the five rows add up to the number of days.
  pub analyse_zones-counts :
      (ds : List (Day F))
      → All IsIndex ds
      → (zone_counts (analyse_zones ds) ≡ length ds) × All (λ d. zone_label d.fng ≢ unknown) ds
  unfolding analyse_zones days_in zone_label
  analyse_zones-counts [] h = (refl, tt)
  analyse_zones-counts (d ∷ ds) (h, hs) =
      let (total, labels) = analyse_zones-counts ds hs in
      (ground (arith, total, h), ((λ e. ground (arith, e, h)), labels))
