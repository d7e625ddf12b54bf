-- ===== src/Database/Joined.antt =====
-- `get_recent_closed_trades` of storage/postgres.py: the closed trades with their rewards.
use aicrypto_trader.Base.{
  ℕ, String, Option, none, some, List, [], ◌∷◌, ◌++◌, ltb, take, if◌then◌else◌,
}
use aicrypto_trader.Dict.{Dict}
use aicrypto_trader.Bus.Messages.{Side}
use aicrypto_trader.Database.{Trade, Json, RlTuple, StoredReason, is_action_of}

-- A row of the answer, where `closed_ts` and `reward` are not NULL.
pub record Joined (F : Type 0) : Type 0 where
  pub correlation_id : String
  pub symbol : String
  pub side : Side
  pub realized_pnl : Option F
  pub opened_ts : ℕ
  pub closed_ts : ℕ
  pub exit_reason : Option StoredReason
  pub reward : F
  pub action : Dict (Json F)

module _ {F : Type 0} where
  -- The rows of a trade that was closed at `ts` and the tuples of its correlation id that have a
  -- reward. The rows that LEFT JOIN adds for a trade without tuples have none.
  unfoldable pub rewarded_rows :
      (Json F → String) → Trade F → ℕ → List (RlTuple F) → List (Joined F)
  rewarded_rows shown t ts [] = []
  rewarded_rows shown t ts (r ∷ rs) =
      let rest = rewarded_rows shown t ts rs in
      elim (r.reward) [
        | none ↦ rest
        | some reward ↦
            if is_action_of shown t.correlation_id r.action
            then record {
              correlation_id = t.correlation_id;
              symbol = t.symbol;
              side = t.side;
              realized_pnl = t.realized_pnl;
              opened_ts = t.opened_ts;
              closed_ts = ts;
              exit_reason = t.exit_reason;
              reward = reward;
              action = r.action;
            }
              ∷ rest
            else rest
      ]

  -- The joined rows that the conditions let pass.
  unfoldable pub joined_rows :
      (Json F → String) → List (Trade F) → List (RlTuple F) → List (Joined F)
  joined_rows shown [] rs = []
  joined_rows shown (t ∷ ts) rs =
      let rest = joined_rows shown ts rs in
      elim (t.closed_ts) [ none ↦ rest | some closed ↦ rewarded_rows shown t closed rs ++ rest ]

  -- ORDER BY closed_ts DESC
  abbrev pub by_closed : Joined F → List (Joined F) → List (Joined F)
  by_closed j [] = j ∷ []
  by_closed j (k ∷ ks) = if ltb j.closed_ts k.closed_ts then k ∷ by_closed j ks else j ∷ k ∷ ks

  unfoldable pub latest_first : List (Joined F) → List (Joined F)
  latest_first [] = []
  latest_first (j ∷ js) = by_closed j (latest_first js)

  unfoldable pub get_recent_closed_trades :
      (Json F → String) → ℕ → List (Trade F) → List (RlTuple F) → List (Joined F)
  get_recent_closed_trades shown limit trades tuples =
      take limit (latest_first (joined_rows shown trades tuples))
