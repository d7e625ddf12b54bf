-- ===== src/Agents/Rewards.antt =====
-- backend/src/cryptoswarm/agents/reward_computer.py: the reward of each closed position.
-- `build` stands for the features of a symbol, `stores` for the database, both of which may raise.
-- The random correlation id of an update is an argument. The clock is read once for each update.
pub mod Untaught
use aicrypto_trader.Base.{
  ℕ, zero, suc, String, Option, none, some, Bool, true, false, List, [], ◌∷◌, ◌++◌, if◌then◌else◌,
}
use aicrypto_trader.Dict.{Dict, get, put, pop}
use aicrypto_trader.Float.{Float, ◌⊖◌, ◌⊗◌, lt, fmax, nought, literal}
use aicrypto_trader.Bus.Messages.{Side, long, short, PositionUpdate}
use aicrypto_trader.Agents.Messages.{scale_up}
use aicrypto_trader.Ml.Reward.{RewardConfig, compute_reward}
use aicrypto_trader.Ml.Policy.{Experience, Policy, Trainer, update, maybe_train}

-- `entry_state i` is the value under the key `f` with the number `i`.
pub record EntryInfo (F : Type 0) : Type 0 where
  pub entry_price : F
  pub entry_state : ℕ → Option F
  pub sl_pct : F
  pub tp_pct : F
  pub side : Side
  pub open_ts : F

-- The update of a row of `rl_tuples`.
pub record RewardRow (F : Type 0) : Type 0 where
  pub correlation_id : String
  pub reward : F
  pub next_state : List F

pub record RewardComputer (F : Type 0) : Type 0 where
  pub cfg : RewardConfig F
  pub entry_info : Dict (EntryInfo F)
  pub ppo : Policy F
  pub rows : List (RewardRow F)

pub record RewardOutside (F : Type 0) : Type 0 where
  pub build : String → Option (List F)
  pub stores : RewardRow F → Bool
  pub trainer : Trainer F

abbrev feature_size : ℕ
feature_size = 25

module _ {F : Type 0} where
  abbrev pub new_rewards : RewardConfig F → Policy F → RewardComputer F
  new_rewards cfg ppo = record { cfg = cfg; entry_info = []; ppo = ppo; rows = [] }

  -- `register_open`
  unfoldable pub register_open : String → EntryInfo F → RewardComputer F → RewardComputer F
  register_open symbol info c = record c { entry_info = put c.entry_info symbol info }

module _ {F : Type 0} ⦃fl : Float F⦄ where
  abbrev value_or_zero : Option F → F
  value_or_zero none = nought
  value_or_zero (some x) = x

  -- The values under `f0` up to the feature before `n`.
  abbrev prev_state : ℕ → (ℕ → Option F) → List F
  prev_state zero s = []
  prev_state (suc n) s = prev_state n s ++ (value_or_zero (s n) ∷ [])

  -- The entry price, the two levels and the opening time, with what stands for them if the opening
  -- was not registered.
  abbrev entry_of : Option (EntryInfo F) → PositionUpdate F → F
  entry_of none u = u.entry_price
  entry_of (some i) u = i.entry_price

  abbrev sl_pct_of : Option (EntryInfo F) → F
  sl_pct_of none = literal 2 2
  sl_pct_of (some i) = i.sl_pct

  abbrev tp_pct_of : Option (EntryInfo F) → F
  tp_pct_of none = literal 4 2
  tp_pct_of (some i) = i.tp_pct

  abbrev open_ts_of : Option (EntryInfo F) → F → F
  open_ts_of none now = now
  open_ts_of (some i) now = i.open_ts

  abbrev pnl_of : Side → F → F → F → F
  pnl_of long mark entry qty = (mark ⊖ entry) ⊗ qty
  pnl_of short mark entry qty = (entry ⊖ mark) ⊗ qty

  unfoldable pub reward_of : RewardConfig F → F → Option (EntryInfo F) → PositionUpdate F → F
  reward_of cfg now info u =
      let one = literal 1 0 in
      let entry = entry_of info u in
      let realized_pnl = pnl_of u.side u.mark_price entry u.qty in
      let total_seconds = fmax (now ⊖ open_ts_of info now) one in
      let seconds_in_loss = if lt realized_pnl nought then total_seconds else nought in
      compute_reward realized_pnl (fmax (u.qty ⊗ entry) one) (tp_pct_of info) (sl_pct_of info)
        seconds_in_loss total_seconds (some cfg)

  -- The update of the policy, for an opening that was registered.
  unfoldable pub teach : Trainer F → Option (EntryInfo F) → F → List F → Policy F → Policy F
  teach t none reward next p = p
  teach t (some i) reward next p = maybe_train t (
      update
        (record {
          state = prev_state feature_size i.entry_state;
          action = scale_up;
          reward = reward;
          next_state = next;
          done = true;
        })
        p)

  -- `_handle_close`
  unfoldable pub handle_close :
      RewardOutside F → F → String → PositionUpdate F → RewardComputer F → RewardComputer F
  handle_close out now cid u c =
      let info = get c.entry_info u.symbol in
      let popped : RewardComputer F = record c { entry_info = pop c.entry_info u.symbol } in
      let reward = reward_of c.cfg now info u in
      elim (out.build u.symbol) [
        | none ↦ popped
        | some next ↦
            let row : RewardRow F = record {
              correlation_id = cid;
              reward = reward;
              next_state = next;
            } in
            if out.stores row
            then record popped {
              rows = row ∷ c.rows;
              ppo = teach out.trainer info reward next c.ppo;
            }
            else popped
      ]

  -- One message of `run`.
  unfoldable pub on_update :
      RewardOutside F → F → String → PositionUpdate F → RewardComputer F → RewardComputer F
  on_update out now cid u c = if u.is_closed then handle_close out now cid u c else c

  -- A series of updates, each with its time, its random id and what the outside does at it. An
  -- exception ends the loop of the program; here the later updates are handled as well.
  unfoldable pub on_updates :
      List (RewardOutside F × F × String × PositionUpdate F) → RewardComputer F → RewardComputer F
  on_updates [] c = c
  on_updates ((out, now, cid, u) ∷ rest) c = on_updates rest (on_update out now cid u c)
