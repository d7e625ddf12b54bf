-- ===== src/Api/Live.antt =====
-- backend/src/cryptoswarm/grpc_server.py: what the Go backend sees of the engine and the agents.
-- An event is a topic and a text; `now` is the time in milliseconds at which it arrives.
use Prim.Native.Char.{Char, code}
use text.Mathlib.TextLemmas.{nil-append, cons-append}
use aicrypto_trader.Base.{
  ℕ, zero, suc, String, ◌≡◌, refl, ap, ◌∙◌, Option, none, some, Bool, true, false, List, [], ◌∷◌,
  arith, cat, str_eq, ◌==◌, if◌then◌else◌, map, Bool-cases, inl, inr, ◌⊎◌,
}
use aicrypto_trader.Dict.{Dict, get, put, get-put}
use aicrypto_trader.Float.{Float}
use aicrypto_trader.PaperTrade.Engine.{Engine}
use aicrypto_trader.Database.{side_text}
use aicrypto_trader.Api.Routes.{PositionView, list_positions}

-- `pb2.Position`, and `pb2.PositionsResponse`
pub record LivePosition (F : Type 0) : Type 0 where
  pub symbol : String
  pub side : String
  pub qty : F
  pub entry_price : F
  pub mark_price : F
  pub unrealized_pnl : F
  pub liq_price : F

pub record LivePositions (F : Type 0) : Type 0 where
  pub positions : List (LivePosition F)
  pub balance : F
  pub equity : F

abbrev pub live_position : {F : Type 0} → PositionView F → LivePosition F
live_position p = record {
  symbol = p.symbol;
  side = side_text p.side;
  qty = p.qty;
  entry_price = p.entry_price;
  mark_price = p.mark_price;
  unrealized_pnl = p.unrealized_pnl;
  liq_price = p.liq_price;
}

-- `GetLivePositions`
unfoldable pub get_live_positions : {F : Type 0} ⦃fl : Float F⦄ → Engine F → LivePositions F
unfolding list_positions
get_live_positions e = record {
  positions = map live_position (list_positions e).positions;
  balance = (list_positions e).balance;
  equity = (list_positions e).equity;
}

-- A value of `_agent_last`, and `pb2.AgentStatus`
pub record AgentInfo : Type 0 where
  pub symbol : String
  pub output : String
  pub status : String
  pub ts : ℕ

pub record AgentStatus : Type 0 where
  pub name : String
  pub last_symbol : String
  pub last_output : String
  pub status : String
  pub last_ts : ℕ

abbrev pub agent_names : List String
agent_names = "quant" ∷ "risk" ∷ "sentiment" ∷ "portfolio" ∷ "ml" ∷ []

abbrev pub push_head : Char → List String → List String
push_head c [] = String.◌∷◌ c String.[] ∷ []
push_head c (w ∷ ws) = String.◌∷◌ c w ∷ ws

-- `topic.split(".")`
unfoldable pub split_dots : String → List String
split_dots String.[] = String.[] ∷ []
split_dots (String.◌∷◌ c s) =
    let rest = split_dots s in if code c == b'.' then String.[] ∷ rest else push_head c rest

-- `data[:n]`
abbrev pub first_chars : ℕ → String → String
first_chars zero s = String.[]
first_chars (suc n) String.[] = String.[]
first_chars (suc n) (String.◌∷◌ c s) = String.◌∷◌ c (first_chars n s)

-- The body of the loop of `_watch_agents` on the parts of a topic.
abbrev pub note_result : ℕ → String → List String → Dict AgentInfo → Dict AgentInfo
note_result now text (a ∷ b ∷ name ∷ symbol ∷ more) last =
    put last name
      (record { symbol = symbol; output = first_chars 120 text; status = "ok"; ts = now })
note_result now text _ last = last

unfoldable pub watch_agent : ℕ → String → String → Dict AgentInfo → Dict AgentInfo
watch_agent now topic text last = note_result now text (split_dots topic) last

-- `info.get(key, default)` for each key
abbrev pub info_or_idle : Option AgentInfo → AgentInfo
info_or_idle none = record { symbol = ""; output = ""; status = "idle"; ts = 0 }
info_or_idle (some i) = i

abbrev pub status_of : String → Option AgentInfo → AgentStatus
status_of name o = record {
  name = name;
  last_symbol = (info_or_idle o).symbol;
  last_output = (info_or_idle o).output;
  status = (info_or_idle o).status;
  last_ts = (info_or_idle o).ts;
}

-- `GetAgentStatus`
unfoldable pub get_agent_status : Dict AgentInfo → List AgentStatus
get_agent_status last = map (λ name. status_of name (get last name)) agent_names

-- `StreamEvents`: the events until the client is gone, which is asked before each.
unfoldable pub stream_events : List (Bool × String × String) → List (String × String)
stream_events [] = []
stream_events ((active, topic, text) ∷ es) =
    let rest = stream_events es in if active then (topic, text) ∷ rest else []

unfoldable pub is_dotless : String → Bool
is_dotless String.[] = true
is_dotless (String.◌∷◌ c s) = if code c == b'.' then false else is_dotless s

split_dots-dotless : (s : String) → is_dotless s ≡ true → split_dots s ≡ s ∷ []
unfolding split_dots is_dotless
split_dots-dotless String.[] h = refl
split_dots-dotless (String.◌∷◌ c s) h = ground (arith, split_dots-dotless s)

split_dots-dot : (t : String) → split_dots (cat "." t) ≡ "" ∷ split_dots t
unfolding split_dots
split_dots-dot t = rw (cons-append "." "" t) (rw (nil-append t) refl)

split_dots-cat :
    (s t : String) → is_dotless s ≡ true → split_dots (cat s (cat "." t)) ≡ s ∷ split_dots t
unfolding split_dots is_dotless
split_dots-cat String.[] t h = ap split_dots (nil-append (cat "." t)) ∙ split_dots-dot t
split_dots-cat (String.◌∷◌ c s) t h =
    ground (arith, cons-append c s (cat "." t), split_dots-cat s t)

-- The topic under which an agent publishes its result for a symbol: agent.result.<name>.<symbol>
abbrev pub result_topic : String → String → String
result_topic name symbol =
    cat "agent" (cat "." (cat "result" (cat "." (cat name (cat "." symbol)))))

split_dots-result_topic :
    (name symbol : String)
    → is_dotless name ≡ true
    → is_dotless symbol ≡ true
    → split_dots (result_topic name symbol) ≡ "agent" ∷ "result" ∷ name ∷ symbol ∷ []
unfolding is_dotless
split_dots-result_topic name symbol n s =
    split_dots-cat "agent" _ refl
    ∙ ap (λ ws. "agent" ∷ ws) (split_dots-cat "result" _ refl)
    ∙ ap (λ ws. "agent" ∷ "result" ∷ ws) (split_dots-cat name symbol n)
    ∙ ap (λ ws. "agent" ∷ "result" ∷ name ∷ ws) (split_dots-dotless symbol s)

-- The status of each agent of a list, where the one named `name` has the status `new`.
abbrev pub with_status : String → AgentStatus → List AgentStatus → List AgentStatus
with_status name new [] = []
with_status name new (a ∷ as') =
    (if str_eq name a.name then record new { name = a.name } else a) ∷ with_status name new as'

-- A result that an agent publishes for a symbol, with neither a dot in its name nor in the symbol,
-- changes the status that the server reports for this agent, to the symbol, the first 120 characters
-- of the result and the time, and that of no other agent.
pub get_agent_status-watch_agent :
    (now : ℕ) (name symbol text : String) (last : Dict AgentInfo)
    → is_dotless name ≡ true
    → is_dotless symbol ≡ true
    → get_agent_status (watch_agent now (result_topic name symbol) text last)
      ≡ with_status name
          (record {
            name = name;
            last_symbol = symbol;
            last_output = first_chars 120 text;
            status = "ok";
            last_ts = now;
          })
          (get_agent_status last)
unfolding get_agent_status watch_agent
get_agent_status-watch_agent now name symbol text last n s =
    let parts = split_dots-result_topic name symbol n s in rw parts (go agent_names)
  where
    info : AgentInfo
    info = record { symbol = symbol; output = first_chars 120 text; status = "ok"; ts = now }

    head :
        (a : String)
        → (str_eq name a ≡ true) ⊎ (str_eq name a ≡ false)
        → status_of a (get (put last name info) a) ≡ (
            if str_eq name a
            then record (status_of name (some info)) { name = a }
            else status_of a (get last a))
    head a (inl e) = rw (get-put last name a info, e) refl
    head a (inr e) = rw (get-put last name a info, e) refl

    go :
        (names : List String)
        → map (λ a. status_of a (get (put last name info) a)) names
          ≡ with_status name
              (status_of name (some info))
              (map (λ a. status_of a (get last a)) names)
    go [] = refl
    go (a ∷ as') = λ i. head a (Bool-cases (str_eq name a)) i ∷ go as' i
