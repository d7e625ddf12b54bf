-- ===== src/Lib.antt =====
-- A verification library for the trading core of CryptoSwarm, a paper trading system for crypto
-- futures whose decisions come from a group of language model agents.
--
-- The program. Market data and the agents' messages go over a bus. For each symbol the director agent
-- asks five agents for an analysis, waits for their results, has a language model synthesize them,
-- stores the decision and, unless it is to hold or the symbol is cooling down, publishes a signal.
-- The paper trade engine checks a signal against circuit breakers and guards, fills it, follows the
-- mark prices of its open positions and closes them at a liquidation, a stop loss, a take profit or
-- after six hours. It publishes each trade and each change of a position; the portfolio agent keeps
-- its own table of positions from these updates and answers the director from it.
--
-- The files, and the code under backend/src/cryptoswarm that they model:
-- - Config, Config/Symbols: config/settings.py. The settings and their defaults, the parsed symbol
--   list, the check of the dashboard secrets.
-- - Bus/Messages, Agents/Messages: bus/messages.py. Texts with a varying part, such as the reason of
--   a veto, are data types with one constructor for each message that the code writes.
-- - Risk/Breakers, Risk/Guards: risk/breakers.py and risk/guards.py. Risk/Breakers/Crossing and
--   Risk/Guards/Accepted hold their proofs.
-- - PaperTrade/Math, PaperTrade/Account: papertrade/math.py and papertrade/account.py.
--   `Account.open` is `open_position`. Account/Cash and Account/RoundTrip hold the proofs.
-- - PaperTrade/Engine and its children Signals, Marks and Run: papertrade/engine.py. The stages of
--   `_process_signal` are process_signal (the existing position), flip, pass_breakers, pass_guards and
--   fill, in the order of the code; `_process_mark` is process_mark, mark_position and exit_of. The
--   reset of the breakers is api/routes/circuit.py.
-- - PaperTrade/Engine/Ledger is the abstract view of the engine: its account, the trades it has
--   published, whether it is halted, and its daily sum, with the moves that may change them. Refines
--   relates the handlers to the moves; Invariant and Books are about what moves keep, Safety about
--   whole runs. Exits, Handlers and Entry are about single handlers.
-- - Agents/Portfolio: agents/portfolio.py, and in Mirror its agreement with the engine.
-- - Agents/Director, Director/Collect: agents/director.py, from the collection of results by request
--   to the signal; Cooldown and Decisions hold the proofs about series of analyses and about single ones.
--   Answers joins the director and the answers of all five agents.
-- - Agents/Quant, Agents/Risk, Agents/Sentiment, Agents/Ml: quant.py with indicators.py,
--   risk_agent.py, sentiment.py and ml_agent.py in agents. Each is a function from a request, with
--   the answers of the outside, to the result that is published.
-- - Ml/Reward, Ml/Policy, Agents/Rewards: ml/reward.py, ml/ppo_policy.py and
--   agents/reward_computer.py, with their proofs in Reward/Bounds, Policy/Buffer and
--   Rewards/Untaught. Policy/Replay is the environment in which the policy is trained.
-- - PaperTrade/Engine/Tasks: the handlers of papertrade/engine.py as two tasks. System has the
--   steps of the event loop, Segments, Orderly and Lag what they keep, and Whole that a task which
--   nothing interrupts is the handler.
-- - Learning: learning/prompt_store.py. Learning/Evolution and Evolution/Cycle:
--   learning/prompt_evolution.py, and in Evolution/Starved its cycle over all that the program
--   stores.
-- - Database, with Orphans, Joined and Prompts: storage/postgres.py. Database/Followed joins the
--   engine, the subscriber, the table of trades and what main.py does to it at the start of a
--   session. Database/Records: storage/decisions.py and the tables of storage/postgres.py that are
--   only written and listed, with their lists in api/routes/dashboard.py. Feed/Stored:
--   storage/timescale.py and the routing of storage/subscriber.py.
-- - Feed/Frames, Feed/Handler: the frames of the exchange and feed/handler.py; Feed/Routes follows
--   the messages from their topics into the tables, and Feed/Filed is about one table.
--   Feed/Exchange has the frames that the exchange documents. Feed/Connection: feed/ws_client.py.
-- - Scraper, with Scores, Search and Cycle: scraper/scorer.py, scraper/writer.py,
--   scraper/searcher.py and scraper/runner.py; Outcomes is about what a cycle publishes.
-- - Backtest/Paging, Backtest/StopTake and Backtest/Folds: backtest_5_sltp.py and
--   backtest_6_walkforward.py in backend/scripts. Backtest/Votes and Backtest/Accuracy:
--   backtest_2_quant.py. Backtest/Zones: backtest_3_sentiment.py. Backtest/Agreement and its Rows:
--   backtest_4_combined.py. Backtest/Windows: backtest_1_kronos.py. Backtest/Cursors: the loops
--   that fetch bars in backtest_1_kronos.py, backtest_2_quant.py and backtest_4_combined.py.
-- - Ml/Features, Features/Shape and Ml/Kronos: ml/features.py and ml/kronos_model.py.
-- - Agents/Llm: the choice of the provider in agents/llm.py. Llm/Json has the values that
--   json.loads returns, Llm/Schema the schemas for Gemini, and Llm/Asks what each provider sends
--   and reads.
-- - Storage: the trades and trips of storage/subscriber.py.
-- - Api: the session of the dashboard, api/auth.py and the login of api/routes/login.py.
--   Api/Routes: positions.py, circuit.py and signal.py in api/routes. Api/Stats: the statistics of
--   api/routes/dashboard.py and the list of api/routes/trades.py, and in Stats/Sessions what they show
--   after a session of the engine. Api/Live: grpc_server.py.
-- - Base, Int, Dict, Float: conditionals, signed integers, Python's dict with string keys, and
--   the interface of floating-point numbers. Tests: runs on sample inputs.
--
-- How it is modelled:
-- - Python's float is the parameter `F` with the operations of `Float F`. Theorems about which
--   branch is taken hold for any such operations, NaN and rounding included. Theorems about amounts of
--   money ask for `IsExact F`: addition and subtraction without rounding and a decidable order.
--   Float/Fixed is an instance of both, in units of 10^-4, on which the examples are computed.
-- - Python's int is ℤ where it may be negative and ℕ otherwise; neither overflows.
-- - An exception is a value. A handler of the engine returns the engine as it left it, so that what
--   was written before the exception stays written, and whether it raised.
-- - The bus is a log of publications, the latest first. In PaperTrade/Engine each handler runs to its
--   end before the next input. In PaperTrade/Engine/Tasks it is split where it awaits a publication,
--   and a step relation lets the event loop run the other handler or a reset there; the calls of the
--   bus reach it in their order.
-- - A table of a database is the list of its rows, and an SQL statement a function on it. A query
--   without an order keeps the order of the table.
-- - Loops are structural recursions over the list of inputs. The paging of Backtest/Paging runs on fuel,
--   and enough is one turn more than there are milliseconds to fetch, since the start time grows with
--   every page; the same holds for Backtest/Cursors, but for the loop of backtest_1_kronos.py, whose
--   pages need not move the start. The folds of Backtest/Folds and the windows of Backtest/Windows
--   have fuel for one turn more than there are bars, and the range of Backtest/Accuracy for as many.
-- - Language models, the forecast, the indicator library, databases and `json.loads` are parameters:
--   arguments that may be any function of what the code passes to them. A theorem that relies on what
--   a parameter does, such as the signing library of the session, says so in a hypothesis.
-- - The clock is an argument of the handlers that read it; every reading during one handler gives the
--   same time.
--
-- Not modelled: the bus client, the start of the servers and the pages and streams of the HTTP server,
-- the connection to the exchange, the vendored forecasting library, the backtests' indicators, charts
-- and reports, the Go backend and the frontend. They are input and output around external services,
-- numeric libraries, or other programs. Log output and random correlation ids are left out as well.
pub mod Base
pub mod Int
pub mod Float
pub mod Dict
pub mod Config
pub mod Bus
pub mod Risk
pub mod PaperTrade
pub mod Agents
pub mod Learning
pub mod Storage
pub mod Database
pub mod Backtest
pub mod Feed
pub mod Scraper
pub mod Api
pub mod Ml
pub mod Tests
