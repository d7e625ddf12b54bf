-- ===== src/Agents/Sentiment.antt =====
-- backend/src/cryptoswarm/agents/sentiment.py: the sentiment agent.
-- The index service is the argument `api`: what one request of it gives, `none` on any exception.
-- `news` stands for the database query for the symbol; it is `none` without a database, and so is
-- its answer on an exception. The clock is read once for each request.
use aicrypto_trader.Base.{
  ℕ, String, Option, none, some, true, List, [], ◌∷◌, ltb, length, if◌then◌else◌, ◌≡◌, refl,
}
use aicrypto_trader.Int.{ℤ, pos, ◌-ℤ◌}
use aicrypto_trader.Float.{Float, ◌⊕◌, ◌⊖◌, ◌⊗◌, ◌⊘◌, lt, eq, nought, literal, of_int, sum_from}
use aicrypto_trader.Agents.Messages.{
  AnalyzeRequest, FngSummary, classified, unavailable, index_alone, with_news, SentimentResult,
}

-- A score with its source and its summary.
pub record Reading (F : Type 0) : Type 0 where
  pub score : F
  pub source : String
  pub summary : FngSummary

-- `_fng_cache` and `_fng_cache_ts`
pub record SentimentAgent (F : Type 0) : Type 0 where
  pub fng_cache : Option (Reading F)
  pub fng_cache_ts : F

-- What the index service answers: its value, and its classification if there is one.
pub record FngAnswer : Type 0 where
  pub value : ℤ
  pub value_classification : Option String

pub record NewsRow (F : Type 0) : Type 0 where
  pub score : F
  pub relevance : F

abbrev label_of : FngAnswer → String
label_of a = elim (a.value_classification) [ none ↦ "Unknown" | some l ↦ l ]

module _ {F : Type 0} where
  abbrev pub weights : List (NewsRow F) → List F
  weights [] = []
  weights (r ∷ rs) = r.relevance ∷ weights rs

  abbrev rows_of : Option (String → Option (List (NewsRow F))) → String → Option (List (NewsRow F))
  rows_of none symbol = none
  rows_of (some query) symbol = query symbol

module _ {F : Type 0} ⦃fl : Float F⦄ where
  abbrev pub new_sentiment : SentimentAgent F
  new_sentiment = record { fng_cache = none; fng_cache_ts = nought }

  abbrev pub fng_cache_ttl : F
  fng_cache_ttl = literal 300 0

  unfoldable pub fng_to_score : ℤ → F
  fng_to_score value = fl.round (of_int (value -ℤ pos 50) ⊘ literal 50 0) 4

  abbrev pub reading_of : FngAnswer → Reading F
  reading_of a = record {
    score = fng_to_score a.value;
    source = "fear_greed_api";
    summary = classified (label_of a) a.value;
  }

  abbrev pub neutral_reading : Reading F
  neutral_reading = record { score = nought; source = "neutral_fallback"; summary = unavailable }

  abbrev pub stale_or_neutral : Option (Reading F) → Reading F
  stale_or_neutral none = neutral_reading
  stale_or_neutral (some r) = r

  -- The request of `_fetch_fng`, made when the cache cannot serve.
  unfoldable pub ask_service :
      F → Option FngAnswer → SentimentAgent F → Reading F × SentimentAgent F
  ask_service now none s = (stale_or_neutral s.fng_cache, s)
  ask_service now (some a) s =
      (reading_of a, record { fng_cache = some (reading_of a); fng_cache_ts = now })

  unfoldable pub fetch_fng : F → Option FngAnswer → SentimentAgent F → Reading F × SentimentAgent F
  fetch_fng now api s = elim (s.fng_cache) [
    | none ↦ ask_service now api s
    | some r ↦ if lt (now ⊖ s.fng_cache_ts) fng_cache_ttl then (r, s) else ask_service now api s
  ]

  abbrev pub weighted_scores : List (NewsRow F) → List F
  weighted_scores [] = []
  weighted_scores (r ∷ rs) = r.score ⊗ r.relevance ∷ weighted_scores rs

  unfoldable pub news_score : Option (List (NewsRow F)) → F × ℕ
  news_score none = (nought, 0)
  news_score (some []) = (nought, 0)
  news_score (some (r ∷ rs)) =
      let rows = r ∷ rs in
      let total_weight = sum_from nought (weights rows) in
      if eq total_weight nought
      then (nought, 0)
      else (fl.round (sum_from nought (weighted_scores rows) ⊘ total_weight) 4, length rows)

  -- The result of the two scores.
  unfoldable pub combine : AnalyzeRequest → Reading F → F × ℕ → SentimentResult F
  combine req r (news, news_count) =
      let half = literal 5 1 in
      if ltb 0 news_count
      then record {
        correlation_id = req.correlation_id;
        symbol = req.symbol;
        score = fl.round (half ⊗ r.score ⊕ half ⊗ news) 4;
        source = "combined";
        summary = with_news r.summary news_count news;
      }
      else record {
        correlation_id = req.correlation_id;
        symbol = req.symbol;
        score = r.score;
        source = r.source;
        summary = index_alone r.summary;
      }

  -- `_handle`: the result that is published, and the agent.
  unfoldable pub handle_sentiment :
      Option (String → Option (List (NewsRow F)))
      → F
      → Option FngAnswer
      → AnalyzeRequest
      → SentimentAgent F
      → SentimentResult F × SentimentAgent F
  handle_sentiment news now api req s =
      let fetched = fetch_fng now api s in
      (combine req fetched.0 (news_score (rows_of news req.symbol)), fetched.1)

  -- The results of a series of requests, each with its time and what the service would answer.
  unfoldable pub sentiments :
      Option (String → Option (List (NewsRow F)))
      → List (F × Option FngAnswer × AnalyzeRequest)
      → SentimentAgent F
      → List (SentimentResult F)
  sentiments news [] s = []
  sentiments news ((now, api, req) ∷ rest) s =
      let handled = handle_sentiment news now api req s in
      handled.0 ∷ sentiments news rest handled.1

  abbrev IsFresh : F → List (F × Option FngAnswer × AnalyzeRequest) → Type 0
  IsFresh ts [] = Unit
  IsFresh ts ((now, api, req) ∷ rest) = (lt (now ⊖ ts) fng_cache_ttl ≡ true) × IsFresh ts rest

  -- The results that one reading of the index gives.
  abbrev pub results_with :
      Option (String → Option (List (NewsRow F)))
      → Reading F
      → List (F × Option FngAnswer × AnalyzeRequest)
      → List (SentimentResult F)
  results_with news r [] = []
  results_with news r ((now, api, req) ∷ rest) =
      combine req r (news_score (rows_of news req.symbol)) ∷ results_with news r rest

  -- While a reading of the index is fresh, every request in any series is answered from that
  -- reading: what the service would answer makes no difference.
  pub sentiments_from_cache :
      (news : Option (String → Option (List (NewsRow F))))
      (rest : List (F × Option FngAnswer × AnalyzeRequest)) (r : Reading F) (ts : F)
      → IsFresh ts rest
      → sentiments news rest (record { fng_cache = some r; fng_cache_ts = ts })
        ≡ results_with news r rest
  unfolding sentiments handle_sentiment fetch_fng
  sentiments_from_cache news [] r ts h = refl
  sentiments_from_cache news ((now, api, req) ∷ rest) r ts (h, hs) =
      rw (h, sentiments_from_cache news rest r ts hs) refl
