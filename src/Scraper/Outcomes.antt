-- ===== src/Scraper/Outcomes.antt =====
-- What a cycle of backend/src/cryptoswarm/scraper/runner.py publishes, whatever fails on the way.
use aicrypto_trader.Base.{ℕ, suc, ◌+◌, String, ◌≡◌, none, some, List, [], ◌∷◌, ◌++◌}
use aicrypto_trader.Float.{Float}
use aicrypto_trader.Scraper.{News, NewsSentimentResult}
use aicrypto_trader.Scraper.Scores.{relevant_results, IsRefused}
use aicrypto_trader.Scraper.Search.{Found, search_symbol}
use aicrypto_trader.Scraper.Cycle.{Runner, article_of, scores_of}

module _ {F : Type 0} ⦃fl : Float F⦄ (r : Runner F) where
  -- What an article should publish.
  abbrev pub results_of : String × Found → List (NewsSentimentResult F)
  results_of (symbol, a) = relevant_results r.min_relevance (article_of r symbol a) (scores_of r a)

  -- What became of a list of articles: how many were written, and all that was published. A written
  -- article published all of its results, any other the first ones, after a failure of the outside.
  pub data CycleOutcome : List (String × Found) → ℕ → List (NewsSentimentResult F) → Type 0 where
    no_article : CycleOutcome [] 0 []
    was_written :
        {a : String × Found} {as' : List (String × Found)} {k : ℕ}
        {ps : List (NewsSentimentResult F)}
        → CycleOutcome as' k ps
        → CycleOutcome (a ∷ as') (suc k) (results_of a ++ ps)
    was_refused :
        {a : String × Found} {as' : List (String × Found)} {k : ℕ}
        {ps : List (NewsSentimentResult F)} (early late : List (NewsSentimentResult F))
        → results_of a ≡ early ++ late
        → IsRefused r.outside
        → CycleOutcome as' k ps
        → CycleOutcome (a ∷ as') k (early ++ ps)

  abbrev pub with_symbol : String → List Found → List (String × Found)
  with_symbol symbol [] = []
  with_symbol symbol (a ∷ as') = (symbol, a) ∷ with_symbol symbol as'

  -- The articles of the symbols, in their order: those in the answer to a search, and none after a
  -- search that failed.
  abbrev pub all_found : List String → List (String × Found)
  all_found [] = []
  all_found (symbol ∷ symbols) =
      with_symbol symbol (elim (r.search symbol) [
        | none ↦ []
        | some content ↦ search_symbol r.loads r.show r.search_model (some content)
      ])
      ++ all_found symbols

  -- From one state to another, the articles have an outcome.
  abbrev IsOutcome : List (String × Found) → ℕ × News F → ℕ × News F → Type 0
  IsOutcome as' s s' =
      (k : ℕ) × (ps : List (NewsSentimentResult F)) × (s'.0 ≡ k + s.0)
      × (s'.1.published ≡ s.1.published ++ ps)
      × CycleOutcome as' k ps
