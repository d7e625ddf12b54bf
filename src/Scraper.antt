-- ===== src/Scraper.antt =====
-- backend/src/cryptoswarm/scraper: the scores of an article and what is stored and published.
-- The language model is a parameter: `none` is an exception of its call. So are the database and the
-- bus, which may fail at any statement or publication and then leave everything as it was. The search
-- is in Search, a cycle over all symbols in Cycle, and
-- what it publishes in Outcomes.
pub mod Scores
pub mod Search
pub mod Cycle
pub mod Outcomes
use aicrypto_trader.Base.{
  ℕ, suc, String, Option, none, some, Bool, true, false, List, [], ◌∷◌, ◌++◌, str_eq, length,
  if◌then◌else◌, ◌>>=◌,
}
use aicrypto_trader.Float.{Float, le, fmin, fmax, nought, literal}

pub record ScoredArticle (F : Type 0) : Type 0 where
  pub symbol : String
  pub relevance : F
  pub sentiment : F
  pub summary : String

-- What the answer has for a symbol; `none` is a field that is missing.
pub record RawScore (F : Type 0) : Type 0 where
  pub relevance : Option F
  pub sentiment : Option F
  pub summary : Option String

-- The article, and its rows in `news_items` and `news_sentiment`.
pub record Article : Type 0 where
  pub source : String
  pub url : String
  pub title : Option String
  pub body : Option String

pub record NewsItem : Type 0 where
  pub id : ℕ
  pub article : Article

pub record NewsSentiment (F : Type 0) : Type 0 where
  pub news_item_id : ℕ
  pub symbol : String
  pub model : String
  pub relevance : F
  pub score : F
  pub summary : String

pub record NewsSentimentResult (F : Type 0) : Type 0 where
  pub symbol : String
  pub score : F
  pub article_count : ℕ
  pub top_headline : String
  pub source_breakdown : List (String × ℕ)

-- The tables, the last id that was given, and what was published, the latest last.
pub record News (F : Type 0) : Type 0 where
  pub items : List NewsItem
  pub last_id : ℕ
  pub sentiments : List (NewsSentiment F)
  pub published : List (NewsSentimentResult F)

-- Whether a statement, or a publication, ends without an exception.
pub record NewsOutside (F : Type 0) : Type 0 where
  pub takes_item : Article → News F → Bool
  pub takes_row : NewsSentiment F → News F → Bool
  pub takes_result : NewsSentimentResult F → News F → Bool

-- The news after some of the steps, and whether all of them ended without an exception.
abbrev pub Written : Type 0 → Type 0
Written F = News F × Bool

abbrev pub proceed : {F : Type 0} → Written F → (News F → Written F) → Written F
proceed (n, true) k = k n
proceed (n, false) k = (n, false)

abbrev pub text_or : Option String → String
text_or none = ""
text_or (some t) = t

-- ON CONFLICT (url) DO UPDATE SET title=EXCLUDED.title RETURNING id
abbrev pub item_id : String → List NewsItem → Option ℕ
item_id url [] = none
item_id url (i ∷ is) = if str_eq i.article.url url then some i.id else item_id url is

abbrev pub retitle : Article → List NewsItem → List NewsItem
retitle a [] = []
retitle a (i ∷ is) =
    (if str_eq i.article.url a.url
      then record i { article = record (i.article) { title = a.title } }
      else i)
    ∷ retitle a is

module _ {F : Type 0} where
  -- A conflict takes a number of the sequence as well.
  unfoldable pub insert_news_item : Article → News F → ℕ × News F
  insert_news_item a n =
      let next = suc n.last_id in
      elim (item_id a.url n.items) [
        | none ↦ (
          next,
          record n { items = n.items ++ (record { id = next; article = a } ∷ []); last_id = next },
        )
        | some id ↦ (id, record n { items = retitle a n.items; last_id = next })
      ]

  abbrev pub sentiment_row : ℕ → String → ScoredArticle F → NewsSentiment F
  sentiment_row id model s = record {
    news_item_id = id;
    symbol = s.symbol;
    model = model;
    relevance = s.relevance;
    score = s.sentiment;
    summary = s.summary;
  }

  -- `insert_news_sentiment`
  unfoldable pub insert_news_sentiment : NewsOutside F → NewsSentiment F → News F → Written F
  insert_news_sentiment out row n =
      if out.takes_row row n
      then (record n { sentiments = n.sentiments ++ (row ∷ []) }, true)
      else (n, false)

  unfoldable pub insert_sentiments :
      NewsOutside F → ℕ → String → List (ScoredArticle F) → News F → Written F
  insert_sentiments out id model [] n = (n, true)
  insert_sentiments out id model (s ∷ ss) n =
      proceed (insert_news_sentiment out (sentiment_row id model s) n)
        (insert_sentiments out id model ss)

  abbrev pub result_of : Article → ScoredArticle F → NewsSentimentResult F
  result_of a s = record {
    symbol = s.symbol;
    score = s.sentiment;
    article_count = 1;
    top_headline = text_or a.title;
    source_breakdown = (a.source, 1) ∷ [];
  }

module _ {F : Type 0} ⦃fl : Float F⦄ where
  abbrev pub number_or_zero : Option F → F
  number_or_zero none = nought
  number_or_zero (some x) = x

  -- `max(low, min(1.0, x))`
  unfoldable pub clip_score : F → F → F
  clip_score low x = fmax low (fmin (literal 1 0) x)

  abbrev pub minus_one : F
  minus_one = fl.neg (literal 1 0)

  abbrev pub scored : String → RawScore F → ScoredArticle F
  scored symbol r = record {
    symbol = symbol;
    relevance = clip_score nought (number_or_zero r.relevance);
    sentiment = clip_score minus_one (number_or_zero r.sentiment);
    summary = text_or r.summary;
  }

  -- The answer for each symbol, where `none` is one that cannot be read.
  unfoldable pub score_all :
      (String → Option (RawScore F)) → List String → Option (List (ScoredArticle F))
  score_all raw [] = some []
  score_all raw (symbol ∷ symbols) = do
    r ← raw symbol
    rest ← score_all raw symbols
    some (scored symbol r ∷ rest)

  unfoldable pub neutral_scores : List String → List (ScoredArticle F)
  neutral_scores [] = []
  neutral_scores (s ∷ ss) =
      record { symbol = s; relevance = nought; sentiment = nought; summary = "" }
      ∷ neutral_scores ss

  -- `OpenRouterScorer.score`
  unfoldable pub score :
      Option (String → Option (RawScore F)) → List String → List (ScoredArticle F)
  score answer symbols = elim (answer >>= (λ raw. score_all raw symbols)) [
    | none ↦ neutral_scores symbols
    | some scores ↦ scores
  ]

  -- The publication of a score that is relevant enough.
  unfoldable pub publish_score : NewsOutside F → F → Article → ScoredArticle F → News F → Written F
  publish_score out min_relevance a s n =
      if le min_relevance s.relevance
      then if out.takes_result (result_of a s) n
        then (record n { published = n.published ++ (result_of a s ∷ []) }, true)
        else (n, false)
      else (n, true)

  unfoldable pub publish_relevant :
      NewsOutside F → F → Article → List (ScoredArticle F) → News F → Written F
  publish_relevant out min_relevance a [] n = (n, true)
  publish_relevant out min_relevance a (s ∷ ss) n =
      proceed (publish_score out min_relevance a s n) (publish_relevant out min_relevance a ss)

  -- `NewsWriter.write`
  unfoldable pub write :
      NewsOutside F → F → String → Article → List (ScoredArticle F) → News F → Written F
  write out min_relevance model a scores n =
      let (id, inserted) = insert_news_item a n in
      if out.takes_item a n
      then proceed (insert_sentiments out id model scores inserted)
          (publish_relevant out min_relevance a scores)
      else (n, false)
