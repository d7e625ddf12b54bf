-- ===== src/Scraper/Scores.antt =====
-- The scores of scraper/scorer.py and what scraper/writer.py stores of them.
use aicrypto_trader.Base.{
  String, ◌≡◌, refl, ap, arith, Option, none, some, true, false, List, [], ◌∷◌, All, ◌>>=◌, ℕ, sym,
  ◌∙◌, ◌++◌, ◌⊎◌, append_assoc, append-nil, Bool-cases, inl, inr, if◌then◌else◌,
}
use aicrypto_trader.Float.{Float, IsExact, le, nought, literal}
use aicrypto_trader.Scraper.{
  ScoredArticle, RawScore, minus_one, clip_score, scored, score_all, neutral_scores, score, Article,
  News, NewsOutside, NewsSentiment, NewsSentimentResult, Written, proceed, insert_news_item,
  insert_news_sentiment, sentiment_row, insert_sentiments, result_of, publish_score,
  publish_relevant, write,
}

module _ {F : Type 0} ⦃fl : Float F⦄ where
  -- A relevance between 0 and 1 and a sentiment between -1 and 1.
  abbrev pub IsInRange : ScoredArticle F → Type 0
  IsInRange s =
      (le nought s.relevance ≡ true)
      × (le s.relevance (literal 1 0) ≡ true)
      × (le minus_one s.sentiment ≡ true)
      × (le s.sentiment (literal 1 0) ≡ true)

  abbrev pub scored_symbols : List (ScoredArticle F) → List String
  scored_symbols [] = []
  scored_symbols (s ∷ ss) = s.symbol ∷ scored_symbols ss

  clip_score-bounds :
      (ex : IsExact F) (low x : F)
      → le low (literal 1 0) ≡ true
      → (le low (clip_score low x) ≡ true) × (le (clip_score low x) (literal 1 0) ≡ true)
  unfolding clip_score
  clip_score-bounds ex low x h =
      let one : F = literal 1 0 in
      ground (
        arith,
        ex.le_iff low one,
        ex.le_iff low low,
        ex.le_iff one one,
        ex.le_iff low x,
        ex.le_iff x one,
        ex.lt_iff x one,
        ex.lt_iff low x,
        ex.lt_iff low one,
      )

  module _ (ex : IsExact F) (below : le {F = F} minus_one nought ≡ true)
      (above : le {F = F} nought (literal 1 0) ≡ true) where
    minus_one_le : le {F = F} minus_one (literal 1 0) ≡ true
    minus_one_le = ground (
      arith,
      below,
      above,
      ex.le_iff minus_one nought,
      ex.le_iff nought (literal 1 0),
      ex.le_iff minus_one (literal 1 0),
    )

    scored-IsInRange : (s : String) (r : RawScore F) → IsInRange (scored s r)
    scored-IsInRange s r =
        let relevance = clip_score-bounds ex nought _ above in
        let sentiment = clip_score-bounds ex minus_one _ minus_one_le in
        (relevance.0, relevance.1, sentiment.0, sentiment.1)

    abbrev IsScoring : List String → List (ScoredArticle F) → Type 0
    IsScoring symbols scores = (scored_symbols scores ≡ symbols) × All IsInRange scores

    neutral_scores-IsScoring : (symbols : List String) → IsScoring symbols (neutral_scores symbols)
    unfolding neutral_scores
    neutral_scores-IsScoring [] = (refl, tt)
    neutral_scores-IsScoring (s ∷ ss) =
        let (same, all) = neutral_scores-IsScoring ss in
        let zero : le {F = F} nought nought ≡ true = ground (arith, ex.le_iff nought nought) in
        (ap (λ l. s ∷ l) same, ((zero, above, below, above), all))

    -- A list of scores that was read, when it was.
    abbrev IsScoringOf : List String → Option (List (ScoredArticle F)) → Type 0
    IsScoringOf symbols none = Unit
    IsScoringOf symbols (some scores) = IsScoring symbols scores

    score_all-IsScoring :
        (raw : String → Option (RawScore F)) (symbols : List String)
        → IsScoringOf symbols (score_all raw symbols)
    unfolding score_all
    score_all-IsScoring raw [] = (refl, tt)
    score_all-IsScoring raw (s ∷ ss) = go (raw s) (score_all raw ss) (score_all-IsScoring raw ss)
      where
        go :
            (r : Option (RawScore F)) (rest : Option (List (ScoredArticle F)))
            → IsScoringOf ss rest
            → IsScoringOf (s ∷ ss) (r >>= (λ a. rest >>= (λ l. some (scored s a ∷ l))))
        go none rest h = tt
        go (some r) none h = tt
        go (some r) (some scores) (same, all) = (ap (λ l. s ∷ l) same, (scored-IsInRange s r, all))

    -- On exact amounts, where -1 is not above 0 and 0 not above 1: whatever the language model
    -- answers or fails with, an article gets exactly one score for each symbol, in the order of the
    -- symbols, each with a relevance between 0 and 1 and a sentiment between -1 and 1.
    pub score-IsScoring :
        (answer : Option (String → Option (RawScore F))) (symbols : List String)
        → (scored_symbols (score answer symbols) ≡ symbols) × All IsInRange (score answer symbols)
    unfolding score
    score-IsScoring none symbols = neutral_scores-IsScoring symbols
    score-IsScoring (some raw) symbols =
        go (score_all raw symbols) (score_all-IsScoring raw symbols)
      where
        go :
            (o : Option (List (ScoredArticle F)))
            → IsScoringOf symbols o
            → IsScoring symbols (elim o as (λ _. List (ScoredArticle F)) [
              | none ↦ neutral_scores symbols
              | some scores ↦ scores
            ])
        go none h = neutral_scores-IsScoring symbols
        go (some scores) h = h

  -- The results for the scores that are relevant enough.
  abbrev pub relevant_results : F → Article → List (ScoredArticle F) → List (NewsSentimentResult F)
  relevant_results min_relevance a [] = []
  relevant_results min_relevance a (s ∷ ss) =
      let rest = relevant_results min_relevance a ss in
      if le min_relevance s.relevance then result_of a s ∷ rest else rest

module _ {F : Type 0} ⦃fl : Float F⦄ (out : NewsOutside F) where
  -- The database or the bus failed at some statement or publication.
  abbrev pub IsRefused : Type 0
  IsRefused =
      ((a : Article) × (n : News F) × (out.takes_item a n ≡ false))
      ⊎ ((s : NewsSentiment F) × (n : News F) × (out.takes_row s n ≡ false))
      ⊎ ((m : NewsSentimentResult F) × (n : News F) × (out.takes_result m n ≡ false))

  -- A step published the first ones of some results: all of them if it ended without an exception,
  -- and else some statement or publication failed.
  abbrev pub HasPublished : List (NewsSentimentResult F) → News F → Written F → Type 0
  HasPublished results n w =
      (early : List (NewsSentimentResult F)) × (late : List (NewsSentimentResult F)) × (results
        ≡ early ++ late)
      × (w.0.published ≡ n.published ++ early)
      × (((w.1 ≡ true) × (late ≡ [])) ⊎ ((w.1 ≡ false) × IsRefused))

  nothing_published : (n n' : News F) → n'.published ≡ n.published → HasPublished [] n (n', true)
  nothing_published n n' same =
      ([], [], refl, same ∙ sym (append-nil n.published), inl (refl, refl))

  refused_at :
      (results : List (NewsSentimentResult F)) (n : News F)
      → IsRefused
      → HasPublished results n (n, false)
  refused_at results n failed =
      ([], results, refl, sym (append-nil n.published), inr (refl, failed))

  proceed-HasPublished :
      (first rest : List (NewsSentimentResult F)) (n : News F) (w : Written F)
      (k : News F → Written F)
      → HasPublished first n w
      → ((n' : News F) → HasPublished rest n' (k n'))
      → HasPublished (first ++ rest) n (proceed w k)
  proceed-HasPublished first rest n (n', true) k (early, late, e, p, inr (failed, x)) next =
      absurd (cc failed)
  proceed-HasPublished first rest n (n', true) k (early, late, e, p, inl (took, none_late)) next =
      let (early', late', e', p', end) = next n' in
      let whole : first ≡ early = e ∙ ap (λ l. early ++ l) none_late ∙ append-nil early in
      (
        early ++ early',
        late',
        ap (λ l. l ++ rest) whole ∙ ap (λ l. early ++ l) e' ∙ sym (append_assoc early early' late'),
        p' ∙ ap (λ l. l ++ early') p ∙ append_assoc n.published early early',
        end,
      )
  proceed-HasPublished first rest n (n', false) k (early, late, e, p, inl (took, x)) next =
      absurd (cc took)
  proceed-HasPublished first rest n (n', false) k (early, late, e, p, inr failed) next =
      (early, late ++ rest, ap (λ l. l ++ rest) e ∙ append_assoc early late rest, p, inr failed)

  publish_score-HasPublished :
      (m : F) (a : Article) (s : ScoredArticle F) (n : News F)
      → HasPublished (relevant_results m a (s ∷ [])) n (publish_score out m a s n)
  unfolding publish_score
  publish_score-HasPublished m a s n = elim (Bool-cases (le m s.relevance)) [
    | inl e ↦ elim (Bool-cases (out.takes_result (result_of a s) n)) [
      | inl took ↦
          rw e (rw (took, publish_score) (result_of a s ∷ [], [], refl, refl, inl (refl, refl)))
      | inr failed ↦
          rw e (rw (failed, publish_score) (refused_at _ n (inr (inr (result_of a s, n, failed)))))
    ]
    | inr e ↦ rw e (nothing_published n n refl)
  ]

  relevant_results-cons :
      (m : F) (a : Article) (s : ScoredArticle F) (ss : List (ScoredArticle F))
      → relevant_results m a (s ∷ ss) ≡ relevant_results m a (s ∷ []) ++ relevant_results m a ss
  relevant_results-cons m a s ss = elim (Bool-cases (le m s.relevance)) [
    | inl e ↦ rw e refl
    | inr e ↦ rw e refl
  ]

  publish_relevant-HasPublished :
      (m : F) (a : Article) (scores : List (ScoredArticle F)) (n : News F)
      → HasPublished (relevant_results m a scores) n (publish_relevant out m a scores n)
  unfolding publish_relevant
  publish_relevant-HasPublished m a [] n = nothing_published n n refl
  publish_relevant-HasPublished m a (s ∷ ss) n = rw (relevant_results-cons m a s ss) (
      proceed-HasPublished (relevant_results m a (s ∷ [])) (relevant_results m a ss) n
        (publish_score out m a s n) (publish_relevant out m a ss)
        (publish_score-HasPublished m a s n) (publish_relevant-HasPublished m a ss))

  insert_news_sentiment-HasPublished :
      (row : NewsSentiment F) (n : News F) → HasPublished [] n (insert_news_sentiment out row n)
  unfolding insert_news_sentiment
  insert_news_sentiment-HasPublished row n = elim (Bool-cases (out.takes_row row n)) [
    | inl took ↦
        rw (took, insert_news_sentiment)
          (nothing_published n (record n { sentiments = n.sentiments ++ (row ∷ []) }) refl)
    | inr failed ↦ rw (failed, insert_news_sentiment) (refused_at [] n (inr (inl (row, n, failed))))
  ]

  insert_sentiments-HasPublished :
      (id : ℕ) (model : String) (scores : List (ScoredArticle F)) (n : News F)
      → HasPublished [] n (insert_sentiments out id model scores n)
  unfolding insert_sentiments
  insert_sentiments-HasPublished id model [] n = nothing_published n n refl
  insert_sentiments-HasPublished id model (s ∷ ss) n =
      proceed-HasPublished [] [] n (insert_news_sentiment out (sentiment_row id model s) n)
        (insert_sentiments out id model ss)
        (insert_news_sentiment-HasPublished (sentiment_row id model s) n)
        (insert_sentiments-HasPublished id model ss)

  insert_news_item-published :
      (a : Article) (n : News F) → (insert_news_item a n).1.published ≡ n.published
  unfolding insert_news_item
  insert_news_item-published a n = ground arith

  -- An article publishes one result for each of its scores that is relevant enough, in their order,
  -- and nothing else; if a statement or a publication fails, the first ones of these results.
  pub write-HasPublished :
      (m : F) (model : String) (a : Article) (scores : List (ScoredArticle F)) (n : News F)
      → HasPublished (relevant_results m a scores) n (write out m model a scores n)
  unfolding write
  write-HasPublished m model a scores n = elim (Bool-cases (out.takes_item a n)) [
    | inr failed ↦ rw (failed, write) (refused_at _ n (inl (a, n, failed)))
    | inl took ↦
        let (id, inserted) = insert_news_item a n in
        let whole =
          proceed-HasPublished [] (relevant_results m a scores) inserted
            (insert_sentiments out id model scores inserted) (publish_relevant out m a scores)
            (insert_sentiments-HasPublished id model scores inserted)
            (publish_relevant-HasPublished m a scores) in
        rw (took, write) (rw (insert_news_item-published a n) at whole)
  ]
