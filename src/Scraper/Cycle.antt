-- ===== src/Scraper/Cycle.antt =====
-- backend/src/cryptoswarm/scraper/runner.py: a cycle over all symbols. The parameters are those of
-- Scraper and Scraper/Search: the search's content for a symbol, the scorer's answer to an article,
-- and what the database and the bus take.
use aicrypto_trader.Base.{
  ℕ, suc, String, ◌≡◌, refl, ◌∙◌, Option, none, some, List, [], ◌∷◌, ◌++◌, arith, cat, str_eq,
  eq_iff, str_eq_refl, Option-cases, inl, inr, if◌then◌else◌,
}
use aicrypto_trader.Float.{Float}
use aicrypto_trader.Agents.Llm.Json.{Value}
use aicrypto_trader.Scraper.{
  Article, News, NewsOutside, Written, NewsItem, RawScore, ScoredArticle, score, write,
  insert_news_item, item_id, retitle,
}
use aicrypto_trader.Scraper.Search.{Found, search_symbol}

-- What the runner has: the settings that it reads, and the outside.
pub record Runner (F : Type 0) : Type 0 where
  pub symbols : List String
  pub min_relevance : F
  pub score_model : String
  pub search_model : String
  pub lower : String → String
  pub loads : String → Option Value
  pub show : Value → String
  pub search : String → Option String
  pub outside : NewsOutside F
  pub answer : Found → Option (String → Option (RawScore F))

module _ {F : Type 0} ⦃fl : Float F⦄ (r : Runner F) where
  abbrev pub article_of : String → Found → Article
  article_of symbol a = record {
    source = cat "perplexity_sonar_" (r.lower symbol);
    url = a.url;
    title = some a.title;
    body = some a.body;
  }

  abbrev pub scores_of : Found → List (ScoredArticle F)
  scores_of a = score (r.answer a) r.symbols

  abbrev pub write_article : String → Found → News F → Written F
  write_article symbol a n =
      write r.outside r.min_relevance r.score_model (article_of symbol a) (scores_of a) n

  -- The articles of a symbol, with the number of those written: an exception of the writer is logged.
  unfoldable pub write_articles : String → List Found → ℕ × News F → ℕ × News F
  write_articles symbol [] s = s
  write_articles symbol (a ∷ as') s =
      let (n, ended) = write_article symbol a s.1 in
      write_articles symbol as' (if ended then suc s.0 else s.0, n)

  abbrev pub found_for : String → List Found
  found_for symbol = search_symbol r.loads r.show r.search_model (r.search symbol)

  unfoldable pub scrape_symbols : List String → ℕ × News F → ℕ × News F
  scrape_symbols [] s = s
  scrape_symbols (symbol ∷ symbols) s =
      scrape_symbols symbols (write_articles symbol (found_for symbol) s)

  -- `_scrape_all`: the number of articles that it logs, and the news after it.
  unfoldable pub scrape_all : News F → ℕ × News F
  scrape_all n = scrape_symbols r.symbols (0, n)

item_id-append :
    (url : String) (is : List NewsItem) (i : NewsItem)
    → item_id url is ≡ none
    → item_id url (is ++ (i ∷ [])) ≡ (if str_eq i.article.url url then some i.id else none)
item_id-append url [] i h = refl
item_id-append url (j ∷ is) i h = ground (arith, h, item_id-append url is i)

item_id-retitle :
    (url : String) (a : Article) (is : List NewsItem) → item_id url (retitle a is) ≡ item_id url is
item_id-retitle url a [] = refl
item_id-retitle url a (i ∷ is) =
    ground (arith, eq_iff i.article.url a.url, item_id-retitle url a is)

module _ {F : Type 0} where
  -- An article has a row with the number that it was given.
  insert_news_item-item_id :
      (a : Article) (n : News F)
      → item_id a.url (insert_news_item a n).1.items ≡ some (insert_news_item a n).0
  unfolding insert_news_item
  insert_news_item-item_id a n = elim (Option-cases (item_id a.url n.items)) [
    | inl new ↦
        rw (new, insert_news_item)
          (item_id-append a.url n.items _ new ∙ rw (str_eq_refl a.url) refl)
    | inr (id, old) ↦ rw (old, insert_news_item) (item_id-retitle a.url a n.items ∙ old)
  ]

  insert_news_item_again :
      (b : Article) (n : News F) (id : ℕ)
      → item_id b.url n.items ≡ some id
      → (insert_news_item b n).0 ≡ id
  unfolding insert_news_item
  insert_news_item_again b n id h = rw (h, insert_news_item) refl

  -- Two articles with the same address share one row: the second one gets the number of the first.
  pub insert_news_item-same_url :
      (a b : Article) (n : News F)
      → a.url ≡ b.url
      → (insert_news_item b (insert_news_item a n).1).0 ≡ (insert_news_item a n).0
  insert_news_item-same_url a b n same =
      insert_news_item_again b (insert_news_item a n).1 (insert_news_item a n).0
        (rw (← same) (insert_news_item-item_id a n))
