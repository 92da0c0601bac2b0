-- ===== src/QaV2/Scope.antt =====
-- services/qa.v2.service.ts, services/semantic-search.service.ts: whose chunks a planned search finds.
use bubblog_ai.Prelude.{
  false, ℕ, ◌≡◌, inl, inr, refl, Option, none, some, List, [], ◌∷◌, Bool-cases,
}
use bubblog_ai.Aggregate.{ChunkHit}
use bubblog_ai.Search.{
  semantic_rows, SearchPlan, VectorQuery, TextQuery, vector_query, run_semantic_search,
}
use bubblog_ai.Hybrid.Scope.{
  OnChunks, AreHits, plan_scope, vector_scope, text_scope, run_hybrid_search-AreHits,
}
use bubblog_ai.Qa.Data.{Request, Reader}
use bubblog_ai.Repository.Cache.{Vectors}
use bubblog_ai.QaV2.{Planning, search_options, semantic_searched, hybrid_searched, searched}

module _ {E S J W : Type 0} (to_date : ℕ → ℕ) (v : Vectors E S) (reader : Reader) (g : Planning J W)
    (r : Request E) (P : OnChunks) (plan : SearchPlan W)
    (vectors : (q : VectorQuery W)
      → vector_scope q ≡ plan_scope false r.owner_user_id r.category_id plan
      → AreHits P (g.sources.similar q))
    (texts : (q : TextQuery)
      → text_scope q ≡ plan_scope false r.owner_user_id r.category_id plan
      → AreHits P (g.sources.textual q)) where
  semantic_searched-AreHits : AreHits P (semantic_searched to_date v reader g r plan)
  unfolding semantic_searched run_semantic_search vector_query
  semantic_searched-AreHits = of_embeddings (g.sources.create_embeddings (r.question ∷ []))
    where
      of_embeddings :
          (es : Option (List (List W)))
          → AreHits P (
              semantic_rows g.sources r.owner_user_id plan
                (search_options to_date v reader g r none)
                es)
      of_embeddings none = tt
      of_embeddings (some es) = vectors _ refl

  hybrid_searched-AreHits :
      (rows : Option (List (ChunkHit W)))
      → AreHits P rows
      → AreHits P (hybrid_searched to_date v reader g r plan rows).1
  unfolding hybrid_searched
  hybrid_searched-AreHits none h = tt
  hybrid_searched-AreHits (some []) h = semantic_searched-AreHits
  hybrid_searched-AreHits (some (x ∷ rows)) h = h

  -- What holds of the id, the texts and the time of every chunk that the repository returns to a query for
  -- the owner, the category of the request and the times of the plan holds of every chunk that a planned search finds, on each of its paths: a hybrid search, a
  -- semantic one, and a semantic one after a hybrid one that finds nothing.
  pub searched-AreHits : AreHits P (searched to_date v reader g r plan).1
  unfolding searched
  searched-AreHits = elim (Bool-cases plan.hybrid.enabled) [
    | inl e ↦
        let o = search_options to_date v reader g r (some plan.limit) in
        let found =
          run_hybrid_search-AreHits g.numbers g.words.to_lower_case P g.sources r.owner_user_id plan
            o vectors texts r.question in
        rw (e) (hybrid_searched-AreHits _ found)
    | inr e ↦ rw (e) (semantic_searched-AreHits)
  ]
