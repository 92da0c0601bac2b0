-- ===== src/Tests/Hybrid.antt =====
-- Tests of `Hybrid`, with thousandths for numbers.
use bubblog_ai.Prelude.{
  ℕ, ◌≡◌, refl, false, ltb, arith, Option, none, some, List, [], ◌∷◌, take, map,
}
use bubblog_ai.Prelude.Text.{Text, codes, ascii_lower}
use bubblog_ai.Prelude.Filter.{filter}
use bubblog_ai.Prelude.Sort.{IsOrder}
use bubblog_ai.Aggregate.{ChunkHit}
use bubblog_ai.Aggregate.Groups.{of_post}
use bubblog_ai.Search.{SearchOptions, Sources}
use bubblog_ai.Hybrid.Candidates.{diversify}
use bubblog_ai.Hybrid.{run_hybrid_search}
use bubblog_ai.Hybrid.Diverse.{filter-diversify}
use bubblog_ai.Hybrid.Fused.{IsFused, run_hybrid_search-IsFused}
use bubblog_ai.Tests.Plan.{thousandths, wide_plan}

abbrev hit : Text → ℕ → ℕ → ChunkHit ℕ
hit post i score = record {
  post_id = post;
  post_title = codes "t";
  post_chunk = codes "c";
  similarity_score = score;
  chunk_index = some i;
  post_created_at = none;
}

abbrev pub hits : List (ChunkHit ℕ)
hits =
    hit (codes "1") 0 900
    ∷ hit (codes "1") 1 800
    ∷ hit (codes "2") 0 700
    ∷ hit (codes "1") 2 600
    ∷ []

abbrev pub sources : Sources ℕ
sources = record {
  create_embeddings = λ ts. some (map (λ t. 1000 ∷ []) ts);
  similar = λ q. some hits;
  textual = λ q. some (hit (codes "2") 0 500 ∷ []);
}

abbrev pub own_options : SearchOptions
own_options = record { category_id = none; limit = some 3; global = false }

higher-IsOrder : IsOrder (λ (a b : ℕ). ltb b a)
higher-IsOrder = record {
  asymm = λ a b h. ground (arith, h);
  trans = λ a b c h k. ground (arith, h, k);
}

filter-diversify_example :
    filter (of_post (codes "1")) (diversify (λ _. 0) hits)
    ≡ take 2 (filter (of_post (codes "1")) hits)
filter-diversify_example = filter-diversify (codes "1") hits

run_hybrid_search-IsFused_example :
    (rows : List (ChunkHit ℕ)) × (run_hybrid_search thousandths ascii_lower sources
        (codes "tea?")
        (codes "u")
        wide_plan
        own_options
      ≡ some rows)
    × IsFused thousandths ascii_lower 3 rows
run_hybrid_search-IsFused_example =
    run_hybrid_search-IsFused thousandths ascii_lower higher-IsOrder sources (codes "u") wide_plan
      own_options (codes "tea?") (map (λ t. 1000 ∷ []) (codes "tea?" ∷ wide_plan.rewrites)) refl
      (λ q. (hits, refl)) (hit (codes "2") 0 500 ∷ []) refl

abbrev two_best : Option (List (ChunkHit ℕ)) → List (Text × Option ℕ)
two_best none = []
two_best (some rows) = map (λ r. (r.post_id, r.chunk_index)) rows

-- The third chunk of the first post is left out.
spread_over_posts :
    two_best (
      run_hybrid_search thousandths ascii_lower sources
        (codes "tea?")
        (codes "u")
        wide_plan
        own_options)
    ≡ (codes "2", some 0) ∷ (codes "1", some 0) ∷ (codes "1", some 1) ∷ []
unfolding run_hybrid_search ascii_lower
spread_over_posts = refl
