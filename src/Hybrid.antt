-- ===== src/Hybrid.antt =====
-- services/hybrid-search.service.ts: chunks found by their embeddings and by their texts, merged, scored and
-- spread over the posts.
pub mod Candidates
pub mod Diverse
pub mod Fused
pub mod Scope
use bubblog_ai.Prelude.{
  ℕ, zero, suc, ◌+◌, ◌*◌, min, max, Bool, true, false, not, ◌||◌, ◌&&◌, leb, Option, none, some,
  List, [], ◌∷◌, ◌++◌, map, take, if◌then◌else◌,
}
use bubblog_ai.Prelude.Text.{Text, codes, text_eq, trim, is_empty, ends_with, includes, number_text}
use bubblog_ai.Prelude.Sort.{sort}
use bubblog_ai.Aggregate.{ChunkHit, or_default}
use bubblog_ai.Search.{
  Doubles, RetrievalBias, lexical, balanced, semantic, RetrievalPreset, get_preset, SearchPlan,
  SearchOptions, VectorQuery, TextQuery, Sources, time_from, time_to, vector_query,
}
use bubblog_ai.Hybrid.Candidates.{
  Candidate, Weighted, index_text, chunk_key, put_candidate, counted, diversify,
}

-- `to_lower_case` is that of strings.
module _ {W : Type 0} (n : Doubles W) (to_lower_case : Text → Text) where
  abbrev pub zero_ : W
  zero_ = n.decimal 0 0

  abbrev pub one : W
  one = n.decimal 1 0

  -- `a || b`
  abbrev pub or : W → W → W
  or a b = if n.truthy a then a else b

  abbrev pub or_zero : Option W → W
  or_zero none = zero_
  or_zero (some w) = or w zero_

  unfoldable pub dot_from : W → List W → List W → W
  dot_from s (a ∷ us) (b ∷ vs) = dot_from (n.plus s (n.times (or a zero_) (or b zero_))) us vs
  dot_from s _ _ = s

  unfoldable pub squares_from : W → List W → W
  squares_from s [] = s
  squares_from s (a ∷ us) = squares_from (n.plus s (n.times a a)) us

  unfoldable pub l2 : List W → W
  unfolding squares_from
  l2 a = n.root (squares_from zero_ a)

  abbrev is_zero : W → Bool
  is_zero w = not (n.less w zero_) && not (n.less zero_ w)

  unfoldable pub cos : List W → List W → W
  unfolding l2 dot_from
  cos a b =
      if is_zero (l2 a) || is_zero (l2 b)
      then zero_
      else n.over (dot_from zero_ a b) (n.times (l2 a) (l2 b))

  abbrev any_ends : List Text → Text → Bool
  any_ends [] s = false
  any_ends (p ∷ ps) s = ends_with p s || any_ends ps s

  abbrev any_includes : List Text → Text → Bool
  any_includes [] s = false
  any_includes (p ∷ ps) s = includes p s || any_includes ps s

  -- Each pattern for the end of a sentence has one for `다` as its last part.
  unfoldable pub is_declarative : Text → Bool
  unfolding trim includes
  is_declarative s =
      let str = trim s in
      if is_empty str
      then false
      else if ends_with (codes "?") str || ends_with (codes "？") str || includes (codes "?") str
      then false
      else if any_ends (codes "다" ∷ codes "다." ∷ codes "다!" ∷ []) str
      then true
      else if any_includes (codes " is " ∷ codes " are " ∷ codes " was " ∷ codes " were " ∷ [])
          (codes " " ++ to_lower_case str ++ codes " ")
      then true
      else ends_with (codes ".") str || ends_with (codes "!") str

  abbrev floor_base : RetrievalBias → W
  floor_base semantic = one
  floor_base _ = n.decimal 95 2

  abbrev raised : RetrievalBias → Text → W → W
  raised bias rewrite w =
      if is_declarative rewrite && n.less w (floor_base bias) then floor_base bias else w

  -- `sim01`
  abbrev pub closeness : List W → List W → W
  closeness q e = n.larger zero_ (n.smaller one (n.over (n.plus (cos q e) one) (n.decimal 2 0)))

  abbrev pub weighted : RetrievalBias → List W → Text → List W → Weighted W
  weighted bias q rewrite e = record {
    rewrite = rewrite;
    embedding = e;
    weight = raised bias rewrite (n.plus (n.decimal 6 1) (n.times (n.decimal 6 1) (closeness q e)));
    keep = not (n.less (closeness q e) (n.decimal 35 2));
  }

  -- The rewrites with the embeddings behind the first.
  unfoldable pub weigh : RetrievalBias → List W → List Text → List (List W) → List (Weighted W)
  unfolding cos is_declarative
  weigh bias q rs [] = []
  weigh bias q [] (e ∷ es) = weighted bias q [] e ∷ weigh bias q [] es
  weigh bias q (r ∷ rs) (e ∷ es) = weighted bias q r e ∷ weigh bias q rs es

  unfoldable pub weigh_all : RetrievalBias → List Text → List (List W) → List (Weighted W)
  unfolding weigh
  weigh_all bias rs [] = []
  weigh_all bias rs (q ∷ es) =
      record { rewrite = []; embedding = q; weight = one; keep = true } ∷ weigh bias q rs es

  -- A chunk found by its embedding, with the weight of the query.
  abbrev with_vector : W → Candidate W → Candidate W
  with_vector w c = record c { vec_score = some (n.larger (or_zero c.vec_score) w) }

  abbrev vector_candidate : ChunkHit W → W → Candidate W
  vector_candidate r w = record {
    post_id = r.post_id;
    post_title = r.post_title;
    post_chunk = r.post_chunk;
    chunk_index = r.chunk_index;
    vec_score = some w;
    text_score = none;
    post_created_at = r.post_created_at;
  }

  unfoldable pub add_vectors : W → List (ChunkHit W) → List (Candidate W) → List (Candidate W)
  unfolding put_candidate
  add_vectors weight [] cs = cs
  add_vectors weight (r ∷ rs) cs =
      let w = n.times (or r.similarity_score zero_) (or weight one) in
      add_vectors weight rs (put_candidate (with_vector w) (vector_candidate r w) cs)

  abbrev with_text : W → Candidate W → Candidate W
  with_text t c = record c { text_score = some (n.larger (or_zero c.text_score) t) }

  abbrev text_candidate : ChunkHit W → W → Candidate W
  text_candidate r t = record {
    post_id = r.post_id;
    post_title = r.post_title;
    post_chunk = r.post_chunk;
    chunk_index = r.chunk_index;
    vec_score = none;
    text_score = some t;
    post_created_at = r.post_created_at;
  }

  unfoldable pub add_texts : List (ChunkHit W) → List (Candidate W) → List (Candidate W)
  unfolding put_candidate
  add_texts [] cs = cs
  add_texts (r ∷ rs) cs =
      let t = or r.similarity_score zero_ in
      add_texts rs (put_candidate (with_text t) (text_candidate r t) cs)

  module _ (s : Sources W) (user_id : Text) (plan : SearchPlan W) (o : SearchOptions) where
    abbrev pub vector_query_of : List W → VectorQuery W
    vector_query_of e = vector_query user_id plan o.category_id o.global (some e)

    unfoldable pub text_query : Text → TextQuery
    text_query query =
        if o.global
        then record {
          user_id = none;
          query = query;
          keywords = plan.keywords;
          category_id = none;
          from = none;
          to = none;
          top_k = plan.top_k * 3;
          order = plan.order;
        }
        else record {
          user_id = some user_id;
          query = query;
          keywords = plan.keywords;
          category_id = o.category_id;
          from = time_from plan.time;
          to = time_to plan.time;
          top_k = plan.top_k;
          order = plan.order;
        }

    -- The first loop over the embeddings. A query that throws ends the search.
    unfoldable pub collect_vectors :
        List (Weighted W) → List (Candidate W) → Option (List (Candidate W))
    unfolding add_vectors vector_query
    collect_vectors [] cs = some cs
    collect_vectors (x ∷ xs) cs = elim x.keep [
      | false ↦ collect_vectors xs cs
      | true ↦ elim (s.similar (vector_query_of x.embedding)) [
        | none ↦ none
        | some rows ↦ collect_vectors xs (add_vectors x.weight rows cs)
      ]
    ]

    -- The loop over the rewrites. One whose query throws is left out.
    unfoldable pub collect_rewrites : List (Weighted W) → List (Candidate W) → List (Candidate W)
    unfolding add_texts text_query trim
    collect_rewrites [] cs = cs
    collect_rewrites (x ∷ xs) cs = elim (not x.keep || is_empty (trim x.rewrite)) [
      | true ↦ collect_rewrites xs cs
      | false ↦ elim (s.textual (text_query x.rewrite)) [
        | none ↦ collect_rewrites xs cs
        | some rows ↦ collect_rewrites xs (add_texts rows cs)
      ]
    ]

    abbrev pub behind_first : List (Weighted W) → List (Weighted W)
    behind_first [] = []
    behind_first (_ ∷ xs) = xs

    unfoldable pub collect_texts :
        Text → List (Weighted W) → Option (List (Candidate W)) → Option (List (Candidate W))
    unfolding collect_rewrites add_texts text_query
    collect_texts question xs none = none
    collect_texts question xs (some cs) = elim (s.textual (text_query question)) [
      | none ↦ none
      | some rows ↦ some (collect_rewrites (behind_first xs) (add_texts rows cs))
    ]

  -- `Math.min(...values, 0)` and `Math.max(...values, 0)`
  abbrev least : List W → W
  least [] = zero_
  least (w ∷ ws) = n.smaller w (least ws)

  abbrev greatest : List W → W
  greatest [] = zero_
  greatest (w ∷ ws) = n.larger w (greatest ws)

  unfoldable pub normalize01 : W → W → W → W
  normalize01 v lo hi = if n.less lo hi then n.over (n.minus v lo) (n.minus hi lo) else zero_

  abbrev boosted : W → W → W
  boosted threshold v = if n.less v threshold then v else n.smaller one (n.plus v (n.decimal 1 1))

  abbrev vec_of : Candidate W → W
  vec_of c = or_zero c.vec_score

  abbrev text_of : Candidate W → W
  text_of c = or_zero c.text_score

  abbrev alpha_of : Option W → W → W
  alpha_of none a = n.larger zero_ (n.smaller one a)
  alpha_of (some b) a = n.larger zero_ (n.smaller one b)

  unfoldable pub score_of : RetrievalPreset W → W → List (Candidate W) → Candidate W → W
  unfolding normalize01
  score_of preset alpha cs c =
      let vs = map vec_of cs in
      let ts = map text_of cs in
      let v =
        boosted preset.sem_boost_threshold (normalize01 (vec_of c) (least vs) (greatest vs)) in
      let t =
        boosted preset.lex_boost_threshold (normalize01 (text_of c) (least ts) (greatest ts)) in
      n.plus (n.times alpha v) (n.times (n.minus one alpha) t)

  abbrev pub hit_of : RetrievalPreset W → W → List (Candidate W) → Candidate W → ChunkHit W
  hit_of preset alpha cs c = record {
    post_id = c.post_id;
    post_title = c.post_title;
    post_chunk = c.post_chunk;
    similarity_score = score_of preset alpha cs c;
    chunk_index = c.chunk_index;
    post_created_at = c.post_created_at;
  }

  abbrev pub scores_higher : ChunkHit W → ChunkHit W → Bool
  scores_higher a b = n.less b.similarity_score a.similarity_score

  -- From `list` to `sorted`, the diversified list, and `fused`.
  unfoldable pub ranked : SearchPlan W → List (Candidate W) → List (ChunkHit W)
  unfolding score_of sort
  ranked plan cs =
      let preset = get_preset n plan.hybrid.retrieval_bias in
      let alpha = alpha_of plan.hybrid.alpha preset.alpha in
      sort scores_higher (map (hit_of preset alpha cs) cs)

  unfoldable pub fuse : SearchPlan W → SearchOptions → List (Candidate W) → List (ChunkHit W)
  unfolding ranked diversify
  fuse plan o cs =
      take (min 20 (max 1 (or_default plan.limit o.limit))) (diversify (λ _. 0) (ranked plan cs))

  abbrev pub fused_option :
      SearchPlan W → SearchOptions → Option (List (Candidate W)) → Option (List (ChunkHit W))
  fused_option plan o none = none
  fused_option plan o (some cs) = some (fuse plan o cs)

  unfoldable pub search_embedded :
      Sources W
      → Text
      → Text
      → SearchPlan W
      → SearchOptions
      → Option (List (List W))
      → Option (List (ChunkHit W))
  unfolding fuse collect_vectors collect_texts weigh_all
  search_embedded s question user_id plan o none = none
  search_embedded s question user_id plan o (some es) =
      let xs = weigh_all plan.hybrid.retrieval_bias plan.rewrites es in
      fused_option plan o
        (collect_texts s user_id plan o question xs (collect_vectors s user_id plan o xs []))

  unfoldable pub run_hybrid_search :
      Sources W → Text → Text → SearchPlan W → SearchOptions → Option (List (ChunkHit W))
  unfolding search_embedded
  run_hybrid_search s question user_id plan o =
      search_embedded s question user_id plan o (s.create_embeddings (question ∷ plan.rewrites))
