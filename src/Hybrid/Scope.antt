-- ===== src/Hybrid/Scope.antt =====
-- services/hybrid-search.service.ts: whose chunks the search finds.
use bubblog_ai.Prelude.{
  ℕ, ◌≡◌, inl, inr, refl, Bool, true, false, not, ◌||◌, Option, none, some, List, [], ◌∷◌, map, All,
  All-take, Bool-cases, Option-cases, min, max,
}
use bubblog_ai.Prelude.Text.{Text, trim, is_empty, text_eq}
use bubblog_ai.Prelude.Sort.{sort, sort-All}
use bubblog_ai.Aggregate.{ChunkHit, or_default}
use bubblog_ai.Search.{
  Doubles, get_preset, RetrievalPreset, SearchPlan, SearchOptions, VectorQuery, TextQuery, Sources,
  vector_query,
}
use bubblog_ai.Hybrid.{
  time_to, time_from, add_vectors, add_texts, alpha_of, text_query, collect_vectors,
  collect_rewrites, collect_texts, behind_first, weigh_all, hit_of, scores_higher, ranked, fuse,
  fused_option, search_embedded, run_hybrid_search,
}
use bubblog_ai.Hybrid.Candidates.{Candidate, Weighted, put_candidate}
use bubblog_ai.Hybrid.Diverse.{diversify-All}
use bubblog_ai.Hybrid.Fused.{candidate_key}

-- A predicate on what a chunk is: the ids of its post and of the chunk, the texts and the time, not its score.
abbrev pub OnChunks : Type 1
OnChunks = Text → Text → Text → Option ℕ → Option Text → Type 0

module _ {W : Type 0} (P : OnChunks) where
  abbrev pub IsHit : ChunkHit W → Type 0
  IsHit h = P h.post_id h.post_title h.post_chunk h.chunk_index h.post_created_at

  abbrev pub IsCandidate : Candidate W → Type 0
  IsCandidate c = P c.post_id c.post_title c.post_chunk c.chunk_index c.post_created_at

  -- Of every chunk of an answer, if there is one.
  abbrev pub AreHits : Option (List (ChunkHit W)) → Type 0
  AreHits none = Unit
  AreHits (some rows) = All IsHit rows

  abbrev AreCandidates : Option (List (Candidate W)) → Type 0
  AreCandidates none = Unit
  AreCandidates (some cs) = All IsCandidate cs

  put_candidate-AreCandidates :
      (change : Candidate W → Candidate W) (fresh : Candidate W) (cs : List (Candidate W))
      → ((c : Candidate W) → IsCandidate c → IsCandidate (change c))
      → IsCandidate fresh
      → All IsCandidate cs
      → All IsCandidate (put_candidate change fresh cs)
  unfolding put_candidate
  put_candidate-AreCandidates change fresh [] k p h = (p, tt)
  put_candidate-AreCandidates change fresh (c ∷ cs) k p (q, h) =
      elim (Bool-cases (text_eq (candidate_key c) (candidate_key fresh))) [
        | inl e ↦ rw (e) (k c q, h)
        | inr e ↦ rw (e) (q, put_candidate-AreCandidates change fresh cs k p h)
      ]

module _ {W : Type 0} (n : Doubles W) (to_lower_case : Text → Text) (P : OnChunks) where
  add_vectors-AreCandidates :
      (weight : W) (rs : List (ChunkHit W)) (cs : List (Candidate W))
      → All (IsHit P) rs
      → All (IsCandidate P) cs
      → All (IsCandidate P) (add_vectors n to_lower_case weight rs cs)
  unfolding add_vectors
  add_vectors-AreCandidates weight [] cs g h = h
  add_vectors-AreCandidates weight (r ∷ rs) cs (p, g) h =
      add_vectors-AreCandidates weight rs _ g (put_candidate-AreCandidates P _ _ cs (λ c q. q) p h)

  add_texts-AreCandidates :
      (rs : List (ChunkHit W)) (cs : List (Candidate W))
      → All (IsHit P) rs
      → All (IsCandidate P) cs
      → All (IsCandidate P) (add_texts n to_lower_case rs cs)
  unfolding add_texts
  add_texts-AreCandidates [] cs g h = h
  add_texts-AreCandidates (r ∷ rs) cs (p, g) h =
      add_texts-AreCandidates rs _ g (put_candidate-AreCandidates P _ _ cs (λ c q. q) p h)

  hits-AreHits :
      (preset : RetrievalPreset W) (alpha : W) (all cs : List (Candidate W))
      → All (IsCandidate P) cs
      → All (IsHit P) (map (hit_of n to_lower_case preset alpha all) cs)
  hits-AreHits preset alpha all [] h = tt
  hits-AreHits preset alpha all (c ∷ cs) (p, h) = (p, hits-AreHits preset alpha all cs h)

  fuse-AreHits :
      (plan : SearchPlan W) (o : SearchOptions) (cs : List (Candidate W))
      → All (IsCandidate P) cs
      → All (IsHit P) (fuse n to_lower_case plan o cs)
  unfolding fuse ranked
  fuse-AreHits plan o cs h =
      let preset = get_preset n plan.hybrid.retrieval_bias in
      let alpha = alpha_of n to_lower_case plan.hybrid.alpha preset.alpha in
      let hits = map (hit_of n to_lower_case preset alpha cs) cs in
      All-take (IsHit P) (min 20 (max 1 (or_default plan.limit o.limit))) _ (
        diversify-All (IsHit P) (λ _. 0) (sort (scores_higher n to_lower_case) hits)
          (sort-All (scores_higher n to_lower_case) (IsHit P) hits
            (hits-AreHits preset alpha cs cs h)))

-- What a query asks for: the user, the category and the range of times.
abbrev pub QueryScope : Type 0
QueryScope = Option Text × Option ℕ × Option Text × Option Text

abbrev pub vector_scope : {W : Type 0} → VectorQuery W → QueryScope
vector_scope q = (q.user_id, q.category_id, q.from, q.to)

abbrev pub text_scope : TextQuery → QueryScope
text_scope q = (q.user_id, q.category_id, q.from, q.to)

-- What the queries of a search ask for: nothing, if it is one of all posts.
abbrev pub plan_scope : {W : Type 0} → Bool → Text → Option ℕ → SearchPlan W → QueryScope
plan_scope true user_id category plan = (none, none, none, none)
plan_scope false user_id category plan =
    (some user_id, category, time_from plan.time, time_to plan.time)

module _ {W : Type 0} (n : Doubles W) (to_lower_case : Text → Text) (P : OnChunks) (s : Sources W)
    (user_id : Text) (plan : SearchPlan W) (o : SearchOptions) where
  vector_query-asked :
      (global : Bool) (e : Option (List W))
      → vector_scope (vector_query user_id plan o.category_id global e)
        ≡ plan_scope global user_id o.category_id plan
  unfolding vector_query
  vector_query-asked true e = refl
  vector_query-asked false e = refl

  text_query-asked :
      (q : Text)
      → text_scope (text_query n to_lower_case s user_id plan o q)
        ≡ plan_scope o.global user_id o.category_id plan
  unfolding text_query
  text_query-asked q = elim (Bool-cases o.global) [ inl e ↦ rw (e) refl | inr e ↦ rw (e) refl ]

  module _
      (vectors : (q : VectorQuery W)
        → vector_scope q ≡ plan_scope o.global user_id o.category_id plan
        → AreHits P (s.similar q))
      (texts : (q : TextQuery)
        → text_scope q ≡ plan_scope o.global user_id o.category_id plan
        → AreHits P (s.textual q)) where
    collect_vectors-AreCandidates :
        (xs : List (Weighted W)) (cs : List (Candidate W))
        → All (IsCandidate P) cs
        → AreCandidates P (collect_vectors n to_lower_case s user_id plan o xs cs)
    unfolding collect_vectors
    collect_vectors-AreCandidates [] cs h = h
    collect_vectors-AreCandidates (x ∷ xs) cs h = elim (Bool-cases x.keep) [
      | inr dropped ↦ rw (dropped) (collect_vectors-AreCandidates xs cs h)
      | inl kept ↦
          let q = vector_query user_id plan o.category_id o.global (some x.embedding) in
          let found = vectors q (vector_query-asked o.global (some x.embedding)) in
          elim (Option-cases (s.similar q)) [
            | inl e ↦ rw (collect_vectors, kept, e) tt
            | inr (rows, e) ↦
                rw (collect_vectors, kept, e)
                  (collect_vectors-AreCandidates xs (add_vectors n to_lower_case x.weight rows cs) (
                    add_vectors-AreCandidates n to_lower_case P x.weight rows cs (rw e at found) h))
          ]
    ]

    collect_rewrites-AreCandidates :
        (xs : List (Weighted W)) (cs : List (Candidate W))
        → All (IsCandidate P) cs
        → All (IsCandidate P) (collect_rewrites n to_lower_case s user_id plan o xs cs)
    unfolding collect_rewrites
    collect_rewrites-AreCandidates [] cs h = h
    collect_rewrites-AreCandidates (x ∷ xs) cs h =
        elim (Bool-cases (not x.keep || is_empty (trim x.rewrite))) [
          | inl skipped ↦ rw (collect_rewrites, skipped) (collect_rewrites-AreCandidates xs cs h)
          | inr tried ↦
              let q = text_query n to_lower_case s user_id plan o x.rewrite in
              let found = texts q (text_query-asked x.rewrite) in
              elim (Option-cases (s.textual q)) [
                | inl e ↦ rw (collect_rewrites, tried, e) (collect_rewrites-AreCandidates xs cs h)
                | inr (rows, e) ↦
                    rw (collect_rewrites, tried, e)
                      (collect_rewrites-AreCandidates xs (add_texts n to_lower_case rows cs)
                        (add_texts-AreCandidates n to_lower_case P rows cs (rw e at found) h))
              ]
        ]

    collect_texts-AreCandidates :
        (question : Text) (xs : List (Weighted W)) (cs : Option (List (Candidate W)))
        → AreCandidates P cs
        → AreCandidates P (collect_texts n to_lower_case s user_id plan o question xs cs)
    unfolding collect_texts
    collect_texts-AreCandidates question xs none h = tt
    collect_texts-AreCandidates question xs (some cs) h =
        let q = text_query n to_lower_case s user_id plan o question in
        let found = texts q (text_query-asked question) in
        elim (Option-cases (s.textual q)) [
          | inl e ↦ rw (collect_texts, e) tt
          | inr (rows, e) ↦
              rw (collect_texts, e)
                (collect_rewrites-AreCandidates (behind_first n to_lower_case s user_id plan o xs)
                  (add_texts n to_lower_case rows cs)
                  (add_texts-AreCandidates n to_lower_case P rows cs (rw e at found) h))
        ]

    fused_option-AreHits :
        (cs : Option (List (Candidate W)))
        → AreCandidates P cs
        → AreHits P (fused_option n to_lower_case plan o cs)
    fused_option-AreHits none h = tt
    fused_option-AreHits (some cs) h = fuse-AreHits n to_lower_case P plan o cs h

    search_embedded-AreHits :
        (question : Text) (es : Option (List (List W)))
        → AreHits P (search_embedded n to_lower_case s question user_id plan o es)
    unfolding search_embedded
    search_embedded-AreHits question none = tt
    search_embedded-AreHits question (some es) =
        let xs = weigh_all n to_lower_case plan.hybrid.retrieval_bias plan.rewrites es in
        fused_option-AreHits _ (
          collect_texts-AreCandidates question xs
            (collect_vectors n to_lower_case s user_id plan o xs [])
            (collect_vectors-AreCandidates xs [] tt))

    pub run_hybrid_search-AreHits :
        (question : Text) → AreHits P (run_hybrid_search n to_lower_case s question user_id plan o)
    unfolding run_hybrid_search
    run_hybrid_search-AreHits question =
        search_embedded-AreHits question (s.create_embeddings (question ∷ plan.rewrites))
