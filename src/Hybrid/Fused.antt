-- ===== src/Hybrid/Fused.antt =====
-- services/hybrid-search.service.ts: the length, the order and the spread of what the search returns.
use bubblog_ai.Prelude.{
  ℕ, zero, suc, ◌≤◌, ◌≡◌, ◌≢◌, inl, inr, refl, sym, ap, subst, ◌∙◌, min, max, none, some, List, [],
  ◌∷◌, take, map, length, length-take, not, ◌||◌, All, Pairwise, Pairwise-take, arith, Bool-cases,
  Option-cases,
}
use bubblog_ai.Prelude.Text.{Text, text_eq, text_eq_iff, is_empty, trim}
use bubblog_ai.Prelude.Filter.{filter}
use bubblog_ai.Prelude.Sort.{IsSorted, IsOrder, sort-IsSorted, sort-Pairwise}
use bubblog_ai.Aggregate.{ChunkHit, or_default}
use bubblog_ai.Aggregate.Groups.{of_post}
use bubblog_ai.Search.{
  Doubles, RetrievalPreset, get_preset, SearchPlan, SearchOptions, VectorQuery, Sources,
  vector_query,
}
use bubblog_ai.Hybrid.Candidates.{Candidate, Weighted, chunk_key, put_candidate, diversify}
use bubblog_ai.Hybrid.{
  add_vectors, add_texts, text_query, collect_vectors, collect_rewrites, collect_texts,
  behind_first, weigh_all, hit_of, scores_higher, ranked, fuse, search_embedded, run_hybrid_search,
  alpha_of,
}
use bubblog_ai.Hybrid.Diverse.{filter-diversify, diversify-Pairwise}

module _ {W : Type 0} where
  abbrev pub candidate_key : Candidate W → Text
  candidate_key c = chunk_key c.post_id c.chunk_index c.post_chunk

  abbrev pub hit_key : ChunkHit W → Text
  hit_key h = chunk_key h.post_id h.chunk_index h.post_chunk

  abbrev pub AreApart : List (Candidate W) → Type 0
  AreApart = Pairwise (λ c d. candidate_key c ≢ candidate_key d)

  -- A change of scores keeps the key.
  put_candidate-keys :
      (id : Text) (change : Candidate W → Candidate W) (fresh : Candidate W)
      (cs : List (Candidate W))
      → ((c : Candidate W) → candidate_key (change c) ≡ candidate_key c)
      → id ≢ candidate_key fresh
      → All (λ c. id ≢ candidate_key c) cs
      → All (λ c. id ≢ candidate_key c) (put_candidate change fresh cs)
  unfolding put_candidate
  put_candidate-keys id change fresh [] k n h = (n, tt)
  put_candidate-keys id change fresh (c ∷ cs) k n (p, h) =
      elim (Bool-cases (text_eq (candidate_key c) (candidate_key fresh))) [
        | inl e ↦ rw (e) ((λ q. p (q ∙ k c)), h)
        | inr e ↦ rw (e) (p, put_candidate-keys id change fresh cs k n h)
      ]

  put_candidate-AreApart :
      (change : Candidate W → Candidate W) (fresh : Candidate W) (cs : List (Candidate W))
      → ((c : Candidate W) → candidate_key (change c) ≡ candidate_key c)
      → AreApart cs
      → AreApart (put_candidate change fresh cs)
  unfolding put_candidate
  put_candidate-AreApart change fresh [] k h = (tt, tt)
  put_candidate-AreApart change fresh (c ∷ cs) k (p, h) =
      elim (Bool-cases (text_eq (candidate_key c) (candidate_key fresh))) [
        | inl e ↦ rw (e) (subst (λ id. All (λ d. id ≢ candidate_key d) cs) (sym (k c)) p, h)
        | inr e ↦ rw (e) (
          put_candidate-keys (candidate_key c) change fresh cs k
              (λ q. ground (arith, (text_eq_iff (candidate_key c) (candidate_key fresh)).1 q, e)) p,
          put_candidate-AreApart change fresh cs k h,
        )
      ]

  length-filter-take :
      (id : Text) (k : ℕ) (rs : List (ChunkHit W))
      → length (filter (of_post id) (take k rs)) ≤ length (filter (of_post id) rs)
  unfolding filter
  length-filter-take id zero rs = omega arith
  length-filter-take id (suc k) [] = omega arith
  length-filter-take id (suc k) (r ∷ rs) = elim (Bool-cases (text_eq id r.post_id)) [
    | inl e ↦ rw (e) (omega (arith, length-filter-take id k rs))
    | inr e ↦ rw (e) (length-filter-take id k rs)
  ]

-- Rows with the same post and the same chunk index or, where both have none, the same text.
abbrev pub IsSameChunk : {W : Type 0} → ChunkHit W → ChunkHit W → Type 0
IsSameChunk a b =
    (a.post_id ≡ b.post_id)
    × (a.chunk_index ≡ b.chunk_index)
    × ((a.chunk_index ≡ none) → a.post_chunk ≡ b.post_chunk)

-- What the search returns: at most twenty chunks and at most as many as asked for, but one at least may
-- be asked for; none before one that scores higher; no two rows of the same post with the same chunk
-- index or, where both have none, the same text; and at most two of a post. A global search has rows
-- without an index, which stand beside those with the index of the same chunk.
pub record IsFused {W : Type 0} (n : Doubles W) (to_lower_case : Text → Text) (limit : ℕ)
    (rows : List (ChunkHit W)) : Type 0 where
  pub short : length rows ≤ min 20 (max 1 limit)
  pub ordered : IsSorted (scores_higher n to_lower_case) rows
  pub apart : Pairwise (λ a b. ¬ IsSameChunk a b) rows
  pub spread : (id : Text) → length (filter (of_post id) rows) ≤ 2

module _ {W : Type 0} where
  hit_key-same : (a b : ChunkHit W) → IsSameChunk a b → hit_key a ≡ hit_key b
  unfolding chunk_key
  hit_key-same a b (p, i, t) = elim (Option-cases a.chunk_index) [
    | inl e ↦ rw (← i, e, p, t e) refl
    | inr (k, e) ↦ rw (← i, e, p) refl
  ]

  others-IsSameChunk :
      (a : ChunkHit W) (rows : List (ChunkHit W))
      → All (λ b. hit_key a ≢ hit_key b) rows
      → All (λ b. ¬ IsSameChunk a b) rows
  others-IsSameChunk a [] h = tt
  others-IsSameChunk a (b ∷ bs) (n, h) = ((λ s. n (hit_key-same a b s)), others-IsSameChunk a bs h)

  Pairwise-IsSameChunk :
      (rows : List (ChunkHit W))
      → Pairwise (λ a b. hit_key a ≢ hit_key b) rows
      → Pairwise (λ a b. ¬ IsSameChunk a b) rows
  Pairwise-IsSameChunk [] h = tt
  Pairwise-IsSameChunk (a ∷ rows) (n, h) =
      (others-IsSameChunk a rows n, Pairwise-IsSameChunk rows h)

module _ {W : Type 0} (n : Doubles W) (to_lower_case : Text → Text) where
  add_vectors-AreApart :
      (weight : W) (rs : List (ChunkHit W)) (cs : List (Candidate W))
      → AreApart cs
      → AreApart (add_vectors n to_lower_case weight rs cs)
  unfolding add_vectors
  add_vectors-AreApart weight [] cs h = h
  add_vectors-AreApart weight (r ∷ rs) cs h =
      add_vectors-AreApart weight rs _ (put_candidate-AreApart _ _ cs (λ c. refl) h)

  add_texts-AreApart :
      (rs : List (ChunkHit W)) (cs : List (Candidate W))
      → AreApart cs
      → AreApart (add_texts n to_lower_case rs cs)
  unfolding add_texts
  add_texts-AreApart [] cs h = h
  add_texts-AreApart (r ∷ rs) cs h =
      add_texts-AreApart rs _ (put_candidate-AreApart _ _ cs (λ c. refl) h)

  hits-apart :
      (preset : RetrievalPreset W) (alpha : W) (all cs : List (Candidate W))
      → AreApart cs
      → Pairwise (λ a b. hit_key a ≢ hit_key b) (map (hit_of n to_lower_case preset alpha all) cs)
  hits-apart preset alpha all [] h = tt
  hits-apart preset alpha all (c ∷ cs) (p, h) = (others cs p, hits-apart preset alpha all cs h)
    where
      others :
          (ds : List (Candidate W))
          → All (λ d. candidate_key c ≢ candidate_key d) ds
          → All
              (λ b. hit_key (hit_of n to_lower_case preset alpha all c) ≢ hit_key b)
              (map (hit_of n to_lower_case preset alpha all) ds)
      others [] q = tt
      others (d ∷ ds) (q, qs) = (q, others ds qs)

  module _ (order : IsOrder (λ a b. n.less b a)) where
    scores_higher-IsOrder : IsOrder (scores_higher n to_lower_case)
    scores_higher-IsOrder = record {
      asymm = λ a b. order.asymm a.similarity_score b.similarity_score;
      trans = λ a b c. order.trans a.similarity_score b.similarity_score c.similarity_score;
    }

    ranked-IsSorted :
        (plan : SearchPlan W) (cs : List (Candidate W))
        → IsSorted (scores_higher n to_lower_case) (ranked n to_lower_case plan cs)
    unfolding ranked
    ranked-IsSorted plan cs =
        let preset = get_preset n plan.hybrid.retrieval_bias in
        let alpha = alpha_of n to_lower_case plan.hybrid.alpha preset.alpha in
        sort-IsSorted scores_higher-IsOrder (map (hit_of n to_lower_case preset alpha cs) cs)

    ranked-apart :
        (plan : SearchPlan W) (cs : List (Candidate W))
        → AreApart cs
        → Pairwise (λ a b. hit_key a ≢ hit_key b) (ranked n to_lower_case plan cs)
    unfolding ranked
    ranked-apart plan cs h =
        let preset = get_preset n plan.hybrid.retrieval_bias in
        let alpha = alpha_of n to_lower_case plan.hybrid.alpha preset.alpha in
        sort-Pairwise (scores_higher n to_lower_case) (λ a b. hit_key a ≢ hit_key b)
          (map (hit_of n to_lower_case preset alpha cs) cs) (λ a b p q. p (sym q))
          (hits-apart preset alpha cs cs h)

    fuse-IsFused :
        (plan : SearchPlan W) (o : SearchOptions) (cs : List (Candidate W))
        → AreApart cs
        → IsFused n to_lower_case (or_default plan.limit o.limit) (fuse n to_lower_case plan o cs)
    unfolding fuse ranked
    fuse-IsFused plan o cs h =
        let k = min 20 (max 1 (or_default plan.limit o.limit)) in
        let sorted = ranked n to_lower_case plan cs in
        let kept = diversify (λ _. 0) sorted in
        record {
          short = omega (arith, length-take k kept);
          ordered =
              Pairwise-take _ k kept
                (diversify-Pairwise _ (λ _. 0) sorted (ranked-IsSorted plan cs));
          apart = Pairwise-IsSameChunk (take k kept) (
              Pairwise-take _ k kept
                (diversify-Pairwise _ (λ _. 0) sorted (ranked-apart plan cs h)));
          spread = λ id. omega (
            arith,
            length-filter-take id k kept,
            ap length (filter-diversify id sorted),
            length-take 2 (filter (of_post id) sorted),
          );
        }

    module _ (s : Sources W) (user_id : Text) (plan : SearchPlan W) (o : SearchOptions) where
      collect_vectors-AreApart :
          ((q : VectorQuery W) → (rows : List (ChunkHit W)) × (s.similar q ≡ some rows))
          → (xs : List (Weighted W)) (cs : List (Candidate W)) → AreApart cs
          → (ds : List (Candidate W)) × (collect_vectors n to_lower_case s user_id plan o xs cs
              ≡ some ds)
            × AreApart ds
      unfolding collect_vectors
      collect_vectors-AreApart answers [] cs h = (cs, refl, h)
      collect_vectors-AreApart answers (x ∷ xs) cs h = elim (Bool-cases x.keep) [
        | inl kept ↦
            let (rows, e) =
              answers (vector_query user_id plan o.category_id o.global (some x.embedding)) in
            rw (kept, e)
              (collect_vectors-AreApart answers xs (add_vectors n to_lower_case x.weight rows cs)
                (add_vectors-AreApart x.weight rows cs h))
        | inr dropped ↦ rw (dropped) (collect_vectors-AreApart answers xs cs h)
      ]

      collect_rewrites-AreApart :
          (xs : List (Weighted W)) (cs : List (Candidate W))
          → AreApart cs
          → AreApart (collect_rewrites n to_lower_case s user_id plan o xs cs)
      unfolding collect_rewrites
      collect_rewrites-AreApart [] cs h = h
      collect_rewrites-AreApart (x ∷ xs) cs h =
          elim (Bool-cases (not x.keep || is_empty (trim x.rewrite))) [
            | inl skipped ↦ rw (collect_rewrites, skipped) (collect_rewrites-AreApart xs cs h)
            | inr tried ↦
                elim (Option-cases
                  (s.textual (text_query n to_lower_case s user_id plan o x.rewrite))) [
                    | inl e ↦ rw (collect_rewrites, tried, e) (collect_rewrites-AreApart xs cs h)
                    | inr (rows, e) ↦
                        rw (collect_rewrites, tried, e)
                          (collect_rewrites-AreApart xs (add_texts n to_lower_case rows cs)
                            (add_texts-AreApart rows cs h))
                  ]
          ]

      -- The search returns, and what it returns satisfies `IsFused`, if the embeddings are made, every vector
      -- query and the text query of the question are answered, and the numbers are ordered. The queries of
      -- the rewrites may fail.
      pub run_hybrid_search-IsFused :
          (question : Text) (es : List (List W))
          → s.create_embeddings (question ∷ plan.rewrites) ≡ some es
          → ((q : VectorQuery W) → (rows : List (ChunkHit W)) × (s.similar q ≡ some rows))
          → (found : List (ChunkHit W))
          → s.textual (text_query n to_lower_case s user_id plan o question) ≡ some found
          → (rows : List (ChunkHit W)) × (run_hybrid_search n to_lower_case s question user_id plan
                o
              ≡ some rows)
            × IsFused n to_lower_case (or_default plan.limit o.limit) rows
      unfolding run_hybrid_search search_embedded collect_texts
      run_hybrid_search-IsFused question es e answers found f =
          let xs = weigh_all n to_lower_case plan.hybrid.retrieval_bias plan.rewrites es in
          let (cs, c, h) = collect_vectors-AreApart answers xs [] tt in
          let all =
            collect_rewrites n to_lower_case s user_id plan o
              (behind_first n to_lower_case s user_id plan o xs)
              (add_texts n to_lower_case found cs) in
          (
            fuse n to_lower_case plan o all,
            rw (e, c, collect_texts, f) refl,
            fuse-IsFused plan o all (
                collect_rewrites-AreApart (behind_first n to_lower_case s user_id plan o xs) _
                  (add_texts-AreApart found cs h)),
          )
