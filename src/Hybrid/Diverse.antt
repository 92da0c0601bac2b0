-- ===== src/Hybrid/Diverse.antt =====
-- services/hybrid-search.service.ts: what the diversified list keeps of each post, and of the whole order.
use bubblog_ai.Prelude.{
  ℕ, zero, suc, ◌-◌, ◌≡◌, inl, inr, refl, sym, ap, ◌∙◌, true, false, List, [], ◌∷◌, take, All,
  Pairwise, arith, Bool-cases, leb,
}
use bubblog_ai.Prelude.Text.{Text, text_eq, text_eq_iff}
use bubblog_ai.Prelude.Filter.{filter}
use bubblog_ai.Aggregate.{ChunkHit}
use bubblog_ai.Aggregate.Groups.{of_post}
use bubblog_ai.Hybrid.Candidates.{counted, diversify}

module _ {W : Type 0} where
  diversify-skip :
      (counts : Text → ℕ) (r : ChunkHit W) (rs : List (ChunkHit W))
      → leb 2 (counts r.post_id) ≡ true
      → diversify counts (r ∷ rs) ≡ diversify counts rs
  unfolding diversify
  diversify-skip counts r rs e = rw (diversify, e) refl

  diversify-keep :
      (counts : Text → ℕ) (r : ChunkHit W) (rs : List (ChunkHit W))
      → leb 2 (counts r.post_id) ≡ false
      → diversify counts (r ∷ rs) ≡ r ∷ diversify (counted r.post_id counts) rs
  unfolding diversify
  diversify-keep counts r rs e = rw (diversify, e) refl

  filter-yes :
      (id : Text) (r : ChunkHit W) (rs : List (ChunkHit W))
      → text_eq id r.post_id ≡ true
      → filter (of_post id) (r ∷ rs) ≡ r ∷ filter (of_post id) rs
  unfolding filter
  filter-yes id r rs e = rw e refl

  filter-no :
      (id : Text) (r : ChunkHit W) (rs : List (ChunkHit W))
      → text_eq id r.post_id ≡ false
      → filter (of_post id) (r ∷ rs) ≡ filter (of_post id) rs
  unfolding filter
  filter-no id r rs e = rw e refl

  skip_same :
      (id : Text) (counts : Text → ℕ) (r : ChunkHit W) (rs : List (ChunkHit W))
      → leb 2 (counts r.post_id) ≡ true
      → text_eq id r.post_id ≡ true
      → take (2 - counts id) rs ≡ []
  skip_same id counts r rs full same =
      let e : 2 - counts id ≡ 0 = rw ((text_eq_iff id r.post_id).0 same) (ground (arith, full)) in
      rw e refl

  keep_same :
      (id : Text) (counts : Text → ℕ) (r : ChunkHit W) (kept rs : List (ChunkHit W))
      → leb 2 (counts r.post_id) ≡ false
      → text_eq id r.post_id ≡ true
      → kept ≡ take (2 - counted r.post_id counts id) rs
      → r ∷ kept ≡ take (2 - counts id) (r ∷ rs)
  keep_same id counts r kept rs free same h =
      let e : 2 - counts id ≡ suc (2 - suc (counts id)) =
        rw ((text_eq_iff id r.post_id).0 same) (ground (arith, free)) in
      rw e (ap (λ t. r ∷ t) (rw same at h))

  keep_other :
      (id : Text) (counts : Text → ℕ) (r : ChunkHit W) (kept rs : List (ChunkHit W))
      → text_eq id r.post_id ≡ false
      → kept ≡ take (2 - counted r.post_id counts id) rs
      → kept ≡ take (2 - counts id) rs
  keep_other id counts r kept rs other h = rw other at h

  nothing_kept :
      (id : Text) (counts : Text → ℕ) (k : ℕ)
      → filter (of_post {S = W} id) (diversify counts []) ≡ take k (filter (of_post {S = W} id) [])
  nothing_kept id counts zero = unfold filter diversify in refl
  nothing_kept id counts (suc k) = unfold filter diversify in refl

  -- Of each post, as many chunks are kept as its count leaves of two, the first ones.
  filter-diversify_from :
      (id : Text) (counts : Text → ℕ) (rs : List (ChunkHit W))
      → filter (of_post id) (diversify counts rs) ≡ take (2 - counts id) (filter (of_post id) rs)
  filter-diversify_from id counts [] = nothing_kept id counts (2 - counts id)
  filter-diversify_from id counts (r ∷ rs) = elim (Bool-cases (leb 2 (counts r.post_id))) [
    | inl full ↦ elim (Bool-cases (text_eq id r.post_id)) [
      | inl same ↦ rw (diversify-skip counts r rs full) (
          filter-diversify_from id counts rs
          ∙ skip_same id counts r (filter (of_post id) rs) full same
          ∙ sym (skip_same id counts r (filter (of_post id) (r ∷ rs)) full same))
      | inr other ↦
          rw (diversify-skip counts r rs full, filter-no id r rs other)
            (filter-diversify_from id counts rs)
    ]
    | inr free ↦ elim (Bool-cases (text_eq id r.post_id)) [
      | inl same ↦
          rw
            (
              diversify-keep counts r rs free,
              filter-yes id r (diversify (counted r.post_id counts) rs) same,
              filter-yes id r rs same,
            )
            (keep_same id counts r _ (filter (of_post id) rs) free same
              (filter-diversify_from id (counted r.post_id counts) rs))
      | inr other ↦
          rw
            (
              diversify-keep counts r rs free,
              filter-no id r (diversify (counted r.post_id counts) rs) other,
              filter-no id r rs other,
            )
            (keep_other id counts r _ (filter (of_post id) rs) other
              (filter-diversify_from id (counted r.post_id counts) rs))
    ]
  ]

  -- Of each post the diversified list has its first two chunks, in their order.
  pub filter-diversify :
      (id : Text) (rs : List (ChunkHit W))
      → filter (of_post id) (diversify (λ _. 0) rs) ≡ take 2 (filter (of_post id) rs)
  filter-diversify id rs = filter-diversify_from id (λ _. 0) rs

  pub diversify-All :
      (P : ChunkHit W → Type 0) (counts : Text → ℕ) (rs : List (ChunkHit W))
      → All P rs
      → All P (diversify counts rs)
  diversify-All P counts [] h = unfold diversify in tt
  diversify-All P counts (r ∷ rs) (p, h) = elim (Bool-cases (leb 2 (counts r.post_id))) [
    | inl full ↦ rw (diversify-skip counts r rs full) (diversify-All P counts rs h)
    | inr free ↦
        rw (diversify-keep counts r rs free) (p, diversify-All P (counted r.post_id counts) rs h)
  ]

  pub diversify-Pairwise :
      (R : ChunkHit W → ChunkHit W → Type 0) (counts : Text → ℕ) (rs : List (ChunkHit W))
      → Pairwise R rs
      → Pairwise R (diversify counts rs)
  diversify-Pairwise R counts [] h = unfold diversify in tt
  diversify-Pairwise R counts (r ∷ rs) (p, h) = elim (Bool-cases (leb 2 (counts r.post_id))) [
    | inl full ↦ rw (diversify-skip counts r rs full) (diversify-Pairwise R counts rs h)
    | inr free ↦ rw (diversify-keep counts r rs free) (
      diversify-All (R r) (counted r.post_id counts) rs p,
      diversify-Pairwise R (counted r.post_id counts) rs h,
    )
  ]
