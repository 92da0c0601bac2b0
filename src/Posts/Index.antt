-- ===== src/Posts/Index.antt =====
-- repositories/post.repository.ts: the stored embeddings as a map from posts.
use bubblog_ai.Prelude.{
  ℕ, suc, ◌≡◌, inl, inr, refl, ap, true, false, ◌==◌, arith, Bool-cases, Option-cases, Option, none,
  some, List, [], ◌∷◌, ◌++◌, map, All, if◌then◌else◌, append-nil,
}
use mathlib.Core.Path.{fun_ext}
use bubblog_ai.Prelude.Text.{Text}
use bubblog_ai.Prelude.Filter.{filter, find, filter-append}
use bubblog_ai.Posts.Tables.{PostChunk, TitleEmbedding, Blog}
use bubblog_ai.Posts.Store.{store_title_embedding, unnest, without, with_rows}

-- What the tables say of each post: its chunks with their embeddings, in the order of their indices, and the
-- embedding of its title.
pub record Index (W : Type 0) : Type 0 where
  pub contents : ℕ → List (Text × List W)
  pub title : ℕ → Option (List W)

abbrev pub update : {A : Type 0} → ℕ → A → (ℕ → A) → ℕ → A
update p a f q = if q == p then a else f q

module _ {W : Type 0} where
  abbrev pub item_of : PostChunk W → Text × List W
  item_of c = (c.content, c.embedding)

  abbrev embedding_of : Option (TitleEmbedding W) → Option (List W)
  embedding_of none = none
  embedding_of (some t) = some t.embedding

  abbrev pub chunks_of : List (PostChunk W) → ℕ → List (Text × List W)
  chunks_of cs p = map item_of (filter (λ c. c.post_id == p) cs)

  abbrev pub title_in : List (TitleEmbedding W) → ℕ → Option (List W)
  title_in ts p = embedding_of (find (λ t. t.post_id == p) ts)

  abbrev pub index_of : Blog W → Index W
  index_of b = record { contents = chunks_of b.chunks; title = title_in b.titles }

  items-unnest : (p i : ℕ) (xs : List (Text × List W)) → map item_of (unnest p i xs) ≡ xs
  unfolding unnest
  items-unnest p i [] = refl
  items-unnest p i (x ∷ xs) = ap (λ t. x ∷ t) (items-unnest p (suc i) xs)

  unnest-posts : (p i : ℕ) (xs : List (Text × List W)) → All (λ c. c.post_id ≡ p) (unnest p i xs)
  unfolding unnest
  unnest-posts p i [] = tt
  unnest-posts p i (x ∷ xs) = (refl, unnest-posts p (suc i) xs)

  filter-own :
      (q p : ℕ) (cs : List (PostChunk W))
      → All (λ c. c.post_id ≡ p) cs
      → (q == p) ≡ true
      → filter (λ c. c.post_id == q) cs ≡ cs
  unfolding filter
  filter-own q p [] h e = refl
  filter-own q p (c ∷ cs) (k, h) e =
      let own : (c.post_id == q) ≡ true = ground (arith, e, k) in
      rw (own, filter-own q p cs h e) refl

  filter-other :
      (q p : ℕ) (cs : List (PostChunk W))
      → All (λ c. c.post_id ≡ p) cs
      → (q == p) ≡ false
      → filter (λ c. c.post_id == q) cs ≡ []
  unfolding filter
  filter-other q p [] h e = refl
  filter-other q p (c ∷ cs) (k, h) e =
      let other : (c.post_id == q) ≡ false = ground (arith, e, k) in
      rw (other) (filter-other q p cs h e)

  filter-without_other :
      (q p : ℕ) (cs : List (PostChunk W))
      → (q == p) ≡ false
      → filter (λ c. c.post_id == q) (without p cs) ≡ filter (λ c. c.post_id == q) cs
  unfolding without filter
  filter-without_other q p [] e = refl
  filter-without_other q p (c ∷ cs) e = elim (Bool-cases (c.post_id == p)) [
    | inl a ↦
        let other : (c.post_id == q) ≡ false = ground (arith, e, a) in
        rw (a, other) (filter-without_other q p cs e)
    | inr a ↦ elim (Bool-cases (c.post_id == q)) [
      | inl s ↦ rw (a, filter, s, filter-without_other q p cs e) refl
      | inr s ↦ rw (a, filter, s) (filter-without_other q p cs e)
    ]
  ]

  filter-without_own :
      (q p : ℕ) (cs : List (PostChunk W))
      → (q == p) ≡ true
      → filter (λ c. c.post_id == q) (without p cs) ≡ []
  unfolding without filter
  filter-without_own q p [] e = refl
  filter-without_own q p (c ∷ cs) e = elim (Bool-cases (c.post_id == p)) [
    | inl a ↦ rw (a) (filter-without_own q p cs e)
    | inr a ↦
        let other : (c.post_id == q) ≡ false = ground (arith, e, a) in
        rw (a, filter, other) (filter-without_own q p cs e)
  ]

  pub chunks_of-replaced :
      (p : ℕ) (xs : List (Text × List W)) (cs : List (PostChunk W))
      → chunks_of (with_rows p xs (without p cs)) ≡ update p xs (chunks_of cs)
  chunks_of-replaced p xs cs = fun_ext λ q. elim (Bool-cases (q == p)) [
    | inl e ↦
        rw
          (
            filter-append (λ c. c.post_id == q) (without p cs) (unnest p 0 xs),
            filter-without_own q p cs e,
            filter-own q p (unnest p 0 xs) (unnest-posts p 0 xs) e,
            e,
          )
          (items-unnest p 0 xs)
    | inr e ↦
        rw
          (
            filter-append (λ c. c.post_id == q) (without p cs) (unnest p 0 xs),
            filter-without_other q p cs e,
            filter-other q p (unnest p 0 xs) (unnest-posts p 0 xs) e,
            e,
          )
          (ap (map item_of) (append-nil (filter (λ c. c.post_id == q) cs)))
  ]

  abbrev replaced_title : ℕ → List W → TitleEmbedding W → TitleEmbedding W
  replaced_title p e t = if t.post_id == p then record t { embedding = e } else t

  title_in-other :
      (p q : ℕ) (e : List W) (ts : List (TitleEmbedding W))
      → (q == p) ≡ false
      → title_in (map (replaced_title p e) ts) q ≡ title_in ts q
  unfolding find
  title_in-other p q e [] h = refl
  title_in-other p q e (t ∷ ts) h = elim (Bool-cases (t.post_id == p)) [
    | inl a ↦
        let other : (t.post_id == q) ≡ false = ground (arith, h, a) in
        rw (a, other) (title_in-other p q e ts h)
    | inr a ↦ elim (Bool-cases (t.post_id == q)) [
      | inl s ↦ rw (a, s) refl
      | inr s ↦ rw (a, s) (title_in-other p q e ts h)
    ]
  ]

  title_in-own :
      (p q : ℕ) (e : List W) (ts : List (TitleEmbedding W)) (t : TitleEmbedding W)
      → (q == p) ≡ true
      → find (λ t. t.post_id == p) ts ≡ some t
      → title_in (map (replaced_title p e) ts) q ≡ some e
  unfolding find
  title_in-own p q e [] t h f = absurd (ground (arith, f))
  title_in-own p q e (x ∷ ts) t h f = elim (Bool-cases (x.post_id == p)) [
    | inl a ↦ let own : (x.post_id == q) ≡ true = ground (arith, h, a) in rw (a, own) refl
    | inr a ↦
        let other : (x.post_id == q) ≡ false = ground (arith, h, a) in
        rw (a, other) (title_in-own p q e ts t h (rw (a) at f))
  ]

  title_in-added :
      (p : ℕ) (e : List W) (ts : List (TitleEmbedding W)) (q : ℕ)
      → find (λ t. t.post_id == p) ts ≡ none
      → title_in (ts ++ (record { post_id = p; embedding = e } ∷ [])) q
        ≡ update p (some e) (title_in ts) q
  unfolding find
  title_in-added p e [] q f = elim (Bool-cases (q == p)) [
    | inl h ↦ let own : (p == q) ≡ true = ground (arith, h) in rw (own, h) refl
    | inr h ↦ let other : (p == q) ≡ false = ground (arith, h) in rw (other, h) refl
  ]
  title_in-added p e (x ∷ ts) q f = elim (Bool-cases (x.post_id == p)) [
    | inl a ↦ absurd (ground (arith, rw (a) at f))
    | inr a ↦ elim (Bool-cases (x.post_id == q)) [
      | inl s ↦ let other : (q == p) ≡ false = ground (arith, a, s) in rw (s, other) refl
      | inr s ↦ rw (s) (title_in-added p e ts q (rw (a) at f))
    ]
  ]

  pub title_in-store_title_embedding :
      (b : Blog W) (p : ℕ) (e : List W)
      → title_in (store_title_embedding b p e).titles ≡ update p (some e) (title_in b.titles)
  unfolding store_title_embedding
  title_in-store_title_embedding b p e = elim (Option-cases (find (λ t. t.post_id == p) b.titles)) [
    | inl f ↦ fun_ext λ q. rw (store_title_embedding, f) (title_in-added p e b.titles q f)
    | inr (t, f) ↦ fun_ext λ q. elim (Bool-cases (q == p)) [
      | inl h ↦ rw (store_title_embedding, f, h) (title_in-own p q e b.titles t h f)
      | inr h ↦ rw (store_title_embedding, f, h) (title_in-other p q e b.titles h)
    ]
  ]

  pub chunks-kept :
      (b : Blog W) (p : ℕ) (e : List W) → (store_title_embedding b p e).chunks ≡ b.chunks
  unfolding store_title_embedding
  chunks-kept b p e = elim (Option-cases (find (λ t. t.post_id == p) b.titles)) [
    | inl f ↦ rw (store_title_embedding, f) refl
    | inr (t, f) ↦ rw (store_title_embedding, f) refl
  ]

  pub Index-ext : (x y : Index W) → x.contents ≡ y.contents → x.title ≡ y.title → x ≡ y
  Index-ext x y h k = cc
