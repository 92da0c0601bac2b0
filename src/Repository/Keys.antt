-- ===== src/Repository/Keys.antt =====
-- Rows found by a key that no two of them share.
use bubblog_ai.Prelude.{
  ℕ, ◌≡◌, ◌≢◌, inl, inr, refl, sym, subst, ◌∙◌, Bool, true, false, Option, none, some, List, [],
  ◌∷◌, ◌++◌, All, arith, ◌==◌, if◌then◌else◌, Bool-cases, Option-cases, ◌&&◌, ◌<◌,
}
use bubblog_ai.Prelude.Filter.{All-weaken, find-append-none, filter, find, filter-All}
use bubblog_ai.Prelude.Found.{find-skip, find-true, find-All, find-filter-kept, find-filter-none}
use bubblog_ai.Repository.Order.{Distinct}

module _ {A : Type 0} (id : A → ℕ) where
  -- The row with a key.
  abbrev pub at : ℕ → List A → Option A
  at i xs = find (λ x. id x == i) xs

  at-none : (i : ℕ) (xs : List A) → All (λ x. i ≢ id x) xs → at i xs ≡ none
  unfolding find
  at-none i [] h = refl
  at-none i (x ∷ xs) (k, h) =
      let d : (id x == i) ≡ false = ground (arith, k) in rw (d) (at-none i xs h)

  -- A row that is dropped leaves none with its key.
  at-dropped :
      (keep : A → Bool) (i : ℕ) (xs : List A) (x : A)
      → Distinct id xs
      → at i xs ≡ some x
      → keep x ≡ false
      → at i (filter keep xs) ≡ none
  unfolding find filter
  at-dropped keep i [] x h e k = refl
  at-dropped keep i (y ∷ ys) x (n, h) e k = elim (Bool-cases (id y == i)) [
    | inr d ↦
        let rest = at-dropped keep i ys x h (find-skip (λ z. id z == i) y ys (some x) d e) k in
        elim (Bool-cases (keep y)) [ inl c ↦ rw (c, find, d) rest | inr c ↦ rw (c) rest ]
    | inl d ↦
        let s : some y ≡ some x = subst (λ b. (if b then some y else at i ys) ≡ some x) d e in
        let c : keep y ≡ false = subst (λ z. keep z ≡ false) (sym (cc (s))) k in
        rw (c) (
          at-none i (filter keep ys)
            (filter-All (λ z. i ≢ id z) keep ys (λ z _ q. ground (arith, d, q)) n))
  ]

  -- What is found among the rows that are kept was found before.
  pub at-filter :
      (keep : A → Bool) (i : ℕ) (xs : List A) (x : A)
      → Distinct id xs
      → at i (filter keep xs) ≡ some x
      → (at i xs ≡ some x) × (keep x ≡ true)
  at-filter keep i xs x h e = elim (Option-cases (at i xs)) [
    | inl n ↦ absurd (ground (arith, e, find-filter-none (λ z. id z == i) keep xs n))
    | inr (y, s) ↦ elim (Bool-cases (keep y)) [
      | inr k ↦ absurd (ground (arith, e, at-dropped keep i xs y h s k))
      | inl k ↦
          let same : some y ≡ some x = sym (find-filter-kept (λ z. id z == i) keep xs y s k) ∙ e in
          (s ∙ same, subst (λ z. keep z ≡ true) (cc (same)) k)
    ]
  ]

  -- A row found by its key and a condition is the one found by its key.
  pub at-only :
      (q : A → Bool) (i : ℕ) (xs : List A) (x : A)
      → Distinct id xs
      → find (λ y. (id y == i) && q y) xs ≡ some x
      → at i xs ≡ some x
  unfolding find
  at-only q i [] x h e = absurd (ground (arith, e))
  at-only q i (y ∷ ys) x (n, h) e = elim (Bool-cases ((id y == i) && q y)) [
    | inl d ↦
        let s : some y ≡ some x =
          subst (λ b. (if b then some y else find (λ y. (id y == i) && q y) ys) ≡ some x) d e in
        let c : (id y == i) ≡ true = ground (arith, d) in rw (c) s
    | inr d ↦
        let rest = find-skip (λ z. (id z == i) && q z) y ys (some x) d e in
        let found = at-only q i ys x h rest in
        elim (Bool-cases (id y == i)) [
          | inr c ↦ rw (c) found
          | inl c ↦ absurd (
              ground (
                arith,
                c,
                find-All (λ z. id y ≢ id z) (λ z. id z == i) ys x n found,
                find-true (λ z. id z == i) ys x found,
              ))
        ]
  ]

  -- The row that is added last is found by its key, if those before it have lower ones.
  pub at-last :
      (xs : List A) (x : A) → All (λ y. id y < id x) xs → at (id x) (xs ++ (x ∷ [])) ≡ some x
  unfolding find
  at-last xs x h =
      find-append-none (λ y. id y == id x) xs (x ∷ [])
        (All-weaken (λ y. (id y == id x) ≡ false) xs (λ y k. ground (arith, k)) h)
      ∙ (let d : (id x == id x) ≡ true = ground arith in rw (d) refl)
