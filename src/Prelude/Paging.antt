-- ===== src/Prelude/Paging.antt =====
-- Pages of a sorted table, fetched one after another by the cursor of the last row.
use bubblog_ai.Prelude.{
  ◌≡◌, ◌⊎◌, inl, inr, refl, sym, ap, ◌∙◌, Bool, true, false, ◌&&◌, List, [], ◌∷◌, ◌++◌, arith, All,
  Bool-cases, subst,
}
use bubblog_ai.Prelude.Filter.{filter, filter-filter, filter-keep, All-weaken, filter-All}
use bubblog_ai.Prelude.Sort.{insert, sort, IsSorted, IsOrder, insert-All, sort-All, sort-IsSorted}

module _ {ℓ} {A : Type ℓ} (less : A → A → Bool) where
  -- The order tells any two of the rows apart.
  abbrev pub Apart : List A → Type 0
  Apart [] = Unit
  Apart (x ∷ xs) = All (λ y. (less x y ≡ true) ⊎ (less y x ≡ true)) xs × Apart xs

  abbrev pub IsStrict : List A → Type 0
  IsStrict [] = Unit
  IsStrict (x ∷ xs) = All (λ y. less x y ≡ true) xs × IsStrict xs

  swap : (x y : A) → (less x y ≡ true) ⊎ (less y x ≡ true) → (less y x ≡ true) ⊎ (less x y ≡ true)
  swap x y (inl e) = inr e
  swap x y (inr e) = inl e

  insert-Apart :
      (x : A) (xs : List A)
      → All (λ y. (less x y ≡ true) ⊎ (less y x ≡ true)) xs
      → Apart xs
      → Apart (insert less x xs)
  unfolding insert
  insert-Apart x [] h k = (tt, tt)
  insert-Apart x (y ∷ ys) (p, h) (q, k) = elim (Bool-cases (less y x)) [
    | inl e ↦ rw (e) (
      insert-All less (λ z. (less y z ≡ true) ⊎ (less z y ≡ true)) x ys (inl e) q,
      insert-Apart x ys h k,
    )
    | inr e ↦ rw (e) ((p, h), (q, k))
  ]

  pub sort-Apart : (xs : List A) → Apart xs → Apart (sort less xs)
  unfolding sort
  sort-Apart [] h = tt
  sort-Apart (x ∷ xs) (p, h) =
      insert-Apart x (sort less xs)
        (sort-All less (λ y. (less x y ≡ true) ⊎ (less y x ≡ true)) xs p) (sort-Apart xs h)

  before :
      (x : A) (ys : List A)
      → All (λ y. less y x ≡ false) ys
      → All (λ y. (less x y ≡ true) ⊎ (less y x ≡ true)) ys
      → All (λ y. less x y ≡ true) ys
  before x [] h k = tt
  before x (y ∷ ys) (p, h) (inl e, k) = (e, before x ys h k)
  before x (y ∷ ys) (p, h) (inr e, k) = absurd (ground (arith, e, p))

  strict : (xs : List A) → IsSorted less xs → Apart xs → IsStrict xs
  strict [] h k = tt
  strict (x ∷ xs) (p, h) (q, k) = (before x xs p q, strict xs h k)

  filter-Apart : (p : A → Bool) (xs : List A) → Apart xs → Apart (filter p xs)
  unfolding filter
  filter-Apart p [] h = tt
  filter-Apart p (x ∷ xs) (q, h) = elim (Bool-cases (p x)) [
    | inl e ↦ rw (e) (
      filter-All (λ y. (less x y ≡ true) ⊎ (less y x ≡ true)) p xs (λ y _ a. a) q,
      filter-Apart p xs h,
    )
    | inr e ↦ rw (e) (filter-Apart p xs h)
  ]

module _ {ℓ} {A : Type ℓ} {less : A → A → Bool} (o : IsOrder less) where
  insert-first : (x : A) (xs : List A) → All (λ y. less y x ≡ false) xs → insert less x xs ≡ x ∷ xs
  unfolding insert
  insert-first x [] h = refl
  insert-first x (y ∷ ys) (e, h) = rw (e) refl

  after-All :
      (x y : A) (ys : List A)
      → less y x ≡ false
      → All (λ z. less z y ≡ false) ys
      → All (λ z. less z x ≡ false) (y ∷ ys)
  after-All x y ys e h = (e, All-weaken (λ z. less z x ≡ false) ys (λ z k. o.trans x y z e k) h)

  filter-insert :
      (p : A → Bool) (x : A) (xs : List A)
      → IsSorted less xs
      → p x ≡ true
      → filter p (insert less x xs) ≡ insert less x (filter p xs)
  unfolding filter insert
  filter-insert p x [] h k = rw (k) refl
  filter-insert p x (y ∷ ys) (q, h) k = elim (Bool-cases (less y x)) [
    | inr e ↦
        rw
          (
            e,
            filter,
            k,
            insert-first x (filter p (y ∷ ys))
                (filter-All (λ z. less z x ≡ false) p (y ∷ ys) (λ z _ a. a) (after-All x y ys e q)),
          )
          refl
    | inl e ↦ elim (Bool-cases (p y)) [
      | inl d ↦ rw (e, filter, d, filter-insert p x ys h k, insert, e) refl
      | inr d ↦ rw (e, filter, d, filter-insert p x ys h k) refl
    ]
  ]

  filter-insert_skip :
      (p : A → Bool) (x : A) (xs : List A) → p x ≡ false → filter p (insert less x xs) ≡ filter p xs
  unfolding filter insert
  filter-insert_skip p x [] k = rw (k) refl
  filter-insert_skip p x (y ∷ ys) k = elim (Bool-cases (less y x)) [
    | inr e ↦ rw (e, filter, k) refl
    | inl e ↦ elim (Bool-cases (p y)) [
      | inl d ↦ rw (e, filter, d, filter-insert_skip p x ys k) refl
      | inr d ↦ rw (e, filter, d, filter-insert_skip p x ys k) refl
    ]
  ]

  pub sort-filter : (p : A → Bool) (xs : List A) → sort less (filter p xs) ≡ filter p (sort less xs)
  unfolding filter sort
  sort-filter p [] = refl
  sort-filter p (x ∷ xs) = elim (Bool-cases (p x)) [
    | inl e ↦
        rw (e, sort, sort-filter p xs, filter-insert p x (sort less xs) (sort-IsSorted o xs) e) refl
    | inr e ↦ rw (e, sort-filter p xs, filter-insert_skip p x (sort less xs) e) refl
  ]

  irrefl : (c : A) → less c c ≡ false
  irrefl c = elim (Bool-cases (less c c)) [ inl e ↦ o.asymm c c e | inr e ↦ e ]

  All-at :
      (x c : A) (pre post : List A)
      → All (λ y. less x y ≡ true) (pre ++ c ∷ post)
      → less c x ≡ false
  All-at x c [] post (e, h) = o.asymm x c e
  All-at x c (y ∷ pre) post (e, h) = All-at x c pre post h

  -- The rows that the cursor's row precedes are those that come after it.
  filter-after :
      (c : A) (pre post : List A)
      → IsStrict less (pre ++ c ∷ post)
      → filter (less c) (pre ++ c ∷ post) ≡ post
  unfolding filter
  filter-after c [] post (h, k) = rw (irrefl c, filter-keep (less c) post h) refl
  filter-after c (x ∷ pre) post (h, k) = rw (All-at x c pre post h, filter-after c pre post k) refl

  -- The page that the cursor of the row `c` selects starts right behind that row.
  pub next_page :
      (p : A → Bool) (rows : List A) (c : A) (pre post : List A)
      → Apart less rows
      → sort less (filter p rows) ≡ pre ++ c ∷ post
      → sort less (filter (λ r. p r && less c r) rows) ≡ post
  next_page p rows c pre post apart e =
      ap (sort less) (sym (filter-filter p (less c) rows))
      ∙ sort-filter (less c) (filter p rows)
      ∙ ap (filter (less c)) e
      ∙ filter-after c pre post (
          subst (IsStrict less) e (
            strict less (sort less (filter p rows)) (sort-IsSorted o (filter p rows))
              (sort-Apart less (filter p rows) (filter-Apart less p rows apart))))
