-- ===== src/Prelude/Filter.antt =====
-- `filter` and `find` of `Array.prototype`, and their laws.
use bubblog_ai.Prelude.{
  ◌≡◌, inl, inr, refl, Bool, true, false, ◌&&◌, Option, none, some, List, [], ◌∷◌, ◌++◌, All,
  All-append, map, concat, Bool-cases, if◌then◌else◌,
}
use mathlib.Core.List.{Mem, mem-cons_self, mem-cons_of_mem}

module _ {ℓ} {A : Type ℓ} where
  unfoldable pub filter : (A → Bool) → List A → List A
  filter p [] = []
  filter p (x ∷ xs) = let rest = filter p xs in if p x then x ∷ rest else rest

  unfoldable pub find : (A → Bool) → List A → Option A
  find p [] = none
  find p (x ∷ xs) = let rest = find p xs in if p x then some x else rest

  pub filter-append :
      (p : A → Bool) (xs ys : List A) → filter p (xs ++ ys) ≡ filter p xs ++ filter p ys
  unfolding filter
  filter-append p [] ys = refl
  filter-append p (x ∷ xs) ys = elim (Bool-cases (p x)) [
    | inl e ↦ rw (e, filter-append p xs ys) refl
    | inr e ↦ rw (e, filter-append p xs ys) refl
  ]

  pub filter-filter :
      (p q : A → Bool) (xs : List A) → filter q (filter p xs) ≡ filter (λ x. p x && q x) xs
  unfolding filter
  filter-filter p q [] = refl
  filter-filter p q (x ∷ xs) = elim (Bool-cases (p x)) [
    | inl e ↦ rw (e, filter, filter-filter p q xs) refl
    | inr e ↦ rw (e, filter-filter p q xs) refl
  ]

  pub filter-keep : (p : A → Bool) (xs : List A) → All (λ x. p x ≡ true) xs → filter p xs ≡ xs
  unfolding filter
  filter-keep p [] h = refl
  filter-keep p (x ∷ xs) (e, h) = rw (e, filter-keep p xs h) refl

  pub filter-drop : (p : A → Bool) (xs : List A) → All (λ x. p x ≡ false) xs → filter p xs ≡ []
  unfolding filter
  filter-drop p [] h = refl
  filter-drop p (x ∷ xs) (e, h) = rw (e, filter-drop p xs h) refl

  pub find-append-none :
      (p : A → Bool) (xs ys : List A) → All (λ x. p x ≡ false) xs → find p (xs ++ ys) ≡ find p ys
  unfolding find
  find-append-none p [] ys h = refl
  find-append-none p (x ∷ xs) ys (e, h) = rw (e) (find-append-none p xs ys h)

module _ {ℓ κ μ} {A : Type ℓ} {P : A → Type κ} (Q : A → Type μ) where
  pub All-weaken : (xs : List A) → ((x : A) → P x → Q x) → All P xs → All Q xs
  All-weaken [] f h = tt
  All-weaken (x ∷ xs) f (p, h) = (f x p, All-weaken xs f h)

  -- A predicate on the kept items, from the list's own and the test.
  pub filter-All :
      (p : A → Bool) (xs : List A)
      → ((x : A) → p x ≡ true → P x → Q x)
      → All P xs
      → All Q (filter p xs)
  unfolding filter
  filter-All p [] f h = tt
  filter-All p (x ∷ xs) f (q, h) = elim (Bool-cases (p x)) [
    | inl e ↦ rw (e) (f x e q, filter-All p xs f h)
    | inr e ↦ rw (e) (filter-All p xs f h)
  ]

module _ {ℓ} {A : Type ℓ} where
  pub members : (xs : List A) → All (λ x. Mem x xs) xs
  members [] = tt
  members (x ∷ xs) =
      (mem-cons_self, All-weaken (λ y. Mem y (x ∷ xs)) xs (λ y h. mem-cons_of_mem x h) (members xs))

module _ {A B : Type 0} {P : A → Type 0} (Q : B → Type 0) where
  pub map-All : (f : A → B) (xs : List A) → ((x : A) → P x → Q (f x)) → All P xs → All Q (map f xs)
  map-All f [] h k = tt
  map-All f (x ∷ xs) h (p, k) = (h x p, map-All f xs h k)

  pub concat-map-All :
      (f : A → List B) (xs : List A)
      → ((x : A) → P x → All Q (f x))
      → All P xs
      → All Q (concat (map f xs))
  concat-map-All f [] h k = tt
  concat-map-All f (x ∷ xs) h (p, k) =
      All-append Q (f x) (concat (map f xs)) (h x p) (concat-map-All f xs h k)
