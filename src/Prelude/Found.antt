-- ===== src/Prelude/Found.antt =====
-- What `find` and `filter` of `Array.prototype` give after items are appended, changed or dropped.
use bubblog_ai.Prelude.{
  ◌≡◌, inl, inr, refl, sym, subst, Bool, true, false, Option, none, some, List, [], ◌∷◌, ◌++◌, All,
  arith, if◌then◌else◌, Bool-cases, map,
}
use bubblog_ai.Prelude.Filter.{filter, find}

module _ {A : Type 0} where
  -- A list whose head does not match is searched in its tail.
  pub find-skip :
      (p : A → Bool) (y : A) (xs : List A) (o : Option A)
      → p y ≡ false
      → find p (y ∷ xs) ≡ o
      → find p xs ≡ o
  unfolding find
  find-skip p y xs o d e = subst (λ b. (if b then some y else find p xs) ≡ o) d e

  pub find-true : (p : A → Bool) (xs : List A) (x : A) → find p xs ≡ some x → p x ≡ true
  unfolding find
  find-true p [] x e = absurd (ground (arith, e))
  find-true p (y ∷ ys) x e = elim (Bool-cases (p y)) [
    | inl d ↦ ground (arith, d, subst (λ b. (if b then some y else find p ys) ≡ some x) d e)
    | inr d ↦ find-true p ys x (find-skip p y ys (some x) d e)
  ]

  pub find-All :
      (P : A → Type 0) (p : A → Bool) (xs : List A) (x : A) → All P xs → find p xs ≡ some x → P x
  unfolding find
  find-All P p [] x h e = absurd (ground (arith, e))
  find-All P p (y ∷ ys) x (k, h) e = elim (Bool-cases (p y)) [
    | inl d ↦
        let s : some y ≡ some x = subst (λ b. (if b then some y else find p ys) ≡ some x) d e in
        subst P (cc (s)) k
    | inr d ↦ find-All P p ys x h (find-skip p y ys (some x) d e)
  ]

  -- An item that does not match is not found behind the others.
  pub find-append-miss :
      (p : A → Bool) (xs : List A) (y : A) → p y ≡ false → find p (xs ++ (y ∷ [])) ≡ find p xs
  unfolding find
  find-append-miss p [] y d = rw (d) refl
  find-append-miss p (x ∷ xs) y d = rw (find-append-miss p xs y d) refl

  -- A change of the items that matching does not see.
  pub find-map :
      (p : A → Bool) (f : A → A) (xs : List A)
      → ((x : A) → p (f x) ≡ p x)
      → find p (map f xs) ≡ elim (find p xs) [ none ↦ none | some x ↦ some (f x) ]
  unfolding find
  find-map p f [] h = refl
  find-map p f (x ∷ xs) h = elim (Bool-cases (p x)) [
    | inl d ↦ rw (h x, d) refl
    | inr d ↦ rw (h x, d) (find-map p f xs h)
  ]

  -- The first that matches stays the first if it is kept.
  pub find-filter-kept :
      (p keep : A → Bool) (xs : List A) (x : A)
      → find p xs ≡ some x
      → keep x ≡ true
      → find p (filter keep xs) ≡ some x
  unfolding find filter
  find-filter-kept p keep [] x e k = absurd (ground (arith, e))
  find-filter-kept p keep (y ∷ ys) x e k = elim (Bool-cases (p y)) [
    | inr d ↦
        let rest = find-filter-kept p keep ys x (find-skip p y ys (some x) d e) k in
        elim (Bool-cases (keep y)) [ inl c ↦ rw (c, find, d) rest | inr c ↦ rw (c) rest ]
    | inl d ↦
        let s : some y ≡ some x = subst (λ b. (if b then some y else find p ys) ≡ some x) d e in
        let c : keep y ≡ true = subst (λ z. keep z ≡ true) (sym (cc (s))) k in rw (c, find, d) s
  ]

  -- Without a match there is none among those kept.
  pub find-filter-none :
      (p keep : A → Bool) (xs : List A) → find p xs ≡ none → find p (filter keep xs) ≡ none
  unfolding find filter
  find-filter-none p keep [] e = refl
  find-filter-none p keep (y ∷ ys) e = elim (Bool-cases (p y)) [
    | inl d ↦ absurd (ground (arith, subst (λ b. (if b then some y else find p ys) ≡ none) d e))
    | inr d ↦
        let rest = find-filter-none p keep ys (find-skip p y ys none d e) in
        elim (Bool-cases (keep y)) [ inl c ↦ rw (c, find, d) rest | inr c ↦ rw (c) rest ]
  ]

  pub filter-append-miss :
      (p : A → Bool) (xs : List A) (y : A) → p y ≡ false → filter p (xs ++ (y ∷ [])) ≡ filter p xs
  unfolding filter
  filter-append-miss p [] y d = rw (d) refl
  filter-append-miss p (x ∷ xs) y d = rw (filter-append-miss p xs y d) refl

  -- Dropping others than those that match.
  pub filter-filter-kept :
      (p keep : A → Bool) (xs : List A)
      → ((x : A) → p x ≡ true → keep x ≡ true)
      → filter p (filter keep xs) ≡ filter p xs
  unfolding filter
  filter-filter-kept p keep [] h = refl
  filter-filter-kept p keep (x ∷ xs) h = elim (Bool-cases (keep x)) [
    | inl e ↦ rw (e, filter, filter-filter-kept p keep xs h) refl
    | inr e ↦ elim (Bool-cases (p x)) [
      | inl d ↦ absurd (ground (arith, h x d, e))
      | inr d ↦ rw (e, filter-filter-kept p keep xs h, d) refl
    ]
  ]
