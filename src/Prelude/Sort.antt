-- ===== src/Prelude/Sort.antt =====
-- A stable sort, as `Array.prototype.sort` and `ORDER BY` make it, and its laws.
use bubblog_ai.Prelude.{
  suc, ◌≡◌, subst, inl, inr, refl, Bool, true, false, List, [], ◌∷◌, arith, All, Pairwise, length,
  Bool-cases, if◌then◌else◌,
}

-- `less a b`: the comparison puts `a` before `b`. Equal items keep their order.
module _ {ℓ} {A : Type ℓ} (less : A → A → Bool) where
  unfoldable pub insert : A → List A → List A
  insert x [] = x ∷ []
  insert x (y ∷ ys) = let rest = insert x ys in if less y x then y ∷ rest else x ∷ y ∷ ys

  unfoldable pub sort : List A → List A
  unfolding insert
  sort [] = []
  sort (x ∷ xs) = insert x (sort xs)

  pub length-insert : (x : A) (xs : List A) → length (insert x xs) ≡ suc (length xs)
  unfolding insert
  length-insert x [] = refl
  length-insert x (y ∷ ys) = ground (arith, length-insert x ys)

  pub length-sort : (xs : List A) → length (sort xs) ≡ length xs
  unfolding sort
  length-sort [] = refl
  length-sort (x ∷ xs) = omega (arith, length-insert x (sort xs), length-sort xs)

  -- No later item stands before an earlier one in the order.
  abbrev pub IsSorted : List A → Type 0
  IsSorted = Pairwise (λ x y. less y x ≡ false)

-- A comparison that never puts two items before one another, and whose "not after" is transitive.
pub record IsOrder {ℓ} {A : Type ℓ} (less : A → A → Bool) : Type ℓ where
  pub asymm : (a b : A) → less a b ≡ true → less b a ≡ false
  pub trans : (a b c : A) → less b a ≡ false → less c b ≡ false → less c a ≡ false

module _ {ℓ κ} {A : Type ℓ} (less : A → A → Bool) (P : A → Type κ) where
  pub insert-All : (x : A) (xs : List A) → P x → All P xs → All P (insert less x xs)
  unfolding insert
  insert-All x [] p h = (p, tt)
  insert-All x (y ∷ ys) p (q, h) =
      All-if (y ∷ insert less x ys) (x ∷ y ∷ ys) (less y x) (q, insert-All x ys p h) (p, (q, h))
    where
      All-if : (us vs : List A) (b : Bool) → All P us → All P vs → All P (if b then us else vs)
      All-if us vs true a c = a
      All-if us vs false a c = c

  pub sort-All : (xs : List A) → All P xs → All P (sort less xs)
  unfolding sort
  sort-All [] h = tt
  sort-All (x ∷ xs) (p, h) = insert-All x (sort less xs) p (sort-All xs h)

  pub All-insert : (x : A) (xs : List A) → All P (insert less x xs) → P x × All P xs
  unfolding insert
  All-insert x [] h = h
  All-insert x (y ∷ ys) h = elim (Bool-cases (less y x)) [
    | inl e ↦
        let k : All P (y ∷ insert less x ys) =
          subst (λ b. All P (if b then y ∷ insert less x ys else x ∷ y ∷ ys)) e h in
        let (p, q) = All-insert x ys k.1 in (p, (k.0, q))
    | inr e ↦ subst (λ b. All P (if b then y ∷ insert less x ys else x ∷ y ∷ ys)) e h
  ]

  -- What holds of all that is sorted holds of all.
  pub All-sort : (xs : List A) → All P (sort less xs) → All P xs
  unfolding sort
  All-sort [] h = tt
  All-sort (x ∷ xs) h = let (p, q) = All-insert x (sort less xs) h in (p, All-sort xs q)

module _ {ℓ} {A : Type ℓ} {less : A → A → Bool} (o : IsOrder less) where
  All-trans :
      (x y : A) (ys : List A)
      → less y x ≡ false
      → All (λ z. less z y ≡ false) ys
      → All (λ z. less z x ≡ false) ys
  All-trans x y [] h k = tt
  All-trans x y (z ∷ zs) h (p, k) = (o.trans x y z h p, All-trans x y zs h k)

  insert-IsSorted : (x : A) (xs : List A) → IsSorted less xs → IsSorted less (insert less x xs)
  unfolding insert
  insert-IsSorted x [] h = (tt, tt)
  insert-IsSorted x (y ∷ ys) (p, h) = elim (Bool-cases (less y x)) [
    | inl before ↦
        rw (before, insert)
          (
            insert-All less (λ z. less z y ≡ false) x ys (o.asymm y x before) p,
            insert-IsSorted x ys h,
          )
    | inr after ↦ rw (after, insert) ((after, All-trans x y ys after p), (p, h))
  ]

  pub sort-IsSorted : (xs : List A) → IsSorted less (sort less xs)
  unfolding sort
  sort-IsSorted [] = tt
  sort-IsSorted (x ∷ xs) = insert-IsSorted x (sort less xs) (sort-IsSorted xs)

-- A symmetric relation between all the items stays one between all the sorted items.
module _ {ℓ κ} {A : Type ℓ} (less : A → A → Bool) (R : A → A → Type κ) where
  insert-Pairwise :
      (x : A) (xs : List A)
      → ((a b : A) → R a b → R b a)
      → All (R x) xs
      → Pairwise R xs
      → Pairwise R (insert less x xs)
  unfolding insert
  insert-Pairwise x [] s p h = (tt, tt)
  insert-Pairwise x (y ∷ ys) s (p, ps) (q, h) = elim (Bool-cases (less y x)) [
    | inl e ↦ rw (e, insert) (insert-All less (R y) x ys (s x y p) q, insert-Pairwise x ys s ps h)
    | inr e ↦ rw (e, insert) ((p, ps), (q, h))
  ]

  pub sort-Pairwise :
      (xs : List A) → ((a b : A) → R a b → R b a) → Pairwise R xs → Pairwise R (sort less xs)
  unfolding sort
  sort-Pairwise [] s h = tt
  sort-Pairwise (x ∷ xs) s (p, h) =
      insert-Pairwise x (sort less xs) s (sort-All less (R x) xs p) (sort-Pairwise xs s h)
