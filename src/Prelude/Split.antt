-- ===== src/Prelude/Split.antt =====
-- `s.split('\n')`, `s.split('\n\n')`, `join`, and how a text may be split piece by piece.
use bubblog_ai.Prelude.{
  ℕ, ◌≡◌, refl, ap, true, false, ◌&&◌, List, [], ◌∷◌, ◌++◌, append_assoc, arith, Bool-cases, inl,
  inr, ◌==◌, if◌then◌else◌, ◌∙◌, sym, map, concat,
}
use bubblog_ai.Prelude.Text.{Text, IsLine}

abbrev pub cons_head : ℕ → List Text → List Text
cons_head c [] = (c ∷ []) ∷ []
cons_head c (x ∷ xs) = (c ∷ x) ∷ xs

unfoldable pub split_lines : Text → List Text
split_lines [] = [] ∷ []
split_lines (c ∷ s) = let rest = split_lines s in if c == 10 then [] ∷ rest else cons_head c rest

unfoldable pub split_blocks : Text → List Text
split_blocks [] = [] ∷ []
split_blocks (c ∷ []) = (c ∷ []) ∷ []
split_blocks (c ∷ d ∷ s) = elim ((c == 10) && (d == 10)) [
  | true ↦ [] ∷ split_blocks s
  | false ↦ cons_head c (split_blocks (d ∷ s))
]

-- What `pop` leaves, and what it returns (`|| ''` for the empty list).
abbrev pub init : List Text → List Text
init [] = []
init (x ∷ []) = []
init (x ∷ y ∷ ys) = x ∷ init (y ∷ ys)

abbrev pub last : List Text → Text
last [] = []
last (x ∷ []) = x
last (x ∷ y ∷ ys) = last (y ∷ ys)

-- `pieces.join('\n\n')`, `pieces.join('\n')`
abbrev pub join_blocks : List Text → Text
join_blocks [] = []
join_blocks (x ∷ []) = x
join_blocks (x ∷ y ∷ ys) = x ++ (10 ∷ 10 ∷ join_blocks (y ∷ ys))

abbrev pub join_lines : List Text → Text
join_lines [] = []
join_lines (x ∷ []) = x
join_lines (x ∷ y ∷ ys) = x ++ (10 ∷ join_lines (y ∷ ys))

join_blocks-cons_head : (c : ℕ) (xs : List Text) → join_blocks (cons_head c xs) ≡ c ∷ join_blocks xs
join_blocks-cons_head c [] = refl
join_blocks-cons_head c (x ∷ []) = refl
join_blocks-cons_head c (x ∷ y ∷ ys) = refl

cons_head-shape :
    (c : ℕ) (xs : List Text) → (x : Text) × (ys : List Text) × (cons_head c xs ≡ x ∷ ys)
cons_head-shape c [] = (_, _, refl)
cons_head-shape c (x ∷ xs) = (_, _, refl)

split_blocks-break :
    (c d : ℕ) (s : Text)
    → ((c == 10) && (d == 10)) ≡ true
    → split_blocks (c ∷ d ∷ s) ≡ [] ∷ split_blocks s
unfolding split_blocks
split_blocks-break c d s e = ground arith

split_blocks-keep :
    (c d : ℕ) (s : Text)
    → ((c == 10) && (d == 10)) ≡ false
    → split_blocks (c ∷ d ∷ s) ≡ cons_head c (split_blocks (d ∷ s))
unfolding split_blocks
split_blocks-keep c d s e = ground arith

-- A split text has at least one piece.
split_blocks-shape : (s : Text) → (x : Text) × (ys : List Text) × (split_blocks s ≡ x ∷ ys)
split_blocks-shape [] = ([], [], unfold split_blocks in refl)
split_blocks-shape (c ∷ []) = (c ∷ [], [], unfold split_blocks in refl)
split_blocks-shape (c ∷ d ∷ s) = elim (Bool-cases ((c == 10) && (d == 10))) [
  | inl two ↦ ([], split_blocks s, split_blocks-break c d s two)
  | inr other ↦
      let (x, ys, e) = cons_head-shape c (split_blocks (d ∷ s)) in
      (x, ys, split_blocks-keep c d s other ∙ e)
]

join_blocks-nil_cons :
    (xs : List Text) (x : Text) (ys : List Text)
    → xs ≡ x ∷ ys
    → join_blocks ([] ∷ xs) ≡ 10 ∷ 10 ∷ join_blocks xs
join_blocks-nil_cons xs x ys e = rw e

-- Splitting loses nothing.
pub join_blocks-split_blocks : (s : Text) → join_blocks (split_blocks s) ≡ s
join_blocks-split_blocks [] = unfold split_blocks in refl
join_blocks-split_blocks (c ∷ []) = unfold split_blocks in refl
join_blocks-split_blocks (c ∷ d ∷ s) = elim (Bool-cases ((c == 10) && (d == 10))) [
  | inl two ↦
      let (x, ys, e) = split_blocks-shape s in
      ap join_blocks (split_blocks-break c d s two)
      ∙ join_blocks-nil_cons _ x ys e
      ∙ ground (arith, join_blocks-split_blocks s)
  | inr other ↦
      ap join_blocks (split_blocks-keep c d s other)
      ∙ join_blocks-cons_head c (split_blocks (d ∷ s))
      ∙ ap (λ t. c ∷ t) (join_blocks-split_blocks (d ∷ s))
]

-- What stays to be split once the complete blocks of `a` are known.
abbrev Resumes : Text → Text → List Text → Type 0
Resumes a b xs = split_blocks (a ++ b) ≡ init xs ++ split_blocks (last xs ++ b)

Resumes-break :
    (c d : ℕ) (s b : Text) (xs : List Text) (x : Text) (ys : List Text)
    → ((c == 10) && (d == 10)) ≡ true
    → xs ≡ x ∷ ys
    → Resumes s b xs
    → Resumes (c ∷ d ∷ s) b ([] ∷ xs)
Resumes-break c d s b xs x ys two e ih =
    split_blocks-break c d (s ++ b) two ∙ rw e (ap (λ t. [] ∷ t) (rw e at ih))

Resumes-keep :
    (c d : ℕ) (s b : Text) (xs : List Text)
    → ((c == 10) && (d == 10)) ≡ false
    → join_blocks xs ≡ d ∷ s
    → Resumes (d ∷ s) b xs
    → Resumes (c ∷ d ∷ s) b (cons_head c xs)
Resumes-keep c d s b [] other j ih = cc
Resumes-keep c d s b (x ∷ []) other j ih = rw j
Resumes-keep c d s b (x ∷ y ∷ ys) other j ih =
    split_blocks-keep c d (s ++ b) other ∙ ap (cons_head c) ih

-- A text that arrives in two parts splits as a whole does: the complete blocks of the first part,
-- then those of its rest with the second part behind it.
pub split_blocks-append :
    (a b : Text)
    → split_blocks (a ++ b) ≡ init (split_blocks a) ++ split_blocks (last (split_blocks a) ++ b)
split_blocks-append [] b = unfold split_blocks in refl
split_blocks-append (c ∷ []) b = unfold split_blocks in refl
split_blocks-append (c ∷ d ∷ s) b = elim (Bool-cases ((c == 10) && (d == 10))) [
  | inl two ↦
      let (x, ys, e) = split_blocks-shape s in
      rw (split_blocks-break c d s two)
        (Resumes-break c d s b (split_blocks s) x ys two e (split_blocks-append s b))
  | inr other ↦ rw (split_blocks-keep c d s other) (
      Resumes-keep c d s b _ other (join_blocks-split_blocks (d ∷ s))
        (split_blocks-append (d ∷ s) b))
]

-- The complete blocks, each with its blank line, and the rest make up the text.
abbrev pub closed : Text → Text
closed block = block ++ (10 ∷ 10 ∷ [])

join_blocks-cons :
    (x : Text) (xs : List Text)
    → join_blocks (x ∷ xs) ≡ concat (map closed (init (x ∷ xs))) ++ last (x ∷ xs)
join_blocks-cons x [] = refl
join_blocks-cons x (y ∷ ys) = rw (join_blocks-cons y ys) (simp append_assoc)

pub concat-closed :
    (s : Text) → concat (map closed (init (split_blocks s))) ++ last (split_blocks s) ≡ s
concat-closed s =
    let (x, ys, e) = split_blocks-shape s in
    rw e (sym (join_blocks-cons x ys) ∙ rw (← e) (join_blocks-split_blocks s))

module _ (rest : Text) where
  pub split_blocks-line :
      (c : ℕ) (x : Text)
      → IsLine (c ∷ x)
      → split_blocks ((c ∷ x) ++ (10 ∷ 10 ∷ rest)) ≡ (c ∷ x) ∷ split_blocks rest
  split_blocks-line c [] (p, _) =
      split_blocks-keep c 10 (10 ∷ rest) (ground arith)
      ∙ ap (cons_head c) (split_blocks-break 10 10 rest refl)
  split_blocks-line c (d ∷ x) (p, h) =
      split_blocks-keep c d (x ++ (10 ∷ 10 ∷ rest)) (ground arith)
      ∙ ap (cons_head c) (split_blocks-line d x h)

  pub split_lines-line :
      (x : Text) → IsLine x → split_lines (x ++ (10 ∷ rest)) ≡ x ∷ split_lines rest
  unfolding split_lines
  split_lines-line [] h = refl
  split_lines-line (c ∷ x) (p, h) = ground (arith, split_lines-line x h)

pub split_lines-one : (x : Text) → IsLine x → split_lines x ≡ x ∷ []
unfolding split_lines
split_lines-one [] h = refl
split_lines-one (c ∷ x) (p, h) = ground (arith, split_lines-one x h)

pub init-append :
    (xs ys : List Text) (y : Text) (zs : List Text)
    → ys ≡ y ∷ zs
    → (init (xs ++ ys) ≡ xs ++ init ys) × (last (xs ++ ys) ≡ last ys)
init-append [] ys y zs e = (refl, refl)
init-append (x ∷ []) ys y zs e = (rw e, rw e)
init-append (x ∷ x' ∷ xs) ys y zs e =
    let (p, q) = init-append (x' ∷ xs) ys y zs e in (ap (λ t. x ∷ t) p, q)

-- The complete blocks and the rest of a text in two parts.
pub split_blocks-resume :
    (a b : Text)
    → (init (split_blocks (a ++ b))
        ≡ init (split_blocks a) ++ init (split_blocks (last (split_blocks a) ++ b)))
      × (last (split_blocks (a ++ b)) ≡ last (split_blocks (last (split_blocks a) ++ b)))
split_blocks-resume a b =
    let (y, zs, e) = split_blocks-shape (last (split_blocks a) ++ b) in
    rw (split_blocks-append a b) (init-append _ _ y zs e)
