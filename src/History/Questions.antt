-- ===== src/History/Questions.antt =====
-- services/session-history.service.ts, `buildDuplicateQuestionBlock`: the text that is embedded to find
-- duplicate questions.
use bubblog_ai.Prelude.{
  length-append, suc, ◌+◌, ◌≤◌, ℕ, suc, ◌+◌, ◌≤◌, ◌≡◌, ◌≢◌, inl, inr, refl, ap, sym, subst, ◌∙◌,
  Bool, true, false, not, arith, leb, ◌==◌, ◌&&◌, ◌||◌, List, [], ◌∷◌, ◌++◌, All, All-append,
  All-take, Bool-cases, if◌then◌else◌, take, length, length-take, length-append,
}
use mathlib.Core.List.{reverse, reverse-cons}
use bubblog_ai.Prelude.Text.{Text, trim, trim_start, is_space, codes, IsLine}
use bubblog_ai.Prelude.Split.{split_lines, split_lines-line, split_lines-one}
use bubblog_ai.Repository.{AskMessage}
use bubblog_ai.History.{
  collapse, normalize_question_text, sections, recent_questions, build_duplicate_question_block,
  join, previous_far, previous_near, current,
}

cut-length :
    (u : Text) (n : ℕ)
    → length (if (suc n == 0) || leb (length u) (suc n) then u else take (suc n) u) ≤ suc n
cut-length u n = ground (arith, length-take (suc n) u)

normalize-length : (t : Text) (n : ℕ) → length (normalize_question_text t (suc n)) ≤ suc n
unfolding normalize_question_text
normalize-length t n = cut-length (trim (collapse false t)) n

visible : (c : ℕ) → is_space c ≡ false → c ≢ 10
visible c e d = ground (arith, e, d)

collapse-IsLine : (b : Bool) (t : Text) → IsLine (collapse b t)
unfolding collapse
collapse-IsLine b [] = tt
collapse-IsLine b (c ∷ t) = elim (Bool-cases (is_space c)) [
  | inr e ↦
      rw (e) (visible c e, subst (λ x. IsLine (collapse x t)) e (collapse-IsLine (is_space c) t))
  | inl e ↦ rw (e) (spaced b t (collapse-IsLine true t))
]
  where
    spaced :
        (b : Bool) (t : Text)
        → IsLine (collapse true t)
        → IsLine (if b then collapse true t else 32 ∷ collapse true t)
    spaced true t h = h
    spaced false t h = (omega arith, h)

trim_start-IsLine : (t : Text) → IsLine t → IsLine (trim_start t)
unfolding trim_start
trim_start-IsLine [] h = tt
trim_start-IsLine (c ∷ t) (p, h) = elim (Bool-cases (is_space c)) [
  | inl e ↦ rw (trim_start, e) (trim_start-IsLine t h)
  | inr e ↦ rw (trim_start, e) (p, h)
]

reverse-IsLine : (t : Text) → IsLine t → IsLine (reverse t)
reverse-IsLine [] h = tt
reverse-IsLine (c ∷ t) (p, h) =
    subst IsLine (sym (reverse-cons c t))
      (All-append (λ c. c ≢ 10) (reverse t) (c ∷ []) (reverse-IsLine t h) (p, tt))

trim-IsLine : (t : Text) → IsLine t → IsLine (trim t)
unfolding trim
trim-IsLine t h = reverse-IsLine (trim_start (reverse (trim_start t))) (
    trim_start-IsLine (reverse (trim_start t))
      (reverse-IsLine (trim_start t) (trim_start-IsLine t h)))

normalize-IsLine : (t : Text) (n : ℕ) → IsLine (normalize_question_text t n)
unfolding normalize_question_text
normalize-IsLine t n =
    cut ((n == 0) || leb (length (trim (collapse false t))) n) (trim (collapse false t))
      (trim-IsLine (collapse false t) (collapse-IsLine false t))
  where
    cut : (b : Bool) (u : Text) → IsLine u → IsLine (if b then u else take n u)
    cut true u h = h
    cut false u h = All-take (λ c. c ≢ 10) n u h

labelled : (label t : Text) (n : ℕ) → IsLine label → IsLine (label ++ normalize_question_text t n)
labelled label t n h =
    All-append (λ c. c ≢ 10) label (normalize_question_text t n) h (normalize-IsLine t n)

abbrev no_break : Text → Bool
no_break [] = true
no_break (c ∷ t) = not (c == 10) && no_break t

no_break-IsLine : (t : Text) → no_break t ≡ true → IsLine t
no_break-IsLine [] e = tt
no_break-IsLine (c ∷ t) e = (ground (arith, e), no_break-IsLine t (ground (arith, e)))

far_label : (t : Text) → IsLine (codes "[Q-2] " ++ normalize_question_text t previous_far)
far_label t = labelled (codes "[Q-2] ") t previous_far (no_break-IsLine (codes "[Q-2] ") refl)

near_label : (t : Text) → IsLine (codes "[Q-1] " ++ normalize_question_text t previous_near)
near_label t = labelled (codes "[Q-1] ") t previous_near (no_break-IsLine (codes "[Q-1] ") refl)

now_label : (t : Text) → IsLine (codes "[Q-now] " ++ normalize_question_text t current)
now_label t = labelled (codes "[Q-now] ") t current (no_break-IsLine (codes "[Q-now] ") refl)

sections-IsLine : (recent : List Text) (question : Text) → All IsLine (sections recent question)
unfolding sections
sections-IsLine [] question = (now_label question, tt)
sections-IsLine (a ∷ []) question = (near_label a, (now_label question, tt))
sections-IsLine (a ∷ b ∷ []) question = (far_label a, (near_label b, (now_label question, tt)))
sections-IsLine (a ∷ b ∷ c ∷ r) question = (now_label question, tt)

split_lines-join :
    (t : Text) (ts : List Text) → All IsLine (t ∷ ts) → split_lines (join (t ∷ ts)) ≡ t ∷ ts
split_lines-join t [] (p, h) = split_lines-one t p
split_lines-join t (u ∷ us) (p, h) =
    split_lines-line (join (u ∷ us)) t p ∙ ap (λ r. t ∷ r) (split_lines-join u us h)

sections-lines :
    (recent : List Text) (question : Text)
    → split_lines (join (sections recent question)) ≡ sections recent question
unfolding sections
sections-lines [] question =
    split_lines-join (codes "[Q-now] " ++ normalize_question_text question current) []
      (sections-IsLine [] question)
sections-lines (a ∷ []) question =
    split_lines-join (codes "[Q-1] " ++ normalize_question_text a previous_near)
      ((codes "[Q-now] " ++ normalize_question_text question current) ∷ [])
      (sections-IsLine (a ∷ []) question)
sections-lines (a ∷ b ∷ []) question =
    split_lines-join (codes "[Q-2] " ++ normalize_question_text a previous_far)
      ((codes "[Q-1] " ++ normalize_question_text b previous_near)
        ∷ (codes "[Q-now] " ++ normalize_question_text question current)
        ∷ [])
      (sections-IsLine (a ∷ b ∷ []) question)
sections-lines (a ∷ b ∷ c ∷ r) question =
    split_lines-join (codes "[Q-now] " ++ normalize_question_text question current) []
      (sections-IsLine [] question)

far_length : (t : Text) → length (codes "[Q-2] " ++ normalize_question_text t previous_far) ≤ 406
far_length t = omega (
  arith,
  length-append (codes "[Q-2] ") (normalize_question_text t previous_far),
  normalize-length t 399,
)

near_length : (t : Text) → length (codes "[Q-1] " ++ normalize_question_text t previous_near) ≤ 606
near_length t = omega (
  arith,
  length-append (codes "[Q-1] ") (normalize_question_text t previous_near),
  normalize-length t 599,
)

now_length : (t : Text) → length (codes "[Q-now] " ++ normalize_question_text t current) ≤ 808
now_length t = omega (
  arith,
  length-append (codes "[Q-now] ") (normalize_question_text t current),
  normalize-length t 799,
)

join-length :
    (a b : Text) (m n : ℕ) → length a ≤ m → length b ≤ n → length (a ++ 10 ∷ b) ≤ m + suc n
join-length a b m n h k = omega (arith, length-append a (10 ∷ b), h, k)

sections-length :
    (recent : List Text) (question : Text) → length (join (sections recent question)) ≤ 1822
unfolding sections
sections-length [] question = omega (arith, now_length question)
sections-length (a ∷ []) question =
    let now : Text = codes "[Q-now] " ++ normalize_question_text question current in
    omega (
      arith,
      join-length (codes "[Q-1] " ++ normalize_question_text a previous_near) now 606 808
          (near_length a) (now_length question),
    )
sections-length (a ∷ b ∷ []) question =
    let now : Text = codes "[Q-now] " ++ normalize_question_text question current in
    let near : Text = codes "[Q-1] " ++ normalize_question_text b previous_near in
    omega (
      arith,
      join-length (codes "[Q-2] " ++ normalize_question_text a previous_far) (near ++ 10 ∷ now) 406
          1415 (far_length a) (join-length near now 606 808 (near_length b) (now_length question)),
    )
sections-length (a ∷ b ∷ c ∷ r) question = omega (arith, now_length question)

-- The block has a line for each of its questions, at most two of them from the history and the last one
-- the question itself, and no more than 1822 units.
pub build_duplicate_question_block-lines :
    (question : Text) (history : List AskMessage)
    → (split_lines (build_duplicate_question_block question history)
        ≡ sections (recent_questions history) question)
      × (length (build_duplicate_question_block question history) ≤ 1822)
unfolding build_duplicate_question_block
build_duplicate_question_block-lines question history = (
  sections-lines (recent_questions history) question,
  sections-length (recent_questions history) question,
)
