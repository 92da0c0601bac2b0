-- ===== src/Embedding/Sentences.antt =====
-- services/embedding.service.ts, `content.split(/(?<=[.?!])\s+/)`: the sentences of a text.
use bubblog_ai.Prelude.{
  ℕ, ◌≡◌, inl, inr, refl, Bool, not, ◌||◌, ◌==◌, List, [], ◌∷◌, concat, Bool-cases, if◌then◌else◌,
}
use bubblog_ai.Prelude.Text.{Text, is_space}
use bubblog_ai.Prelude.Filter.{filter}

-- Before the next unit: inside a sentence, behind a mark that may end it, or in the spaces behind it.
pub data Reading : Type 0 where
  inside stopped spaces : Reading

abbrev pub is_stop : ℕ → Bool
is_stop c = (c == 46) || (c == 63) || (c == 33)

abbrev pub in_sentence : ℕ → Reading
in_sentence c = if is_stop c then stopped else inside

abbrev pub next_reading : Reading → ℕ → Reading
next_reading inside c = in_sentence c
next_reading stopped c = if is_space c then spaces else in_sentence c
next_reading spaces c = if is_space c then spaces else in_sentence c

-- A unit in front of the first sentence.
abbrev pub put : ℕ → List Text → List Text
put c [] = (c ∷ []) ∷ []
put c (t ∷ ts) = (c ∷ t) ∷ ts

abbrev pub read_unit : Reading → ℕ → List Text → List Text
read_unit inside c ts = put c ts
read_unit stopped c ts = if is_space c then [] ∷ ts else put c ts
read_unit spaces c ts = if is_space c then ts else put c ts

-- What is left of the sentence that is read, and the others.
unfoldable pub split_from : Reading → Text → List Text
split_from r [] = [] ∷ []
split_from r (c ∷ t) = read_unit r c (split_from (next_reading r c) t)

unfoldable pub split_sentences : Text → List Text
unfolding split_from
split_sentences t = split_from inside t

abbrev pub visible : Text → Text
visible t = filter (λ c. not (is_space c)) t

put-visible :
    (c : ℕ) (ts : List Text)
    → visible (concat (put c ts))
      ≡ (if not (is_space c) then c ∷ visible (concat ts) else visible (concat ts))
unfolding filter
put-visible c [] = refl
put-visible c (t ∷ ts) = refl

split_from-visible : (r : Reading) (t : Text) → visible (concat (split_from r t)) ≡ visible t
unfolding filter split_from
split_from-visible r [] = refl
split_from-visible inside (c ∷ t) =
    rw (put-visible c (split_from (in_sentence c) t), split_from-visible (in_sentence c) t) refl
split_from-visible stopped (c ∷ t) = elim (Bool-cases (is_space c)) [
  | inl e ↦ rw (e) (split_from-visible spaces t)
  | inr e ↦
      rw (e, put-visible c (split_from (in_sentence c) t), e, split_from-visible (in_sentence c) t)
        refl
]
split_from-visible spaces (c ∷ t) = elim (Bool-cases (is_space c)) [
  | inl e ↦ rw (e) (split_from-visible spaces t)
  | inr e ↦
      rw (e, put-visible c (split_from (in_sentence c) t), e, split_from-visible (in_sentence c) t)
        refl
]

-- The sentences, one after the other, are the text but for spaces.
pub split_sentences-visible : (t : Text) → visible (concat (split_sentences t)) ≡ visible t
unfolding split_sentences
split_sentences-visible t = split_from-visible inside t
