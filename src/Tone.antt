-- ===== src/Tone.antt =====
-- services/replace-tone.service.ts: an answer in another tone is taken only if its length is near that of
-- the original.
use bubblog_ai.Prelude.{
  ◌*◌, ◌≤◌, ◌≡◌, refl, Bool, ◌||◌, Option, none, some, List, [], ◌∷◌, ◌++◌, concat, arith, length,
  ltb, if◌then◌else◌, Bool-cases, inl, inr, subst,
}
use bubblog_ai.Prelude.Text.{Text, trim, is_empty}
use bubblog_ai.Sse.{extract_answer_text}

-- What `generate` and its stream do: it throws, the stream fails, or it ends after its chunks.
pub data Rewriting : Type 0 where
  refused : Rewriting
  broken : List Text → Rewriting
  finished : List Text → Rewriting

module _ (document : Text → Option Text) where
  -- The variable `buffer` after the chunks.
  unfoldable pub collected : List Text → Text
  unfolding extract_answer_text
  collected [] = []
  collected (chunk ∷ chunks) = concat (extract_answer_text document chunk) ++ collected chunks

  -- `collectAnswerFromStream`
  unfoldable pub collect_answer_from_stream : Rewriting → Option Text
  unfolding collected trim
  collect_answer_from_stream refused = none
  collect_answer_from_stream (broken chunks) = none
  collect_answer_from_stream (finished chunks) = some (trim (collected chunks))

  -- The ratio of the lengths is below 0.5 or above 1.5.
  abbrev pub out_of_bounds : Text → Text → Bool
  out_of_bounds original rewritten =
      ltb (2 * length rewritten) (length original)
      || ltb (3 * length original) (2 * length rewritten)

  abbrev pub check_rewritten : Text → Option Text → Option Text
  check_rewritten original none = none
  check_rewritten original (some rewritten) =
      if is_empty rewritten
      then none
      else if out_of_bounds original rewritten
      then none
      else some rewritten

  unfoldable pub rewrite_tone : Text → Rewriting → Option Text
  unfolding collect_answer_from_stream trim
  rewrite_tone answer r =
      if is_empty (trim answer)
      then none
      else check_rewritten (trim answer) (collect_answer_from_stream r)

  checked :
      (original : Text) (o : Option Text) (t : Text)
      → check_rewritten original o ≡ some t
      → (o ≡ some t)
        × (1 ≤ length t)
        × (length original ≤ 2 * length t)
        × (2 * length t ≤ 3 * length original)
  checked original none t e = absurd (ground (arith, e))
  checked original (some []) t e = absurd (ground (arith, e))
  checked original (some (x ∷ xs)) t e = elim (Bool-cases (out_of_bounds original (x ∷ xs))) [
    | inl d ↦ absurd (ground (arith, subst (λ b. (if b then none else some (x ∷ xs)) ≡ some t) d e))
    | inr d ↦
        let k : some (x ∷ xs) ≡ some t =
          subst (λ b. (if b then none else some (x ∷ xs)) ≡ some t) d e in
        let same : x ∷ xs ≡ t = cc in
        subst
          (λ u.
            (some (x ∷ xs) ≡ some u)
            × (1 ≤ length u)
            × (length original ≤ 2 * length u)
            × (2 * length u ≤ 3 * length original))
          same (refl, omega arith, ground (arith, d), ground (arith, d))
  ]

  -- A rewritten answer is what the model sent, trimmed; it is not empty, and between half and one and a
  -- half times as long as the original, trimmed.
  pub rewrite_tone-bounds :
      (answer t : Text) (r : Rewriting)
      → rewrite_tone answer r ≡ some t
      → (collect_answer_from_stream r ≡ some t)
        × (1 ≤ length t)
        × (length (trim answer) ≤ 2 * length t)
        × (2 * length t ≤ 3 * length (trim answer))
  unfolding rewrite_tone
  rewrite_tone-bounds answer t r e = elim (Bool-cases (is_empty (trim answer))) [
    | inl d ↦ absurd (ground (arith, d, e))
    | inr d ↦ checked (trim answer) (collect_answer_from_stream r) t (ground (arith, d, e))
  ]
