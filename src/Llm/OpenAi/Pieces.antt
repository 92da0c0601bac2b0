-- ===== src/Llm/OpenAi/Pieces.antt =====
-- llm/providers/openai-responses.ts: the loop that cuts an unstreamed answer into pieces.
use bubblog_ai.Prelude.{
  ℕ, zero, suc, ◌+◌, ◌*◌, ◌≤◌, ◌<◌, ◌≡◌, refl, sym, ap, ◌∙◌, [], ◌∷◌, ◌++◌, arith, ltb, length,
  take, drop, concat, All, take-append-drop, length-drop, length-take, Bool-cases, inl, inr, true,
  false,
}
use bubblog_ai.Prelude.Text.{Text}
use bubblog_ai.Llm.OpenAi.{pieces_from, chunk_size}

drop-nil : (n : ℕ) → drop {A = ℕ} n [] ≡ []
drop-nil zero = refl
drop-nil (suc n) = refl

drop-drop : (n m : ℕ) (t : Text) → drop m (drop n t) ≡ drop (n + m) t
drop-drop zero m t = ap (λ k. drop k t) (omega arith)
drop-drop (suc n) m [] = drop-nil m ∙ sym (drop-nil (suc n + m))
drop-drop (suc n) m (c ∷ t) =
    let e : suc n + m ≡ suc (n + m) = omega arith in rw e (drop-drop n m t)

drop_past : (n : ℕ) (t : Text) → length t ≤ n → drop n t ≡ []
drop_past zero [] h = refl
drop_past zero (c ∷ t) h = absurd (omega arith)
drop_past (suc n) [] h = refl
drop_past (suc n) (c ∷ t) h = drop_past n t (omega arith)

pieces_from-stop : (fuel i : ℕ) (t : Text) → ltb i (length t) ≡ false → pieces_from fuel i t ≡ []
unfolding pieces_from
pieces_from-stop zero i t e = refl
pieces_from-stop (suc fuel) i t e = rw e

pieces_from-go :
    (fuel i : ℕ) (t : Text)
    → ltb i (length t) ≡ true
    → pieces_from (suc fuel) i t ≡ take chunk_size (drop i t) ∷ pieces_from fuel (i + chunk_size) t
unfolding pieces_from
pieces_from-go fuel i t e = rw e

concat-pieces_from :
    (fuel i : ℕ) (t : Text)
    → length t ≤ i + fuel * chunk_size
    → concat (pieces_from fuel i t) ≡ drop i t
concat-pieces_from zero i t h = unfold pieces_from in sym (drop_past i t (omega arith))
concat-pieces_from (suc fuel) i t h = elim (Bool-cases (ltb i (length t))) [
  | inl more ↦ rw (pieces_from-go fuel i t more) (
      ap (λ s. take chunk_size (drop i t) ++ s)
        (concat-pieces_from fuel (i + chunk_size) t (omega arith) ∙ sym (drop-drop i chunk_size t))
      ∙ take-append-drop chunk_size (drop i t))
  | inr done ↦ rw (pieces_from-stop (suc fuel) i t done) (sym (drop_past i t (ground arith)))
]

-- The fuel that the length gives is enough: the pieces, in order, make up the text.
pub concat-pieces : (t : Text) → concat (pieces_from (length t) 0 t) ≡ t
concat-pieces t = concat-pieces_from (length t) 0 t (omega arith)

-- No piece is empty, and none is longer than the chunk size.
pub pieces_from-bounds :
    (fuel i : ℕ) (t : Text)
    → All (λ p. (0 < length p) × (length p ≤ chunk_size)) (pieces_from fuel i t)
pieces_from-bounds zero i t = unfold pieces_from in tt
pieces_from-bounds (suc fuel) i t = elim (Bool-cases (ltb i (length t))) [
  | inl more ↦ rw (pieces_from-go fuel i t more) (
    (
      ground (arith, length-take chunk_size (drop i t), length-drop i t),
      omega (arith, length-take chunk_size (drop i t)),
    ),
    pieces_from-bounds fuel (i + chunk_size) t,
  )
  | inr done ↦ rw (pieces_from-stop (suc fuel) i t done) tt
]
