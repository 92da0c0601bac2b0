-- ===== src/Embedding/Kept.antt =====
-- services/embedding.service.ts, `chunkText`: no sentence is lost or cut.
use bubblog_ai.Prelude.{
  ◌+◌, ◌≡◌, ◌⊎◌, inl, inr, refl, ap, sym, subst, ◌∙◌, List, [], ◌∷◌, ◌++◌, arith, All, length, ltb,
  append_assoc, append-nil, Bool-cases,
}
use bubblog_ai.Embedding.{
  Tokens, Chunking, slice_overlap, add_sentence, add_sentences, close_chunk, chunk_text,
}

-- `part` stands somewhere in `whole`.
abbrev pub IsPart : Tokens → Tokens → Type 0
IsPart part whole = (before : Tokens) × (after : Tokens) × (whole ≡ before ++ (part ++ after))

-- A sentence stands in one of the chunks.
abbrev pub IsKept : Tokens → List Tokens → Type 0
IsKept t [] = t ≡ []
IsKept t (c ∷ cs) = IsPart t c ⊎ IsKept t cs

IsPart-append : (t c more : Tokens) → IsPart t c → IsPart t (c ++ more)
IsPart-append t c more (before, after, e) = (
  before,
  after ++ more,
  ap (λ x. x ++ more) e
      ∙ append_assoc before (t ++ after) more
      ∙ ap (λ x. before ++ x) (append_assoc t after more),
)

IsKept-left : (t : Tokens) (cs ds : List Tokens) → IsKept t cs → IsKept t (cs ++ ds)
IsKept-left t [] [] e = e
IsKept-left t [] (d ∷ ds) e = inl ([], d, subst (λ x. d ≡ x ++ d) (sym e) refl)
IsKept-left t (c ∷ cs) ds (inl p) = inl p
IsKept-left t (c ∷ cs) ds (inr k) = inr (IsKept-left t cs ds k)

IsKept-last : (t : Tokens) (cs : List Tokens) (c : Tokens) → IsPart t c → IsKept t (cs ++ (c ∷ []))
IsKept-last t [] c p = inl p
IsKept-last t (d ∷ cs) c p = inr (IsKept-last t cs c p)

-- A sentence stands in a chunk that is done, or in the current one.
abbrev Holds : Tokens → Chunking → Type 0
Holds t s = IsKept t s.chunks ⊎ IsPart t s.current

new-Holds : (s : Chunking) (t : Tokens) → Holds t (add_sentence s t)
unfolding add_sentence
new-Holds s t = elim (Bool-cases (ltb 512 (length s.current + length t))) [
  | inl e ↦ rw (e) (
      inr
        (slice_overlap s.current, [], ap (λ x. slice_overlap s.current ++ x) (sym (append-nil t))))
  | inr e ↦ rw (e) (inr (s.current, [], ap (λ x. s.current ++ x) (sym (append-nil t))))
]

old-Holds : (s : Chunking) (u t : Tokens) → Holds t s → Holds t (add_sentence s u)
unfolding add_sentence
old-Holds s u t (inl k) = elim (Bool-cases (ltb 512 (length s.current + length u))) [
  | inl e ↦ rw (e) (inl (IsKept-left t s.chunks (s.current ∷ []) k))
  | inr e ↦ rw (e) (inl k)
]
old-Holds s u t (inr p) = elim (Bool-cases (ltb 512 (length s.current + length u))) [
  | inl e ↦ rw (e) (inl (IsKept-last t s.chunks s.current p))
  | inr e ↦ rw (e) (inr (IsPart-append t s.current u p))
]

keep-Holds :
    (s : Chunking) (ts : List Tokens) (t : Tokens) → Holds t s → Holds t (add_sentences s ts)
unfolding add_sentences
keep-Holds s [] t h = h
keep-Holds s (u ∷ ts) t h = keep-Holds (add_sentence s u) ts t (old-Holds s u t h)

all-Holds : (s : Chunking) (ts : List Tokens) → All (λ t. Holds t (add_sentences s ts)) ts
unfolding add_sentences
all-Holds s [] = tt
all-Holds s (t ∷ ts) =
    (keep-Holds (add_sentence s t) ts t (new-Holds s t), all-Holds (add_sentence s t) ts)

empty-part : (t before after : Tokens) → [] ≡ before ++ (t ++ after) → t ≡ []
empty-part [] before after e = refl
empty-part (x ∷ t) [] after e = absurd (omega (arith, ap length e))
empty-part (x ∷ t) (y ∷ before) after e = absurd (omega (arith, ap length e))

empty-IsKept : (t : Tokens) (cs : List Tokens) → t ≡ [] → IsKept t cs
empty-IsKept t [] e = e
empty-IsKept t (c ∷ cs) e = inl ([], c, subst (λ x. c ≡ x ++ c) (sym e) refl)

close-IsKept :
    (chunks : List Tokens) (current : Tokens) (t : Tokens)
    → Holds t (record { chunks = chunks; current = current })
    → IsKept t (close_chunk (record { chunks = chunks; current = current }))
close-IsKept chunks [] t (inl k) = k
close-IsKept chunks [] t (inr (before, after, e)) =
    empty-IsKept t chunks (empty-part t before after e)
close-IsKept chunks (x ∷ xs) t (inl k) = IsKept-left t chunks ((x ∷ xs) ∷ []) k
close-IsKept chunks (x ∷ xs) t (inr p) = IsKept-last t chunks (x ∷ xs) p

all-IsKept :
    (s : Chunking) (ts : List Tokens)
    → All (λ t. Holds t s) ts
    → All (λ t. IsKept t (close_chunk s)) ts
all-IsKept s [] h = tt
all-IsKept s (t ∷ ts) (p, h) = (close-IsKept s.chunks s.current t p, all-IsKept s ts h)

-- Each sentence stands as a whole in one of the chunks, whatever its length, unless it has no tokens.
pub chunk_text-keeps : (ts : List Tokens) → All (λ t. IsKept t (chunk_text ts)) ts
unfolding chunk_text
chunk_text-keeps ts =
    let start : Chunking = record { chunks = []; current = [] } in
    all-IsKept (add_sentences start ts) ts (all-Holds start ts)
