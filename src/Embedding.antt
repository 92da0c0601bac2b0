-- ===== src/Embedding.antt =====
-- services/embedding.service.ts, `chunkText`: the chunks as lists of tokens. The sentences come as
-- `split` and the tokenizer give them, and the decoding of a chunk is left out.
pub mod Bounds
pub mod Kept
pub mod Sentences
pub mod Service
use bubblog_ai.Prelude.{
  ◌⊎◌, refl, ap, sym, subst, ◌∙◌, append_assoc, append-nil, ℕ, zero, suc, ◌+◌, ◌-◌, ◌≤◌, ◌≡◌, ◌≢◌,
  ◌⊎◌, inl, inr, refl, ap, sym, subst, ◌∙◌, Bool, true, false, List, [], ◌∷◌, ◌++◌, arith, All,
  All-append, length, drop, ltb, leb, if◌then◌else◌, length-append, length-drop, append_assoc,
  append-nil, Bool-cases,
}

abbrev pub Tokens : Type 0
Tokens = List ℕ

abbrev pub chunk_size : ℕ
chunk_size = 512

abbrev pub chunk_overlap : ℕ
chunk_overlap = 50

-- `xs.slice(xs.length - overlap)`: a negative start counts from the end.
unfoldable pub slice_overlap : Tokens → Tokens
slice_overlap xs =
    if leb chunk_overlap (length xs)
    then drop (length xs - chunk_overlap) xs
    else drop (length xs - (chunk_overlap - length xs)) xs

-- `chunks` and `currentChunk`.
pub record Chunking : Type 0 where
  pub chunks : List Tokens
  pub current : Tokens

unfoldable pub add_sentence : Chunking → Tokens → Chunking
unfolding slice_overlap
add_sentence s sentence =
    if ltb chunk_size (length s.current + length sentence)
    then record {
      chunks = s.chunks ++ (s.current ∷ []);
      current = slice_overlap s.current ++ sentence;
    }
    else record s { current = s.current ++ sentence }

unfoldable pub add_sentences : Chunking → List Tokens → Chunking
unfolding add_sentence
add_sentences s [] = s
add_sentences s (t ∷ ts) = add_sentences (add_sentence s t) ts

abbrev pub close_chunk : Chunking → List Tokens
close_chunk s = elim s.current [ [] ↦ s.chunks | _ ∷ _ ↦ s.chunks ++ (s.current ∷ []) ]

unfoldable pub chunk_text : List Tokens → List Tokens
unfolding add_sentences
chunk_text sentences = close_chunk (add_sentences (record { chunks = []; current = [] }) sentences)
