-- ===== src/Embedding/Bounds.antt =====
-- services/embedding.service.ts, `chunkText`: how long a chunk may be.
use bubblog_ai.Prelude.{
  ◌+◌, ◌-◌, ◌≤◌, inl, inr, List, [], ◌∷◌, arith, All, All-append, length, ltb, length-append,
  length-drop, Bool-cases,
}
use bubblog_ai.Embedding.{
  Tokens, Chunking, slice_overlap, add_sentence, add_sentences, close_chunk, chunk_text,
}

slice_overlap-length : (xs : Tokens) → length (slice_overlap xs) ≤ 50
unfolding slice_overlap
slice_overlap-length xs =
    ground (arith, length-drop (length xs - 50) xs, length-drop (length xs - (50 - length xs)) xs)

-- The chunks so far, and the current one, are within the size.
record IsBounded (s : Chunking) : Type 0 where
  done : All (λ c. length c ≤ 512) s.chunks
  rest : length s.current ≤ 512

add_sentence-IsBounded :
    (s : Chunking) (t : Tokens) → length t ≤ 462 → IsBounded s → IsBounded (add_sentence s t)
unfolding add_sentence
add_sentence-IsBounded s t h b = elim (Bool-cases (ltb 512 (length s.current + length t))) [
  | inl e ↦ rw (e) (record {
    done = All-append (λ c. length c ≤ 512) s.chunks (s.current ∷ []) b.done (b.rest, tt);
    rest =
        omega (arith, length-append (slice_overlap s.current) t, slice_overlap-length s.current, h);
  })
  | inr e ↦ rw (e) (record { done = b.done; rest = ground (arith, e, length-append s.current t) })
]

add_sentences-IsBounded :
    (s : Chunking) (ts : List Tokens)
    → All (λ t. length t ≤ 462) ts
    → IsBounded s
    → IsBounded (add_sentences s ts)
unfolding add_sentences
add_sentences-IsBounded s [] h b = b
add_sentences-IsBounded s (t ∷ ts) (p, h) b =
    add_sentences-IsBounded (add_sentence s t) ts h (add_sentence-IsBounded s t p b)

close-bounded :
    (chunks : List Tokens) (current : Tokens)
    → All (λ c. length c ≤ 512) chunks
    → length current ≤ 512
    → All (λ c. length c ≤ 512) (close_chunk (record { chunks = chunks; current = current }))
close-bounded chunks [] h k = h
close-bounded chunks (x ∷ xs) h k =
    All-append (λ c. length c ≤ 512) chunks ((x ∷ xs) ∷ []) h (k, tt)

-- No chunk has more than 512 tokens, if no sentence has more than 462: with the overlap of 50 a longer
-- sentence can make a chunk too long.
pub chunk_text-bounds :
    (ts : List Tokens) → All (λ t. length t ≤ 462) ts → All (λ c. length c ≤ 512) (chunk_text ts)
unfolding chunk_text
chunk_text-bounds ts h =
    let start : Chunking = record { chunks = []; current = [] } in
    let b = add_sentences-IsBounded start ts h (record { done = tt; rest = omega arith }) in
    close-bounded (add_sentences start ts).chunks (add_sentences start ts).current b.done b.rest
