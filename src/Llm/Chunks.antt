-- ===== src/Llm/Chunks.antt =====
-- llm/index.ts: how the provider cuts its text into chunks between characters has no effect on the outer
-- stream.
use bubblog_ai.Prelude.{
  ◌≡◌, refl, sym, ap, ◌∙◌, Option, List, [], ◌∷◌, ◌++◌, map, append_assoc, append-nil, concat, ℕ,
  All,
}
use mathlib.Core.List.{map-append}
use bubblog_ai.Prelude.Text.{Text}
use bubblog_ai.Prelude.Split.{split_blocks, init, last, closed, split_blocks-resume, concat-closed}
use bubblog_ai.Llm.{
  OuterEvent, write, ended, Wrapper, block_answer, flush_blocks, flush_buffer, on_text, on_end,
  on_data, on_data_all, generate_from, Chunk, buffer_chunk, on_chunks, fresh, generate,
}

concat-append : (xs ys : List Text) → concat (xs ++ ys) ≡ concat xs ++ concat ys
concat-append [] ys = refl
concat-append (x ∷ xs) ys = rw (concat-append xs ys) (sym (append_assoc x _ _))

-- What `PassThrough` makes of writes: each string is one Buffer.
abbrev pub buffers : (Text → List ℕ) → List Text → List Chunk
buffers encode texts = map (λ t. buffer_chunk (encode t)) texts

module _ (document : Text → Option Text) where
  abbrev pub answers : List Text → Text
  answers blocks = concat (map (block_answer document) blocks)

  abbrev pub writes : List Text → List OuterEvent
  writes blocks = map (λ b. write (closed b)) blocks

  writes-map : (blocks : List Text) → writes blocks ≡ map write (map closed blocks)
  writes-map [] = refl
  writes-map (b ∷ bs) = ap (λ t. write (closed b) ∷ t) (writes-map bs)

  flush_blocks_lem :
      (w : Wrapper) (blocks : List Text)
      → flush_blocks document w blocks ≡ record w {
        output_text = w.output_text ++ answers blocks;
        outer = w.outer ++ writes blocks;
      }
  unfolding flush_blocks
  flush_blocks_lem w [] = simp append-nil
  flush_blocks_lem w (b ∷ bs) =
      flush_blocks_lem
        (record w {
          output_text = w.output_text ++ block_answer document b;
          outer = w.outer ++ (write (closed b) ∷ []);
        })
        bs
      ∙ simp append_assoc

  on_text_lem :
      (w : Wrapper) (c : Text)
      → on_text document w c ≡ record {
        buffer = last (split_blocks (w.buffer ++ c));
        output_text = w.output_text ++ answers (init (split_blocks (w.buffer ++ c)));
        outer = w.outer ++ writes (init (split_blocks (w.buffer ++ c)));
      }
  unfolding on_text flush_buffer
  on_text_lem w c = flush_blocks_lem _ (init (split_blocks (w.buffer ++ c)))

  -- Two chunks do what one chunk with their text does.
  on_text-append :
      (w : Wrapper) (a b : Text)
      → on_text document (on_text document w a) b ≡ on_text document w (a ++ b)
  on_text-append w a b =
      let (p, q) = split_blocks-resume (w.buffer ++ a) b in
      ap (λ v. on_text document v b) (on_text_lem w a)
      ∙ on_text_lem _ b
      ∙ sym (
          on_text_lem w (a ++ b)
          ∙ rw (← append_assoc w.buffer a b, p, q) (simp (map-append, concat-append, append_assoc)))

  on_chunks_lem :
      (w : Wrapper) (a : Text) (chunks : List Text)
      → on_chunks document (on_text document w a) chunks ≡ on_text document w (a ++ concat chunks)
  unfolding on_chunks
  on_chunks_lem w a [] = rw append-nil
  on_chunks_lem w a (c ∷ cs) =
      ap (λ v. on_chunks document v cs) (on_text-append w a c)
      ∙ on_chunks_lem w (a ++ c) cs
      ∙ ap (on_text document w) (append_assoc a c (concat cs))

  abbrev pub start : Wrapper
  start = fresh document

  on_text-empty : on_text document start [] ≡ start
  unfolding on_text flush_buffer flush_blocks split_blocks
  on_text-empty = refl

  -- Any chunks leave the state that one chunk with the whole text leaves.
  on_chunks-concat :
      (chunks : List Text)
      → on_chunks document start chunks ≡ on_text document start (concat chunks)
  on_chunks-concat chunks =
      ap (λ v. on_chunks document v chunks) (sym on_text-empty) ∙ on_chunks_lem start [] chunks

  generate-concat :
      (strs : List Text) → generate document strs ≡ generate document (concat strs ∷ [])
  unfolding generate on_chunks
  generate-concat strs = ap (on_end document) (on_chunks-concat strs)

  module _ (encode : Text → List ℕ) (decode : List ℕ → Text) where
    on_data_all-buffers :
        (w : Wrapper) (texts : List Text)
        → All (λ t. decode (encode t) ≡ t) texts
        → on_data_all document decode w (buffers encode texts) ≡ on_chunks document w texts
    unfolding on_data_all on_data on_chunks
    on_data_all-buffers w [] h = refl
    on_data_all-buffers w (t ∷ ts) (e, h) =
        ap (λ x. on_data_all document decode (on_text document w x) (buffers encode ts)) e
        ∙ on_data_all-buffers (on_text document w t) ts h

    generate_from-buffers :
        (texts : List Text)
        → All (λ t. decode (encode t) ≡ t) texts
        → generate_from document decode (buffers encode texts)
          ≡ generate document (concat texts ∷ [])
    unfolding generate_from generate
    generate_from-buffers texts h =
        ap (on_end document) (on_data_all-buffers start texts h) ∙ generate-concat texts

    -- Two ways of cutting the text of a provider into writes give the same forwarded events, the same
    -- gathered answer and the same buffer, where each write is decoded by itself to what was written: no
    -- cut goes through a character.
    pub generate_from-cut :
        (texts others : List Text)
        → All (λ t. decode (encode t) ≡ t) texts
        → All (λ t. decode (encode t) ≡ t) others
        → concat texts ≡ concat others
        → generate_from document decode (buffers encode texts)
          ≡ generate_from document decode (buffers encode others)
    generate_from-cut texts others h k e =
        generate_from-buffers texts h
        ∙ ap (λ t. generate document (t ∷ [])) e
        ∙ sym (generate_from-buffers others k)

  -- What the whole text leaves behind, in closed form.
  pub on_chunks-eq :
      (chunks : List Text)
      → on_chunks document start chunks ≡ record {
        buffer = last (split_blocks (concat chunks));
        output_text = answers (init (split_blocks (concat chunks)));
        outer = writes (init (split_blocks (concat chunks)));
      }
  on_chunks-eq chunks = on_chunks-concat chunks ∙ on_text_lem start (concat chunks)

  on_end-outer :
      (buffer answer : Text) (blocks : List Text)
      → (texts : List Text) × ((on_end document
            (record { buffer = buffer; output_text = answer; outer = writes blocks })).outer
          ≡ map write texts ++ (ended ∷ []))
        × (concat texts ≡ concat (map closed blocks) ++ buffer)
  unfolding on_end
  on_end-outer [] answer blocks =
      (map closed blocks, ap (λ t. t ++ (ended ∷ [])) (writes-map blocks), sym (append-nil _))
  on_end-outer (c ∷ buffer) answer blocks = (
    map closed blocks ++ ((c ∷ buffer) ∷ []),
    simp (writes-map, map-append, append_assoc),
    simp (concat-append, append-nil),
  )

  -- When the provider's stream ends, the outer stream has carried exactly the provider's text, then
  -- ends, once and after all its text.
  pub generate-outer :
      (chunks : List Text)
      → (texts : List Text) × ((generate document chunks).outer ≡ map write texts ++ (ended ∷ []))
        × (concat texts ≡ concat chunks)
  unfolding generate
  generate-outer chunks =
      let blocks = split_blocks (concat chunks) in
      let (texts, e, p) = on_end-outer (last blocks) (answers (init blocks)) (init blocks) in
      (texts, rw (on_chunks-eq chunks) e, p ∙ concat-closed (concat chunks))
