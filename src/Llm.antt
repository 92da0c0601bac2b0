-- ===== src/Llm.antt =====
-- llm/index.ts: the wrapper that forwards a provider's stream and gathers the answer text.
pub mod Answers
pub mod Chunks
pub mod OpenAi
pub mod Gemini
pub mod Providers
pub mod Delivery
use bubblog_ai.Prelude.{
  ℕ, Bool, true, false, ◌&&◌, not, Option, none, some, List, [], ◌∷◌, ◌++◌, if◌then◌else◌, drop,
}
use bubblog_ai.Prelude.Text.{Text, codes, text_eq, starts_with, is_empty, trim}
use bubblog_ai.Prelude.Split.{split_lines, split_blocks, init, last, closed}
use bubblog_ai.Sse.{is_answer, decode_data}

-- What the reader of the outer stream sees.
pub data OuterEvent : Type 0 where
  write : Text → OuterEvent
  ended : OuterEvent
  failed : OuterEvent

-- A chunk of the provider's stream: a Buffer with its bytes, or anything else as a string.
pub data Chunk : Type 0 where
  buffer_chunk : List ℕ → Chunk
  string_chunk : Text → Chunk

-- `decode` is `toString('utf8')`, which reads each Buffer by itself: the bytes of a character that is cut
-- become replacement characters.
abbrev pub chunk_string : (List ℕ → Text) → Chunk → Text
chunk_string decode (buffer_chunk bytes) = decode bytes
chunk_string decode (string_chunk str) = str

pub record Wrapper : Type 0 where
  pub buffer : Text
  pub output_text : Text
  pub outer : List OuterEvent

-- The variables `evt` and `dataLine` of `flushBuffer`.
pub record Fields : Type 0 where
  pub evt : Option Text
  pub data_line : Option Text

abbrev no_fields : Fields
no_fields = record { evt = none; data_line = none }

read_event : Fields → Text → Fields
read_event f line =
    if starts_with (codes "event:") line then record f { evt = some (trim (drop 6 line)) } else f

read_data : Fields → Text → Fields
read_data f line =
    if starts_with (codes "data:") line
    then record f { data_line = some (trim (drop 5 line)) }
    else f

read_lines : Fields → List Text → Fields
read_lines f [] = f
read_lines f (line ∷ lines) = read_lines (read_data (read_event f line) line) lines

-- `document` is the one of `Sse`.
module _ (document : Text → Option Text) where
  answer_of : Option Text → Text
  answer_of none = []
  answer_of (some d) = if is_empty d then [] else decode_data document d

  fields_answer : Fields → Text
  unfolding answer_of
  fields_answer f = if is_answer f.evt then answer_of f.data_line else []

  -- What a block adds to `outputText`.
  pub block_answer : Text → Text
  unfolding fields_answer read_lines read_data read_event
  block_answer block = fields_answer (read_lines no_fields (split_lines block))

  flush_blocks : Wrapper → List Text → Wrapper
  flush_blocks w [] = w
  flush_blocks w (block ∷ blocks) =
      flush_blocks
        (record w {
          output_text = w.output_text ++ block_answer block;
          outer = w.outer ++ (write (closed block) ∷ []);
        })
        blocks

  flush_buffer : Wrapper → Wrapper
  unfolding flush_blocks
  flush_buffer w =
      let chunks = split_blocks w.buffer in
      flush_blocks (record w { buffer = last chunks }) (init chunks)

  -- `buffer += str; flushBuffer();`
  on_text : Wrapper → Text → Wrapper
  unfolding flush_buffer
  on_text w str = flush_buffer (record w { buffer = w.buffer ++ str })

  -- providerStream.on('data')
  on_data : (List ℕ → Text) → Wrapper → Chunk → Wrapper
  unfolding on_text
  on_data decode w chunk = on_text w (chunk_string decode chunk)

  -- providerStream.on('end')
  pub on_end : Wrapper → Wrapper
  on_end w =
      if is_empty w.buffer
      then record w { outer = w.outer ++ (ended ∷ []) }
      else record w { buffer = []; outer = w.outer ++ (write w.buffer ∷ ended ∷ []) }

  -- providerStream.on('error')
  on_error : Wrapper → Wrapper
  on_error w = record w { outer = w.outer ++ (failed ∷ []) }

  pub on_chunks : Wrapper → List Text → Wrapper
  on_chunks w [] = w
  on_chunks w (str ∷ strs) = on_chunks (on_text w str) strs

  abbrev pub fresh : Wrapper
  fresh = record { buffer = []; output_text = []; outer = [] }

  -- A provider stream that ends, by the strings of its chunks. All that the providers write in an event is
  -- made by `JSON.stringify`, which escapes a lone surrogate, so that each of their chunks is decoded to
  -- the text that was written.
  unfoldable pub generate : List Text → Wrapper
  unfolding on_chunks on_end on_text block_answer
  generate strs = on_end (on_chunks fresh strs)

  on_data_all : (List ℕ → Text) → Wrapper → List Chunk → Wrapper
  unfolding on_data
  on_data_all decode w [] = w
  on_data_all decode w (chunk ∷ chunks) = on_data_all decode (on_data decode w chunk) chunks

  -- A provider stream that ends, by its chunks.
  unfoldable pub generate_from : (List ℕ → Text) → List Chunk → Wrapper
  unfolding on_data_all on_end
  generate_from decode chunks = on_end (on_data_all decode fresh chunks)
