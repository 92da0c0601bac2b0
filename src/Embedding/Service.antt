-- ===== src/Embedding/Service.antt =====
-- services/embedding.service.ts and the handlers of controllers/ai.controller.ts that embed a title or a
-- content: from the text to the tables of repositories/post.repository.ts.
use bubblog_ai.Prelude.{
  ℕ, ◌≡◌, refl, ap, Bool, true, false, ◌||◌, Option, none, some, List, [], ◌∷◌, map, length,
  if◌then◌else◌,
}
use bubblog_ai.Prelude.Options.{◌>>=◌}
use bubblog_ai.Prelude.Text.{Text}
use bubblog_ai.Repository.{Outcome, returned, threw}
use bubblog_ai.Embedding.{Tokens, chunk_text}
use bubblog_ai.Embedding.Sentences.{split_sentences}
use bubblog_ai.Posts.Store.{Pool, Choices, store_title_embedding, store_content_embeddings}
use bubblog_ai.Posts.Index.{update, index_of}
use bubblog_ai.Posts.Content.{on_one, store_content_embeddings-Stored, content-refines}

-- The tokenizer, with the decoder of its bytes. `encode` of tiktoken throws on a text with a special token
-- such as `<|endoftext|>`, which is `none`.
pub record Tokenizer : Type 0 where
  pub encode : Text → Option Tokens
  pub decode : Tokens → Text

-- The embeddings of OpenAI: one for each text, in order, unless the call throws.
pub record EmbeddingApi (W : Type 0) : Type 0 where
  pub fails : List Text → Bool
  pub embed : Text → List W

-- The sentences are encoded one after the other, and the first that throws ends `chunkText`.
abbrev pub encode_all : Tokenizer → List Text → Option (List Tokens)
encode_all k [] = some []
encode_all k (t ∷ ts) = do first ← k.encode t; rest ← encode_all k ts; some (first ∷ rest)

-- `chunkText`
unfoldable pub text_chunks : Tokenizer → Text → Option (List Text)
unfolding chunk_text split_sentences
text_chunks k content = do
  sentences ← encode_all k (split_sentences content)
  some (map k.decode (chunk_text sentences))

module _ {W : Type 0} (api : EmbeddingApi W) where
  abbrev pub create_embeddings : List Text → Option (List (List W))
  create_embeddings texts = if api.fails texts then none else some (map api.embed texts)

  -- The one statement of a title, which may be refused.
  abbrev pub stored_first : Bool → ℕ → Option (List (List W)) → Pool W → Pool W × Outcome
  stored_first refused post_id (some (e ∷ _)) s =
      if refused
      then (s, threw)
      else (record s { blog = store_title_embedding s.blog post_id e }, returned)
  stored_first refused post_id _ s = (s, threw)

  -- `embedTitleHandler`, which replies with 200, or passes an error on.
  unfoldable pub embed_title_handler : Bool → ℕ → Text → Pool W → Pool W × Outcome
  unfolding store_title_embedding
  embed_title_handler refused post_id title s =
      stored_first refused post_id (create_embeddings (title ∷ [])) s

  -- The rows that `UNNEST` makes of both arrays.
  abbrev pub paired : List Text → List (List W) → List (Text × List W)
  paired (t ∷ ts) (e ∷ es) = (t, e) ∷ paired ts es
  paired _ _ = []

  -- `chunk_count`, or none where an error is passed on.
  abbrev pub counted : List Text → Pool W × Outcome → Pool W × Option ℕ
  counted chunks (s, returned) = (s, some (length chunks))
  counted chunks (s, threw) = (s, none)

  abbrev pub stored_chunks :
      Choices → ℕ → List Text → Option (List (List W)) → Pool W → Pool W × Option ℕ
  stored_chunks k post_id chunks none s = (s, none)
  stored_chunks k post_id chunks (some es) s =
      counted chunks (store_content_embeddings k post_id (paired chunks es) s)

  abbrev pub embedded_chunks : Choices → ℕ → Option (List Text) → Pool W → Pool W × Option ℕ
  embedded_chunks k post_id none s = (s, none)
  embedded_chunks k post_id (some chunks) s =
      stored_chunks k post_id chunks (create_embeddings chunks) s

  -- `embedContentHandler`
  unfoldable pub embed_content_handler : Tokenizer → Choices → ℕ → Text → Pool W → Pool W × Option ℕ
  unfolding text_chunks store_content_embeddings
  embed_content_handler t k post_id content s = embedded_chunks k post_id (text_chunks t content) s

  -- The chunks with their embeddings.
  abbrev pub embedded : List Text → List (Text × List W)
  embedded texts = map (λ t. (t, api.embed t)) texts

  paired-embedded : (texts : List Text) → paired texts (map api.embed texts) ≡ embedded texts
  paired-embedded [] = refl
  paired-embedded (t ∷ ts) = ap (λ x. (t, api.embed t) ∷ x) (paired-embedded ts)

  counted-outcome :
      (chunks : List Text) (fails : Bool) (r : Pool W × Outcome)
      → r.1 ≡ (if fails then threw else returned)
      → counted chunks r ≡ (r.0, if fails then none else some (length chunks))
  counted-outcome chunks true (s, threw) e = refl
  counted-outcome chunks false (s, returned) e = refl
  counted-outcome chunks true (s, returned) e = absurd (cc (e))
  counted-outcome chunks false (s, threw) e = absurd (cc (e))

  -- The chunks of the post are replaced, and their number is answered, or nothing is changed and an error is
  -- passed on; no transaction is left open.
  pub record Replaced (p : ℕ) (chunks : List Text) (fails : Bool) (s : Pool W)
      (r : Pool W × Option ℕ) : Type 0 where
    pub tables : index_of r.0.blog ≡ (
        if fails then index_of s.blog else record (index_of s.blog) {
          contents = update p (embedded chunks) (index_of s.blog).contents;
        })
    pub idle : r.0.held ≡ none
    pub answer : r.1 ≡ (if fails then none else some (length chunks))

  -- What is left where the text cannot be cut: an error, and the pool as it was.
  abbrev pub Handled : ℕ → Option (List Text) → Bool → Pool W → Pool W × Option ℕ → Type 0
  Handled p none refused s r = r ≡ (s, none)
  Handled p (some chunks) refused s r = Replaced p chunks (api.fails chunks || refused) s r

  stored_chunks-Replaced :
      (c p : ℕ) (f g h i refused : Bool) (chunks : List Text) (s : Pool W)
      → s.held ≡ none
      → api.fails chunks ≡ refused
      → Replaced p chunks
          (refused || (f || g || h || i))
          s
          (stored_chunks (on_one c f g h i) p chunks (create_embeddings chunks) s)
  stored_chunks-Replaced c p f g h i true chunks s idle e =
      rw (e) (record { tables = refl; idle = idle; answer = refl })
  stored_chunks-Replaced c p f g h i false chunks s idle e =
      let t = store_content_embeddings-Stored c p (embedded chunks) f g h i s idle in
      let out = store_content_embeddings (on_one c f g h i) p (embedded chunks) s in
      rw (e, paired-embedded chunks, counted-outcome chunks (f || g || h || i) out t.outcome)
        (record {
          tables = content-refines s.blog _ p (embedded chunks) (f || g || h || i) t.blog;
          idle = t.idle;
          answer = refl;
        })

  -- On a pool with no open transaction, and with all statements on one connection, a request to embed a
  -- content that the tokenizer can encode replaces the chunks of its post with those of the text, each with
  -- its embedding, and answers with their number; where the call of the API throws or a statement is refused,
  -- it changes nothing and passes an error on. No other post and no title is touched, and no transaction is
  -- left open. A content that the tokenizer cannot encode changes nothing, and an error is passed on.
  pub embed_content_handler-Replaced :
      (t : Tokenizer) (c p : ℕ) (f g h i : Bool) (content : Text) (s : Pool W)
      → s.held ≡ none
      → Handled p
          (text_chunks t content)
          (f || g || h || i)
          s
          (embed_content_handler t (on_one c f g h i) p content s)
  unfolding embed_content_handler
  embed_content_handler-Replaced t c p f g h i content s idle = go (text_chunks t content)
    where
      go :
          (o : Option (List Text))
          → Handled p o (f || g || h || i) s (embedded_chunks (on_one c f g h i) p o s)
      go none = refl
      go (some chunks) = stored_chunks-Replaced c p f g h i (api.fails chunks) chunks s idle refl
