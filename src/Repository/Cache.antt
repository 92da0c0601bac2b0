-- ===== src/Repository/Cache.antt =====
-- repositories/ask-question-cache.repository.ts. The index on the embeddings is taken to be exact.
use bubblog_ai.Prelude.{
  ℕ, ◌-◌, Bool, true, false, ◌&&◌, not, Option, none, some, List, [], ◌∷◌, ◌++◌, map, ◌==◌,
  if◌then◌else◌, take, length,
}
use bubblog_ai.Prelude.Text.{Text, text_eq}
use bubblog_ai.Prelude.Int.{ℤ}
use bubblog_ai.Prelude.Filter.{filter, find}
use bubblog_ai.Prelude.Sort.{sort}
use bubblog_ai.Repository.{refers, CacheRow, Db, Tx}

-- The operators of pgvector: `similarity a b` is `1 - (a <=> b)`, `closer q a b` tells whether
-- `a <-> q` is less than `b <-> q`, and `below` compares two similarities.
pub record Vectors (E S : Type 0) : Type 0 where
  pub similarity : E → E → S
  pub closer : E → E → E → Bool
  pub below : S → S → Bool
  pub threshold : S
  pub is_blank : E → Bool

pub record EmbeddingInput (E : Type 0) : Type 0 where
  pub message_id : ℕ
  pub owner_user_id : Text
  pub requester_user_id : Text
  pub category_id : Option ℕ
  pub post_id : Option ℕ
  pub answer_message_id : Option ℕ
  pub speech_tone_id : ℤ
  pub embedding : E

pub record SimilarMessage (S : Type 0) : Type 0 where
  pub message_id : ℕ
  pub answer_message_id : Option ℕ
  pub speech_tone_id : ℤ
  pub similarity : S

-- `IS NOT DISTINCT FROM`
abbrev pub same_id : Option ℕ → Option ℕ → Bool
same_id none none = true
same_id (some a) (some b) = a == b
same_id _ _ = false

module _ {E : Type 0} where
  -- The filters of `findSimilarEmbeddings` on post and category.
  abbrev pub scope_matches : Option ℕ → Option ℕ → CacheRow E → Bool
  scope_matches (some p) category row = same_id row.post_id (some p)
  scope_matches none category row = same_id row.post_id none && same_id row.category_id category

  abbrev pub is_candidate : Text → Option ℕ → Option ℕ → CacheRow E → Bool
  is_candidate owner post category row =
      text_eq row.owner_user_id owner && scope_matches post category row

  abbrev pub conflicts : ℕ → CacheRow E → Bool
  conflicts i row = row.message_id == i

  abbrev pub inserted : EmbeddingInput E → ℕ → CacheRow E
  inserted params now = record {
    message_id = params.message_id;
    owner_user_id = params.owner_user_id;
    requester_user_id = params.requester_user_id;
    category_id = params.category_id;
    post_id = params.post_id;
    answer_message_id = params.answer_message_id;
    speech_tone_id = params.speech_tone_id;
    embedding = params.embedding;
    created_at = now;
    updated_at = now;
  }

  abbrev pub overwritten : EmbeddingInput E → ℕ → CacheRow E → CacheRow E
  overwritten params now row = record row {
    category_id = params.category_id;
    post_id = params.post_id;
    answer_message_id = params.answer_message_id;
    speech_tone_id = params.speech_tone_id;
    embedding = params.embedding;
    updated_at = now;
  }

  -- `INSERT ... ON CONFLICT (message_id) DO UPDATE`
  abbrev pub upserted : EmbeddingInput E → ℕ → List (CacheRow E) → List (CacheRow E)
  upserted params now rows = elim (find (conflicts params.message_id) rows) [
    | none ↦ rows ++ (inserted params now ∷ [])
    | some _ ↦
        map (λ row. if conflicts params.message_id row then overwritten params now row else row)
          rows
  ]

  unfoldable pub upsert_embedding : EmbeddingInput E → Tx E Unit
  unfolding find
  upsert_embedding params db =
      if refers db.messages (some params.message_id) && refers db.messages params.answer_message_id
      then some (tt, record db { cache = upserted params db.now db.cache })
      else none

  unfoldable pub delete_embeddings_by_owner : Text → Db E → Db E × ℕ
  unfolding filter
  delete_embeddings_by_owner owner db =
      let rest = filter (λ row. not (text_eq row.owner_user_id owner)) db.cache in
      (record db { cache = rest }, length db.cache - length rest)

module _ {E S : Type 0} (v : Vectors E S) where
  abbrev pub similar : E → CacheRow E → SimilarMessage S
  similar query row = record {
    message_id = row.message_id;
    answer_message_id = row.answer_message_id;
    speech_tone_id = row.speech_tone_id;
    similarity = v.similarity row.embedding query;
  }

  abbrev pub nearer : E → CacheRow E → CacheRow E → Bool
  nearer query a b = v.closer query a.embedding b.embedding

  unfoldable pub find_similar_embeddings :
      Db E → Text → E → Option ℕ → Option ℕ → ℕ → List (SimilarMessage S)
  unfolding filter sort
  find_similar_embeddings db owner query post category limit =
      map (similar query)
        (take limit (sort (nearer query) (filter (is_candidate owner post category) db.cache)))
