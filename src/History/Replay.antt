-- ===== src/History/Replay.antt =====
-- services/session-history.service.ts: a stored turn is found again when the question comes back.
use bubblog_ai.Prelude.{
  ℕ, suc, ◌<◌, ◌≤◌, ◌≡◌, refl, ap, ◌∙◌, true, false, Option, none, some, arith, ◌==◌, ◌||◌, List,
  [], ◌∷◌, ◌++◌, map, All, take, append_assoc,
}
use bubblog_ai.Prelude.Text.{is_empty, text_eq_iff}
use bubblog_ai.Prelude.Filter.{filter, find, filter-append, filter-keep, find-append-none}
use bubblog_ai.Prelude.Sort.{sort, insert}
use bubblog_ai.Repository.{AskMessage, Db, CacheRow}
use bubblog_ai.Repository.Messages.{get_message_by_id, has_id, map_message}
use bubblog_ai.Repository.Cache.{
  Vectors, same_id, scope_matches, is_candidate, similar, nearer, find_similar_embeddings,
}
use bubblog_ai.Repository.Integrity.{HasSession, IsWellFormed}
use bubblog_ai.History.{
  PersistConversationInput, Faults, FindCachedAnswerParams, CachedAnswerResult, normalized_tone,
  hydrate, hydrate_all, find_cached_answer, persist_conversation,
}
use bubblog_ai.History.Storage.Rows.{question_row, answer_row, cache_row, with_turn, all_accepted}
use bubblog_ai.History.Storage.{persist_conversation-atomic}

unseen :
    (n k : ℕ) (ms : List AskMessage)
    → All (λ m. m.id < n) ms
    → n ≤ k
    → All (λ m. has_id k m ≡ false) ms
unseen n k [] h l = tt
unseen n k (m ∷ ms) (p, h) l = (ground (arith, p, l), unseen n k ms h l)

same_id_refl : (i : Option ℕ) → same_id i i ≡ true
same_id_refl none = refl
same_id_refl (some i) = ground arith

self : (i : ℕ) → (i == i) ≡ true
self i = ground arith

next_other : (i : ℕ) → (i == suc i) ≡ false
next_other i = ground arith

-- The two rows at the end of the table are found by their ids.
find-two :
    (n : ℕ) (ms : List AskMessage) (q a : AskMessage)
    → All (λ m. m.id < n) ms
    → q.id ≡ n
    → a.id ≡ suc n
    → (find (has_id n) ((ms ++ (q ∷ [])) ++ (a ∷ [])) ≡ some q)
      × (find (has_id (suc n)) ((ms ++ (q ∷ [])) ++ (a ∷ [])) ≡ some a)
unfolding find
find-two n ms q a h e d =
    let joined = append_assoc ms (q ∷ []) (a ∷ []) in
    (
      ap (find (has_id n)) joined
          ∙ find-append-none (has_id n) ms (q ∷ a ∷ []) (unseen n n ms h (omega arith))
          ∙ rw (e, self n) refl,
      ap (find (has_id (suc n))) joined
          ∙ find-append-none (has_id (suc n)) ms (q ∷ a ∷ []) (unseen n (suc n) ms h (omega arith))
          ∙ rw (e, d, next_other n, self (suc n)) refl,
    )

module _ {E : Type 0} where
  scope-own :
      (post category : Option ℕ) (row : CacheRow E)
      → row.post_id ≡ post
      → row.category_id ≡ category
      → scope_matches post category row ≡ true
  scope-own none category row e d = rw (scope_matches, e, d, same_id_refl category) refl
  scope-own (some p) category row e d = rw (scope_matches, e, self p) refl

  own-candidate :
      (c : PersistConversationInput E) (db : Db E)
      → is_candidate c.owner_user_id c.post_id c.category_id (cache_row c db) ≡ true
  own-candidate c db =
      rw
        (
          is_candidate,
          (text_eq_iff c.owner_user_id c.owner_user_id).1 refl,
          scope-own c.post_id c.category_id (cache_row c db) refl refl,
        )
        refl

module _ {E S : Type 0} (to_date : ℕ → ℕ) (v : Vectors E S) where
  question-found :
      (c : PersistConversationInput E) (db : Db E)
      → IsWellFormed db
      → get_message_by_id to_date (with_turn c db) db.next_message
        ≡ some (map_message to_date (question_row c db))
  unfolding get_message_by_id
  question-found c db w =
      rw
        (
          get_message_by_id,
          (find-two db.next_message db.messages (question_row c db) (answer_row c db) w.message_ids
              refl refl).0,
        )
        refl

  answer-found :
      (c : PersistConversationInput E) (db : Db E)
      → IsWellFormed db
      → get_message_by_id to_date (with_turn c db) (suc db.next_message)
        ≡ some (map_message to_date (answer_row c db))
  unfolding get_message_by_id
  answer-found c db w =
      rw
        (
          get_message_by_id,
          (find-two db.next_message db.messages (question_row c db) (answer_row c db) w.message_ids
              refl refl).1,
        )
        refl

  -- The same scope as that of a turn.
  abbrev pub lookup_for : PersistConversationInput E → E → FindCachedAnswerParams E
  lookup_for c e = record {
    owner_user_id = c.owner_user_id;
    embedding = e;
    post_id = c.post_id;
    category_id = c.category_id;
  }

  abbrev pub answer_for : PersistConversationInput E → E → CachedAnswerResult S
  answer_for c e = record {
    answer = c.answer;
    search_plan = c.search_plan;
    retrieval_meta = c.retrieval_meta;
    similarity = v.similarity c.duplicate_question_embedding e;
    speech_tone_id = normalized_tone c.speech_tone;
  }

  only-candidate :
      (c : PersistConversationInput E) (db : Db E)
      → filter (is_candidate c.owner_user_id c.post_id c.category_id) db.cache ≡ []
      → filter (is_candidate c.owner_user_id c.post_id c.category_id) (with_turn c db).cache
        ≡ cache_row c db ∷ []
  only-candidate c db none_before =
      filter-append (is_candidate c.owner_user_id c.post_id c.category_id) db.cache
        (cache_row c db ∷ [])
      ∙ rw
          (
            none_before,
            filter-keep (is_candidate c.owner_user_id c.post_id c.category_id) (cache_row c db ∷ [])
                (own-candidate c db, tt),
          )
          refl

  candidates-turn :
      (c : PersistConversationInput E) (e : E) (db : Db E)
      → filter (is_candidate c.owner_user_id c.post_id c.category_id) db.cache ≡ []
      → find_similar_embeddings v (with_turn c db) c.owner_user_id e c.post_id c.category_id 3
        ≡ similar v e (cache_row c db) ∷ []
  unfolding find_similar_embeddings sort insert
  candidates-turn c e db none_before =
      ap (λ rows. map (similar v e) (take 3 (sort (nearer v e) rows)))
        (only-candidate c db none_before)

  turn-hydrated :
      (c : PersistConversationInput E) (e : E) (db : Db E)
      → IsWellFormed db
      → v.below (v.similarity c.duplicate_question_embedding e) v.threshold ≡ false
      → hydrate_all to_date v (with_turn c db) (similar v e (cache_row c db) ∷ [])
        ≡ answer_for c e ∷ []
  unfolding hydrate_all hydrate
  turn-hydrated c e db w close = rw (close, question-found c db w, answer-found c db w) refl

  -- In a well-formed database that has no cached question for the owner and scope of a turn, for a
  -- session that is there, a turn with an answer and both embeddings, and a connection that accepts
  -- every statement: after the turn, a question whose embedding is similar enough to that of the turn
  -- is answered from the cache with the answer, the plan and the retrieval of the turn, and nothing
  -- else.
  pub find_cached_answer-persist_conversation :
      (f : Faults) (c : PersistConversationInput E) (e : E) (db : Db E)
      → IsWellFormed db
      → HasSession db.sessions c.session_id
      → (is_empty c.answer
          || v.is_blank c.question_embedding
          || v.is_blank c.duplicate_question_embedding)
        ≡ false
      → all_accepted f ≡ true
      → filter (is_candidate c.owner_user_id c.post_id c.category_id) db.cache ≡ []
      → v.below (v.similarity c.duplicate_question_embedding e) v.threshold ≡ false
      → find_cached_answer to_date v (persist_conversation to_date v f c db).0 (lookup_for c e)
        ≡ answer_for c e ∷ []
  unfolding find_cached_answer
  find_cached_answer-persist_conversation f c e db w h filled accepted none_before close =
      rw (persist_conversation-atomic to_date v f c db w h filled, accepted)
        (ap (hydrate_all to_date v (with_turn c db)) (candidates-turn c e db none_before)
          ∙ turn-hydrated c e db w close)
