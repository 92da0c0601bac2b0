-- ===== src/History/Recent.antt =====
-- services/session-history.service.ts, `loadRecentMessages`: the history that the next question gets.
use bubblog_ai.Prelude.{
  ℕ, suc, ◌<◌, ◌≤◌, ◌≡◌, refl, ap, ◌∙◌, Bool, true, false, arith, ◌==◌, ◌||◌, List, [], ◌∷◌, ◌++◌,
  map, All, take, append_assoc,
}
use mathlib.Core.List.{reverse, reverse-cons}
use bubblog_ai.Prelude.Text.{is_empty}
use bubblog_ai.Prelude.Filter.{filter, filter-All, filter-append, filter-keep}
use bubblog_ai.Prelude.Sort.{sort, insert}
use bubblog_ai.Repository.{AskMessage, Db, newest_message, key_after}
use bubblog_ai.Repository.Messages.{in_session, map_message, get_latest_messages}
use bubblog_ai.Repository.Cache.{Vectors}
use bubblog_ai.Repository.Integrity.{HasSession, IsWellFormed}
use bubblog_ai.History.{
  PersistConversationInput, Faults, persist_conversation, load_recent_messages,
  history_message_limit,
}
use bubblog_ai.History.Storage.Rows.{question_row, answer_row, with_turn, all_accepted}
use bubblog_ai.History.Storage.{persist_conversation-atomic}

module _ {A : Type 0} (less : A → A → Bool) where
  -- Two items that come before all others and each other stand first.
  sort-two_first :
      (xs : List A) (q a : A)
      → All (λ x. (less q x ≡ true) × (less a x ≡ true)) xs
      → less a q ≡ true
      → sort less ((xs ++ (q ∷ [])) ++ (a ∷ [])) ≡ a ∷ q ∷ sort less xs
  unfolding sort insert
  sort-two_first [] q a h e = rw (e) refl
  sort-two_first (x ∷ xs) q a ((k, l), h) e =
      rw (sort-two_first xs q a h e, insert, l, insert, k) refl

reverse-two :
    {A : Type 0} (q a : A) (rest : List A) → reverse (a ∷ q ∷ rest) ≡ reverse rest ++ (q ∷ a ∷ [])
reverse-two q a rest =
    reverse-cons a (q ∷ rest)
    ∙ ap (λ t. t ++ (a ∷ [])) (reverse-cons q rest)
    ∙ append_assoc (reverse rest) (q ∷ []) (a ∷ [])

older :
    (n now : ℕ) (ms : List AskMessage)
    → All (λ m. m.id < n) ms
    → All (λ m. m.created_at ≤ now) ms
    → All
        (λ m.
          (key_after now n m.created_at m.id ≡ true)
          × (key_after now (suc n) m.created_at m.id ≡ true))
        ms
older n now [] h k = tt
older n now (m ∷ ms) (i, h) (t, k) =
    ((ground (arith, i, t), ground (arith, i, t)), older n now ms h k)

same : (i : ℕ) → (i == i) ≡ true
same i = ground arith

filter-two :
    (p : AskMessage → Bool) (ms : List AskMessage) (q a : AskMessage)
    → p q ≡ true
    → p a ≡ true
    → filter p ((ms ++ (q ∷ [])) ++ (a ∷ [])) ≡ (filter p ms ++ (q ∷ [])) ++ (a ∷ [])
filter-two p ms q a e d =
    filter-append p (ms ++ (q ∷ [])) (a ∷ [])
    ∙ rw
        (
          filter-append p ms (q ∷ []),
          filter-keep p (q ∷ []) (e, tt),
          filter-keep p (a ∷ []) (d, tt),
        )
        refl

module _ {E : Type 0} (to_date : ℕ → ℕ) where
  latest-turn :
      (c : PersistConversationInput E) (db : Db E)
      → IsWellFormed db
      → sort newest_message (filter (in_session c.session_id) (with_turn c db).messages)
        ≡ answer_row c db
          ∷ question_row c db
          ∷ sort newest_message (filter (in_session c.session_id) db.messages)
  latest-turn c db w =
      let mine : List AskMessage = filter (in_session c.session_id) db.messages in
      ap (sort newest_message) (
        filter-two (in_session c.session_id) db.messages (question_row c db) (answer_row c db)
          (same c.session_id) (same c.session_id))
      ∙ sort-two_first newest_message mine (question_row c db) (answer_row c db)
          (older db.next_message db.now mine
            (filter-All (λ m. m.id < db.next_message) (in_session c.session_id) db.messages
              (λ m _ k. k) w.message_ids)
            (filter-All (λ m. m.created_at ≤ db.now) (in_session c.session_id) db.messages
              (λ m _ k. k) w.message_times))
          (ground arith)

  get_latest_messages-turn :
      (c : PersistConversationInput E) (db : Db E) (n : ℕ)
      → IsWellFormed db
      → get_latest_messages to_date (with_turn c db) c.session_id (suc (suc n))
        ≡ get_latest_messages to_date db c.session_id n
          ++ (map_message to_date (question_row c db) ∷ map_message to_date (answer_row c db) ∷ [])
  unfolding get_latest_messages
  get_latest_messages-turn c db n w =
      ap (λ rows. reverse (map (map_message to_date) (take (suc (suc n)) rows)))
        (latest-turn c db w)
      ∙ reverse-two (map_message to_date (question_row c db))
          (map_message to_date (answer_row c db))
          (map (map_message to_date)
            (take n (sort newest_message (filter (in_session c.session_id) db.messages))))

module _ {E S : Type 0} (to_date : ℕ → ℕ) (v : Vectors E S) where
  -- In a well-formed database, for a session that is there, a turn with an answer and both embeddings,
  -- and a connection that accepts every statement: the history after the turn is the two latest
  -- messages from before, then the question and the answer.
  pub load_recent_messages-persist_conversation :
      (f : Faults) (c : PersistConversationInput E) (db : Db E)
      → IsWellFormed db
      → HasSession db.sessions c.session_id
      → (is_empty c.answer
          || v.is_blank c.question_embedding
          || v.is_blank c.duplicate_question_embedding)
        ≡ false
      → all_accepted f ≡ true
      → load_recent_messages to_date v
          (persist_conversation to_date v f c db).0
          c.session_id
          history_message_limit
        ≡ load_recent_messages to_date v db c.session_id 2
          ++ (map_message to_date (question_row c db) ∷ map_message to_date (answer_row c db) ∷ [])
  unfolding load_recent_messages
  load_recent_messages-persist_conversation f c db w h e a =
      rw (persist_conversation-atomic to_date v f c db w h e, a)
        (get_latest_messages-turn to_date c db 2 w)
