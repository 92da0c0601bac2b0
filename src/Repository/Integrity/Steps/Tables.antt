-- ===== src/Repository/Integrity/Steps/Tables.antt =====
-- repositories/ask-session and ask-question-cache: what holds of the tables holds after a change of each of them.
use bubblog_ai.Prelude.{
  ℕ, suc, ◌+◌, ◌<◌, ◌≤◌, ◌≡◌, inl, inr, refl, ◌∙◌, Bool, true, not, Option, none, some, arith, ◌==◌,
  List, [], ◌∷◌, ◌++◌, map, All, All-append, Bool-cases, if◌then◌else◌, Option-cases,
}
use bubblog_ai.Prelude.Text.{Text}
use bubblog_ai.Prelude.Filter.{filter, find, filter-All, All-weaken}
use bubblog_ai.Repository.{AskMessage, AskSession, CacheRow, Db, refers}
use bubblog_ai.Repository.Sessions.{new_session, without_session, is_for_requester}
use bubblog_ai.Repository.Cache.{
  EmbeddingInput, upsert_embedding, upserted, inserted, overwritten, conflicts,
}
use bubblog_ai.Repository.Integrity.{
  HasSession, IsWellFormed, Distinct-append, filter-Distinct, HasSession-append,
}

-- A statement that breaks a constraint throws and changes nothing.
abbrev pub kept : {E A : Type 0} → Db E → Option (A × Db E) → Db E
kept db none = db
kept db (some (_, next)) = next

-- Deleting other rows hides none that is kept.
pub find-filter :
    {A : Type 0} (p keep : A → Bool) (xs : List A)
    → ((x : A) → p x ≡ true → keep x ≡ true)
    → find p (filter keep xs) ≡ find p xs
unfolding find filter
find-filter p keep [] h = refl
find-filter p keep (x ∷ xs) h = elim (Bool-cases (keep x)) [
  | inl e ↦ rw (e, find, find-filter p keep xs h) refl
  | inr e ↦ elim (Bool-cases (p x)) [
    | inl d ↦ absurd (ground (arith, h x d, e))
    | inr d ↦ rw (e, find-filter p keep xs h, d) refl
  ]
]

-- The messages of the other sessions keep their sessions.
pub kept-HasSession :
    (ss : List AskSession) (i : ℕ) (requester : Text) (m : AskMessage)
    → not (m.session_id == i) ≡ true
    → HasSession ss m.session_id
    → HasSession (filter (λ s. not (is_for_requester i requester s)) ss) m.session_id
kept-HasSession ss i requester m e (s, d) = (
  s,
  find-filter (λ s. s.id == m.session_id) (λ s. not (is_for_requester i requester s)) ss
        (λ s k. ground (arith, k, e))
      ∙ d,
)

module _ {E : Type 0} where
  pub create-IsWellFormed :
      (requester owner : Text) (title metadata : Option Text) (db : Db E)
      → IsWellFormed db
      → IsWellFormed (record db {
        sessions = db.sessions ++ (new_session requester owner title metadata db ∷ []);
        next_session = suc db.next_session;
      })
  create-IsWellFormed requester owner title metadata db w =
      let row : AskSession = new_session requester owner title metadata db in
      record {
        session_ids =
            All-append (λ s. s.id < suc db.next_session) db.sessions (row ∷ [])
              (All-weaken (λ (s : AskSession). s.id < suc db.next_session) db.sessions
                (λ s k. omega (arith, k)) w.session_ids)
              (omega arith, tt);
        sessions_distinct =
            Distinct-append (λ (s : AskSession). s.id) db.sessions row w.sessions_distinct
              w.session_ids;
        message_ids = w.message_ids;
        messages_distinct = w.messages_distinct;
        message_times = w.message_times;
        message_sessions =
            All-weaken (λ (m : AskMessage). HasSession (db.sessions ++ (row ∷ [])) m.session_id)
              db.messages (λ m h. HasSession-append db.sessions (row ∷ []) m.session_id h)
              w.message_sessions;
        questions = w.questions;
      }

  -- Any change of the cache that leaves its questions among the messages.
  pub cache-IsWellFormed :
      (db : Db E) (rows : List (CacheRow E))
      → All (λ r. refers db.messages (some r.message_id) ≡ true) rows
      → IsWellFormed db
      → IsWellFormed (record db { cache = rows })
  cache-IsWellFormed db rows h w = record {
    session_ids = w.session_ids;
    sessions_distinct = w.sessions_distinct;
    message_ids = w.message_ids;
    messages_distinct = w.messages_distinct;
    message_times = w.message_times;
    message_sessions = w.message_sessions;
    questions = h;
  }

  pub tick-IsWellFormed :
      (db : Db E) (n : ℕ) → IsWellFormed db → IsWellFormed (record db { now = db.now + n })
  tick-IsWellFormed db n w = record {
    session_ids = w.session_ids;
    sessions_distinct = w.sessions_distinct;
    message_ids = w.message_ids;
    messages_distinct = w.messages_distinct;
    message_times =
        All-weaken (λ (m : AskMessage). m.created_at ≤ db.now + n) db.messages
          (λ m k. omega (arith, k)) w.message_times;
    message_sessions = w.message_sessions;
    questions = w.questions;
  }

  pub overwrite-All :
      (ms : List AskMessage) (c : EmbeddingInput E) (now : ℕ) (rows : List (CacheRow E))
      → All (λ r. refers ms (some r.message_id) ≡ true) rows
      → All
          (λ r. refers ms (some r.message_id) ≡ true)
          (map (λ row. if conflicts c.message_id row then overwritten c now row else row) rows)
  overwrite-All ms c now [] h = tt
  overwrite-All ms c now (r ∷ rows) (k, h) = elim (Bool-cases (conflicts c.message_id r)) [
    | inl e ↦ rw (e) (k, overwrite-All ms c now rows h)
    | inr e ↦ rw (e) (k, overwrite-All ms c now rows h)
  ]

  pub upserted-All :
      (ms : List AskMessage) (c : EmbeddingInput E) (now : ℕ) (rows : List (CacheRow E))
      → refers ms (some c.message_id) ≡ true
      → All (λ r. refers ms (some r.message_id) ≡ true) rows
      → All (λ r. refers ms (some r.message_id) ≡ true) (upserted c now rows)
  upserted-All ms c now rows e h = elim (Option-cases (find (conflicts c.message_id) rows)) [
    | inl d ↦
        rw (upserted, d)
          (All-append (λ r. refers ms (some r.message_id) ≡ true) rows (inserted c now ∷ []) h
            (e, tt))
    | inr (r, d) ↦ rw (upserted, d) (overwrite-All ms c now rows h)
  ]

  pub upsert-IsWellFormed :
      (c : EmbeddingInput E) (db : Db E)
      → IsWellFormed db
      → IsWellFormed (kept db (upsert_embedding c db))
  unfolding upsert_embedding
  upsert-IsWellFormed c db w = elim (Bool-cases (refers db.messages (some c.message_id))) [
    | inr e ↦ rw (e) w
    | inl e ↦ elim (Bool-cases (refers db.messages c.answer_message_id)) [
      | inr d ↦ rw (e, d) w
      | inl d ↦
          rw (e, d)
            (cache-IsWellFormed db (upserted c db.now db.cache)
              (upserted-All db.messages c db.now db.cache e w.questions) w)
    ]
  ]

  pub without_session-IsWellFormed :
      (i : ℕ) (requester : Text) (db : Db E)
      → IsWellFormed db
      → IsWellFormed (without_session i requester db)
  without_session-IsWellFormed i requester db w =
      let keeps : AskMessage → Bool = λ m. not (m.session_id == i) in
      record {
        session_ids =
            filter-All (λ s. s.id < db.next_session) (λ s. not (is_for_requester i requester s))
              db.sessions (λ s _ k. k) w.session_ids;
        sessions_distinct =
            filter-Distinct (λ (s : AskSession). s.id) (λ s. not (is_for_requester i requester s))
              db.sessions w.sessions_distinct;
        message_ids =
            filter-All (λ m. m.id < db.next_message) keeps db.messages (λ m _ k. k) w.message_ids;
        messages_distinct =
            filter-Distinct (λ (m : AskMessage). m.id) keeps db.messages w.messages_distinct;
        message_times =
            filter-All (λ m. m.created_at ≤ db.now) keeps db.messages (λ m _ k. k) w.message_times;
        message_sessions =
            filter-All
              (λ m.
                HasSession (filter (λ s. not (is_for_requester i requester s)) db.sessions)
                  m.session_id)
              keeps db.messages (λ m e h. kept-HasSession db.sessions i requester m e h)
              w.message_sessions;
        questions =
            filter-All (λ r. refers (filter keeps db.messages) (some r.message_id) ≡ true)
              (λ r. refers (filter keeps db.messages) (some r.message_id)) db.cache (λ r e _. e)
              w.questions;
      }
