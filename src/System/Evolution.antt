-- ===== src/System/Evolution.antt =====
-- How the tables change from one transaction to the next, as far as the sessions of messages and questions go.
use bubblog_ai.Prelude.{All, ℕ, ◌<◌, ◌≤◌, ◌≡◌, ◌∙◌, Option, some, List, arith}
use bubblog_ai.Prelude.Text.{Text}
use bubblog_ai.Repository.{AskMessage, AskSession, CacheRow, Db, assistant}
use bubblog_ai.Repository.Keys.{at}

abbrev pub session_at : ℕ → List AskSession → Option AskSession
session_at i ss = at (λ s. s.id) i ss

abbrev pub message_at : ℕ → List AskMessage → Option AskMessage
message_at i ms = at (λ m. m.id) i ms

-- Both are between the same users.
abbrev pub SameUsers : AskSession → AskSession → Type 0
SameUsers s t = (t.owner_user_id ≡ s.owner_user_id) × (t.requester_user_id ≡ s.requester_user_id)

-- A cached question and the answer it names are messages of one session, which is between the users that the
-- row names, and the answer is an assistant's.
pub record IsAttributed {E : Type 0} (ss : List AskSession) (ms : List AskMessage)
    (row : CacheRow E) : Type 0 where
  pub question : AskMessage
  pub asked : message_at row.message_id ms ≡ some question
  pub answer_id : ℕ
  pub named : row.answer_message_id ≡ some answer_id
  pub answer : AskMessage
  pub answered : message_at answer_id ms ≡ some answer
  pub role : answer.role ≡ assistant
  pub together : answer.session_id ≡ question.session_id
  pub session : AskSession
  pub held : session_at question.session_id ss ≡ some session
  pub owner : session.owner_user_id ≡ row.owner_user_id
  pub requester : session.requester_user_id ≡ row.requester_user_id

-- A session given to a request: its id is used up, and the row with that id, if it is still there, is
-- between the same users.
pub record IsGiven {E : Type 0} (db : Db E) (s : AskSession) : Type 0 where
  pub used : s.id < db.next_session
  pub same : (t : AskSession) → session_at s.id db.sessions ≡ some t → SameUsers s t

-- The cached questions of an owner are not older than a time.
abbrev pub IsFresh : {E : Type 0} → Text → ℕ → List (CacheRow E) → Type 0
IsFresh owner t = All (λ row. row.owner_user_id ≡ owner → t ≤ row.created_at)

-- Every session and message stays.
pub record Grows {E : Type 0} (db next : Db E) : Type 0 where
  pub sessions :
      (i : ℕ) (s : AskSession)
      → session_at i db.sessions ≡ some s
      → (t : AskSession) × (session_at i next.sessions ≡ some t) × SameUsers s t
  pub messages :
      (i : ℕ) (m : AskMessage)
      → message_at i db.messages ≡ some m
      → message_at i next.messages ≡ some m

-- No session gets an id that was used, and none changes its users.
pub record Follows {E : Type 0} (db next : Db E) : Type 0 where
  pub counter : db.next_session ≤ next.next_session
  pub sessions :
      (i : ℕ) (t : AskSession)
      → i < db.next_session
      → session_at i next.sessions ≡ some t
      → (s : AskSession) × (session_at i db.sessions ≡ some s) × SameUsers s t

module _ {E : Type 0} (db next : Db E) where
  pub Grows-IsAttributed :
      {row : CacheRow E}
      → Grows db next
      → IsAttributed db.sessions db.messages row
      → IsAttributed next.sessions next.messages row
  Grows-IsAttributed g a =
      let (t, held, (owner, requester)) = g.sessions a.question.session_id a.session a.held in
      record {
        question = a.question;
        asked = g.messages _ a.question a.asked;
        answer_id = a.answer_id;
        named = a.named;
        answer = a.answer;
        answered = g.messages a.answer_id a.answer a.answered;
        role = a.role;
        together = a.together;
        session = t;
        held = held;
        owner = owner ∙ a.owner;
        requester = requester ∙ a.requester;
      }

  pub Follows-IsGiven : (s : AskSession) → Follows db next → IsGiven db s → IsGiven next s
  Follows-IsGiven s f g = record {
    used = omega (arith, g.used, f.counter);
    same = λ t e.
        let (u, was, (owner, requester)) = f.sessions s.id t g.used e in
        let before = g.same u was in (owner ∙ before.0, requester ∙ before.1);
  }
