-- ===== src/Repository.antt =====
-- repositories/ask-session, ask-message and ask-question-cache, and utils/db.ts: the three tables, with
-- the queries read as what PostgreSQL does for their text, and the constraints of docs/migrations.
-- Times are counted in the database's unit, and a JSON object is the text stored for it.
pub mod Sessions
pub mod Messages
pub mod Cache
pub mod Order
pub mod Keys
pub mod Integrity
use bubblog_ai.Prelude.{
  ℕ, ◌+◌, Bool, true, false, ◌&&◌, ◌||◌, Option, none, some, List, ltb, ◌==◌, if◌then◌else◌,
}
use bubblog_ai.Prelude.Text.{Text, text_eq}
use bubblog_ai.Prelude.Filter.{find}
use bubblog_ai.Prelude.Int.{ℤ}

pub data MessageRole : Type 0 where
  user assistant : MessageRole

pub record AskMessage : Type 0 where
  pub id : ℕ
  pub session_id : ℕ
  pub role : MessageRole
  pub content : Text
  pub search_plan : Option Text
  pub retrieval_meta : Option Text
  pub created_at : ℕ

pub record AskSession : Type 0 where
  pub id : ℕ
  pub requester_user_id : Text
  pub owner_user_id : Text
  pub title : Option Text
  pub metadata : Text
  pub last_question_at : Option ℕ
  pub created_at : ℕ
  pub updated_at : ℕ

-- A row of `ask_question_cache`, with the embedding that `MessageEmbedding` leaves out.
pub record CacheRow (E : Type 0) : Type 0 where
  pub message_id : ℕ
  pub owner_user_id : Text
  pub requester_user_id : Text
  pub category_id : Option ℕ
  pub post_id : Option ℕ
  pub answer_message_id : Option ℕ
  pub speech_tone_id : ℤ
  pub embedding : E
  pub created_at : ℕ
  pub updated_at : ℕ

-- The tables in the order of insertion, the two sequences and the clock.
pub record Db (E : Type 0) : Type 0 where
  pub sessions : List AskSession
  pub messages : List AskMessage
  pub cache : List (CacheRow E)
  pub next_session : ℕ
  pub next_message : ℕ
  pub now : ℕ

-- `ORDER BY created_at DESC, id DESC`, and the same with `ASC`, on a time and an id.
abbrev pub key_after : ℕ → ℕ → ℕ → ℕ → Bool
key_after t i u j = ltb u t || ((t == u) && ltb j i)

abbrev pub newest_message : AskMessage → AskMessage → Bool
newest_message a b = key_after a.created_at a.id b.created_at b.id

abbrev pub oldest_message : AskMessage → AskMessage → Bool
oldest_message a b = key_after b.created_at b.id a.created_at a.id

abbrev pub newest_session : AskSession → AskSession → Bool
newest_session a b = key_after a.created_at a.id b.created_at b.id

-- A message that a row refers to is there.
abbrev pub refers : List AskMessage → Option ℕ → Bool
refers ms none = true
refers ms (some i) = elim (find (λ m. m.id == i) ms) [ none ↦ false | some _ ↦ true ]

-- A statement in a transaction: it throws, or gives its result and the next state of the database.
abbrev pub Tx : Type 0 → Type 0 → Type 0
Tx E A = Db E → Option (A × Db E)

pub data Outcome : Type 0 where
  returned threw : Outcome

module _ {E : Type 0} where
  infixl 5 ◌>>=◌ ◌>>◌
  abbrev pub continue : {A B : Type 0} → Option (A × Db E) → (A → Tx E B) → Option (B × Db E)
  continue none f = none
  continue (some (a, next)) f = f a next

  abbrev pub ◌>>=◌ : {A B : Type 0} → Tx E A → (A → Tx E B) → Tx E B
  (m >>= f) db = continue (m db) f

  abbrev pub ◌>>◌ : {A B : Type 0} → Tx E A → Tx E B → Tx E B
  m >> n = m >>= (λ _. n)

  -- A statement that the connection may refuse.
  abbrev pub guarded : {A : Type 0} → Bool → Tx E A → Tx E A
  guarded broken st db = if broken then none else st db

  -- `BEGIN` or `COMMIT`.
  abbrev pub control : Bool → Tx E Unit
  control broken db = if broken then none else some (tt, db)

  abbrev pub ended : Db E → Option (Unit {0} × Db E) → Db E × Outcome
  ended db none = (db, threw)
  ended db (some (_, next)) = (next, returned)

  -- `withTransaction`: an error rolls the database back and is thrown again. The sequences go back with
  -- the tables, while PostgreSQL leaves them where they are: the keys that a refused transaction used up are
  -- not skipped here.
  abbrev pub with_transaction : Bool → Bool → Tx E Unit → Db E → Db E × Outcome
  with_transaction no_begin no_commit body db =
      ended db ((control no_begin >> body >> control no_commit) db)
