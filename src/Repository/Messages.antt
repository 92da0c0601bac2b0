-- ===== src/Repository/Messages.antt =====
-- repositories/ask-message.repository.ts.
use bubblog_ai.Prelude.{
  ℕ, suc, Bool, true, ◌&&◌, Option, none, some, List, [], ◌∷◌, ◌++◌, map, ◌==◌, take, length,
}
use mathlib.Core.List.{reverse}
use bubblog_ai.Prelude.Text.{Text}
use bubblog_ai.Prelude.Filter.{filter, find}
use bubblog_ai.Prelude.Sort.{sort}
use bubblog_ai.Repository.{
  MessageRole, AskMessage, AskSession, Db, Tx, newest_message, oldest_message, key_after,
}

pub record MessageInput : Type 0 where
  pub session_id : ℕ
  pub role : MessageRole
  pub content : Text
  pub search_plan : Option Text
  pub retrieval_meta : Option Text

pub data MessageDirection : Type 0 where
  forward backward : MessageDirection

pub record Cursor : Type 0 where
  pub created_at : ℕ
  pub id : ℕ

abbrev pub has_session : ℕ → AskSession → Bool
has_session i s = s.id == i

abbrev pub has_id : ℕ → AskMessage → Bool
has_id i m = m.id == i

abbrev pub in_session : ℕ → AskMessage → Bool
in_session i m = m.session_id == i

-- The predicate that a cursor adds.
abbrev pub past_cursor : MessageDirection → Cursor → AskMessage → Bool
past_cursor forward c m = key_after m.created_at m.id c.created_at c.id
past_cursor backward c m = key_after c.created_at c.id m.created_at m.id

abbrev pub past : MessageDirection → Option Cursor → AskMessage → Bool
past d none m = true
past d (some c) m = past_cursor d c m

abbrev pub direction_order : MessageDirection → AskMessage → AskMessage → Bool
direction_order forward = oldest_message
direction_order backward = newest_message

abbrev pub oriented : MessageDirection → List AskMessage → List AskMessage
oriented forward ms = ms
oriented backward ms = reverse ms

-- `to_date` is the driver's reading of a stored time as a `Date`.
abbrev pub map_message : (ℕ → ℕ) → AskMessage → AskMessage
map_message to_date row = record row { created_at = to_date row.created_at }

module _ {E : Type 0} where
  -- The row that `insertMessage` adds.
  abbrev pub new_message : MessageInput → Db E → AskMessage
  new_message params db = record {
    id = db.next_message;
    session_id = params.session_id;
    role = params.role;
    content = params.content;
    search_plan = params.search_plan;
    retrieval_meta = params.retrieval_meta;
    created_at = db.now;
  }

  abbrev pub with_message : MessageInput → Db E → Db E
  with_message params db = record db {
    messages = db.messages ++ (new_message params db ∷ []);
    next_message = suc db.next_message;
  }

module _ {E : Type 0} (to_date : ℕ → ℕ) where
  -- The row refers to a session, which must be there.
  unfoldable pub insert_message : MessageInput → Tx E AskMessage
  unfolding find
  insert_message params db = elim (find (has_session params.session_id) db.sessions) [
    | none ↦ none
    | some _ ↦ some (map_message to_date (new_message params db), with_message params db)
  ]

  unfoldable pub get_message_by_id : Db E → ℕ → Option AskMessage
  unfolding find
  get_message_by_id db message_id = elim (find (has_id message_id) db.messages) [
    | none ↦ none
    | some row ↦ some (map_message to_date row)
  ]

  unfoldable pub get_latest_messages : Db E → ℕ → ℕ → List AskMessage
  unfolding filter sort
  get_latest_messages db session_id limit = reverse (
      map (map_message to_date)
        (take limit (sort newest_message (filter (in_session session_id) db.messages))))

  unfoldable pub get_messages_by_session :
      Db E → ℕ → ℕ → MessageDirection → Option Cursor → List AskMessage
  unfolding filter sort
  get_messages_by_session db session_id limit d cursor = oriented d (
      map (map_message to_date) (
        take limit (
          sort (direction_order d)
            (filter (λ m. in_session session_id m && past d cursor m) db.messages))))

module _ {E : Type 0} where
  unfoldable pub count_messages_for_session : Db E → ℕ → ℕ
  unfolding filter
  count_messages_for_session db session_id = length (filter (in_session session_id) db.messages)
