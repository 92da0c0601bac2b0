-- ===== src/Repository/Sessions.antt =====
-- repositories/ask-session.repository.ts.
use bubblog_ai.Prelude.{
  ℕ, suc, Bool, true, false, not, ◌&&◌, Option, none, some, List, [], ◌∷◌, ◌++◌, map, ◌==◌,
  if◌then◌else◌, take, length,
}
use bubblog_ai.Prelude.Text.{Text, text_eq, codes}
use bubblog_ai.Prelude.Filter.{filter, find}
use bubblog_ai.Prelude.Sort.{sort}
use bubblog_ai.Repository.{refers, AskSession, Db, Tx, newest_session, key_after}

-- `undefined` is `none`; a title may also be `null`.
pub record SessionUpdates : Type 0 where
  pub title : Option (Option Text)
  pub metadata : Option Text

pub record ListSessionsParams : Type 0 where
  pub requester_user_id : Text
  pub owner_user_id : Option Text
  pub cursor_created_at : Option ℕ
  pub cursor_id : Option ℕ
  pub limit : ℕ

pub record AskSessionSummary : Type 0 where
  pub session : AskSession
  pub message_count : ℕ

-- `if (ownerUserId)`, and the equation that it adds.
abbrev pub owner_matches : Option Text → AskSession → Bool
owner_matches none s = true
owner_matches (some []) s = true
owner_matches (some (c ∷ cs)) s = text_eq s.owner_user_id (c ∷ cs)

-- `if (cursorCreatedAt && cursorId)`, and the comparison that it adds.
abbrev pub past_session_cursor : Option ℕ → Option ℕ → AskSession → Bool
past_session_cursor (some t) (some (suc i)) s = key_after t (suc i) s.created_at s.id
past_session_cursor _ _ s = true

abbrev pub is_for_requester : ℕ → Text → AskSession → Bool
is_for_requester i requester s = (s.id == i) && text_eq s.requester_user_id requester

abbrev pub is_listed : ListSessionsParams → AskSession → Bool
is_listed q s = text_eq s.requester_user_id q.requester_user_id && owner_matches q.owner_user_id s

abbrev pub updated_row : SessionUpdates → ℕ → AskSession → AskSession
updated_row u now row = record row {
  title = elim u.title [ none ↦ row.title | some t ↦ t ];
  metadata = elim u.metadata [ none ↦ row.metadata | some m ↦ m ];
  updated_at = now;
}

abbrev pub update_where :
    (AskSession → Bool) → (AskSession → AskSession) → List AskSession → List AskSession
update_where p f ss = map (λ s. if p s then f s else s) ss

abbrev pub touched : ℕ → AskSession → AskSession
touched now row = record row { last_question_at = some now; updated_at = now }

-- `sets.length !== 1`
abbrev pub has_field : SessionUpdates → Bool
has_field u = elim u.title [
  | some _ ↦ true
  | none ↦ elim u.metadata [ some _ ↦ true | none ↦ false ]
]

module _ (to_date : ℕ → ℕ) where
  abbrev pub optional_date : Option ℕ → Option ℕ
  optional_date none = none
  optional_date (some t) = some (to_date t)

  abbrev pub map_session : AskSession → AskSession
  map_session row = record row {
    last_question_at = optional_date row.last_question_at;
    created_at = to_date row.created_at;
    updated_at = to_date row.updated_at;
  }

  abbrev pub optional_session : Option AskSession → Option AskSession
  optional_session none = none
  optional_session (some row) = some (map_session row)

module _ {E : Type 0} where
  abbrev pub new_session : Text → Text → Option Text → Option Text → Db E → AskSession
  new_session requester owner title metadata db = record {
    id = db.next_session;
    requester_user_id = requester;
    owner_user_id = owner;
    title = title;
    metadata = elim metadata [ none ↦ codes "{}" | some m ↦ m ];
    last_question_at = none;
    created_at = db.now;
    updated_at = db.now;
  }

module _ {E : Type 0} (to_date : ℕ → ℕ) where
  unfoldable pub create_session : Text → Text → Option Text → Option Text → Db E → Db E × AskSession
  create_session requester owner title metadata db =
      let row : AskSession = new_session requester owner title metadata db in
      (
        record db { sessions = db.sessions ++ (row ∷ []); next_session = suc db.next_session },
        map_session to_date row,
      )

  unfoldable pub find_session_by_id : Db E → ℕ → Option AskSession
  unfolding find
  find_session_by_id db session_id =
      optional_session to_date (find (λ s. s.id == session_id) db.sessions)

  unfoldable pub find_session_for_requester : Db E → ℕ → Text → Option AskSession
  unfolding find
  find_session_for_requester db session_id requester =
      optional_session to_date (find (is_for_requester session_id requester) db.sessions)

  abbrev pub summary : Db E → AskSession → AskSessionSummary
  summary db s = record {
    session = map_session to_date s;
    message_count = length (filter (λ m. m.session_id == s.id) db.messages);
  }

  unfoldable pub list_sessions_for_requester : Db E → ListSessionsParams → List AskSessionSummary
  unfolding filter sort
  list_sessions_for_requester db q = map (summary db) (
      take q.limit (
        sort newest_session (
          filter (λ s. is_listed q s && past_session_cursor q.cursor_created_at q.cursor_id s)
            db.sessions)))

  unfoldable pub update_sessions : Db E → ℕ → Text → SessionUpdates → Db E × Option AskSession
  unfolding find
  update_sessions db session_id requester u =
      let next =
        update_where (is_for_requester session_id requester) (updated_row u db.now) db.sessions in
      (
        record db { sessions = next },
        optional_session to_date (find (is_for_requester session_id requester) next),
      )

  -- Without a field to set, the session is only read.
  unfoldable pub update_session_meta : Db E → ℕ → Text → SessionUpdates → Db E × Option AskSession
  unfolding update_sessions find_session_for_requester
  update_session_meta db session_id requester u =
      if has_field u
      then update_sessions db session_id requester u
      else (db, find_session_for_requester db session_id requester)

module _ {E : Type 0} where
  unfoldable pub touch_session_last_question : ℕ → Tx E Unit
  touch_session_last_question session_id db = some (
    tt,
    record db { sessions = update_where (λ s. s.id == session_id) (touched db.now) db.sessions },
  )

  -- `DELETE FROM ask_session`, with the rows that the deletion takes along.
  abbrev pub without_session : ℕ → Text → Db E → Db E
  without_session session_id requester db =
      let kept = filter (λ m. not (m.session_id == session_id)) db.messages in
      record db {
        sessions = filter (λ s. not (is_for_requester session_id requester s)) db.sessions;
        messages = kept;
        cache = filter (λ row. refers kept (some row.message_id)) db.cache;
      }

  unfoldable pub delete_session : ℕ → Text → Db E → Db E × Bool
  unfolding filter find
  delete_session session_id requester db =
      elim (find (is_for_requester session_id requester) db.sessions) [
        | none ↦ (db, false)
        | some _ ↦ (without_session session_id requester db, true)
      ]
