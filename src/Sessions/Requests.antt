-- ===== src/Sessions/Requests.antt =====
-- controllers/session.controller.ts: the handlers. A request comes with what the schemas of
-- types/session.types.ts make of it, `none` where they refuse it.
use bubblog_ai.Prelude.{
  ℕ, Bool, true, false, Option, none, some, List, [], ◌∷◌, ◌==◌, if◌then◌else◌, length,
}
use bubblog_ai.Prelude.Text.{Text, codes}
use bubblog_ai.Repository.{AskMessage, AskSession, Db}
use bubblog_ai.Repository.Messages.{
  MessageDirection, Cursor, get_messages_by_session, count_messages_for_session,
}
use bubblog_ai.Repository.Sessions.{
  AskSessionSummary, ListSessionsParams, SessionUpdates, has_field, find_session_for_requester,
  list_sessions_for_requester, update_session_meta, delete_session,
}
use bubblog_ai.Sessions.{Platform, Reply, ok, failed, encode_cursor, read_cursor, decode_cursor}

pub record SessionListQuery : Type 0 where
  pub limit : ℕ
  pub cursor : Option Text
  pub owner_user_id : Option Text

pub record SessionMessagesQuery : Type 0 where
  pub limit : ℕ
  pub cursor : Option Text
  pub direction : MessageDirection

-- The rows of an answer, its cursor and `has_more`.
pub record Page (A : Type 0) : Type 0 where
  pub items : List A
  pub cursor : Option Text
  pub has_more : Bool

module _ {A : Type 0} where
  abbrev pub last_row : List A → Option A
  last_row [] = none
  last_row (x ∷ []) = some x
  last_row (x ∷ y ∷ ys) = last_row (y ∷ ys)

  -- `hasMore && rows.length ? encode(rows[rows.length - 1]) : null`
  abbrev pub next_cursor : (A → Text) → ℕ → List A → Option Text
  next_cursor encode limit rows =
      if length rows == limit
      then elim (last_row rows) [ none ↦ none | some r ↦ some (encode r) ]
      else none

  abbrev pub page_of : (A → Text) → ℕ → List A → Page A
  page_of encode limit rows = record {
    items = rows;
    cursor = next_cursor encode limit rows;
    has_more = length rows == limit;
  }

-- `if (!requesterId) return 401`
abbrev pub authorized : {A : Type 0} → Option Text → (Text → Reply A) → Reply A
authorized none k = failed 401 (codes "Unauthorized")
authorized (some []) k = failed 401 (codes "Unauthorized")
authorized (some (c ∷ cs)) k = k (c ∷ cs)

abbrev pub cursor_created_at : Option Cursor → Option ℕ
cursor_created_at none = none
cursor_created_at (some k) = some k.created_at

abbrev pub cursor_id : Option Cursor → Option ℕ
cursor_id none = none
cursor_id (some k) = some k.id

module _ (env : Platform) where
  abbrev pub encode_summary : AskSessionSummary → Text
  encode_summary s = encode_cursor env s.session.created_at s.session.id

  abbrev pub encode_message : AskMessage → Text
  encode_message m = encode_cursor env m.created_at m.id

abbrev pub list_params : Text → SessionListQuery → Option Cursor → ListSessionsParams
list_params requester q k = record {
  requester_user_id = requester;
  owner_user_id = q.owner_user_id;
  cursor_created_at = cursor_created_at k;
  cursor_id = cursor_id k;
  limit = q.limit;
}

module _ {E : Type 0} (env : Platform) where
  unfoldable pub list_page :
      Db E → Text → SessionListQuery → Reply (Option Cursor) → Reply (Page AskSessionSummary)
  unfolding list_sessions_for_requester
  list_page db requester q (failed status message) = failed status message
  list_page db requester q (ok k) = ok (
      page_of (encode_summary env) q.limit
        (list_sessions_for_requester env.to_date db (list_params requester q k)))

  abbrev pub list_query : Db E → Option SessionListQuery → Text → Reply (Page AskSessionSummary)
  list_query db none requester = failed 400 (codes "Invalid query")
  list_query db (some q) requester = list_page db requester q (read_cursor env q.cursor)

  unfoldable pub list_sessions_handler :
      Db E → Option Text → Option SessionListQuery → Reply (Page AskSessionSummary)
  unfolding list_page decode_cursor
  list_sessions_handler db requester query = authorized requester (list_query db query)

  -- `Number(req.params.id)`, then the requester's session of that id.
  abbrev pub with_session : {A : Type 0} → Db E → Text → Text → (ℕ → AskSession → Reply A) → Reply A
  with_session db id requester k = elim (env.text_id id) [
    | none ↦ failed 400 (codes "Invalid session id")
    | some i ↦ elim (find_session_for_requester env.to_date db i requester) [
      | none ↦ failed 404 (codes "Session not found")
      | some s ↦ k i s
    ]
  ]

  unfoldable pub get_session_handler : Db E → Option Text → Text → Reply AskSessionSummary
  unfolding find_session_for_requester count_messages_for_session
  get_session_handler db requester id = authorized requester (λ r.
      with_session db id r
        (λ i s. ok (record { session = s; message_count = count_messages_for_session db i })))

  unfoldable pub messages_page :
      Db E → ℕ → SessionMessagesQuery → Reply (Option Cursor) → Reply (Page AskMessage)
  unfolding get_messages_by_session
  messages_page db i q (failed status message) = failed status message
  messages_page db i q (ok k) = ok (
      page_of (encode_message env) q.limit
        (get_messages_by_session env.to_date db i q.limit q.direction k))

  unfoldable pub messages_query :
      Db E → Option SessionMessagesQuery → ℕ → AskSession → Reply (Page AskMessage)
  unfolding messages_page decode_cursor
  messages_query db none i s = failed 400 (codes "Invalid query")
  messages_query db (some q) i s = messages_page db i q (read_cursor env q.cursor)

  unfoldable pub get_session_messages_handler :
      Db E → Option Text → Text → Option SessionMessagesQuery → Reply (Page AskMessage)
  unfolding messages_query find_session_for_requester
  get_session_messages_handler db requester id query =
      authorized requester (λ r. with_session db id r (messages_query db query))

  abbrev pub reply_session : Db E × Option AskSession → Db E × Reply AskSession
  reply_session (db, none) = (db, failed 404 (codes "Session not found"))
  reply_session (db, some s) = (db, ok s)

  abbrev pub reply_deleted : ℕ → Db E × Bool → Db E × Reply ℕ
  reply_deleted i (db, false) = (db, failed 404 (codes "Session not found"))
  reply_deleted i (db, true) = (db, ok i)

  unfoldable pub patch_body : Db E → Text → ℕ → Option SessionUpdates → Db E × Reply AskSession
  unfolding update_session_meta
  patch_body db requester i none = (db, failed 400 (codes "Invalid body"))
  patch_body db requester i (some u) =
      if has_field u
      then reply_session (update_session_meta env.to_date db i requester u)
      else (db, failed 400 (codes "No fields to update"))

  unfoldable pub patch_authorized :
      Db E → Option Text → Option ℕ → Option SessionUpdates → Db E × Reply AskSession
  unfolding patch_body
  patch_authorized db (some (c ∷ cs)) none body = (db, failed 400 (codes "Invalid session id"))
  patch_authorized db (some (c ∷ cs)) (some i) body = patch_body db (c ∷ cs) i body
  patch_authorized db _ id body = (db, failed 401 (codes "Unauthorized"))

  unfoldable pub patch_session_handler :
      Db E → Option Text → Text → Option SessionUpdates → Db E × Reply AskSession
  unfolding patch_authorized
  patch_session_handler db requester id body = patch_authorized db requester (env.text_id id) body

  unfoldable pub delete_authorized : Db E → Option Text → Option ℕ → Db E × Reply ℕ
  unfolding delete_session
  delete_authorized db (some (c ∷ cs)) none = (db, failed 400 (codes "Invalid session id"))
  delete_authorized db (some (c ∷ cs)) (some i) = reply_deleted i (delete_session i (c ∷ cs) db)
  delete_authorized db _ id = (db, failed 401 (codes "Unauthorized"))

  unfoldable pub delete_session_handler : Db E → Option Text → Text → Db E × Reply ℕ
  unfolding delete_authorized
  delete_session_handler db requester id = delete_authorized db requester (env.text_id id)
