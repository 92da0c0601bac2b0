-- ===== src/Sessions.antt =====
-- utils/session.ts, utils/auth.ts and controllers/session.controller.ts: the session of a question, and
-- the requests that list, read, change and delete sessions.
pub mod Requests
pub mod Cursors
pub mod Paging
pub mod Messages
pub mod Kept
pub mod Owners
use bubblog_ai.Prelude.{
  ℕ, zero, suc, ◌+◌, Bool, true, false, ◌&&◌, ◌||◌, not, Option, none, some, List, [], ◌∷◌, ◌++◌,
  map, ◌==◌, if◌then◌else◌, take, length,
}
use bubblog_ai.Prelude.Text.{Text, codes, is_empty, trim, text_eq}
use bubblog_ai.Prelude.Int.{ℤ, pos, negsuc}
use bubblog_ai.Repository.{AskMessage, AskSession, Db}
use bubblog_ai.Repository.Messages.{
  MessageDirection, Cursor, get_messages_by_session, count_messages_for_session,
}
use bubblog_ai.Repository.Sessions.{
  AskSessionSummary, ListSessionsParams, SessionUpdates, has_field, create_session,
  find_session_for_requester, list_sessions_for_requester, update_session_meta, delete_session,
}

-- What the platform and the driver do: `to_date` reads a stored time, `to_iso` and `parse_date` are
-- `toISOString` and `new Date`, `id_text` and `text_id` are `String` and `Number` on ids, with `none`
-- for what is not finite. Fractions and negative numbers are left out.
pub record Platform : Type 0 where
  pub to_date : ℕ → ℕ
  pub to_iso : ℕ → Text
  pub parse_date : Text → Option ℕ
  pub id_text : ℕ → Text
  pub text_id : Text → Option ℕ
  pub to_base64 : Text → Text
  pub of_base64 : Text → Text

-- A result, or a status with its message.
pub data Reply (A : Type 0) : Type 0 where
  ok : A → Reply A
  failed : ℕ → Text → Reply A

-- A claim of the token: a string, or anything else that is not `null` or `undefined`.
pub data Claim : Type 0 where
  string_claim : Text → Claim
  other_claim : Claim

-- `user.user_id ?? user.sub`, and its type; the user is `none` if it is no object.
pub record User : Type 0 where
  pub user_id : Option Claim
  pub sub : Option Claim

abbrev claim_text : Option Claim → Option Text
claim_text (some (string_claim t)) = some t
claim_text _ = none

unfoldable pub extract_requester_id : Option User → Option Text
extract_requester_id none = none
extract_requester_id (some u) = elim u.user_id [
  | some c ↦ claim_text (some c)
  | none ↦ claim_text u.sub
]

-- The owner that the request names is another one; no name and an empty one are none.
abbrev pub mismatched : Option Text → AskSession → Bool
mismatched none s = false
mismatched (some []) s = false
mismatched (some (c ∷ cs)) s = not (text_eq (c ∷ cs) s.owner_user_id)

-- `titleHint?.trim()`, cut at 120 units, or `null`.
unfoldable pub session_title : Option Text → Option Text
unfolding trim
session_title none = none
session_title (some t) = if is_empty (trim t) then none else some (take 120 (trim t))

abbrev pub trimmed_owner : Option Text → Text
trimmed_owner none = []
trimmed_owner (some t) = trim t

pub record Resolution : Type 0 where
  pub session : AskSession
  pub created : Bool

pub record ResolveSessionOptions : Type 0 where
  pub requester_user_id : Text
  pub session_id : Option Text
  pub owner_user_id : Option Text
  pub title_hint : Option Text

module _ {E : Type 0} (env : Platform) where
  -- A session that the request names.
  unfoldable pub resolve_existing : Db E → ResolveSessionOptions → Option ℕ → Reply Resolution
  unfolding find_session_for_requester
  resolve_existing db o none = failed 400 (codes "Invalid session_id")
  resolve_existing db o (some zero) = failed 400 (codes "Invalid session_id")
  resolve_existing db o (some (suc i)) =
      elim (find_session_for_requester env.to_date db (suc i) o.requester_user_id) [
        | none ↦ failed 404 (codes "Session not found")
        | some s ↦
            if mismatched o.owner_user_id s
            then failed 409 (codes "Session owner mismatch")
            else ok (record { session = s; created = false })
      ]

  unfoldable pub resolve_new : Db E → ResolveSessionOptions → Db E × Reply Resolution
  unfolding session_title create_session
  resolve_new db o =
      if is_empty (trimmed_owner o.owner_user_id)
      then (db, failed 400 (codes "user_id is required when session_id is missing"))
      else let made =
          create_session env.to_date o.requester_user_id (trimmed_owner o.owner_user_id)
            (session_title o.title_hint) none db in
        (made.0, ok (record { session = made.1; created = true }))

  unfoldable pub resolve_session_context : Db E → ResolveSessionOptions → Db E × Reply Resolution
  unfolding resolve_existing resolve_new
  resolve_session_context db o = elim o.session_id [
    | none ↦ resolve_new db o
    | some [] ↦ resolve_new db o
    | some (c ∷ cs) ↦ (db, resolve_existing db o (env.text_id (c ∷ cs)))
  ]

-- `encodeCursor`
abbrev pub encode_cursor : Platform → ℕ → ℕ → Text
encode_cursor env created_at id = env.to_base64 (env.to_iso created_at ++ 124 ∷ env.id_text id)

-- `decoded.split('|')`, up to the part before the first bar and the rest.
unfoldable pub before_bar : Text → Text
before_bar [] = []
before_bar (c ∷ t) = let rest = before_bar t in if c == 124 then [] else c ∷ rest

unfoldable pub after_bar : Text → Option Text
after_bar [] = none
after_bar (c ∷ t) = let rest = after_bar t in if c == 124 then some t else rest

abbrev pub cursor_of : Option ℕ → Option ℕ → Option Cursor
cursor_of (some t) (some i) = some (record { created_at = t; id = i })
cursor_of _ _ = none

module _ (env : Platform) where
  abbrev decode_parts : Text → Option Text → Option Cursor
  decode_parts iso none = none
  decode_parts iso (some rest) =
      if is_empty iso || is_empty (before_bar rest)
      then none
      else cursor_of (env.parse_date iso) (env.text_id (before_bar rest))

  unfoldable pub decode_cursor : Text → Option Cursor
  unfolding before_bar after_bar
  decode_cursor cursor =
      let decoded = env.of_base64 cursor in decode_parts (before_bar decoded) (after_bar decoded)

  -- `if (cursor)`: `failed` for one that cannot be read.
  abbrev pub read_cursor : Option Text → Reply (Option Cursor)
  read_cursor none = ok none
  read_cursor (some []) = ok none
  read_cursor (some (c ∷ cs)) = elim (decode_cursor (c ∷ cs)) [
    | none ↦ failed 400 (codes "Invalid cursor")
    | some k ↦ ok (some k)
  ]
