-- ===== src/Sessions/Kept.antt =====
-- controllers/session.controller.ts: what a request to change or delete a session may do to the tables.
use bubblog_ai.Prelude.{
  ℕ, ◌≡◌, inl, inr, refl, Bool, true, false, Option, none, some, [], ◌∷◌, Bool-cases, Option-cases,
}
use bubblog_ai.Prelude.Text.{Text}
use bubblog_ai.Prelude.Filter.{find}
use bubblog_ai.Repository.{AskSession, Db}
use bubblog_ai.Repository.Sessions.{
  SessionUpdates, has_field, is_for_requester, update_sessions, update_session_meta, delete_session,
  without_session,
}
use bubblog_ai.Sessions.{Platform}
use bubblog_ai.Sessions.Requests.{
  reply_session, reply_deleted, patch_body, patch_authorized, patch_session_handler,
  delete_authorized, delete_session_handler,
}

module _ {E : Type 0} (env : Platform) (P : Db E → Type 0) (db : Db E) (same : P db) where
  module _ (requester : Text)
      (updated : (i : ℕ) (u : SessionUpdates)
        → P (update_sessions env.to_date db i requester u).0) where
    reply_session-Kept : (r : Db E × Option AskSession) → P r.0 → P (reply_session env r).0
    reply_session-Kept (next, none) h = h
    reply_session-Kept (next, some s) h = h

    patch_body-Kept :
        (i : ℕ) (body : Option SessionUpdates) → P (patch_body env db requester i body).0
    unfolding patch_body update_session_meta
    patch_body-Kept i none = same
    patch_body-Kept i (some u) = elim (Bool-cases (has_field u)) [
      | inl e ↦
          rw (e) (reply_session-Kept (update_sessions env.to_date db i requester u) (updated i u))
      | inr e ↦ rw (e) same
    ]

  reply_deleted-Kept : (i : ℕ) (r : Db E × Bool) → P r.0 → P (reply_deleted env i r).0
  reply_deleted-Kept i (next, true) h = h
  reply_deleted-Kept i (next, false) h = h

  delete_session-Kept :
      (requester : Text) (i : ℕ)
      → ((s : AskSession)
          → find (is_for_requester i requester) db.sessions ≡ some s
          → P (without_session i requester db))
      → P (delete_session i requester db).0
  unfolding delete_session
  delete_session-Kept requester i h =
      elim (Option-cases (find (is_for_requester i requester) db.sessions)) [
        | inl e ↦ rw (delete_session, e) same
        | inr (s, e) ↦ rw (delete_session, e) (h s e)
      ]

  patch_authorized-Kept :
      (user : Option Text) (id : Option ℕ) (body : Option SessionUpdates)
      → ((requester : Text) (i : ℕ) (u : SessionUpdates)
          → user ≡ some requester
          → P (update_sessions env.to_date db i requester u).0)
      → P (patch_authorized env db user id body).0
  unfolding patch_authorized
  patch_authorized-Kept none id body h = same
  patch_authorized-Kept (some []) id body h = same
  patch_authorized-Kept (some (c ∷ cs)) none body h = same
  patch_authorized-Kept (some (c ∷ cs)) (some i) body h =
      patch_body-Kept (c ∷ cs) (λ j u. h (c ∷ cs) j u refl) i body

  -- A request to change a session leaves the tables, or updates a session of its user.
  pub patch_session_handler-Kept :
      (user : Option Text) (id : Text) (body : Option SessionUpdates)
      → ((requester : Text) (i : ℕ) (u : SessionUpdates)
          → user ≡ some requester
          → P (update_sessions env.to_date db i requester u).0)
      → P (patch_session_handler env db user id body).0
  unfolding patch_session_handler
  patch_session_handler-Kept user id body h = patch_authorized-Kept user (env.text_id id) body h

  delete_authorized-Kept :
      (user : Option Text) (id : Option ℕ)
      → ((requester : Text) (i : ℕ) (s : AskSession)
          → user ≡ some requester
          → find (is_for_requester i requester) db.sessions ≡ some s
          → P (without_session i requester db))
      → P (delete_authorized env db user id).0
  unfolding delete_authorized
  delete_authorized-Kept none id h = same
  delete_authorized-Kept (some []) id h = same
  delete_authorized-Kept (some (c ∷ cs)) none h = same
  delete_authorized-Kept (some (c ∷ cs)) (some i) h =
      reply_deleted-Kept i (delete_session i (c ∷ cs) db)
        (delete_session-Kept (c ∷ cs) i (λ s e. h (c ∷ cs) i s refl e))

  -- A request to delete a session leaves the tables, or takes away a session of its user.
  pub delete_session_handler-Kept :
      (user : Option Text) (id : Text)
      → ((requester : Text) (i : ℕ) (s : AskSession)
          → user ≡ some requester
          → find (is_for_requester i requester) db.sessions ≡ some s
          → P (without_session i requester db))
      → P (delete_session_handler env db user id).0
  unfolding delete_session_handler
  delete_session_handler-Kept user id h = delete_authorized-Kept user (env.text_id id) h
