-- ===== src/System/Untouched.antt =====
-- utils/session.ts, controllers/session.controller.ts and services/session-history.service.ts: what the
-- transactions of one user leave as it is.
pub mod Tables
use bubblog_ai.Prelude.{
  ℕ, suc, zero, ◌≡◌, ◌≢◌, inl, inr, refl, ap, subst, sym, ◌∙◌, Bool, true, false, not, Option, none,
  some, List, [], ◌∷◌, ◌++◌, All, All-append, arith, ◌==◌, Bool-cases,
}
use bubblog_ai.Prelude.Text.{Text, text_eq, text_eq_iff}
use bubblog_ai.Prelude.Filter.{filter, find}
use bubblog_ai.Prelude.Found.{find-filter-kept, find-true, filter-append-miss, filter-filter-kept}
use bubblog_ai.Repository.{AskSession, Db}
use bubblog_ai.Repository.Cache.{Vectors, delete_embeddings_by_owner}
use bubblog_ai.Repository.Keys.{at-only}
use bubblog_ai.Repository.Messages.{in_session}
use bubblog_ai.Repository.Sessions.{
  SessionUpdates, update_where, updated_row, touched, is_for_requester, update_sessions,
  without_session, new_session,
}
use bubblog_ai.Repository.Integrity.{IsWellFormed, find-append}
use bubblog_ai.History.{PersistConversationInput, Faults}
use bubblog_ai.History.Storage.Rows.{question_row, answer_row, with_turn}
use bubblog_ai.Sessions.{
  Platform, Reply, ok, failed, Resolution, ResolveSessionOptions, resolve_session_context,
  trimmed_owner,
}
use bubblog_ai.Sessions.Kept.{patch_session_handler-Kept, delete_session_handler-Kept}
use bubblog_ai.Sessions.Owners.{resolve_session_context-IsResolved}
use bubblog_ai.System.{
  Live, Action, resolved, stored, patched, deleted, invalidated, waited, get_elem?, given, act,
  acts, store_for, for_session,
}
use bubblog_ai.System.Evolution.{session_at, IsGiven}
use bubblog_ai.System.Changes.{update_where-at}
use bubblog_ai.System.Turns.{persist_conversation-Kept}
use bubblog_ai.System.Resolved.{resolve_session_context-Kept}
use bubblog_ai.System.Consistent.{IsConsistent, act-IsConsistent}
use bubblog_ai.System.Untouched.Tables.{
  Untouched, foreign, other_id, same-Untouched, update_where-Untouched, created-Untouched,
  with_turn-Untouched, updated-Untouched, removed-Untouched,
}

-- A request of the user, or one without a user.
abbrev pub is_of : Text → Option Text → Bool
is_of user none = true
is_of user (some requester) = text_eq requester user

-- The transaction is of a request of the user, if it is one of a request that has a user of its own.
abbrev pub is_by : {E : Type 0} → Text → Action E → Bool
is_by user (resolved o) = text_eq o.requester_user_id user
is_by user (patched requester id body) = is_of user requester
is_by user (deleted requester id) = is_of user requester
is_by user _ = true

-- The sessions that were given so far are the user's.
abbrev pub AreOf : Text → List AskSession → Type 0
AreOf user = All (λ t. t.requester_user_id ≡ user)

module _ {E : Type 0} (env : Platform) where
  given-AreOf :
      (user : Text) (asked : List AskSession) (db : Db E) (o : ResolveSessionOptions)
      (r : Db E × Reply Resolution)
      → resolve_session_context env db o ≡ r
      → o.requester_user_id ≡ user
      → AreOf user asked
      → AreOf user (given asked r.1)
  given-AreOf user asked db o (next, failed status message) e same h = h
  given-AreOf user asked db o (next, ok r) e same h =
      All-append (λ t. t.requester_user_id ≡ user) asked (r.session ∷ []) h
        ((resolve_session_context-IsResolved env db o next r e).requester ∙ same, tt)

module _ {E S : Type 0} (env : Platform) (to_date : ℕ → ℕ) (v : Vectors E S) (user : Text)
    (s : AskSession) (n : s.requester_user_id ≢ user) where
  store_for-Untouched :
      (l : Live E) (k : ℕ) (asked : List AskSession) (c : PersistConversationInput E) (f : Faults)
      → IsConsistent l
      → All (IsGiven l.db) asked
      → AreOf user asked
      → session_at s.id l.db.sessions ≡ some s
      → Untouched s l.db (store_for env to_date v (get_elem? asked k) c f l.db)
  store_for-Untouched l k [] c f h g own e = same-Untouched s l.db h.well_formed e
  store_for-Untouched l (suc k) (t ∷ asked) c f h (g, gs) (o, own) e =
      store_for-Untouched l k asked c f h gs own e
  store_for-Untouched l zero (t ∷ asked) c f h (g, gs) (o, own) e =
      persist_conversation-Kept to_date v (Untouched s l.db) f (for_session t c) l.db h.well_formed
        (same-Untouched s l.db h.well_formed e)
        (λ x d.
          with_turn-Untouched s l.db h.well_formed e (for_session t c)
            (elim (Bool-cases (s.id == t.id)) [
              | inr q ↦ q
              | inl q ↦
                  let id : s.id ≡ t.id = ground (arith, q) in
                  absurd
                    (n ((g.same s (subst (λ j. session_at j l.db.sessions ≡ some s) id e)).1 ∙ o))
            ]))

  act-AreOf :
      (l : Live E) (a : Action E)
      → is_by user a ≡ true
      → AreOf user l.asked
      → AreOf user (act env to_date v l a).asked
  unfolding act
  act-AreOf l (resolved o) by h =
      given-AreOf env user l.asked l.db o (resolve_session_context env l.db o) refl
        ((text_eq_iff o.requester_user_id user).0 by) h
  act-AreOf l (stored k c f) by h = h
  act-AreOf l (patched requester id body) by h = h
  act-AreOf l (deleted requester id) by h = h
  act-AreOf l (invalidated owner) by h = h
  act-AreOf l (waited k) by h = h

  -- The user of a request on sessions is not that of the session.
  not_of :
      (o : Option Text) (requester : Text)
      → is_of user o ≡ true
      → o ≡ some requester
      → s.requester_user_id ≢ requester
  not_of none requester by e = absurd (ground (arith, e))
  not_of (some x) requester by e =
      λ d. let same : x ≡ requester = cc (e) in n (d ∙ sym same ∙ (text_eq_iff x user).0 by)

  act-Untouched :
      (l : Live E) (a : Action E)
      → IsConsistent l
      → AreOf user l.asked
      → is_by user a ≡ true
      → session_at s.id l.db.sessions ≡ some s
      → Untouched s l.db (act env to_date v l a).db
  unfolding act delete_embeddings_by_owner
  act-Untouched l (resolved o) h own by e =
      resolve_session_context-Kept env (Untouched s l.db) l.db o
        (same-Untouched s l.db h.well_formed e)
        (λ title.
          created-Untouched s l.db h.well_formed e
            (new_session o.requester_user_id (trimmed_owner o.owner_user_id) title none l.db))
  act-Untouched l (stored k c f) h own by e = store_for-Untouched l k l.asked c f h h.asked own e
  act-Untouched l (patched requester id body) h own by e =
      patch_session_handler-Kept env (Untouched s l.db) l.db (same-Untouched s l.db h.well_formed e)
        requester id body
        (λ r i u same.
          updated-Untouched s l.db h.well_formed e env.to_date i r u (not_of requester r by same))
  act-Untouched l (deleted requester id) h own by e =
      delete_session_handler-Kept env (Untouched s l.db) l.db
        (same-Untouched s l.db h.well_formed e) requester id
        (λ r i t same found.
          removed-Untouched s l.db h.well_formed e i r t (not_of requester r by same) found)
  act-Untouched l (invalidated owner) h own by e = record { session = e; messages = refl }
  act-Untouched l (waited k) h own by e = record { session = e; messages = refl }

  -- Whatever the requests of a user, answered one after the other or at the same time, and the worker do,
  -- on consistent tables, a session of another user stays as it is, with all its messages.
  pub acts-Untouched :
      (l : Live E) (actions : List (Action E))
      → IsConsistent l
      → AreOf user l.asked
      → All (λ a. is_by user a ≡ true) actions
      → session_at s.id l.db.sessions ≡ some s
      → Untouched s l.db (acts env to_date v l actions).db
  unfolding acts
  acts-Untouched l [] h own by e = same-Untouched s l.db h.well_formed e
  acts-Untouched l (a ∷ rest) h own (b, by) e =
      let one = act-Untouched l a h own b e in
      let more =
        acts-Untouched (act env to_date v l a) rest (act-IsConsistent env to_date v l a h)
          (act-AreOf l a b own) by one.session in
      record { session = more.session; messages = more.messages ∙ one.messages }
