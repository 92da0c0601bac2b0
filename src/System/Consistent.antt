-- ===== src/System/Consistent.antt =====
-- What holds of the tables and of the requests that are being answered after any transactions, in any order.
use bubblog_ai.Prelude.{ℕ, suc, List, [], ◌∷◌, All, All-append, zero}
use bubblog_ai.Prelude.Filter.{All-weaken}
use bubblog_ai.Repository.{AskSession, Db}
use bubblog_ai.Repository.Cache.{Vectors}
use bubblog_ai.Repository.Integrity.{IsWellFormed}
use bubblog_ai.Sessions.{Platform, Reply, ok, failed, Resolution, resolve_session_context}
use bubblog_ai.Sessions.Kept.{patch_session_handler-Kept, delete_session_handler-Kept}
use bubblog_ai.System.{
  Live, Action, resolved, stored, patched, deleted, invalidated, waited, get_elem?, given, act,
  acts, store_for,
}
use bubblog_ai.System.Evolution.{IsAttributed, IsGiven, Follows-IsGiven}
use bubblog_ai.System.Turns.{Carries, stays, persist_conversation-Carries}
use bubblog_ai.System.Transactions.{
  updated-Carries, removed-Carries, invalidated-Carries, waited-Carries,
}
use bubblog_ai.System.Resolved.{
  WhenGiven, resolve_session_context-Carries, resolve_session_context-IsGiven,
}
use bubblog_ai.History.{PersistConversationInput, Faults}

-- The tables are well-formed, every cached question and its answer are messages of one session, between the
-- users that the row names, and the sessions that requests were given are between their users.
pub record IsConsistent {E : Type 0} (l : Live E) : Type 0 where
  pub well_formed : IsWellFormed l.db
  pub attributed : All (IsAttributed l.db.sessions l.db.messages) l.db.cache
  pub asked : All (IsGiven l.db) l.asked

module _ {E S : Type 0} (env : Platform) (to_date : ℕ → ℕ) (v : Vectors E S) where
  given-All :
      (asked : List AskSession) (next : Db E) (reply : Reply Resolution)
      → All (IsGiven next) asked
      → WhenGiven next reply
      → All (IsGiven next) (given asked reply)
  given-All asked next (failed status message) h g = h
  given-All asked next (ok r) h g = All-append (IsGiven next) asked (r.session ∷ []) h (g, tt)

  store_for-Carries :
      (l : Live E) (n : ℕ) (asked : List AskSession) (c : PersistConversationInput E) (f : Faults)
      → IsConsistent l
      → All (IsGiven l.db) asked
      → Carries l.db (store_for env to_date v (get_elem? asked n) c f l.db)
  store_for-Carries l n [] c f h g = stays l.db h.well_formed h.attributed
  store_for-Carries l zero (s ∷ asked) c f h (g, gs) =
      persist_conversation-Carries to_date v l.db h.well_formed h.attributed f c s g
  store_for-Carries l (suc n) (s ∷ asked) c f h (g, gs) = store_for-Carries l n asked c f h gs

  pub act-Carries :
      (l : Live E) (a : Action E) → IsConsistent l → Carries l.db (act env to_date v l a).db
  unfolding act
  act-Carries l (resolved o) h =
      resolve_session_context-Carries env l.db h.well_formed h.attributed o
  act-Carries l (stored n c f) h = store_for-Carries l n l.asked c f h h.asked
  act-Carries l (patched user id body) h =
      patch_session_handler-Kept env (Carries l.db) l.db (stays l.db h.well_formed h.attributed)
        user id body
        (λ requester i u _.
          updated-Carries l.db h.well_formed h.attributed env.to_date i requester u)
  act-Carries l (deleted user id) h =
      delete_session_handler-Kept env (Carries l.db) l.db (stays l.db h.well_formed h.attributed)
        user id (λ requester i s _ _. removed-Carries l.db h.well_formed h.attributed i requester)
  act-Carries l (invalidated owner) h = invalidated-Carries l.db h.well_formed h.attributed owner
  act-Carries l (waited n) h = waited-Carries l.db h.well_formed h.attributed n

  -- A session that is resolved is given to its request; nothing else gives one.
  act-asked :
      (l : Live E) (a : Action E)
      → IsConsistent l
      → All (IsGiven (act env to_date v l a).db) l.asked
      → All (IsGiven (act env to_date v l a).db) (act env to_date v l a).asked
  unfolding act
  act-asked l (resolved o) h g =
      let next = resolve_session_context env l.db o in
      given-All l.asked next.0 next.1 g
        (resolve_session_context-IsGiven env l.db h.well_formed h.attributed o)
  act-asked l (stored n c f) h g = g
  act-asked l (patched user id body) h g = g
  act-asked l (deleted user id) h g = g
  act-asked l (invalidated owner) h g = g
  act-asked l (waited n) h g = g

  pub act-IsConsistent :
      (l : Live E) (a : Action E) → IsConsistent l → IsConsistent (act env to_date v l a)
  act-IsConsistent l a h =
      let next = (act env to_date v l a).db in
      let c = act-Carries l a h in
      record {
        well_formed = c.well_formed;
        attributed = c.attributed;
        asked = act-asked l a h (
            All-weaken (IsGiven next) l.asked (λ s g. Follows-IsGiven l.db next s c.follows g)
              h.asked);
      }

  -- Whatever transactions of questions, of requests on sessions and of the worker follow each other, in any
  -- order and with whatever statements refused, consistent tables and requests stay consistent.
  pub acts-IsConsistent :
      (l : Live E) (actions : List (Action E))
      → IsConsistent l
      → IsConsistent (acts env to_date v l actions)
  unfolding acts
  acts-IsConsistent l [] h = h
  acts-IsConsistent l (a ∷ rest) h =
      acts-IsConsistent (act env to_date v l a) rest (act-IsConsistent l a h)
