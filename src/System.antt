-- ===== src/System.antt =====
-- The processes that share the tables: the requests of controllers/ai.controller.ts, ai.v2.controller.ts and
-- session.controller.ts and the jobs of worker/queue-consumer.ts, transaction by transaction. Between two
-- transactions of one request come those of any others.
pub mod Evolution
pub mod Changes
pub mod Turns
pub mod Transactions
pub mod Resolved
pub mod Consistent
pub mod Replayed
pub mod Fresh
pub mod Worked
pub mod Untouched
pub mod Asked
use bubblog_ai.Prelude.{ℕ, zero, suc, ◌+◌, Option, none, some, List, [], ◌∷◌, ◌++◌}
use bubblog_ai.Prelude.Text.{Text}
use bubblog_ai.Repository.{AskSession, Db}
use bubblog_ai.Repository.Sessions.{SessionUpdates}
use bubblog_ai.Repository.Cache.{Vectors, delete_embeddings_by_owner}
use bubblog_ai.History.{PersistConversationInput, Faults, persist_conversation}
use bubblog_ai.Sessions.{
  Platform, Reply, ok, failed, Resolution, ResolveSessionOptions, resolve_session_context,
}
use bubblog_ai.Sessions.Requests.{patch_session_handler, delete_session_handler}

-- The tables, and the sessions that were resolved for the questions so far, the first one first.
pub record Live (E : Type 0) : Type 0 where
  pub db : Db E
  pub asked : List AskSession

-- A transaction: a session is resolved for a question, the turn of the question with a number is stored, a
-- session is changed or deleted, the answers of an owner are invalidated, or time passes.
pub data Action (E : Type 0) : Type 0 where
  resolved : ResolveSessionOptions → Action E
  stored : ℕ → PersistConversationInput E → Faults → Action E
  patched : Option Text → Text → Option SessionUpdates → Action E
  deleted : Option Text → Text → Action E
  invalidated : Text → Action E
  waited : ℕ → Action E

abbrev pub get_elem? : {A : Type 0} → List A → ℕ → Option A
get_elem? [] n = none
get_elem? (x ∷ xs) zero = some x
get_elem? (x ∷ xs) (suc n) = get_elem? xs n

abbrev pub given : List AskSession → Reply Resolution → List AskSession
given asked (ok r) = asked ++ (r.session ∷ [])
given asked (failed _ _) = asked

-- A turn of the session, with the users that the session names.
abbrev pub for_session :
    {E : Type 0} → AskSession → PersistConversationInput E → PersistConversationInput E
for_session s c = record c {
  session_id = s.id;
  requester_user_id = s.requester_user_id;
  owner_user_id = s.owner_user_id;
}

module _ {E S : Type 0} (env : Platform) (to_date : ℕ → ℕ) (v : Vectors E S) where
  abbrev pub store_for : Option AskSession → PersistConversationInput E → Faults → Db E → Db E
  store_for none c f db = db
  store_for (some s) c f db = (persist_conversation to_date v f (for_session s c) db).0

  unfoldable pub act : Live E → Action E → Live E
  unfolding resolve_session_context persist_conversation patch_session_handler
      delete_session_handler delete_embeddings_by_owner
  act l (resolved o) =
      let r = resolve_session_context env l.db o in record { db = r.0; asked = given l.asked r.1 }
  act l (stored n c f) = record l { db = store_for (get_elem? l.asked n) c f l.db }
  act l (patched user id body) = record l { db = (patch_session_handler env l.db user id body).0 }
  act l (deleted user id) = record l { db = (delete_session_handler env l.db user id).0 }
  act l (invalidated owner) = record l { db = (delete_embeddings_by_owner owner l.db).0 }
  act l (waited n) = record l { db = record l.db { now = l.db.now + n } }

  unfoldable pub acts : Live E → List (Action E) → Live E
  unfolding act
  acts l [] = l
  acts l (a ∷ rest) = acts (act l a) rest
