-- ===== src/System/Resolved.antt =====
-- utils/session.ts: the session that a question is given.
use bubblog_ai.Prelude.{
  ◌++◌, ℕ, suc, ◌<◌, ◌≡◌, inl, inr, refl, subst, sym, ◌∙◌, false, Option, none, some, [], ◌∷◌, All,
  arith, if◌then◌else◌, Bool-cases, zero,
}
use bubblog_ai.Prelude.Text.{Text, is_empty, text_eq, codes}
use bubblog_ai.Prelude.Filter.{find}
use bubblog_ai.Prelude.Found.{find-All, find-true}
use bubblog_ai.Repository.{AskSession, Db}
use bubblog_ai.Repository.Keys.{at-only, at-last}
use bubblog_ai.Repository.Sessions.{
  map_session, optional_session, new_session, is_for_requester, create_session,
}
use bubblog_ai.Repository.Integrity.{IsWellFormed}
use bubblog_ai.Sessions.{
  Platform, Reply, ok, failed, Resolution, ResolveSessionOptions, mismatched, trimmed_owner,
  resolve_existing, resolve_new, resolve_session_context, session_title,
}
use bubblog_ai.System.Evolution.{session_at, SameUsers, IsAttributed, IsGiven}
use bubblog_ai.System.Turns.{Carries, stays}
use bubblog_ai.System.Transactions.{created-Carries}

-- The session of an accepted request is given to it.
abbrev pub WhenGiven : {E : Type 0} → Db E → Reply Resolution → Type 0
WhenGiven next (failed _ _) = Unit
WhenGiven next (ok r) = IsGiven next r.session

module _ {E : Type 0} (env : Platform) (db : Db E) (w : IsWellFormed db)
    (a : All (IsAttributed db.sessions db.messages) db.cache) where
  abbrev Resolves : Db E × Reply Resolution → Type 0
  Resolves (next, reply) = Carries db next × WhenGiven next reply

  -- A session that is there, under its own id.
  found-IsGiven :
      (to_date : ℕ → ℕ) (i : ℕ) (requester : Text) (s : AskSession)
      → find (is_for_requester i requester) db.sessions ≡ some s
      → IsGiven db (map_session to_date s)
  found-IsGiven to_date i requester s e = record {
    used =
        find-All (λ s. s.id < db.next_session) (is_for_requester i requester) db.sessions s
          w.session_ids e;
    same = λ t d.
        let id : s.id ≡ i =
          ground (arith, find-true (is_for_requester i requester) db.sessions s e) in
        let was : session_at i db.sessions ≡ some s =
          at-only (λ s. s.id) (λ s. text_eq s.requester_user_id requester) i db.sessions s
            w.sessions_distinct e in
        let same : some s ≡ some t =
          sym was ∙ subst (λ j. session_at j db.sessions ≡ some t) id d in
        let equal : s ≡ t = cc (same) in
        subst (SameUsers (map_session to_date s)) equal (refl, refl);
  }

  optional-Resolves :
      (o : ResolveSessionOptions) (i : ℕ) (found : Option AskSession)
      → find (is_for_requester i o.requester_user_id) db.sessions ≡ found
      → Resolves (
        db,
        elim (optional_session env.to_date found) [
          | none ↦ failed 404 (codes "Session not found")
          | some s ↦
              if mismatched o.owner_user_id s
              then failed 409 (codes "Session owner mismatch")
              else ok (record { session = s; created = false })
        ],
      )
  optional-Resolves o i none e = (stays db w a, tt)
  optional-Resolves o i (some s) e =
      elim (Bool-cases (mismatched o.owner_user_id (map_session env.to_date s))) [
        | inl d ↦ rw (d) (stays db w a, tt)
        | inr d ↦ rw (d) (stays db w a, found-IsGiven env.to_date i o.requester_user_id s e)
      ]

  resolve_existing-Resolves :
      (o : ResolveSessionOptions) (id : Option ℕ) → Resolves (db, resolve_existing env db o id)
  unfolding resolve_existing
  resolve_existing-Resolves o none = (stays db w a, tt)
  resolve_existing-Resolves o (some zero) = (stays db w a, tt)
  resolve_existing-Resolves o (some (suc i)) =
      optional-Resolves o (suc i) (find (is_for_requester (suc i) o.requester_user_id) db.sessions)
        refl

  created-IsGiven :
      (requester owner : Text) (title metadata : Option Text)
      → IsGiven
          (create_session env.to_date requester owner title metadata db).0
          (create_session env.to_date requester owner title metadata db).1
  unfolding create_session
  created-IsGiven requester owner title metadata =
      let row : AskSession = new_session requester owner title metadata db in
      record {
        used = omega arith;
        same = λ t e.
            let last = at-last (λ s. s.id) db.sessions row w.session_ids in
            let same : some row ≡ some t = sym last ∙ e in
            let equal : row ≡ t = cc (same) in subst (SameUsers row) equal (refl, refl);
      }

  resolve_new-Resolves : (o : ResolveSessionOptions) → Resolves (resolve_new env db o)
  unfolding resolve_new create_session
  resolve_new-Resolves o = elim (Bool-cases (is_empty (trimmed_owner o.owner_user_id))) [
    | inl e ↦ rw (e) (stays db w a, tt)
    | inr e ↦ rw (e) (
      created-Carries db w a o.requester_user_id (trimmed_owner o.owner_user_id)
          (session_title o.title_hint) none,
      created-IsGiven o.requester_user_id (trimmed_owner o.owner_user_id)
          (session_title o.title_hint) none,
    )
  ]

  chosen-Resolves :
      (o : ResolveSessionOptions) (id : Option Text)
      → Resolves (elim id [
        | none ↦ resolve_new env db o
        | some [] ↦ resolve_new env db o
        | some (c ∷ cs) ↦ (db, resolve_existing env db o (env.text_id (c ∷ cs)))
      ])
  chosen-Resolves o none = resolve_new-Resolves o
  chosen-Resolves o (some []) = resolve_new-Resolves o
  chosen-Resolves o (some (c ∷ cs)) = resolve_existing-Resolves o (env.text_id (c ∷ cs))

  pub resolve_session_context-Carries :
      (o : ResolveSessionOptions) → Carries db (resolve_session_context env db o).0
  unfolding resolve_session_context
  resolve_session_context-Carries o = (chosen-Resolves o o.session_id).0

  pub resolve_session_context-IsGiven :
      (o : ResolveSessionOptions)
      → WhenGiven (resolve_session_context env db o).0 (resolve_session_context env db o).1
  unfolding resolve_session_context
  resolve_session_context-IsGiven o = (chosen-Resolves o o.session_id).1

-- A session is resolved by reading the tables, or by adding one.
module _ {E : Type 0} (env : Platform) (P : Db E → Type 0) (db : Db E) (o : ResolveSessionOptions)
    (same : P db)
    (created : (title : Option Text)
      → P (record db {
        sessions =
            db.sessions
            ++ (new_session o.requester_user_id (trimmed_owner o.owner_user_id) title none db ∷ []);
        next_session = suc db.next_session;
      })) where
  resolve_new-Kept : P (resolve_new env db o).0
  unfolding resolve_new create_session
  resolve_new-Kept = elim (Bool-cases (is_empty (trimmed_owner o.owner_user_id))) [
    | inl e ↦ rw (e) same
    | inr e ↦ rw (e) (created (session_title o.title_hint))
  ]

  abbrev FirstKept : Db E × Reply Resolution → Type 0
  FirstKept r = P r.0

  chosen-Kept :
      (id : Option Text)
      → FirstKept (elim id [
        | none ↦ resolve_new env db o
        | some [] ↦ resolve_new env db o
        | some (c ∷ cs) ↦ (db, resolve_existing env db o (env.text_id (c ∷ cs)))
      ])
  chosen-Kept none = resolve_new-Kept
  chosen-Kept (some []) = resolve_new-Kept
  chosen-Kept (some (c ∷ cs)) = same

  pub resolve_session_context-Kept : P (resolve_session_context env db o).0
  unfolding resolve_session_context
  resolve_session_context-Kept = chosen-Kept o.session_id
