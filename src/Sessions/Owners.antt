-- ===== src/Sessions/Owners.antt =====
-- utils/session.ts and controllers/session.controller.ts: a request reaches only the sessions of the
-- user who makes it.
use bubblog_ai.Prelude.{
  ℕ, zero, suc, ◌≡◌, inl, inr, refl, subst, ◌∙◌, Bool, true, false, not, Option, none, some, arith,
  List, [], ◌∷◌, if◌then◌else◌, Bool-cases,
}
use bubblog_ai.Prelude.Text.{Text, text_eq, text_eq_iff, is_empty, codes}
use bubblog_ai.Prelude.Filter.{filter, find}
use bubblog_ai.Prelude.Found.{find-true}
use bubblog_ai.Repository.{AskSession, Db}
use bubblog_ai.Repository.Sessions.{
  map_session, is_for_requester, updated_row, update_where, SessionUpdates, create_session,
  optional_session, update_sessions,
}
use bubblog_ai.Sessions.Kept.{patch_session_handler-Kept, delete_session_handler-Kept}
use bubblog_ai.Sessions.Requests.{patch_session_handler, delete_session_handler}
use bubblog_ai.Sessions.{
  Platform, Reply, ok, failed, Resolution, ResolveSessionOptions, mismatched, trimmed_owner,
  resolve_existing, resolve_new, resolve_session_context,
}

-- The sessions of other users.
abbrev pub others : Text → List AskSession → List AskSession
others requester ss = filter (λ s. not (text_eq s.requester_user_id requester)) ss

module _ (i : ℕ) (requester : Text) (f : AskSession → AskSession)
    (same : (s : AskSession) → (f s).requester_user_id ≡ s.requester_user_id) where
  row-requester :
      (s : AskSession)
      → (if is_for_requester i requester s then f s else s).requester_user_id ≡ s.requester_user_id
  row-requester s = elim (Bool-cases (is_for_requester i requester s)) [
    | inl e ↦ rw (e) (same s)
    | inr e ↦ rw (e) refl
  ]

  not-mine :
      (s : AskSession)
      → text_eq s.requester_user_id requester ≡ false
      → is_for_requester i requester s ≡ false
  not-mine s e = ground (arith, e)

  update-others :
      (ss : List AskSession)
      → others requester (update_where (is_for_requester i requester) f ss) ≡ others requester ss
  unfolding filter
  update-others [] = refl
  update-others (s ∷ ss) = elim (Bool-cases (text_eq s.requester_user_id requester)) [
    | inl e ↦ rw (row-requester s, e, update-others ss) refl
    | inr e ↦ rw (not-mine s e, e, update-others ss) refl
  ]

  delete-others :
      (ss : List AskSession)
      → others requester (filter (λ s. not (is_for_requester i requester s)) ss)
        ≡ others requester ss
  unfolding filter
  delete-others [] = refl
  delete-others (s ∷ ss) = elim (Bool-cases (text_eq s.requester_user_id requester)) [
    | inr e ↦ rw (not-mine s e, filter, e, delete-others ss) refl
    | inl e ↦ elim (Bool-cases (is_for_requester i requester s)) [
      | inl d ↦ rw (d, e, delete-others ss) refl
      | inr d ↦ rw (d, filter, e, delete-others ss) refl
    ]
  ]

pub data Change : Type 0 where
  patch : Text → Option SessionUpdates → Change
  delete : Text → Change

module _ {E : Type 0} (env : Platform) where
  update_sessions-others :
      (db : Db E) (i : ℕ) (requester : Text) (u : SessionUpdates)
      → others requester (update_sessions env.to_date db i requester u).0.sessions
        ≡ others requester db.sessions
  unfolding update_sessions
  update_sessions-others db i requester u =
      update-others i requester (updated_row u db.now) (λ s. refl) db.sessions

  patch_session_handler-others :
      (db : Db E) (requester id : Text) (body : Option SessionUpdates)
      → others requester (patch_session_handler env db (some requester) id body).0.sessions
        ≡ others requester db.sessions
  patch_session_handler-others db requester id body =
      patch_session_handler-Kept env
        (λ next. others requester next.sessions ≡ others requester db.sessions) db refl
        (some requester) id body
        (λ r i u e.
          let mine : requester ≡ r = cc (e) in
          subst
            (λ x.
              others requester (update_sessions env.to_date db i x u).0.sessions
              ≡ others requester db.sessions)
            mine (update_sessions-others db i requester u))

  delete_session_handler-others :
      (db : Db E) (requester id : Text)
      → others requester (delete_session_handler env db (some requester) id).0.sessions
        ≡ others requester db.sessions
  delete_session_handler-others db requester id =
      delete_session_handler-Kept env
        (λ next. others requester next.sessions ≡ others requester db.sessions) db refl
        (some requester) id
        (λ r i s e _.
          let mine : requester ≡ r = cc (e) in
          subst
            (λ x.
              others requester (filter (λ s. not (is_for_requester i x s)) db.sessions)
              ≡ others requester db.sessions)
            mine (delete-others i requester (λ s. s) (λ s. refl) db.sessions))

  -- The requests of one requester that change a session or delete it, one after the other.
  abbrev pub run_changes : Text → List Change → Db E → Db E
  run_changes requester [] db = db
  run_changes requester (patch id body ∷ cs) db =
      run_changes requester cs (patch_session_handler env db (some requester) id body).0
  run_changes requester (delete id ∷ cs) db =
      run_changes requester cs (delete_session_handler env db (some requester) id).0

  -- Any requests of one requester to change or delete sessions, whatever they hold, leave the sessions of
  -- all other users as they are.
  pub run_changes-others :
      (requester : Text) (cs : List Change) (db : Db E)
      → others requester (run_changes requester cs db).sessions ≡ others requester db.sessions
  run_changes-others requester [] db = refl
  run_changes-others requester (patch id body ∷ cs) db =
      run_changes-others requester cs (patch_session_handler env db (some requester) id body).0
      ∙ patch_session_handler-others db requester id body
  run_changes-others requester (delete id ∷ cs) db =
      run_changes-others requester cs (delete_session_handler env db (some requester) id).0
      ∙ delete_session_handler-others db requester id

  -- The session is the requester's; one that was there has the owner that the request names, if it names
  -- one, and the database is as before; a new one has the owner of the request, without outer space.
  pub record IsResolved (db : Db E) (o : ResolveSessionOptions) (next : Db E) (r : Resolution)
      : Type 0 where
    pub requester : r.session.requester_user_id ≡ o.requester_user_id
    pub kept : r.created ≡ false → (mismatched o.owner_user_id r.session ≡ false) × (next ≡ db)
    pub new : r.created ≡ true → r.session.owner_user_id ≡ trimmed_owner o.owner_user_id

  abbrev pub WhenOk : Db E → ResolveSessionOptions → Db E × Reply Resolution → Type 0
  WhenOk db o (next, ok r) = IsResolved db o next r
  WhenOk db o (next, failed _ _) = Unit

  checked :
      (db : Db E) (o : ResolveSessionOptions) (s : AskSession) (b : Bool)
      → s.requester_user_id ≡ o.requester_user_id
      → mismatched o.owner_user_id s ≡ b
      → WhenOk db o (
        db,
        if b
            then failed 409 (codes "Session owner mismatch")
            else ok (record { session = s; created = false }),
      )
  checked db o s true e d = tt
  checked db o s false e d = record {
    requester = e;
    kept = λ _. (d, refl);
    new = λ c. absurd (ground (arith, c));
  }

  mapped :
      (db : Db E) (o : ResolveSessionOptions) (i : ℕ) (found : Option AskSession)
      → find (is_for_requester (suc i) o.requester_user_id) db.sessions ≡ found
      → WhenOk db o (
        db,
        elim (optional_session env.to_date found) [
          | none ↦ failed 404 (codes "Session not found")
          | some s ↦
              if mismatched o.owner_user_id s
              then failed 409 (codes "Session owner mismatch")
              else ok (record { session = s; created = false })
        ],
      )
  mapped db o i none e = tt
  mapped db o i (some s) e =
      checked db o (map_session env.to_date s)
        (mismatched o.owner_user_id (map_session env.to_date s))
        ((text_eq_iff s.requester_user_id o.requester_user_id).0 (
          ground (arith, find-true (is_for_requester (suc i) o.requester_user_id) db.sessions s e)))
        refl

  existing :
      (db : Db E) (o : ResolveSessionOptions) (id : Option ℕ)
      → WhenOk db o (db, resolve_existing env db o id)
  unfolding resolve_existing
  existing db o none = tt
  existing db o (some zero) = tt
  existing db o (some (suc i)) =
      mapped db o i (find (is_for_requester (suc i) o.requester_user_id) db.sessions) refl

  fresh : (db : Db E) (o : ResolveSessionOptions) → WhenOk db o (resolve_new env db o)
  unfolding resolve_new create_session
  fresh db o = elim (Bool-cases (is_empty (trimmed_owner o.owner_user_id))) [
    | inl e ↦ rw (e) tt
    | inr e ↦
        rw (e)
          (record { requester = refl; kept = λ c. absurd (ground (arith, c)); new = λ _. refl })
  ]

  chosen :
      (db : Db E) (o : ResolveSessionOptions) (id : Option Text)
      → WhenOk db o (elim id [
        | none ↦ resolve_new env db o
        | some [] ↦ resolve_new env db o
        | some (c ∷ cs) ↦ (db, resolve_existing env db o (env.text_id (c ∷ cs)))
      ])
  chosen db o none = fresh db o
  chosen db o (some []) = fresh db o
  chosen db o (some (c ∷ cs)) = existing db o (env.text_id (c ∷ cs))

  -- A session that is resolved satisfies `IsResolved`.
  pub resolve_session_context-IsResolved :
      (db : Db E) (o : ResolveSessionOptions) (next : Db E) (r : Resolution)
      → resolve_session_context env db o ≡ (next, ok r)
      → IsResolved db o next r
  unfolding resolve_session_context
  resolve_session_context-IsResolved db o next r e =
      subst (WhenOk db o) e (chosen db o o.session_id)
