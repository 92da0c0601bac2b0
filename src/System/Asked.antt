-- ===== src/System/Asked.antt =====
-- controllers/ai.controller.ts, ai.v2.controller.ts, routes/ai.v2.routes.ts: a question is answered by the
-- transactions of `System`.
use bubblog_ai.Prelude.{
  zero, Bool, true, false, ◌∷◌, [], List, sym, ◌∙◌, ℕ, ◌≡◌, inl, inr, refl, ap₂, ◌⊎◌, Option, none,
  some,
}
use bubblog_ai.Prelude.Text.{Text}
use bubblog_ai.Prelude.Int.{ℤ}
use bubblog_ai.Repository.{AskSession, Db}
use bubblog_ai.Repository.Cache.{Vectors}
use bubblog_ai.History.{PersistConversationInput, Faults, persist_conversation}
use bubblog_ai.Qa.Data.{Serving, LlmStream, Request, Reader}
use bubblog_ai.Qa.{answer_stream, turn_of, save_embedded}
use bubblog_ai.Qa.Flow.{answer_stream-Closed, Finishing, Flow}
use bubblog_ai.QaV2.{Planning, answer_stream_v2}
use bubblog_ai.QaV2.Flow.{answer_stream_v2-Closed}
use bubblog_ai.Ask.{ask_handler, AskBody, answered, ask_as, request_of, ask_v2_handler}
use bubblog_ai.Ask.Routes.{auth_middleware, routed, ask_v2_route}
use bubblog_ai.Sessions.{
  Platform, Reply, ok, failed, User, Resolution, ResolveSessionOptions, resolve_session_context,
  extract_requester_id,
}
use bubblog_ai.Sessions.Owners.{resolve_session_context-IsResolved}
use bubblog_ai.System.{Action, resolved, stored, for_session, act, acts}

-- Nothing is stored for a session, or one turn.
abbrev StoresOne : {E S : Type 0} → (ℕ → ℕ) → Vectors E S → AskSession → Db E → Db E → Type 0
StoresOne {E} to_date v s db next =
    (next ≡ db)
    ⊎ ((c : PersistConversationInput E) × (f : Faults) × (next
          ≡ (persist_conversation to_date v f (for_session s c) db).0))

module _ {E S : Type 0} (to_date : ℕ → ℕ) (v : Vectors E S) (reader : Reader) (r : Request E)
    (owner : r.owner_user_id ≡ r.session.owner_user_id)
    (requester : r.requester_user_id ≡ r.session.requester_user_id) (db : Db E) where
  turn_of-for :
      (answer : Text) (plan meta : Option Text) (tone : ℤ) (q d : E)
      → turn_of to_date v reader r answer plan meta tone q d
        ≡ for_session r.session (turn_of to_date v reader r answer plan meta tone q d)
  turn_of-for answer plan meta tone q d =
      ap₂
        (λ o w. record (turn_of to_date v reader r answer plan meta tone q d) {
          owner_user_id = o;
          requester_user_id = w;
        })
        owner requester

  -- The tables stay as they are while the stream is open, and get at most one turn at its end.
  unfoldable turns : Flow to_date v reader r
  unfolding save_embedded
  turns = record {
    Open = λ st. st.db ≡ db;
    Closed = λ st. StoresOne to_date v r.session db st.db;
    Ends = λ _. Unit;
    writes = λ st w k h. h;
    stops = λ st w k h. inl h;
    stores = λ st cached unembedded answer plan meta tone q d h.
        let c = turn_of to_date v reader r answer plan meta tone q d in
        inr (
          c,
          r.faults,
          ap₂ (λ x y. (persist_conversation to_date v r.faults x y).0)
              (turn_of-for answer plan meta tone q d) h,
        );
    hangs = λ st n h. inl h;
  }

  ends : (s : Option LlmStream) → Finishing (λ _. Unit) s
  ends none = tt
  ends (some s) = tt

  answer_stream-StoresOne :
      StoresOne to_date v r.session db (answer_stream to_date v reader r db).db
  unfolding turns
  answer_stream-StoresOne =
      answer_stream-Closed to_date v reader r turns (λ ms. ends (r.llm ms)) db refl

  answer_stream_v2-StoresOne :
      {J W : Type 0} (g : Planning J W)
      → StoresOne to_date v r.session db (answer_stream_v2 to_date v reader g r db).db
  unfolding turns
  answer_stream_v2-StoresOne g =
      answer_stream_v2-Closed to_date v reader g r turns (λ ms. ends (r.llm ms)) db refl

-- The transactions of one question.
abbrev pub is_question : {E : Type 0} → List (Action E) → Bool
is_question [] = true
is_question (resolved _ ∷ []) = true
is_question (resolved _ ∷ stored zero _ _ ∷ []) = true
is_question _ = false

module _ {E S : Type 0} (env : Platform) (to_date : ℕ → ℕ) (v : Vectors E S) where
  -- No transaction, or one that resolves a session, then at most one that stores a turn for it, make these
  -- tables of those.
  abbrev pub Transacted : Db E → Db E → Type 0
  Transacted db next =
      (actions : List (Action E)) × (is_question actions ≡ true)
      × ((acts env to_date v (record { db = db; asked = [] }) actions).db ≡ next)

  answered-Transacted :
      (serve : AskSession → Db E → Serving E) (requester : Text) (db : Db E)
      (o : ResolveSessionOptions) (r : Db E × Reply Resolution)
      → o.requester_user_id ≡ requester
      → ((s : AskSession) (next : Db E)
          → s.requester_user_id ≡ requester
          → StoresOne to_date v s next (serve s next).db)
      → resolve_session_context env db o ≡ r
      → Transacted db (answered env serve requester r).1
  unfolding acts act
  answered-Transacted serve requester db o (next, failed status message) same h e =
      (resolved o ∷ [], refl, rw (e) refl)
  answered-Transacted serve requester db o (next, ok r) same h e =
      let mine = (resolve_session_context-IsResolved env db o next r e).requester ∙ same in
      elim (h r.session next mine) [
        | inl d ↦ (resolved o ∷ [], refl, rw (e) (sym d))
        | inr (c, f, d) ↦ (resolved o ∷ stored 0 c f ∷ [], refl, rw (e) (sym d))
      ]

  ask_as-Transacted :
      (serve : Text → AskSession → Db E → Serving E) (requester : Option Text) (b : AskBody)
      (db : Db E)
      → ((t : Text) (s : AskSession) (next : Db E)
          → s.requester_user_id ≡ t
          → StoresOne to_date v s next (serve t s next).db)
      → Transacted db (ask_as env serve requester b db).1
  unfolding acts
  ask_as-Transacted serve none b db h = ([], refl, refl)
  ask_as-Transacted serve (some []) b db h = ([], refl, refl)
  ask_as-Transacted serve (some (c ∷ cs)) b db h =
      let o : ResolveSessionOptions = record {
        requester_user_id = c ∷ cs;
        session_id = b.session_id;
        owner_user_id = b.user_id;
        title_hint = some b.question;
      } in
      answered-Transacted (serve (c ∷ cs)) (c ∷ cs) db o (resolve_session_context env db o) refl
        (h (c ∷ cs)) refl

  module _ (reader : Reader) {J W : Type 0} (g : Planning J W)
      (around : AskSession → Request E) where
    ask_v2_handler-Transacted :
        (user : Option User) (b : AskBody) (db : Db E)
        → Transacted db (ask_v2_handler env to_date v reader g around user b db).1
    unfolding ask_v2_handler
    ask_v2_handler-Transacted user b db =
        ask_as-Transacted
          (λ requester s. answer_stream_v2 to_date v reader g (request_of env around b requester s))
          (extract_requester_id user) b db
          (λ t s next e.
            answer_stream_v2-StoresOne to_date v reader (request_of env around b t s) refl (sym e)
              next g)

    -- And so for a question to the first search.
    pub ask_handler-Transacted :
        (user : Option User) (b : AskBody) (db : Db E)
        → Transacted db (ask_handler env to_date v reader around user b db).1
    unfolding ask_handler
    ask_handler-Transacted user b db =
        ask_as-Transacted
          (λ requester s. answer_stream to_date v reader (request_of env around b requester s))
          (extract_requester_id user) b db
          (λ t s next e.
            answer_stream-StoresOne to_date v reader (request_of env around b t s) refl (sym e)
              next)

    routed-Transacted :
        (b : AskBody) (db : Db E) (r : Reply User)
        → Transacted db
            (routed (λ u. ask_v2_handler env to_date v reader g around (some u) b db) db r).1
    unfolding acts
    routed-Transacted b db (failed status message) = ([], refl, refl)
    routed-Transacted b db (ok u) = ask_v2_handler-Transacted (some u) b db

    -- Whatever the header, the body and the services are, and whether the model finishes or not, a
    -- question to the planned search does to the tables what no transaction of `System` does, or one that
    -- resolves a session, then at most one that stores a turn for that session and its users.
    pub ask_v2_route-Transacted :
        (verify : Text → Option User) (header : Option Text) (b : AskBody) (db : Db E)
        → Transacted db (ask_v2_route env to_date v reader verify g around header b db).1
    unfolding ask_v2_route
    ask_v2_route-Transacted verify header b db =
        routed-Transacted b db (auth_middleware verify header)
