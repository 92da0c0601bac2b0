-- ===== src/Ask/Replies.antt =====
-- controllers/ai.controller.ts, controllers/ai.v2.controller.ts: how a request for an answer is replied to.
use bubblog_ai.Prelude.{
  ℕ, ◌≡◌, refl, inl, inr, arith, Bool, true, false, Bool-cases, Option, none, some, List, [], ◌∷◌,
}
use bubblog_ai.Prelude.Text.{Text}
use bubblog_ai.Repository.{AskSession, Db}
use bubblog_ai.Repository.Cache.{Vectors}
use bubblog_ai.Sessions.{
  Platform, Reply, ok, failed, User, extract_requester_id, Resolution, resolve_session_context,
}
use bubblog_ai.Qa.Data.{
  Out, write, session_saved, session_error, ended, ChatMessage, Request, Serving, Reader,
}
use bubblog_ai.Qa.{answer_stream}
use bubblog_ai.Qa.Flow.Writes.{is_served}
use bubblog_ai.Qa.Shape.{Finishes, answer_stream-served}
use bubblog_ai.QaV2.{Planning, answer_stream_v2}
use bubblog_ai.QaV2.Served.{answer_stream_v2-served}
use bubblog_ai.Ask.{
  Sent, json_reply, headers, body, closed, AskBody, bridge, answered, ask_as, request_of,
  ask_handler, ask_v2_handler,
}

-- Writes, and the end behind them.
abbrev pub is_closed : List Sent → Bool
is_closed (body _ ∷ sent) = is_closed sent
is_closed (closed ∷ []) = true
is_closed _ = false

-- A single reply with a status, or the headers, then writes, then the end, and nothing after it.
abbrev pub is_answered : List Sent → Bool
is_answered (json_reply _ _ ∷ []) = true
is_answered (headers _ ∷ sent) = is_closed sent
is_answered _ = false

bridge-closed :
    (env : Platform) (s : AskSession) (out : List Out)
    → is_served out ≡ true
    → is_closed (bridge env s out) ≡ true
unfolding bridge
bridge-closed env s [] h = h
bridge-closed env s (write t ∷ out) h = bridge-closed env s out h
bridge-closed env s (session_saved c ∷ ended ∷ []) h = refl
bridge-closed env s (session_error r ∷ ended ∷ []) h = refl
bridge-closed env s (ended ∷ []) h = refl
bridge-closed env s _ h = absurd (ground (arith, h))

module _ {E : Type 0} (env : Platform) where
  answered-answered :
      (serve : AskSession → Db E → Serving E) (requester : Text) (r : Db E × Reply Resolution)
      → ((s : AskSession) (db : Db E) → is_served (serve s db).out ≡ true)
      → is_answered (answered env serve requester r).0 ≡ true
  answered-answered serve requester (db, failed status message) h = refl
  answered-answered serve requester (db, ok r) h = elim (Bool-cases r.created) [
    | inl e ↦ rw (e) (bridge-closed env r.session (serve r.session db).out (h r.session db))
    | inr e ↦ rw (e) (bridge-closed env r.session (serve r.session db).out (h r.session db))
  ]

  ask_as-answered :
      (serve : Text → AskSession → Db E → Serving E) (requester : Option Text) (b : AskBody)
      (db : Db E)
      → ((t : Text) (s : AskSession) (db : Db E) → is_served (serve t s db).out ≡ true)
      → is_answered (ask_as env serve requester b db).0 ≡ true
  ask_as-answered serve none b db h = refl
  ask_as-answered serve (some []) b db h = refl
  ask_as-answered serve (some (c ∷ cs)) b db h =
      answered-answered (serve (c ∷ cs)) (c ∷ cs) (resolve_session_context env db _) (h (c ∷ cs))

  module _ {S : Type 0} (to_date : ℕ → ℕ) (v : Vectors E S) (reader : Reader)
      (around : AskSession → Request E)
      (finishes : (s : AskSession) (ms : List ChatMessage) → Finishes ((around s).llm ms)) where
    pub ask_handler-answered :
        (user : Option User) (b : AskBody) (db : Db E)
        → is_answered (ask_handler env to_date v reader around user b db).0 ≡ true
    unfolding ask_handler
    ask_handler-answered user b db =
        ask_as-answered
          (λ requester s. answer_stream to_date v reader (request_of env around b requester s))
          (extract_requester_id user) b db
          (λ t s db.
            answer_stream-served to_date v reader (request_of env around b t s) (finishes s) db)

    pub ask_v2_handler-answered :
        {J W : Type 0} (g : Planning J W) (user : Option User) (b : AskBody) (db : Db E)
        → is_answered (ask_v2_handler env to_date v reader g around user b db).0 ≡ true
    unfolding ask_v2_handler
    ask_v2_handler-answered g user b db =
        ask_as-answered
          (λ requester s. answer_stream_v2 to_date v reader g (request_of env around b requester s))
          (extract_requester_id user) b db
          (λ t s db.
            answer_stream_v2-served to_date v reader g (request_of env around b t s) (finishes s)
              db)
