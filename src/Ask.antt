-- ===== src/Ask.antt =====
-- controllers/ai.controller.ts, controllers/ai.v2.controller.ts, controllers/search.controller.ts: a question
-- answered over server-sent events, and a search of all posts answered with JSON.
pub mod Replies
pub mod Routes
use bubblog_ai.Prelude.{
  ℕ, ◌*◌, min, max, Bool, true, false, Option, none, some, List, [], ◌∷◌, ◌++◌, if◌then◌else◌,
}
use bubblog_ai.Prelude.Text.{Text, codes, trim, is_empty}
use bubblog_ai.Prelude.Json.{quote}
use bubblog_ai.Llm.OpenAi.{event_line, data_line}
use bubblog_ai.Repository.{AskSession, Db}
use bubblog_ai.Repository.Cache.{Vectors}
use bubblog_ai.Sessions.{
  Platform, Reply, ok, failed, User, extract_requester_id, Resolution, resolve_session_context,
}
use bubblog_ai.Qa.Data.{
  Out, write, session_saved, session_error, ended, Request, Serving, Reader, bool_text,
}
use bubblog_ai.Qa.{answer_stream}
use bubblog_ai.QaV2.{Planning, answer_stream_v2}
use bubblog_ai.QaV2.Events.{json_object, no_rows}
use bubblog_ai.Aggregate.{ChunkHit, Scores, Aggregated, aggregate_posts, or_default}
use bubblog_ai.Search.{SearchPlan, SearchOptions, run_semantic_search}
use bubblog_ai.Hybrid.{run_hybrid_search}
use bubblog_ai.Plan.{generate_search_plan}

-- What the response gets: a status with a message, or the headers, with the id of the session, the writes
-- and the end.
pub data Sent : Type 0 where
  json_reply : ℕ → Text → Sent
  headers : Text → Sent
  body : Text → Sent
  closed : Sent

pub record AskBody : Type 0 where
  pub question : Text
  pub user_id : Option Text
  pub session_id : Option Text

abbrev event_bodies : Text → Text → List Sent
event_bodies name payload = body (event_line name) ∷ body (data_line payload) ∷ []

abbrev session_fields : Platform → AskSession → Text → List (Text × Text)
session_fields env s requester =
    (codes "session_id", quote (env.id_text s.id))
    ∷ (codes "owner_user_id", quote s.owner_user_id)
    ∷ (codes "requester_user_id", quote requester)
    ∷ []

-- The listeners on the stream, which hear what is written and emitted in its order.
unfoldable pub bridge : Platform → AskSession → List Out → List Sent
bridge env s [] = []
bridge env s (write t ∷ out) = body t ∷ bridge env s out
bridge env s (session_saved cached ∷ out) =
    event_bodies (codes "session_saved") (
      json_object
        (session_fields env s s.requester_user_id ++ ((codes "cached", bool_text cached) ∷ [])))
    ++ bridge env s out
bridge env s (session_error reason ∷ out) =
    event_bodies (codes "session_error") (
      json_object
        (session_fields env s s.requester_user_id ++ ((codes "reason", quote reason) ∷ [])))
    ++ bridge env s out
bridge env s (ended ∷ out) = closed ∷ bridge env s out

abbrev created_bodies : Platform → Text → Resolution → List Sent
created_bodies env requester r =
    if r.created
    then event_bodies (codes "session") (json_object (session_fields env r.session requester))
    else []

module _ {E : Type 0} (env : Platform) where
  -- What both handlers do, with the stream of an answer for a session.
  abbrev pub answered :
      (AskSession → Db E → Serving E) → Text → Db E × Reply Resolution → List Sent × Db E
  answered serve requester (db, failed status message) = (json_reply status message ∷ [], db)
  answered serve requester (db, ok r) =
      let st = serve r.session db in
      (
        (headers (env.id_text r.session.id) ∷ body (codes ":ok\n\n") ∷ [])
            ++ created_bodies env requester r
            ++ bridge env r.session st.out,
        st.db,
      )

  abbrev pub ask_as :
      (Text → AskSession → Db E → Serving E) → Option Text → AskBody → Db E → List Sent × Db E
  ask_as serve none b db = (json_reply 401 (codes "Unauthorized") ∷ [], db)
  ask_as serve (some []) b db = (json_reply 401 (codes "Unauthorized") ∷ [], db)
  ask_as serve (some (c ∷ cs)) b db = answered (serve (c ∷ cs)) (c ∷ cs) (
      resolve_session_context env db (record {
        requester_user_id = c ∷ cs;
        session_id = b.session_id;
        owner_user_id = b.user_id;
        title_hint = some b.question;
      }))

  -- The options of the answer; `around` has the rest of the body and what the services answer.
  abbrev pub request_of : (AskSession → Request E) → AskBody → Text → AskSession → Request E
  request_of around b requester s = record (around s) {
    question = b.question;
    session = s;
    requester_user_id = requester;
    owner_user_id = s.owner_user_id;
  }

  module _ {S : Type 0} (to_date : ℕ → ℕ) (v : Vectors E S) (reader : Reader) where
    unfoldable pub ask_handler :
        (AskSession → Request E) → Option User → AskBody → Db E → List Sent × Db E
    unfolding bridge resolve_session_context answer_stream
    ask_handler around user b db =
        ask_as (λ requester s. answer_stream to_date v reader (request_of around b requester s))
          (extract_requester_id user) b db

    unfoldable pub ask_v2_handler :
        {J W : Type 0}
        → Planning J W
        → (AskSession → Request E)
        → Option User
        → AskBody
        → Db E
        → List Sent × Db E
    unfolding bridge resolve_session_context answer_stream_v2
    ask_v2_handler g around user b db =
        ask_as
          (λ requester s. answer_stream_v2 to_date v reader g (request_of around b requester s))
          (extract_requester_id user) b db

-- The parameters of the search, where they are natural numbers.
pub record SearchRequest : Type 0 where
  pub question : Text
  pub category_id : Option ℕ
  pub limit : Option ℕ
  pub offset : Option ℕ

pub record SearchAnswer (W : Type 0) : Type 0 where
  pub plan : SearchPlan W
  pub total_posts : ℕ
  pub found : Aggregated W

module _ {J W : Type 0} (g : Planning J W) (scores : Scores W) where
  abbrev page_limit : SearchRequest → ℕ
  page_limit q = elim q.limit [ none ↦ 10 | some l ↦ max 1 (min 10 l) ]

  abbrev global_options : SearchRequest → Option ℕ → SearchOptions
  global_options q limit = record { category_id = q.category_id; limit = limit; global = true }

  abbrev global_semantic : SearchRequest → Text → SearchPlan W → Option (List (ChunkHit W))
  global_semantic q question plan =
      run_semantic_search g.sources question (codes "global") plan (global_options q none)

  abbrev after_hybrid :
      SearchRequest → Text → SearchPlan W → Option (List (ChunkHit W)) → Option (List (ChunkHit W))
  after_hybrid q question plan none = none
  after_hybrid q question plan (some []) = global_semantic q question plan
  after_hybrid q question plan (some (r ∷ rs)) = some (r ∷ rs)

  unfoldable pub global_chunks : SearchRequest → Text → SearchPlan W → Option (List (ChunkHit W))
  unfolding run_hybrid_search run_semantic_search
  global_chunks q question plan =
      if plan.hybrid.enabled
      then after_hybrid q question plan (
          run_hybrid_search g.numbers g.words.to_lower_case g.sources question (codes "global") plan
            (global_options q (some (min 20 (max 10 (page_limit q * 2))))))
      else global_semantic q question plan

  abbrev search_reply :
      SearchRequest → SearchPlan W → Option (List (ChunkHit W)) → Reply (SearchAnswer W)
  search_reply q plan none = failed 500 (codes "Internal server error")
  search_reply q plan (some chunks) =
      let found =
        aggregate_posts scores chunks
          (record { limit = some (page_limit q); offset = some (or_default 0 q.offset) }) in
      ok (record { plan = plan; total_posts = found.total; found = found })

  abbrev planned_reply : SearchRequest → Option (SearchPlan W) → Reply (SearchAnswer W)
  planned_reply q none = failed 500 (codes "Failed to generate search plan")
  planned_reply q (some plan) = search_reply q plan (global_chunks q (trim q.question) plan)

  -- The message of an error is that of the service; here it is the default.
  unfoldable pub hybrid_search_handler : SearchRequest → Reply (SearchAnswer W)
  unfolding trim global_chunks generate_search_plan aggregate_posts
  hybrid_search_handler q =
      if is_empty (trim q.question)
      then failed 400 (codes "Missing required param: question")
      else planned_reply q
          (generate_search_plan g.parser g.numbers g.words g.to_absolute g.plan_model).1
