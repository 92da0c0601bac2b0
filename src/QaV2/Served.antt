-- ===== src/QaV2/Served.antt =====
-- services/qa.v2.service.ts: how the stream of a question ends.
use bubblog_ai.Prelude.{List, ℕ, ◌≡◌, refl, true}
use bubblog_ai.Repository.{Db}
use bubblog_ai.Repository.Cache.{Vectors}
use bubblog_ai.Qa.Data.{ChatMessage, Request, Reader}
use bubblog_ai.Qa.Flow.Writes.{is_served}
use bubblog_ai.Qa.Shape.{Finishes, shape}
use bubblog_ai.QaV2.{Planning, answer_stream_v2}
use bubblog_ai.QaV2.Flow.{answer_stream_v2-Closed}

-- Whatever the plan, the searches and the other services answer and wherever one throws, the stream of a
-- question gets writes, then at most one event on the session, then its end, once, if every stream of the
-- model finishes.
pub answer_stream_v2-served :
    {E S J W : Type 0} (to_date : ℕ → ℕ) (v : Vectors E S) (reader : Reader) (g : Planning J W)
    (r : Request E)
    → ((ms : List ChatMessage) → Finishes (r.llm ms))
    → (db : Db E) → is_served (answer_stream_v2 to_date v reader g r db).out ≡ true
unfolding shape
answer_stream_v2-served to_date v reader g r finishes db =
    answer_stream_v2-Closed to_date v reader g r (shape to_date v reader r) finishes db refl
