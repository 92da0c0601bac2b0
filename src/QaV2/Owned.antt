-- ===== src/QaV2/Owned.antt =====
-- services/qa.v2.service.ts over repositories/post.repository.ts: whose posts a planned search finds.
use bubblog_ai.Prelude.{ℕ, Option, List}
use bubblog_ai.Prelude.Text.{Text}
use bubblog_ai.Repository.Cache.{Vectors}
use bubblog_ai.Search.{SearchPlan, time_from, time_to}
use bubblog_ai.Hybrid.Scope.{AreHits}
use bubblog_ai.Posts.Tables.{Blog, Sql}
use bubblog_ai.Posts.{sources_of}
use bubblog_ai.Posts.Owned.{OwnedChunks, similar-AreHits, textual-AreHits}
use bubblog_ai.Qa.Data.{Request, Reader}
use bubblog_ai.QaV2.{Planning, searched}
use bubblog_ai.QaV2.Scope.{searched-AreHits}

-- With the queries of the repository on any tables: whatever the plan and the embeddings, every chunk that a
-- planned search finds, on each of its paths, is stored for a post of the owner that lies in the category of
-- the request or a descendant of it, if there is one, and was made in the range of times of the plan, if
-- there is one.
pub searched-owned :
    {E S J W : Type 0} (to_date : ℕ → ℕ) (v : Vectors E S) (reader : Reader) (g : Planning J W)
    (r : Request E) (b : Blog W) (sql : Sql W)
    (create_embeddings : List Text → Option (List (List W))) (plan : SearchPlan W)
    → AreHits
        (OwnedChunks b sql r.owner_user_id r.category_id (time_from plan.time) (time_to plan.time))
        (searched to_date v reader
          (record g { sources = sources_of g.numbers sql b create_embeddings })
          r
          plan).1
searched-owned to_date v reader g r b sql create_embeddings plan =
    let owner = r.owner_user_id in
    let from = time_from plan.time in
    let to = time_to plan.time in
    searched-AreHits to_date v reader
      (record g { sources = sources_of g.numbers sql b create_embeddings }) r
      (OwnedChunks b sql owner r.category_id from to) plan
      (similar-AreHits b g.numbers sql owner create_embeddings r.category_id from to)
      (textual-AreHits b g.numbers sql owner create_embeddings r.category_id from to)
