-- ===== src/Tests/System.antt =====
-- Tests of `System`: transactions of requests that are answered at the same time.
use bubblog_ai.Prelude.{◌≢◌, arith, ◌++◌, ◌≤◌, ℕ, ◌≡◌, refl, none, some, List, [], ◌∷◌, All, map}
use bubblog_ai.Prelude.Text.{text_eq_iff, codes}
use bubblog_ai.History.{find_cached_answer}
use bubblog_ai.System.{Live, Action, resolved, stored, patched, deleted, invalidated, waited, acts}
use bubblog_ai.System.Consistent.{IsConsistent, acts-IsConsistent}
use bubblog_ai.System.Replayed.{IsAnswered, find_cached_answer-acts}
use bubblog_ai.History.Answers.{IsHit}
use bubblog_ai.System.Worked.{effect_actions, process_job-find_cached_answer}
use bubblog_ai.Prelude.Text.{trim}
use bubblog_ai.Worker.{undefined, found, parse_flag, process_job}
use bubblog_ai.Tests.Worker.{job_with, setup, working, full_post, full_post-HasContent}
use bubblog_ai.Prelude.Filter.{find}
use bubblog_ai.System.Untouched.{acts-Untouched}
use bubblog_ai.System.Untouched.Tables.{Untouched}
use bubblog_ai.Tests.History.{session}
use bubblog_ai.System.Asked.{Transacted, ask_v2_route-Transacted}
use bubblog_ai.Ask.Routes.{ask_v2_route}
use bubblog_ai.Tests.History.{same_date, vectors, db, db-IsWellFormed, turn, no_faults, lookup}
use bubblog_ai.Tests.Sessions.{platform}
use bubblog_ai.Tests.Qa.{reader, request}
use bubblog_ai.Tests.QaV2.{planning}
use bubblog_ai.Tests.Ask.{ask, verify}

abbrev idle : Live ℕ
idle = record { db = db; asked = [] }

idle-IsConsistent : IsConsistent idle
idle-IsConsistent = record { well_formed = db-IsWellFormed; attributed = tt; asked = tt }

-- A question of the user of the session on the posts of another one, in a new session.
abbrev asks : Action ℕ
asks = resolved (record {
  requester_user_id = codes "u";
  session_id = none;
  owner_user_id = some (codes "p");
  title_hint = none;
})

-- Two questions whose turns are stored in the other order, after one of the sessions is gone.
abbrev interleaved : List (Action ℕ)
interleaved =
    asks
    ∷ asks
    ∷ waited 1
    ∷ patched (some (codes "u")) (platform.id_text 3)
        (some (record { title = some none; metadata = none }))
    ∷ deleted (some (codes "u")) (platform.id_text 2)
    ∷ stored 1 turn no_faults
    ∷ stored 0 turn no_faults
    ∷ invalidated (codes "o")
    ∷ []

acts-IsConsistent_example : IsConsistent (acts platform same_date vectors idle interleaved)
acts-IsConsistent_example =
    acts-IsConsistent platform same_date vectors idle interleaved idle-IsConsistent

-- The turn of the deleted session is not stored, the other one is.
interleaved_rows :
    map (λ m. m.session_id) (acts platform same_date vectors idle interleaved).db.messages
    ≡ 1 ∷ 3 ∷ 3 ∷ []
unfolding acts
interleaved_rows = refl

find_cached_answer-acts_example :
    All
      (IsAnswered
        (acts platform same_date vectors idle interleaved).db
        (record lookup { owner_user_id = codes "p" }))
      (find_cached_answer same_date vectors
        (acts platform same_date vectors idle interleaved).db
        (record lookup { owner_user_id = codes "p" }))
find_cached_answer-acts_example =
    find_cached_answer-acts same_date vectors platform idle interleaved
      (record lookup { owner_user_id = codes "p" }) idle-IsConsistent

-- That answer is found.
interleaved_answers :
    map
      (λ a. a.answer)
      (find_cached_answer same_date vectors
        (acts platform same_date vectors idle interleaved).db
        (record lookup { owner_user_id = codes "p" }))
    ≡ codes "so" ∷ []
unfolding acts find_cached_answer
interleaved_answers = refl

ask_v2_route-Transacted_example :
    Transacted platform same_date vectors db
      (ask_v2_route platform same_date vectors reader verify planning
        (λ s. request)
        (some (codes "Bearer good"))
        ask
        db).1
ask_v2_route-Transacted_example =
    ask_v2_route-Transacted platform same_date vectors reader planning (λ s. request) verify
      (some (codes "Bearer good")) ask db

-- A question that was being answered when the answers of its owner were invalidated.
abbrev overtaken : List (Action ℕ)
overtaken = asks ∷ invalidated (codes "p") ∷ stored 0 turn no_faults ∷ []

-- Its answer is stored behind the invalidation and given from then on.
overtaken_answers :
    map
      (λ a. a.answer)
      (find_cached_answer same_date vectors
        (acts platform same_date vectors idle overtaken).db
        (record lookup { owner_user_id = codes "p" }))
    ≡ codes "so" ∷ []
unfolding acts find_cached_answer
overtaken_answers = refl

abbrev later : List (Action ℕ)
later =
    resolved (record {
      requester_user_id = codes "u";
      session_id = none;
      owner_user_id = some (codes "u1");
      title_hint = none;
    })
    ∷ waited 1
    ∷ stored 0 turn no_faults
    ∷ []

-- What the job of a post does to the tables of the questions, and then a question on that blog.
abbrev after_job : Live ℕ
after_job = acts platform same_date vectors idle (
    effect_actions
      (process_job setup.chunk_text setup.text_number (working (found full_post))
        (job_with undefined)).effects
    ++ later)

process_job-find_cached_answer_example :
    All
      (IsHit same_date vectors after_job.db
        (record lookup { owner_user_id = codes "u1" })
        (λ row. 9 ≤ row.created_at))
      (find_cached_answer same_date vectors after_job.db
        (record lookup { owner_user_id = codes "u1" }))
unfolding process_job trim parse_flag
process_job-find_cached_answer_example =
    process_job-find_cached_answer platform same_date vectors setup (working (found full_post))
      (job_with undefined) full_post refl full_post-HasContent refl refl refl idle later
      (record lookup { owner_user_id = codes "u1" }) idle-IsConsistent refl

-- What another user asks for with the id of the session, and a question of that user.
abbrev intrusion : List (Action ℕ)
intrusion =
    patched (some (codes "w")) (platform.id_text 1)
      (some (record { title = some none; metadata = none }))
    ∷ deleted (some (codes "w")) (platform.id_text 1)
    ∷ resolved (record {
      requester_user_id = codes "w";
      session_id = some (platform.id_text 1);
      owner_user_id = none;
      title_hint = none;
    })
    ∷ resolved (record {
      requester_user_id = codes "w";
      session_id = none;
      owner_user_id = some (codes "o");
      title_hint = none;
    })
    ∷ stored 0 turn no_faults
    ∷ []

other_user : codes "u" ≢ codes "w"
other_user = λ e. ground (arith, (text_eq_iff (codes "u") (codes "w")).1 e)

acts-Untouched_example : Untouched session db (acts platform same_date vectors idle intrusion).db
unfolding find
acts-Untouched_example =
    acts-Untouched platform same_date vectors (codes "w") session other_user idle intrusion
      idle-IsConsistent tt (refl, (refl, (refl, (refl, (refl, tt))))) refl

-- The turn of the other user is stored in the new session.
intrusion_rows :
    map (λ m. m.session_id) (acts platform same_date vectors idle intrusion).db.messages
    ≡ 1 ∷ 2 ∷ 2 ∷ []
unfolding acts
intrusion_rows = refl
