-- ===== src/Tests/Ask.antt =====
-- Tests of `Ask`.
use bubblog_ai.Prelude.{
  if◌then◌else◌, ℕ, ◌≡◌, refl, true, false, none, some, Option, List, [], ◌∷◌, map,
}
use bubblog_ai.Prelude.Text.{Text, codes, text_eq}
use bubblog_ai.Sessions.{Reply, ok, failed, User, string_claim}
use bubblog_ai.Plan.Schema.{RawPlan, absent}
use bubblog_ai.Posts.{sources_of, find_similar_chunks_global_ann}
use bubblog_ai.QaV2.{Planning}
use bubblog_ai.Ask.Routes.{auth_middleware, ask_v2_route, ask_v2_route-answered}
use bubblog_ai.Ask.{AskBody, SearchAnswer, hybrid_search_handler}
use bubblog_ai.Ask.Replies.{is_answered}
use bubblog_ai.Tests.History.{same_date, vectors}
use bubblog_ai.Tests.Qa.{db, reader, request}
use bubblog_ai.Tests.Sessions.{platform}
use bubblog_ai.Tests.Aggregate.{scores}
use bubblog_ai.Tests.Plan.{thousandths}
use bubblog_ai.Tests.Posts.{tea_post, tea_blog, plain_sql}
use bubblog_ai.Tests.QaV2.{planning, embedded}

abbrev reader_token : Option User
reader_token = some (record { user_id = some (string_claim (codes "u")); sub = none })

abbrev pub ask : AskBody
ask = record { question = codes "why?"; user_id = some (codes "o"); session_id = none }

abbrev pub verify : Text → Option User
verify t = if text_eq t (codes "good") then reader_token else none

ask_v2_route-answered_example :
    is_answered
      (ask_v2_route platform same_date vectors reader verify planning
        (λ s. request)
        (some (codes "Bearer good"))
        ask
        db).0
    ≡ true
ask_v2_route-answered_example =
    ask_v2_route-answered platform same_date vectors reader verify planning (λ s. request)
      (λ s ms e. cc) (some (codes "Bearer good")) ask db

-- A token that is not verified is refused.
bad_token : auth_middleware verify (some (codes "Bearer bad")) ≡ failed 401 (codes "Invalid token")
unfolding auth_middleware
bad_token = refl

abbrev bare_plan : RawPlan ℕ
bare_plan = record {
  mode = absent;
  top_k = absent;
  threshold = absent;
  weights = absent;
  rewrites = absent;
  keywords = absent;
  hybrid = absent;
  filters = absent;
  order = absent;
  limit = absent;
}

-- A blog whose only post is private, and a plan that leaves every field to its default.
abbrev private_search : Planning ℕ ℕ
private_search = record planning {
  parser = record { parse = λ t. some 1; truthy = λ j. true; fields = λ j. some bare_plan };
  plan_model = record {
    formatted = some (record { output = []; output_text = some (codes "{}") });
    unformatted = none;
    chat = none;
  };
  sources =
      sources_of thousandths plain_sql
        (record tea_blog { posts = record tea_post { is_public = false } ∷ [] }) embedded;
}

abbrev posts_found : Reply (SearchAnswer ℕ) → List Text
posts_found (failed status message) = []
posts_found (ok a) = map (λ p. p.post_id) a.found.posts

-- The search of all posts, which asks for no token, finds the private post.
private_post_found :
    posts_found (
      hybrid_search_handler private_search scores
        (record { question = codes "tea"; category_id = some 9; limit = none; offset = none }))
    ≡ codes "4" ∷ []
unfolding hybrid_search_handler find_similar_chunks_global_ann
private_post_found = refl
