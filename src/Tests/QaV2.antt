-- ===== src/Tests/QaV2.antt =====
-- Tests of `QaV2`, with numbers for embeddings and thousandths for the numbers of the searches.
use bubblog_ai.Prelude.{Option, ℕ, ◌≡◌, refl, none, some, map, List, [], ◌∷◌}
use bubblog_ai.Prelude.Text.{Text, codes}
use bubblog_ai.Aggregate.{ChunkHit}
use bubblog_ai.Search.{absolute, SearchPlan, time_from, time_to}
use bubblog_ai.Hybrid.Scope.{AreHits}
use bubblog_ai.Posts.{sources_of, find_similar_chunks_v2, text_search_chunks_v2}
use bubblog_ai.Posts.Owned.{OwnedChunks}
use bubblog_ai.QaV2.{Planning, searched}
use bubblog_ai.QaV2.Owned.{searched-owned}
use bubblog_ai.Tests.History.{same_date, vectors}
use bubblog_ai.Tests.Qa.{reader, request}
use bubblog_ai.Tests.Plan.{thousandths, ascii_words, this_week, wide_plan, one_object, silent}
use bubblog_ai.Tests.Hybrid.{hits, sources}
use bubblog_ai.Tests.Posts.{tea_blog, plain_sql}

abbrev pub planning : Planning ℕ ℕ
planning = record {
  numbers = thousandths;
  parser = one_object;
  words = ascii_words;
  plan_model = silent;
  to_absolute = this_week;
  sources = sources;
  similar_chunks = some hits;
  plan_text = λ p. codes "{}";
  rag_prompt = λ rows meta. [];
}

abbrev tea_plan : SearchPlan ℕ
tea_plan = record wide_plan { threshold = 200; time = some (absolute (codes "a") (codes "b")) }

abbrev pub embedded : List Text → Option (List (List ℕ))
embedded ts = some ((900 ∷ []) ∷ [])

searched-owned_example :
    AreHits
      (OwnedChunks tea_blog plain_sql
        (codes "o")
        none
        (time_from tea_plan.time)
        (time_to tea_plan.time))
      (searched same_date vectors reader
        (record planning { sources = sources_of thousandths plain_sql tea_blog embedded })
        request
        tea_plan).1
searched-owned_example =
    searched-owned same_date vectors reader planning request tea_blog plain_sql embedded tea_plan

abbrev ids : Option (List (ChunkHit ℕ)) → List Text
ids none = []
ids (some rows) = map (λ r. r.post_id) rows

-- The search finds the chunk of the owner.
tea_found :
    ids
      (searched same_date vectors reader
        (record planning { sources = sources_of thousandths plain_sql tea_blog embedded })
        request
        tea_plan).1
    ≡ codes "4" ∷ []
unfolding searched find_similar_chunks_v2 text_search_chunks_v2
tea_found = refl
