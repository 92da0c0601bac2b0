-- ===== src/Tests/Qa.antt =====
-- Tests of `Qa`, with numbers for embeddings and for similarities.
use bubblog_ai.Prelude.{ℕ, ◌≡◌, true, false, none, some, List, [], ◌∷◌}
use bubblog_ai.Prelude.Text.{Text, codes}
use bubblog_ai.Prelude.Int.{negsuc}
use bubblog_ai.Repository.{Db}
use bubblog_ai.Qa.Data.{completed, LlmStream, missing, Request, Serving, Reader}
use bubblog_ai.Qa.{answer_stream}
use bubblog_ai.Qa.Flow.Writes.{is_served}
use bubblog_ai.Qa.Shape.{answer_stream-served}
use bubblog_ai.Tests.History.{same_date, vectors, session}
use bubblog_ai.Llm.OpenAi.Framing.{at_end}
use bubblog_ai.Qa.Stored.{sent}

abbrev pub db : Db ℕ
db = record {
  sessions = session ∷ [];
  messages = [];
  cache = [];
  next_session = 2;
  next_message = 1;
  now = 9;
}

abbrev pub reader : Reader
reader = record { document = λ t. none; meta_context = λ t. none; meta_exist = λ t. none }

abbrev answers : List (List Text)
answers = (codes "so" ∷ []) ∷ (codes " it" ∷ codes " is" ∷ []) ∷ []

abbrev model : LlmStream
model = record { chunks = sent answers at_end; finish = completed }

abbrev pub request : Request ℕ
request = record {
  question = codes "why?";
  session = session;
  requester_user_id = codes "u";
  owner_user_id = codes "o";
  category_id = none;
  speech_tone = negsuc 0;
  post_id = none;
  lookups_fail = false;
  embeddings = some (record { question = some 3; duplicate_question = some 4 });
  cache_fails = false;
  rewritten = none;
  post = missing;
  retrieval = some (record {
    exist_in_post = true;
    context = codes "[]";
    messages = [];
    search_plan = codes "{}";
    retrieval_meta = codes "{}";
  });
  llm = λ ms. some model;
  faults = record {
    begin = false;
    insert_question = false;
    insert_answer = false;
    upsert = false;
    touch = false;
    commit = false;
  };
}

abbrev start : Serving ℕ
start = record { out = []; db = db }

answer_stream-served_example :
    is_served (answer_stream same_date vectors reader request db).out ≡ true
answer_stream-served_example = answer_stream-served same_date vectors reader request (λ ms e. cc) db
