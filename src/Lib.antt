-- ===== src/Lib.antt =====
-- bubblog-AI: questions about the posts of a blog, answered by a language model over server-sent events
-- (SSE), with the sessions of the questions kept in PostgreSQL, and a worker that embeds posts.
--
-- The program, and the file that models each part (paths from the repository's root):
--   src/llm/providers/openai-responses.ts writes SSE events for what the OpenAI API sends, with two
--     fallbacks. Llm/OpenAi.antt: `Sink` is the stream with the variable `closed`, `on_event` and `on_chunk`
--     are the handlers, `generate_open_ai_stream` is the function of that name.
--   src/llm/providers/gemini.ts writes such events for a text that it fetches whole. Llm/Gemini.antt:
--     `generate_gemini_stream`; Llm/Providers.antt: `provider_writes`, the choice of src/llm/index.ts.
--   src/llm/index.ts passes that stream on block by block and gathers the answer. Llm.antt: `Wrapper` is the
--     buffer, the answer and the outer stream, `on_data`, `on_end` and `on_error` are the handlers;
--     `generate_from` takes the Buffers of the provider, `generate` the texts that these are decoded to.
--   src/utils/sse.ts reads the answer texts back from a chunk. Sse.antt: `extract_answer_text`.
--   src/repositories/ask-*.repository.ts and src/utils/db.ts are the queries and the transaction.
--     Repository.antt: `Db` is the three tables with their sequences and the clock; Repository/Sessions,
--     Messages and Cache have one function per query, read as what PostgreSQL does for its text, with the
--     constraints of docs/migrations; Repository/Integrity has what holds of the tables.
--   src/services/session-history.service.ts stores turns and finds cached answers. History.antt has a
--     function for each of its functions, on `Db`.
--   src/services/qa.service.ts answers a question. Qa.antt: `answer_stream` goes from the cached answers to
--     the post or the similar chunks and the model, and `Serving` (Qa/Data.antt) is what was written and
--     emitted, and the database; it calls History.antt as the service calls the history.
--   src/services/qa.v2.service.ts answers by way of a planned search. QaV2.antt: `answer_stream_v2`, on the
--     definitions of Qa.antt for what both services share; it calls Plan.antt, Hybrid.antt and Search.antt.
--   src/services/search-plan.service.ts and src/types/ai.v2.types.ts make a plan of the model's answer.
--     Plan.antt: `generate_search_plan`; Plan/Parsing.antt: the requests for it and the search for a JSON
--     object in a text (`extract`); Plan/Cleaning.antt: the bounds of a plan (`normalize`); Plan/Schema.antt:
--     `plan_schema`.
--   src/services/hybrid-search.service.ts, semantic-search.service.ts and retrieval-presets.ts search.
--     Hybrid.antt: `run_hybrid_search`, whose `Candidate` (Hybrid/Candidates.antt) is a value of `byKey`;
--     Search.antt: the plan, the queries and `run_semantic_search`.
--   src/repositories/post.repository.ts has the queries on posts and chunks. Posts.antt has one function per
--     query; Posts/Tables.antt: `Blog` is the tables, with the conditions of the queries; Posts/Store.antt: the
--     two stores over a `Pool` of connections.
--   src/utils/time.ts makes ranges of dates from the time filter of a plan. Time.antt:
--     `to_absolute_range_kst`, where `to_absolute_texts` is what a plan takes as `to_absolute`;
--     Time/Labels.antt: its regular expressions; Time/Calendar.antt: JavaScript's `Date`, with a `Zone` for the
--     time zone of the process.
--   src/controllers/ai.controller.ts, ai.v2.controller.ts and search.controller.ts reply to a question or a
--     search. Ask.antt: `ask_handler`, `ask_v2_handler` and `hybrid_search_handler`, where `Sent` is what the
--     response gets; they call Sessions.antt, then Qa.antt or QaV2.antt.
--     Ask/Routes.antt: src/middlewares/auth.middleware.ts, which checks the token before that.
--   src/utils/session.ts, src/utils/auth.ts and src/controllers/session.controller.ts find, list, change and
--     delete sessions. Sessions.antt and Sessions/Requests.antt: one function per handler.
--   src/services/replace-tone.service.ts rewrites a cached answer. Tone.antt: `rewrite_tone`.
--   src/services/search-aggregate.service.ts groups found chunks by post. Aggregate.antt: `aggregate_posts`.
--   src/services/embedding.service.ts cuts a post into chunks and embeds them. Embedding.antt: `chunk_text`, on
--     tokens; Embedding/Sentences.antt: the regular expression for sentences; Embedding/Service.antt: the whole
--     text, and the two handlers that embed a post on request, which call Posts/Store.antt.
--   src/worker/queue-consumer.ts takes embedding jobs from a Redis list, with retries and a list of failed
--     jobs. Worker.antt: `State` is both lists, `handle_payload` and `run_round` are the steps; `Number` is a
--     double, and `plus_one` its sum with 1, with the rounding.
--   How they interact: System.antt has the transactions of requests that are answered at the same time and of
--     the worker's jobs, in any order; `Live` is the tables with the sessions given to the requests, `act` a
--     transaction by the functions of Sessions.antt, History.antt and Repository/Cache. System/Asked is about
--     a question of Ask.antt, System/Worked about a job of Worker.antt, System/Untouched about the requests
--     of one user. Qa/Flow and QaV2/Flow have a principle for all that is served for a question, by its steps.
--   Prelude/ has the shared lists, JavaScript texts, integers, JSON texts, the split into lines and blocks,
--     and sorted tables with their pages. Tests/ has runs and instances of the theorems.
--
-- A text is the list of its UTF-16 code units. Streams are the lists of what was written to them, and
-- handlers are functions of the state, called in the order of the events. A query or a service that can
-- throw returns an option or takes the failure as an argument. Loops are structural recursion. There is
-- fuel for the requests of a client that follows cursors, where one more than the sessions is enough, for
-- the pieces of an answer, where its length is, and for the digits of a number, where one more than it is.
--
-- Parameters: `Number` on texts, the sum of 1 and a fraction, the decoder of Buffers, `JSON.parse` and `JSON.stringify` on objects, `Date` on texts and base 64,
-- the operators of PostgreSQL on vectors and texts (with exact indexes), the tokenizer, which may throw, the
-- numbers of the searches and of the aggregation with their arithmetic, what the OpenAI API, the SDK of
-- Gemini, Redis and the model send, and in Qa and QaV2 the prompts and the look-ups of posts, which are
-- modelled by their answers; in Plan also the ranges of dates, which Time makes.
--
-- Not modelled: the keys that PostgreSQL skips when a transaction is rolled back; the texts of the prompts,
-- whose values the answers of the model stand for; logging and costs, which change nothing of the answers;
-- start-up and the other routes.
pub mod Prelude
pub mod Sse
pub mod Llm
pub mod Repository
pub mod History
pub mod Sessions
pub mod Qa
pub mod Embedding
pub mod Time
pub mod Tone
pub mod Aggregate
pub mod Search
pub mod Hybrid
pub mod Plan
pub mod Posts
pub mod QaV2
pub mod Ask
pub mod Worker
pub mod System
pub mod Tests
