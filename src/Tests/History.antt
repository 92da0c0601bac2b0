-- ===== src/Tests/History.antt =====
-- Tests of `Repository` and `History`, with numbers for embeddings and for similarities.
use bubblog_ai.Prelude.Filter.{find, filter}
use bubblog_ai.Prelude.{
  ◌&&◌, ℕ, ◌≤◌, ◌≡◌, refl, false, not, none, arith, ltb, ◌==◌, [], ◌∷◌, All, if◌then◌else◌, length,
}
use bubblog_ai.Prelude.Text.{codes}
use bubblog_ai.Prelude.Int.{negsuc}
use bubblog_ai.Repository.{user, AskMessage, AskSession, Db, returned}
use bubblog_ai.Repository.Cache.{Vectors}
use bubblog_ai.Repository.Integrity.{IsWellFormed}
use bubblog_ai.History.{
  PersistConversationInput, Faults, FindCachedAnswerParams, persist_conversation,
  load_recent_messages, find_cached_answer,
}
use bubblog_ai.History.Replay.{find_cached_answer-persist_conversation}
use bubblog_ai.History.Storage.Rows.{with_turn, question_row, answer_row}
use bubblog_ai.History.Storage.{persist_conversation-atomic}
use bubblog_ai.History.Recent.{load_recent_messages-persist_conversation}
use mathlib.Core.List.{Mem}
use bubblog_ai.History.Answers.{IsHit, find_cached_answer-hits}

abbrev pub same_date : ℕ → ℕ
same_date t = t

abbrev pub vectors : Vectors ℕ ℕ
vectors = record {
  similarity = λ a b. if a == b then 100 else 0;
  closer = λ q a b. (a == q) && not (b == q);
  below = ltb;
  threshold = 93;
  is_blank = λ e. e == 0;
}

abbrev pub session : AskSession
session = record {
  id = 1;
  requester_user_id = codes "u";
  owner_user_id = codes "o";
  title = none;
  metadata = codes "{}";
  last_question_at = none;
  created_at = 5;
  updated_at = 5;
}

abbrev greeting : AskMessage
greeting = record {
  id = 1;
  session_id = 1;
  role = user;
  content = codes "hi";
  search_plan = none;
  retrieval_meta = none;
  created_at = 6;
}

abbrev pub db : Db ℕ
db = record {
  sessions = session ∷ [];
  messages = greeting ∷ [];
  cache = [];
  next_session = 2;
  next_message = 2;
  now = 9;
}

pub db-IsWellFormed : IsWellFormed db
unfolding find
db-IsWellFormed = record {
  session_ids = (omega arith, tt);
  sessions_distinct = (tt, tt);
  message_ids = (omega arith, tt);
  messages_distinct = (tt, tt);
  message_times = (omega arith, tt);
  message_sessions = ((session, refl), tt);
  questions = tt;
}

abbrev pub turn : PersistConversationInput ℕ
turn = record {
  session_id = 1;
  requester_user_id = codes "u";
  owner_user_id = codes "o";
  question = codes "why?";
  answer = codes "so";
  search_plan = none;
  retrieval_meta = none;
  category_id = none;
  post_id = none;
  question_embedding = 3;
  duplicate_question_embedding = 4;
  speech_tone = none;
}

abbrev pub no_faults : Faults
no_faults = record {
  begin = false;
  insert_question = false;
  insert_answer = false;
  upsert = false;
  touch = false;
  commit = false;
}

persist_conversation-atomic_example :
    persist_conversation same_date vectors no_faults turn db ≡ (with_turn turn db, returned)
unfolding find
persist_conversation-atomic_example =
    persist_conversation-atomic same_date vectors no_faults turn db db-IsWellFormed (session, refl)
      refl

load_recent_messages-persist_conversation_example :
    load_recent_messages same_date vectors
      (persist_conversation same_date vectors no_faults turn db).0
      1
      4
    ≡ greeting ∷ question_row turn db ∷ answer_row turn db ∷ []
unfolding find load_recent_messages
load_recent_messages-persist_conversation_example =
    load_recent_messages-persist_conversation same_date vectors no_faults turn db db-IsWellFormed
      (session, refl) refl refl

abbrev pub lookup : FindCachedAnswerParams ℕ
lookup = record { owner_user_id = codes "o"; embedding = 4; post_id = none; category_id = none }

find_cached_answer-hits_example :
    All
      (IsHit same_date vectors
        (with_turn turn db)
        lookup
        (λ row. Mem row (with_turn turn db).cache))
      (find_cached_answer same_date vectors (with_turn turn db) lookup)
    × (length (find_cached_answer same_date vectors (with_turn turn db) lookup) ≤ 3)
find_cached_answer-hits_example =
    find_cached_answer-hits same_date vectors (with_turn turn db) lookup

find_cached_answer-persist_conversation_example :
    find_cached_answer same_date vectors
      (persist_conversation same_date vectors no_faults turn db).0
      lookup
    ≡ record {
      answer = codes "so";
      search_plan = none;
      retrieval_meta = none;
      similarity = 100;
      speech_tone_id = negsuc 0;
    }
      ∷ []
unfolding find filter
find_cached_answer-persist_conversation_example =
    find_cached_answer-persist_conversation same_date vectors no_faults turn 4 db db-IsWellFormed
      (session, refl) refl refl refl refl
