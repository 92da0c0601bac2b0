-- ===== src/Tests/Sessions.antt =====
-- Tests of `Sessions`, with texts of one unit for times and ids.
use bubblog_ai.Prelude.{ap, ℕ, ◌+◌, ◌-◌, ◌≡◌, refl, false, Option, none, some, arith, [], ◌∷◌, map}
use bubblog_ai.Prelude.Text.{Text, codes}
use bubblog_ai.Prelude.Filter.{filter}
use bubblog_ai.Prelude.Sort.{sort, insert}
use bubblog_ai.Repository.{user, AskMessage, AskSession, Db}
use bubblog_ai.Repository.Messages.{backward, get_messages_by_session}
use bubblog_ai.Repository.Sessions.{summary, SessionUpdates}
use bubblog_ai.Sessions.{Platform, Resolution, ResolveSessionOptions, resolve_session_context}
use bubblog_ai.Sessions.Requests.{last_row}
use bubblog_ai.Repository.Order.{Distinct}
use bubblog_ai.Sessions.Cursors.{IsCodec}
use bubblog_ai.Sessions.Paging.{follow, follow-listed}
use bubblog_ai.Sessions.Messages.{row_cursor, get_messages_by_session-backward}
use bubblog_ai.Sessions.Owners.{IsResolved, resolve_session_context-IsResolved}

abbrev unit_value : Text → Option ℕ
unit_value (x ∷ []) = some (x - 200)
unit_value _ = none

abbrev pub platform : Platform
platform = record {
  to_date = λ t. t;
  to_iso = λ t. (t + 200) ∷ [];
  parse_date = unit_value;
  id_text = λ i. (i + 200) ∷ [];
  text_id = unit_value;
  to_base64 = λ t. t;
  of_base64 = λ t. t;
}

read_back : (n : ℕ) → some (n + 200 - 200) ≡ some n
read_back n = ap some (omega arith)

platform-IsCodec : IsCodec platform
platform-IsCodec = record {
  base64 = λ t. refl;
  base64_filled = λ t e. e;
  dates = λ t _. read_back t;
  ids = read_back;
  iso_plain = λ t. (omega arith, tt);
  iso_filled = λ t. refl;
  id_plain = λ i. (omega arith, tt);
  id_filled = λ i. refl;
}

abbrev session_at : ℕ → ℕ → AskSession
session_at i t = record {
  id = i;
  requester_user_id = codes "u";
  owner_user_id = codes "o";
  title = none;
  metadata = codes "{}";
  last_question_at = none;
  created_at = t;
  updated_at = t;
}

abbrev message_at : ℕ → ℕ → AskMessage
message_at i t = record {
  id = i;
  session_id = 1;
  role = user;
  content = codes "hi";
  search_plan = none;
  retrieval_meta = none;
  created_at = t;
}

abbrev db : Db ℕ
db = record {
  sessions = session_at 1 5 ∷ session_at 2 6 ∷ session_at 3 6 ∷ [];
  messages = message_at 1 7 ∷ message_at 2 7 ∷ message_at 3 8 ∷ [];
  cache = [];
  next_session = 4;
  next_message = 4;
  now = 9;
}

db-sessions : Distinct (λ (s : AskSession). s.id) db.sessions
db-sessions = ((omega arith, (omega arith, tt)), ((omega arith, tt), (tt, tt)))

db-messages : Distinct (λ (m : AskMessage). m.id) db.messages
db-messages = ((omega arith, (omega arith, tt)), ((omega arith, tt), (tt, tt)))

follow-listed_example :
    follow platform db (codes "u") none 2 4 none
    ≡ map (summary (λ t. t) db) (session_at 3 6 ∷ session_at 2 6 ∷ session_at 1 5 ∷ [])
unfolding filter sort insert
follow-listed_example =
    follow-listed platform platform-IsCodec db 117 [] none 1 db-sessions 4
      ((refl, omega arith), ((refl, omega arith), ((refl, omega arith), tt))) (omega arith)

get_messages_by_session-backward_example :
    (last_row (get_messages_by_session (λ t. t) db 1 2 backward none) ≡ some (message_at 3 8))
    × (get_messages_by_session
          (λ t. t)
          db
          1
          2
          backward
          (some (row_cursor (λ t. t) (message_at 3 8)))
        ≡ message_at 1 7 ∷ message_at 2 7 ∷ [])
unfolding sort filter insert
get_messages_by_session-backward_example =
    get_messages_by_session-backward (λ t. t) db 1 1 db-messages (message_at 3 8)
      (message_at 2 7 ∷ message_at 1 7 ∷ []) refl refl

abbrev retitle : SessionUpdates
retitle = record { title = some (some (codes "x")); metadata = none }

abbrev options : ResolveSessionOptions
options = record {
  requester_user_id = codes "u";
  session_id = some (202 ∷ []);
  owner_user_id = some (codes "o");
  title_hint = none;
}

abbrev resolved : Resolution
resolved = record { session = session_at 2 6; created = false }

resolve_session_context-IsResolved_example : IsResolved platform db options db resolved
unfolding resolve_session_context
resolve_session_context-IsResolved_example =
    resolve_session_context-IsResolved platform db options db resolved refl
