-- ===== src/Qa/Data.antt =====
-- services/qa.service.ts: what is written, what a request and the model bring, and the texts of both.
use bubblog_ai.Prelude.{ℕ, Bool, true, false, Option, none, some, List, [], ◌∷◌, ◌++◌, map}
use bubblog_ai.Prelude.Text.{Text, codes}
use bubblog_ai.Prelude.Int.{ℤ}
use bubblog_ai.Llm.OpenAi.{event_line, data_line}
use bubblog_ai.Repository.{MessageRole, AskMessage, AskSession, Db}
use bubblog_ai.History.{Faults}

pub data Out : Type 0 where
  write : Text → Out
  -- `session_saved`, with its `cached`, and `session_error`, with its `reason`.
  session_saved : Bool → Out
  session_error : Text → Out
  ended : Out

-- How the stream of the model finishes: it ends, before or after the client has left, it fails, or it
-- never does.
pub data Finish : Type 0 where
  completed : Finish
  abandoned : Finish
  failed : Finish
  pending : Finish

pub record LlmStream : Type 0 where
  pub chunks : List Text
  pub finish : Finish

pub data ChatRole : Type 0 where
  system user assistant tool function : ChatRole

pub record ChatMessage : Type 0 where
  pub role : ChatRole
  pub content : Text

pub record Post : Type 0 where
  pub is_public : Bool
  pub user_id : Text
  -- `JSON.stringify([{ postId, postTitle }])`, the prompt, and what is stored of plan and retrieval.
  pub context : Text
  pub messages : List ChatMessage
  pub search_plan : Text
  pub retrieval_meta : Text

pub data PostLookup : Type 0 where
  broken : PostLookup
  missing : PostLookup
  found : Post → PostLookup

-- The chunks that are similar to the question: whether there are any, and the texts made of them.
pub record Retrieval : Type 0 where
  pub exist_in_post : Bool
  pub context : Text
  pub messages : List ChatMessage
  pub search_plan : Text
  pub retrieval_meta : Text

pub record Embeddings (E : Type 0) : Type 0 where
  pub question : Option E
  pub duplicate_question : Option E

-- The options of `answerStream`, and the answers of the services, `none` where they throw. The model
-- answers to the messages that it gets.
pub record Request (E : Type 0) : Type 0 where
  pub question : Text
  pub session : AskSession
  pub requester_user_id : Text
  pub owner_user_id : Text
  pub category_id : Option ℕ
  pub speech_tone : ℤ
  pub post_id : Option ℕ
  pub lookups_fail : Bool
  pub embeddings : Option (Embeddings E)
  pub cache_fails : Bool
  pub rewritten : Option Text
  pub post : PostLookup
  pub retrieval : Option Retrieval
  pub llm : List ChatMessage → Option LlmStream
  pub faults : Faults

-- What was written and emitted, and the database.
pub record Serving (E : Type 0) : Type 0 where
  pub out : List Out
  pub db : Db E

abbrev pub internal_error : Text
internal_error = codes "{\"message\":\"Internal server error\"}"

-- An event in a single write.
abbrev pub event_write : Text → Text → Out
event_write name payload = write (event_line name ++ data_line payload)

-- `prependHistory`
unfoldable pub prepend_history : List ChatMessage → List ChatMessage → List ChatMessage
prepend_history base [] = base
prepend_history [] (h ∷ hs) = h ∷ hs
prepend_history (b ∷ rest) (h ∷ hs) = elim b.role [
  | system ↦ b ∷ (h ∷ hs) ++ rest
  | _ ↦ (h ∷ hs) ++ (b ∷ rest)
]

abbrev pub history_role : MessageRole → ChatRole
history_role MessageRole.user = user
history_role MessageRole.assistant = assistant

abbrev pub history_messages : List AskMessage → List ChatMessage
history_messages ms = map (λ m. record { role = history_role m.role; content = m.content }) ms

abbrev pub bool_text : Bool → Text
bool_text true = codes "true"
bool_text false = codes "false"

abbrev pub written_option : Text → Option Text → List Out
written_option name none = []
written_option name (some payload) = write (event_line name) ∷ write (data_line payload) ∷ []

abbrev pub written_context : Option Text → List Out
written_context none = []
written_context (some c) =
    written_option (codes "search_result") (some c) ++ written_option (codes "context") (some c)

abbrev pub optional_text : Option Bool → Option Text
optional_text none = none
optional_text (some b) = some (bool_text b)

-- `document` is the one of `Sse`; `meta_context` and `meta_exist` read the array `context` and the
-- Boolean `exist_in_post_status` of a stored object.
pub record Reader : Type 0 where
  pub document : Text → Option Text
  pub meta_context : Text → Option Text
  pub meta_exist : Text → Option Bool

abbrev pub of_meta : {A : Type 0} → (Text → Option A) → Option Text → Option A
of_meta read none = none
of_meta read (some meta) = read meta
