-- ===== src/History.antt =====
-- services/session-history.service.ts: the turns of a conversation, their storage with the question
-- cache, and the answers found there.
pub mod Storage
pub mod Integrity
pub mod Recent
pub mod Questions
pub mod Answers
pub mod Replay
pub mod Tones
use bubblog_ai.Prelude.{
  ℕ, suc, ◌-◌, min, Bool, true, false, ◌||◌, Option, none, some, List, [], ◌∷◌, ◌++◌, map, ◌==◌,
  if◌then◌else◌, take, drop, length, leb,
}
use bubblog_ai.Prelude.Text.{Text, codes, is_empty, is_space, trim}
use bubblog_ai.Prelude.Int.{ℤ, pos, negsuc}
use bubblog_ai.Prelude.Filter.{filter, find}
use bubblog_ai.Repository.{
  user, assistant, AskMessage, Db, Tx, Outcome, returned, guarded, with_transaction, ◌>>=◌, ◌>>◌,
}
use bubblog_ai.Repository.Messages.{
  MessageInput, insert_message, get_message_by_id, get_latest_messages,
}
use bubblog_ai.Repository.Sessions.{touch_session_last_question}
use bubblog_ai.Repository.Cache.{
  EmbeddingInput, Vectors, SimilarMessage, upsert_embedding, find_similar_embeddings,
}

abbrev pub history_message_limit : ℕ
history_message_limit = 4

abbrev pub duplicate_user_history_limit : ℕ
duplicate_user_history_limit = 2

abbrev pub previous_far : ℕ
previous_far = 400

abbrev pub previous_near : ℕ
previous_near = 600

abbrev pub current : ℕ
current = 800

-- `replace(/\s+/g, ' ')`; `inside` tells whether the last unit read was a space.
unfoldable pub collapse : Bool → Text → Text
collapse inside [] = []
collapse inside (c ∷ s) =
    let next = collapse (is_space c) s in
    if is_space c then if inside then next else 32 ∷ next else c ∷ next

unfoldable pub normalize_question_text : Text → ℕ → Text
unfolding collapse trim
normalize_question_text input limit =
    let cleaned = trim (collapse false input) in
    if (limit == 0) || leb (length cleaned) limit then cleaned else take limit cleaned

abbrev pub is_user : AskMessage → Bool
is_user m = elim m.role [ user ↦ true | assistant ↦ false ]

-- `questions.slice(-n)`
abbrev pub last_items {ℓ} : {A : Type ℓ} → ℕ → List A → List A
last_items n xs = drop (length xs - n) xs

abbrev pub recent_questions : List AskMessage → List Text
recent_questions history =
    last_items duplicate_user_history_limit (map (λ m. m.content) (filter is_user history))

unfoldable pub sections : List Text → Text → List Text
unfolding normalize_question_text
sections (far ∷ near ∷ []) question =
    (codes "[Q-2] " ++ normalize_question_text far previous_far)
    ∷ (codes "[Q-1] " ++ normalize_question_text near previous_near)
    ∷ (codes "[Q-now] " ++ normalize_question_text question current)
    ∷ []
sections (near ∷ []) question =
    (codes "[Q-1] " ++ normalize_question_text near previous_near)
    ∷ (codes "[Q-now] " ++ normalize_question_text question current)
    ∷ []
sections _ question = (codes "[Q-now] " ++ normalize_question_text question current) ∷ []

-- `join('\n')`
abbrev pub join : List Text → Text
join [] = []
join (t ∷ []) = t
join (t ∷ u ∷ us) = t ++ 10 ∷ join (u ∷ us)

unfoldable pub build_duplicate_question_block : Text → List AskMessage → Text
unfolding sections filter
build_duplicate_question_block question history =
    join (sections (recent_questions history) question)

pub record CachedAnswerResult (S : Type 0) : Type 0 where
  pub answer : Text
  pub search_plan : Option Text
  pub retrieval_meta : Option Text
  pub similarity : S
  pub speech_tone_id : ℤ

abbrev pub eq_ℤ : ℤ → ℤ → Bool
eq_ℤ (pos a) (pos b) = a == b
eq_ℤ (negsuc a) (negsuc b) = a == b
eq_ℤ _ _ = false

abbrev pub first {ℓ} : {A : Type ℓ} → List A → Option A
first [] = none
first (x ∷ xs) = some x

pub record Selection (S : Type 0) : Type 0 where
  pub matching_candidate : Option (CachedAnswerResult S)
  pub rewrite_candidate : Option (CachedAnswerResult S)

-- A requested tone that is no number is -1.
abbrev pub normalized_tone : Option ℤ → ℤ
normalized_tone none = negsuc 0
normalized_tone (some t) = t

unfoldable pub select_tone_aware_cache_candidate :
    {S : Type 0} → List (CachedAnswerResult S) → Option ℤ → Selection S
unfolding find
select_tone_aware_cache_candidate candidates requested =
    elim (find (λ c. eq_ℤ c.speech_tone_id (normalized_tone requested)) candidates) [
      | some c ↦ record { matching_candidate = some c; rewrite_candidate = none }
      | none ↦ record { matching_candidate = none; rewrite_candidate = first candidates }
    ]

pub record PersistConversationInput (E : Type 0) : Type 0 where
  pub session_id : ℕ
  pub requester_user_id : Text
  pub owner_user_id : Text
  pub question : Text
  pub answer : Text
  pub search_plan : Option Text
  pub retrieval_meta : Option Text
  pub category_id : Option ℕ
  pub post_id : Option ℕ
  pub question_embedding : E
  pub duplicate_question_embedding : E
  pub speech_tone : Option ℤ

-- The statements of the transaction that the connection refuses.
pub record Faults : Type 0 where
  pub begin : Bool
  pub insert_question : Bool
  pub insert_answer : Bool
  pub upsert : Bool
  pub touch : Bool
  pub commit : Bool

-- `if (!id) continue`
abbrev pub nonzero : Option ℕ → Option ℕ
nonzero (some (suc i)) = some (suc i)
nonzero _ = none

pub record FindCachedAnswerParams (E : Type 0) : Type 0 where
  pub owner_user_id : Text
  pub embedding : E
  pub post_id : Option ℕ
  pub category_id : Option ℕ

module _ {E : Type 0} where
  abbrev pub question_input : PersistConversationInput E → MessageInput
  question_input c = record {
    session_id = c.session_id;
    role = user;
    content = c.question;
    search_plan = c.search_plan;
    retrieval_meta = none;
  }

  abbrev pub answer_input : PersistConversationInput E → MessageInput
  answer_input c = record {
    session_id = c.session_id;
    role = assistant;
    content = c.answer;
    search_plan = none;
    retrieval_meta = c.retrieval_meta;
  }

  abbrev pub cache_input : PersistConversationInput E → ℕ → ℕ → EmbeddingInput E
  cache_input c question_id answer_id = record {
    message_id = question_id;
    owner_user_id = c.owner_user_id;
    requester_user_id = c.requester_user_id;
    category_id = c.category_id;
    post_id = c.post_id;
    answer_message_id = some answer_id;
    speech_tone_id = normalized_tone c.speech_tone;
    embedding = c.duplicate_question_embedding;
  }

module _ {E S : Type 0} (to_date : ℕ → ℕ) (v : Vectors E S) where
  -- `Math.max(0, ...)` is the identity on ℕ.
  unfoldable pub load_recent_messages : Db E → ℕ → ℕ → List AskMessage
  unfolding get_latest_messages
  load_recent_messages db session_id limit =
      let bounded = min limit history_message_limit in
      if bounded == 0 then [] else get_latest_messages to_date db session_id bounded

  -- The last two statements of the transaction.
  unfoldable pub store_question : Faults → PersistConversationInput E → ℕ → ℕ → Tx E Unit
  unfolding upsert_embedding touch_session_last_question
  store_question f c question_id answer_id = do
    guarded f.upsert (upsert_embedding (cache_input c question_id answer_id))
    guarded f.touch (touch_session_last_question c.session_id)

  unfoldable pub store_conversation : Faults → PersistConversationInput E → Tx E Unit
  unfolding insert_message store_question
  store_conversation f c = do
    user_message ← guarded f.insert_question (insert_message to_date (question_input c))
    assistant_message ← guarded f.insert_answer (insert_message to_date (answer_input c))
    store_question f c user_message.id assistant_message.id

  unfoldable pub persist_conversation : Faults → PersistConversationInput E → Db E → Db E × Outcome
  unfolding store_conversation
  persist_conversation f c db =
      if is_empty c.answer
        || v.is_blank c.question_embedding
        || v.is_blank c.duplicate_question_embedding
      then (db, returned)
      else with_transaction f.begin f.commit (store_conversation f c) db

  abbrev pub hydrated : SimilarMessage S → AskMessage → AskMessage → CachedAnswerResult S
  hydrated c question answer = record {
    answer = answer.content;
    search_plan = question.search_plan;
    retrieval_meta = answer.retrieval_meta;
    similarity = c.similarity;
    speech_tone_id = c.speech_tone_id;
  }

  abbrev pub hydrate_messages :
      SimilarMessage S → Option AskMessage → Option AskMessage → List (CachedAnswerResult S)
  hydrate_messages c (some question) (some answer) = hydrated c question answer ∷ []
  hydrate_messages c _ _ = []

  abbrev pub hydrate_id : Db E → SimilarMessage S → Option ℕ → List (CachedAnswerResult S)
  hydrate_id db c none = []
  hydrate_id db c (some i) =
      hydrate_messages c (get_message_by_id to_date db c.message_id)
        (get_message_by_id to_date db i)

  -- A round of the loop: the results it pushes.
  unfoldable pub hydrate : Db E → SimilarMessage S → List (CachedAnswerResult S)
  unfolding get_message_by_id
  hydrate db c =
      if v.below c.similarity v.threshold then [] else hydrate_id db c (nonzero c.answer_message_id)

  unfoldable pub hydrate_all : Db E → List (SimilarMessage S) → List (CachedAnswerResult S)
  unfolding hydrate
  hydrate_all db [] = []
  hydrate_all db (c ∷ cs) = hydrate db c ++ hydrate_all db cs

  unfoldable pub find_cached_answer : Db E → FindCachedAnswerParams E → List (CachedAnswerResult S)
  unfolding hydrate_all find_similar_embeddings
  find_cached_answer db q =
      hydrate_all db
        (find_similar_embeddings v db q.owner_user_id q.embedding q.post_id q.category_id 3)
