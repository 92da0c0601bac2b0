-- ===== src/History/Storage/Rows.antt =====
-- services/session-history.service.ts, `persistConversation`: the rows of a turn, which are found by their ids.
use bubblog_ai.Prelude.{
  ℕ, suc, ◌<◌, ◌≡◌, inl, inr, refl, subst, Bool, true, false, not, none, some, arith, ◌==◌, ◌&&◌,
  List, [], ◌∷◌, ◌++◌, All, Bool-cases, if◌then◌else◌,
}
use bubblog_ai.Prelude.Filter.{find}
use bubblog_ai.Repository.{user, assistant, AskMessage, CacheRow, Db, refers}
use bubblog_ai.Repository.Sessions.{update_where, touched}
use bubblog_ai.Repository.Cache.{conflicts}
use bubblog_ai.History.{PersistConversationInput, Faults, normalized_tone}

module _ {E : Type 0} where
  abbrev pub question_row : PersistConversationInput E → Db E → AskMessage
  question_row c db = record {
    id = db.next_message;
    session_id = c.session_id;
    role = user;
    content = c.question;
    search_plan = c.search_plan;
    retrieval_meta = none;
    created_at = db.now;
  }

  abbrev pub answer_row : PersistConversationInput E → Db E → AskMessage
  answer_row c db = record {
    id = suc db.next_message;
    session_id = c.session_id;
    role = assistant;
    content = c.answer;
    search_plan = none;
    retrieval_meta = c.retrieval_meta;
    created_at = db.now;
  }

  abbrev pub cache_row : PersistConversationInput E → Db E → CacheRow E
  cache_row c db = record {
    message_id = db.next_message;
    owner_user_id = c.owner_user_id;
    requester_user_id = c.requester_user_id;
    category_id = c.category_id;
    post_id = c.post_id;
    answer_message_id = some (suc db.next_message);
    speech_tone_id = normalized_tone c.speech_tone;
    embedding = c.duplicate_question_embedding;
    created_at = db.now;
    updated_at = db.now;
  }

  -- The database with the turn: both messages, the cached question, and the session's time stamps.
  abbrev pub with_turn : PersistConversationInput E → Db E → Db E
  with_turn c db = record {
    sessions = update_where (λ s. s.id == c.session_id) (touched db.now) db.sessions;
    messages = (db.messages ++ (question_row c db ∷ [])) ++ (answer_row c db ∷ []);
    cache = db.cache ++ (cache_row c db ∷ []);
    next_session = db.next_session;
    next_message = suc (suc db.next_message);
    now = db.now;
  }

abbrev pub all_accepted : Faults → Bool
all_accepted f =
    not f.begin
    && (not f.insert_question && not f.insert_answer && not f.upsert && not f.touch)
    && not f.commit

-- The ids of the cached questions are those of messages, so they are below the sequence too.
pub refers-below :
    (n i : ℕ) (ms : List AskMessage) → All (λ m. m.id < n) ms → refers ms (some i) ≡ true → i < n
unfolding find
refers-below n i [] h e = absurd (ground (arith, e))
refers-below n i (m ∷ ms) (k, h) e = elim (Bool-cases (m.id == i)) [
  | inl d ↦ ground (arith, k, d)
  | inr d ↦ refers-below n i ms h (
      subst
        (λ b.
          elim (if b then some m else find (λ x. x.id == i) ms) [ none ↦ false | some _ ↦ true ]
          ≡ true)
        d e)
]

pub conflict-free :
    {E : Type 0} (n : ℕ) (ms : List AskMessage) (rows : List (CacheRow E))
    → All (λ m. m.id < n) ms
    → All (λ r. refers ms (some r.message_id) ≡ true) rows
    → All (λ r. conflicts n r ≡ false) rows
conflict-free n ms [] h k = tt
conflict-free n ms (r ∷ rows) h (e, k) =
    (ground (arith, refers-below n r.message_id ms h e), conflict-free n ms rows h k)

pub find-none :
    {A : Type 0} (p : A → Bool) (xs : List A) → All (λ x. p x ≡ false) xs → find p xs ≡ none
unfolding find
find-none p [] h = refl
find-none p (x ∷ xs) (e, h) = rw (e) (find-none p xs h)

pub other : (i n : ℕ) → i < n → (i == n) ≡ false
other i n k = ground (arith, k)

-- The two rows of the turn are found by their ids.
pub refers-turn :
    (n : ℕ) (ms : List AskMessage) (q a : AskMessage)
    → All (λ m. m.id < n) ms
    → q.id ≡ n
    → a.id ≡ suc n
    → (refers ((ms ++ (q ∷ [])) ++ (a ∷ [])) (some n) ≡ true)
      × (refers ((ms ++ (q ∷ [])) ++ (a ∷ [])) (some (suc n)) ≡ true)
unfolding find
refers-turn n [] q a h e d = (ground (arith, e, d), ground (arith, e, d))
refers-turn n (m ∷ ms) q a (k, h) e d =
    let rest = refers-turn n ms q a h e d in
    (
      rw (refers, other m.id n (omega (arith, k))) rest.0,
      rw (refers, other m.id (suc n) (omega (arith, k))) rest.1,
    )
