-- ===== src/System/Replayed.antt =====
-- services/session-history.service.ts, `findCachedAnswer`: whose answers the cache gives, after any transactions.
use bubblog_ai.Prelude.{ℕ, ◌≡◌, refl, ap, subst, sym, ◌∙◌, some, List, All}
use bubblog_ai.Prelude.Filter.{All-weaken}
use bubblog_ai.Repository.{AskMessage, AskSession, Db, assistant}
use bubblog_ai.Repository.Cache.{Vectors}
use bubblog_ai.Repository.Messages.{map_message, get_message_by_id}
use bubblog_ai.History.{FindCachedAnswerParams, CachedAnswerResult, find_cached_answer}
use bubblog_ai.History.Answers.{IsHit, find_cached_answer-All}
use bubblog_ai.Sessions.{Platform}
use bubblog_ai.System.{Live, Action, acts}
use bubblog_ai.System.Evolution.{message_at, session_at, IsAttributed}
use bubblog_ai.System.Consistent.{IsConsistent, acts-IsConsistent}

-- An answer that an assistant gave in a session on the posts of the owner.
pub record IsAnswered {E S : Type 0} (db : Db E) (q : FindCachedAnswerParams E)
    (r : CachedAnswerResult S) : Type 0 where
  pub id : ℕ
  pub message : AskMessage
  pub stored : message_at id db.messages ≡ some message
  pub role : message.role ≡ assistant
  pub content : r.answer ≡ message.content
  pub session : AskSession
  pub held : session_at message.session_id db.sessions ≡ some session
  pub owner : session.owner_user_id ≡ q.owner_user_id

module _ {E S : Type 0} (to_date : ℕ → ℕ) (v : Vectors E S) where
  get_message_by_id-content :
      (db : Db E) (i : ℕ) (m found : AskMessage)
      → message_at i db.messages ≡ some m
      → get_message_by_id to_date db i ≡ some found
      → found.content ≡ m.content
  unfolding get_message_by_id
  get_message_by_id-content db i m found e d =
      let read : get_message_by_id to_date db i ≡ some (map_message to_date m) =
        rw (get_message_by_id, e) refl in
      let same : some found ≡ some (map_message to_date m) = sym d ∙ read in
      let equal : found ≡ map_message to_date m = cc (same) in
      ap (λ (x : AskMessage). x.content) equal

  IsHit-IsAnswered :
      (db : Db E) (q : FindCachedAnswerParams E) (r : CachedAnswerResult S)
      → IsHit to_date v db q (IsAttributed db.sessions db.messages) r
      → IsAnswered db q r
  IsHit-IsAnswered db q r h =
      let a = h.cached in
      let named : some a.answer_id ≡ some h.answer_id = sym a.named ∙ h.named in
      let equal : a.answer_id ≡ h.answer_id = cc (named) in
      record {
        id = a.answer_id;
        message = a.answer;
        stored = a.answered;
        role = a.role;
        content =
            h.content
            ∙ get_message_by_id-content db h.answer_id a.answer h.message
                (subst (λ i. message_at i db.messages ≡ some a.answer) equal a.answered) h.stored;
        session = a.session;
        held = subst (λ i. session_at i db.sessions ≡ some a.session) (sym a.together) a.held;
        owner = a.owner ∙ h.owner;
      }

  -- After any transactions on consistent tables, each cached answer that is found for an owner is what an
  -- assistant answered in a session on the posts of that owner.
  pub find_cached_answer-acts :
      (env : Platform) (l : Live E) (actions : List (Action E)) (q : FindCachedAnswerParams E)
      → IsConsistent l
      → All
          (IsAnswered (acts env to_date v l actions).db q)
          (find_cached_answer to_date v (acts env to_date v l actions).db q)
  find_cached_answer-acts env l actions q h =
      let db = (acts env to_date v l actions).db in
      let after = acts-IsConsistent env to_date v l actions h in
      All-weaken (IsAnswered db q) (find_cached_answer to_date v db q)
        (λ r hit. IsHit-IsAnswered db q r hit)
        (find_cached_answer-All to_date v db q (IsAttributed db.sessions db.messages)
          after.attributed)
