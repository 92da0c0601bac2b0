-- ===== src/System/Fresh.antt =====
-- worker/queue-consumer.ts, repositories/ask-question-cache: what the cache gives after an owner's answers are
-- invalidated.
use bubblog_ai.Prelude.{not, ℕ, ◌≤◌, ◌≡◌, arith, List, [], ◌∷◌, All}
use bubblog_ai.Prelude.Text.{Text, text_eq, text_eq_iff}
use bubblog_ai.Prelude.Filter.{All-weaken, filter-All, members}
use bubblog_ai.Repository.{Db}
use bubblog_ai.Repository.Cache.{Vectors, delete_embeddings_by_owner}
use bubblog_ai.History.{CachedAnswerResult, FindCachedAnswerParams, find_cached_answer}
use bubblog_ai.History.Answers.{IsHit, find_cached_answer-All}
use bubblog_ai.Sessions.{Platform}
use bubblog_ai.System.{Live, Action, invalidated, act, acts}
use bubblog_ai.System.Evolution.{IsFresh}
use bubblog_ai.System.Consistent.{IsConsistent, act-Carries, act-IsConsistent}

module _ {E S : Type 0} (env : Platform) (to_date : ℕ → ℕ) (v : Vectors E S) (owner : Text)
    (t : ℕ) where
  pub acts-IsFresh :
      (l : Live E) (actions : List (Action E))
      → IsConsistent l
      → t ≤ l.db.now
      → IsFresh owner t l.db.cache
      → IsFresh owner t (acts env to_date v l actions).db.cache
  unfolding acts
  acts-IsFresh l [] c past h = h
  acts-IsFresh l (a ∷ rest) c past h =
      let carries = act-Carries env to_date v l a c in
      acts-IsFresh (act env to_date v l a) rest (act-IsConsistent env to_date v l a c)
        (omega (arith, past, carries.clock)) (carries.fresh owner t past h)

module _ {E S : Type 0} (env : Platform) (to_date : ℕ → ℕ) (v : Vectors E S) where
  pub invalidated-IsFresh :
      (l : Live E) (owner : Text) (t : ℕ)
      → IsFresh owner t (act env to_date v l (invalidated owner)).db.cache
  unfolding act delete_embeddings_by_owner
  invalidated-IsFresh l owner t =
      filter-All (λ row. row.owner_user_id ≡ owner → t ≤ row.created_at)
        (λ row. not (text_eq row.owner_user_id owner)) l.db.cache
        (λ row e _ same. absurd (ground (arith, e, (text_eq_iff row.owner_user_id owner).1 same)))
        (members l.db.cache)

  -- The row that names an answer is one of the owner.
  pub dated :
      (db : Db E) (q : FindCachedAnswerParams E) (t : ℕ) (r : CachedAnswerResult S)
      → IsHit to_date v db q (λ row. row.owner_user_id ≡ q.owner_user_id → t ≤ row.created_at) r
      → IsHit to_date v db q (λ row. t ≤ row.created_at) r
  dated db q t r hit = record {
    row = hit.row;
    cached = hit.cached hit.owner;
    owner = hit.owner;
    scope = hit.scope;
    close = hit.close;
    tone = hit.tone;
    answer_id = hit.answer_id;
    named = hit.named;
    message = hit.message;
    stored = hit.stored;
    content = hit.content;
  }

  -- Behind an invalidation of an owner's answers and any further transactions on consistent tables, each
  -- cached answer that is found for the owner is named by a row that was stored at that time or later.
  pub find_cached_answer-invalidated :
      (l : Live E) (actions : List (Action E)) (q : FindCachedAnswerParams E)
      → IsConsistent l
      → All
          (IsHit to_date v
            (acts env to_date v l (invalidated q.owner_user_id ∷ actions)).db
            q
            (λ row. l.db.now ≤ row.created_at))
          (find_cached_answer to_date v
            (acts env to_date v l (invalidated q.owner_user_id ∷ actions)).db
            q)
  unfolding acts
  find_cached_answer-invalidated l actions q c =
      let next = act env to_date v l (invalidated q.owner_user_id) in
      let after = acts env to_date v next actions in
      All-weaken (IsHit to_date v after.db q (λ row. l.db.now ≤ row.created_at))
        (find_cached_answer to_date v after.db q) (λ r hit. dated after.db q l.db.now r hit)
        (find_cached_answer-All to_date v after.db q
          (λ row. row.owner_user_id ≡ q.owner_user_id → l.db.now ≤ row.created_at)
          (acts-IsFresh env to_date v q.owner_user_id l.db.now next actions
            (act-IsConsistent env to_date v l (invalidated q.owner_user_id) c)
            (act-Carries env to_date v l (invalidated q.owner_user_id) c).clock
            (invalidated-IsFresh l q.owner_user_id l.db.now)))
