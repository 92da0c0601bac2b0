-- ===== src/System/Worked.antt =====
-- worker/queue-consumer.ts, `processJob`: what its effects make of the cached answers of the owner.
use bubblog_ai.Prelude.{
  ℕ, ◌≤◌, ◌≡◌, inl, inr, subst, sym, ◌∙◌, true, none, arith, List, [], ◌∷◌, ◌++◌, All, Bool-cases,
}
use bubblog_ai.Prelude.Text.{Text, text_eq, text_eq_iff}
use bubblog_ai.Prelude.Filter.{All-weaken}
use bubblog_ai.Repository.Cache.{Vectors}
use bubblog_ai.History.{FindCachedAnswerParams, find_cached_answer}
use bubblog_ai.History.Answers.{IsHit, find_cached_answer-All}
use bubblog_ai.Sessions.{Platform}
use bubblog_ai.Worker.{
  Effect, stored_title, stored_content, EmbeddingJob, Post, found, Services, Setup, returned,
  process_job,
}
use bubblog_ai.Worker.Jobs.{any_stored, any_invalidated, HasContent, process_job-invalidates}
use bubblog_ai.System.{Live, Action, invalidated, act, acts}
use bubblog_ai.System.Evolution.{IsFresh}
use bubblog_ai.System.Consistent.{IsConsistent, act-Carries, act-IsConsistent}
use bubblog_ai.System.Fresh.{acts-IsFresh, invalidated-IsFresh, dated}

-- The effects on the tables of the questions; the embeddings are in other tables.
abbrev pub effect_actions : {E : Type 0} → List Effect → List (Action E)
effect_actions [] = []
effect_actions (stored_title _ _ ∷ es) = effect_actions es
effect_actions (stored_content _ _ ∷ es) = effect_actions es
effect_actions (Effect.invalidated owner ∷ es) = invalidated owner ∷ effect_actions es

module _ {E S : Type 0} (env : Platform) (to_date : ℕ → ℕ) (v : Vectors E S) (owner : Text)
    (t : ℕ) where
  effects-IsFresh :
      (es : List Effect) (actions : List (Action E)) (l : Live E)
      → IsConsistent l
      → t ≤ l.db.now
      → any_invalidated owner es ≡ true
      → IsFresh owner t (acts env to_date v l (effect_actions es ++ actions)).db.cache
  unfolding acts
  effects-IsFresh [] actions l c past e = absurd (ground (arith, e))
  effects-IsFresh (stored_title _ _ ∷ es) actions l c past e = effects-IsFresh es actions l c past e
  effects-IsFresh (stored_content _ _ ∷ es) actions l c past e =
      effects-IsFresh es actions l c past e
  effects-IsFresh (Effect.invalidated o ∷ es) actions l c past e =
      let next = act env to_date v l (invalidated o) in
      let after = act-IsConsistent env to_date v l (invalidated o) c in
      let later : t ≤ next.db.now =
        omega (arith, past, (act-Carries env to_date v l (invalidated o) c).clock) in
      elim (Bool-cases (text_eq o owner)) [
        | inl d ↦
            acts-IsFresh env to_date v owner t next (effect_actions es ++ actions) after later (
              subst (λ x. IsFresh x t next.db.cache) ((text_eq_iff o owner).0 d)
                (invalidated-IsFresh env to_date v l o t))
        | inr d ↦ effects-IsFresh es actions next after later (ground (arith, e, d))
      ]

module _ {E S : Type 0} (env : Platform) (to_date : ℕ → ℕ) (v : Vectors E S) (c : Setup)
    (sv : Services) (job : EmbeddingJob) (p : Post) where
  -- Behind a job that returns and has stored an embedding of an owner's post, and any further transactions
  -- on consistent tables, each cached answer that is found for the owner is named by a row that was stored
  -- at the time of the job or later: for a post that was found, content that gives chunks where the job asks
  -- for content, and a deletion that does not fail.
  pub process_job-find_cached_answer :
      sv.post ≡ found p
      → HasContent c.chunk_text job p
      → sv.cache_deleted ≡ none
      → (process_job c.chunk_text c.text_number sv job).ending ≡ returned
      → any_stored (process_job c.chunk_text c.text_number sv job).effects ≡ true
      → (l : Live E) (actions : List (Action E)) (q : FindCachedAnswerParams E) → IsConsistent l
      → q.owner_user_id ≡ p.user_id
      → All
          (IsHit to_date v
            (acts env to_date v l (
              effect_actions (process_job c.chunk_text c.text_number sv job).effects ++ actions)).db
            q
            (λ row. l.db.now ≤ row.created_at))
          (find_cached_answer to_date v
            (acts env to_date v l (
              effect_actions (process_job c.chunk_text c.text_number sv job).effects ++ actions)).db
            q)
  process_job-find_cached_answer f h d r stored l actions q k same =
      let effects = (process_job c.chunk_text c.text_number sv job).effects in
      let db = (acts env to_date v l (effect_actions effects ++ actions)).db in
      let told : any_invalidated q.owner_user_id effects ≡ true =
        subst (λ o. any_invalidated o effects ≡ true) (sym same)
          (process_job-invalidates c sv job p f h d r ∙ stored) in
      All-weaken (IsHit to_date v db q (λ row. l.db.now ≤ row.created_at))
        (find_cached_answer to_date v db q) (λ x hit. dated env to_date v db q l.db.now x hit)
        (find_cached_answer-All to_date v db q
          (λ row. row.owner_user_id ≡ q.owner_user_id → l.db.now ≤ row.created_at)
          (effects-IsFresh env to_date v q.owner_user_id l.db.now effects actions l k (omega arith)
            told))
