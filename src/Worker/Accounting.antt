-- ===== src/Worker/Accounting.antt =====
-- worker/queue-consumer.ts: where a handled payload goes, and when a job is given up.
use bubblog_ai.Prelude.{
  ◌≡◌, ◌≢◌, ◌⊎◌, inl, inr, Bool-cases, ◌++◌, refl, Bool, true, false, Option, none, some, List, [],
  ◌∷◌, All, if◌then◌else◌,
}
use bubblog_ai.Prelude.Text.{Text}
use bubblog_ai.Prelude.Int.{ℤ}
use bubblog_ai.Worker.{
  Number, num, EmbeddingJob, Services, Ending, returned, raised, Error, attempt_of, handle_job,
  process_job, next_attempt, lt_number, Parsed, invalid_json, null_value, job_value, FailedPayload,
  raw_payload, gave_up, State, Setup, enriched, retry, after_job, handle_parsed, handle_payload,
  push_to_failed_queue, pop_last, Round, deliver, nothing, broken, produce, shutdown, deliver_last,
  run_round, run,
}

-- A payload that the loop takes and that leaves no trace: JSON `null`, whose fields cannot be read, and a
-- job whose attempt number throws when it is converted.
abbrev pub IsLost : Setup → Parsed → Type 0
IsLost c null_value = Unit
IsLost c (job_value job) = attempt_of c.text_number job.attempt ≡ none
IsLost c invalid_json = ⊥

-- The payload is a job that ran to its end.
abbrev pub IsDone : Setup → Services → Parsed → Type 0
IsDone c sv p =
    (job : EmbeddingJob) × (p ≡ job_value job)
    × (attempt_of c.text_number job.attempt ≢ none)
    × ((process_job c.chunk_text c.text_number sv job).ending ≡ returned)

-- The jobs differ in what a retry writes only: the attempt number, the last error and its time.
abbrev pub IsSameJob : EmbeddingJob → EmbeddingJob → Type 0
IsSameJob a b =
    (b.post_id ≡ a.post_id)
    × (b.title ≡ a.title)
    × (b.content ≡ a.content)
    × (b.metadata ≡ a.metadata)

-- An entry of the failed queue that stands for the payload.
abbrev pub StandsFor : Text → Parsed → FailedPayload → Type 0
StandsFor raw p (raw_payload kept) = (p ≡ invalid_json) × (kept ≡ raw)
StandsFor raw p (gave_up kept) = (job : EmbeddingJob) × (p ≡ job_value job) × IsSameJob job kept

-- Where the payload is behind its turn: nowhere, as it is done or lost, or once more in the queue, or in the
-- failed queue; the other entries of both stand as they were.
abbrev pub IsPlaced : Setup → Services → Text → Parsed → State → State → Type 0
IsPlaced c sv raw p s t =
    ((t.queue ≡ s.queue) × (t.failed ≡ s.failed) × (IsDone c sv p ⊎ IsLost c p))
    ⊎ ((job kept : EmbeddingJob) × (p ≡ job_value job)
        × IsSameJob job kept
        × (t.queue ≡ c.stringify kept ∷ s.queue)
        × (t.failed ≡ s.failed))
    ⊎ ((entry : FailedPayload) × StandsFor raw p entry
        × (t.queue ≡ s.queue)
        × (t.failed ≡ entry ∷ s.failed))

module _ (c : Setup) (sv : Services) where
  push-failed :
      (p : FailedPayload) (s : State)
      → sv.failed_pushed ≡ none
      → push_to_failed_queue sv p s ≡ record s { failed = p ∷ s.failed }
  unfolding push_to_failed_queue
  push-failed p s f = rw f refl

  -- A retry puts the job back, or in the failed queue, and keeps what it asks for.
  retry-IsPlaced :
      (raw : Text) (job : EmbeddingJob) (n : Number) (e : Error) (s : State)
      → sv.requeued ≡ none
      → sv.failed_pushed ≡ none
      → IsPlaced c sv raw (job_value job) s (retry c sv job n e s)
  unfolding retry enriched
  retry-IsPlaced raw job n e s r f =
      elim (Bool-cases (lt_number (next_attempt c.fraction_plus n) c.max_retries)) [
        | inl l ↦
            rw (l, r)
              (inr (inl (job, enriched c sv job n e, refl, (refl, refl, refl, refl), refl, refl)))
        | inr l ↦
            rw (l, push-failed (gave_up (enriched c sv job n e)) s f)
              (inr (
                inr (
                  gave_up (enriched c sv job n e),
                  (job, refl, (refl, refl, refl, refl)),
                  refl,
                  refl,
                )))
      ]

  after_job-IsPlaced :
      (raw : Text) (job : EmbeddingJob) (n : Number) (r : Ending) (s : State)
      → (process_job c.chunk_text c.text_number sv job).ending ≡ r
      → attempt_of c.text_number job.attempt ≡ some n
      → sv.requeued ≡ none
      → sv.failed_pushed ≡ none
      → IsPlaced c sv raw (job_value job) s (after_job c sv job n r s)
  unfolding after_job
  after_job-IsPlaced raw job n returned s e a r f = inl (refl, refl, inl (job, refl, (λ z. cc), e))
  after_job-IsPlaced raw job n (raised x) s e a r f = retry-IsPlaced raw job n x s r f

  handle_job-IsPlaced :
      (raw : Text) (job : EmbeddingJob) (n : Option Number) (s : State)
      → attempt_of c.text_number job.attempt ≡ n
      → sv.requeued ≡ none
      → sv.failed_pushed ≡ none
      → IsPlaced c sv raw (job_value job) s (handle_job c sv job n s)
  unfolding handle_job
  handle_job-IsPlaced raw job none s a r f = inl (refl, refl, inr a)
  handle_job-IsPlaced raw job (some n) s a r f =
      let run = process_job c.chunk_text c.text_number sv job in
      after_job-IsPlaced raw job n run.ending (record s { effects = s.effects ++ run.effects }) refl
        a r f

  handle_parsed-IsPlaced :
      (raw : Text) (p : Parsed) (s : State)
      → sv.requeued ≡ none
      → sv.failed_pushed ≡ none
      → IsPlaced c sv raw p s (handle_parsed c sv raw p s)
  unfolding handle_parsed
  handle_parsed-IsPlaced raw invalid_json s r f =
      rw (push-failed (raw_payload raw) s f) (inr (inr (raw_payload raw, (refl, refl), refl, refl)))
  handle_parsed-IsPlaced raw null_value s r f = inl (refl, refl, inr tt)
  handle_parsed-IsPlaced raw (job_value job) s r f =
      handle_job-IsPlaced raw job (attempt_of c.text_number job.attempt) s refl r f

  -- While both pushes work, a handled payload is done, or stands once more at the head of the queue, or
  -- stands at the head of the failed queue, with all that the job asks for, and nothing else of the two
  -- changes. It is lost only where it is JSON `null`, or a job whose attempt number throws when it is
  -- converted.
  pub handle_payload-IsPlaced :
      (raw : Text) (s : State)
      → sv.requeued ≡ none
      → sv.failed_pushed ≡ none
      → IsPlaced c sv raw (c.parse raw) s (handle_payload c sv raw s)
  unfolding handle_payload
  handle_payload-IsPlaced raw s r f = handle_parsed-IsPlaced raw (c.parse raw) s r f

-- A job in the failed queue has used up its attempts.
abbrev pub IsUsedUp : ℤ → FailedPayload → Type 0
IsUsedUp m (raw_payload raw) = Unit
IsUsedUp m (gave_up job) = (n : Number) × (job.attempt ≡ num n) × (lt_number n m ≡ false)

module _ (c : Setup) where
  abbrev pub AllUsedUp : State → Type 0
  AllUsedUp s = All (IsUsedUp c.max_retries) s.failed

  push-AllUsedUp :
      (sv : Services) (p : FailedPayload) (s : State)
      → IsUsedUp c.max_retries p
      → AllUsedUp s
      → AllUsedUp (push_to_failed_queue sv p s)
  unfolding push_to_failed_queue
  push-AllUsedUp sv p s u h = go sv.failed_pushed
    where
      go :
          (o : Option Text)
          → AllUsedUp (elim o [ none ↦ record s { failed = p ∷ s.failed } | some _ ↦ s ])
      go none = (u, h)
      go (some _) = h

  retry-AllUsedUp :
      (sv : Services) (job : EmbeddingJob) (n : Number) (e : Error) (s : State)
      → AllUsedUp s
      → AllUsedUp (retry c sv job n e s)
  unfolding retry enriched
  retry-AllUsedUp sv job n e s h =
      go (lt_number (next_attempt c.fraction_plus n) c.max_retries) refl sv.requeued
    where
      go :
          (b : Bool)
          → lt_number (next_attempt c.fraction_plus n) c.max_retries ≡ b
          → (o : Option Text)
          → AllUsedUp (
              if b
              then elim o [
                | none ↦ record s { queue = c.stringify (enriched c sv job n e) ∷ s.queue }
                | some _ ↦ s
              ]
              else push_to_failed_queue sv (gave_up (enriched c sv job n e)) s)
      go true l none = h
      go true l (some _) = h
      go false l o = push-AllUsedUp sv (gave_up (enriched c sv job n e)) s (_, refl, l) h

  handle_job-AllUsedUp :
      (sv : Services) (job : EmbeddingJob) (n : Option Number) (s : State)
      → AllUsedUp s
      → AllUsedUp (handle_job c sv job n s)
  unfolding handle_job
  handle_job-AllUsedUp sv job none s h = h
  handle_job-AllUsedUp sv job (some n) s h =
      let r = process_job c.chunk_text c.text_number sv job in
      ended r.ending (record s { effects = s.effects ++ r.effects }) h
    where
      ended : (e : Ending) (s' : State) → AllUsedUp s' → AllUsedUp (after_job c sv job n e s')
      ended returned s' h' = h'
      ended (raised e) s' h' = retry-AllUsedUp sv job n e s' h'

  handle_payload-AllUsedUp :
      (sv : Services) (raw : Text) (s : State) → AllUsedUp s → AllUsedUp (handle_payload c sv raw s)
  unfolding handle_payload
  handle_payload-AllUsedUp sv raw s h = parsed (c.parse raw)
    where
      parsed : (p : Parsed) → AllUsedUp (handle_parsed c sv raw p s)
      parsed invalid_json = push-AllUsedUp sv (raw_payload raw) s tt h
      parsed null_value = h
      parsed (job_value job) =
          handle_job-AllUsedUp sv job (attempt_of c.text_number job.attempt) s h

  run_round-AllUsedUp : (s : State) (r : Round) → AllUsedUp s → AllUsedUp (run_round c s r)
  unfolding run_round
  run_round-AllUsedUp s (deliver sv) h = stopping s.shutting_down
    where
      popped : (o : Option (List Text × Text)) → AllUsedUp (deliver_last c sv s o)
      popped none = h
      popped (some (rest, raw)) = handle_payload-AllUsedUp sv raw (record s { queue = rest }) h

      stopping : (b : Bool) → AllUsedUp (if b then s else deliver_last c sv s (pop_last s.queue))
      stopping true = h
      stopping false = popped (pop_last s.queue)
  run_round-AllUsedUp s nothing h = h
  run_round-AllUsedUp s broken h = h
  run_round-AllUsedUp s (produce raw) h = h
  run_round-AllUsedUp s shutdown h = h

  -- Over any rounds, with producers and signals between the deliveries, a job is in the failed queue
  -- only with an attempt number that is not below the limit: none is given up early.
  pub run-AllUsedUp : (rs : List Round) (s : State) → AllUsedUp s → AllUsedUp (run c s rs)
  unfolding run
  run-AllUsedUp [] s h = h
  run-AllUsedUp (r ∷ rs) s h = run-AllUsedUp rs (run_round c s r) (run_round-AllUsedUp s r h)
