-- ===== src/Worker/Drain.antt =====
-- worker/queue-consumer.ts, the retries: no payload is handled forever, and the loop empties its queue.
use bubblog_ai.Prelude.{
  Option, ℕ, ◌+◌, ◌≤◌, ◌<◌, ◌≡◌, ◌⊎◌, inl, inr, refl, sym, ap, subst, ◌∙◌, true, false, none, some,
  List, [], ◌∷◌, ◌++◌, map, arith, length, if◌then◌else◌,
}
use bubblog_ai.Prelude.Text.{Text}
use bubblog_ai.Worker.{
  handle_job, Number, EmbeddingJob, Services, Ending, returned, raised, Error, attempt_of,
  process_job, next_attempt, lt_number, Parsed, invalid_json, null_value, job_value, State, Setup,
  enriched, retry, after_job, handle_parsed, handle_payload, push_to_failed_queue, FailedPayload,
  raw_payload, pop_last, deliver, deliver_last, run_round, run,
}
use bubblog_ai.Worker.Tries.{
  tries_left, attempt_tries, payload_tries, IsCountable, CanCount, KeepsAttempts, tries,
  total_tries, AllCount, attempt_tries-pos, payload_tries-pos, tries-enriched,
}

module _ (c : Setup) where
  -- A payload with the tries `t` was taken, and the queue `raws` is left.
  abbrev Left : ℕ → List Text → List Text → Type 0
  Left t raws after = (total_tries c after < total_tries c raws + t) × AllCount c after

  retry-queue :
      (sv : Services) (job : EmbeddingJob) (n : Number) (e : Error) (s : State)
      → ((retry c sv job n e s).queue ≡ s.queue)
        ⊎ ((lt_number (next_attempt c.fraction_plus n) c.max_retries ≡ true)
            × ((retry c sv job n e s).queue ≡ c.stringify (enriched c sv job n e) ∷ s.queue))
  unfolding retry
  retry-queue sv job n e s = ground arith

  retry-total :
      (sv : Services) (job : EmbeddingJob) (n : Number) (e : Error) (s : State)
      → KeepsAttempts c
      → IsCountable (some n)
      → AllCount c s.queue
      → Left (tries_left n c.max_retries) s.queue (retry c sv job n e s).queue
  retry-total sv job n e s k i h = elim (retry-queue sv job n e s) [
    | inl same ↦ rw same (omega (arith, attempt_tries-pos c (some n)), h)
    | inr (l, q) ↦
        let (less, counts) = tries-enriched c sv job n e k i l in
        rw q (omega (arith, less), (counts, h))
  ]

  push-queue :
      (sv : Services) (p : FailedPayload) (s : State)
      → (push_to_failed_queue sv p s).queue ≡ s.queue
  unfolding push_to_failed_queue
  push-queue sv p s = ground arith

  after_job-total :
      (sv : Services) (job : EmbeddingJob) (n : Number) (r : Ending) (s : State)
      → KeepsAttempts c
      → IsCountable (some n)
      → AllCount c s.queue
      → Left (tries_left n c.max_retries) s.queue (after_job c sv job n r s).queue
  unfolding after_job
  after_job-total sv job n returned s k i h = (omega (arith, attempt_tries-pos c (some n)), h)
  after_job-total sv job n (raised e) s k i h = retry-total sv job n e s k i h

  handle_job-total :
      (sv : Services) (job : EmbeddingJob) (n : Option Number) (s : State)
      → KeepsAttempts c
      → IsCountable n
      → AllCount c s.queue
      → Left (attempt_tries c.max_retries n) s.queue (handle_job c sv job n s).queue
  unfolding handle_job
  handle_job-total sv job none s k i h = (omega arith, h)
  handle_job-total sv job (some n) s k i h =
      let r = process_job c.chunk_text c.text_number sv job in
      after_job-total sv job n r.ending (record s { effects = s.effects ++ r.effects }) k i h

  handle_parsed-total :
      (sv : Services) (raw : Text) (p : Parsed) (s : State)
      → KeepsAttempts c
      → CanCount c.text_number p
      → AllCount c s.queue
      → Left
          (payload_tries c.text_number c.max_retries p)
          s.queue
          (handle_parsed c sv raw p s).queue
  unfolding handle_parsed
  handle_parsed-total sv raw invalid_json s k i h =
      rw (push-queue sv (raw_payload raw) s) (omega arith, h)
  handle_parsed-total sv raw null_value s k i h = (omega arith, h)
  handle_parsed-total sv raw (job_value job) s k i h =
      handle_job-total sv job (attempt_of c.text_number job.attempt) s k i h

  pop_last-total :
      (raws : List Text)
      → ((raws ≡ []) × (pop_last raws ≡ none))
        ⊎ ((rest : List Text) × (raw : Text) × (pop_last raws ≡ some (rest, raw))
            × (total_tries c raws ≡ total_tries c rest + tries c raw)
            × (AllCount c raws → AllCount c rest × CanCount c.text_number (c.parse raw)))
  pop_last-total [] = inl (refl, refl)
  pop_last-total (r ∷ rs) = elim (pop_last-total rs) [
    | inl (e, p) ↦ inr ([], r, rw p refl, rw e (omega arith), λ (i, _). (tt, i))
    | inr (rest, raw, p, t, n) ↦
        inr (r ∷ rest, raw, rw p refl, omega arith, λ (i, h). ((i, (n h).0), (n h).1))
  ]

  handle_payload-total :
      (sv : Services) (raw : Text) (s : State)
      → KeepsAttempts c
      → CanCount c.text_number (c.parse raw)
      → AllCount c s.queue
      → Left (tries c raw) s.queue (handle_payload c sv raw s).queue
  unfolding handle_payload
  handle_payload-total sv raw s k i h = handle_parsed-total sv raw (c.parse raw) s k i h

  handle_payload-shutting_down :
      (sv : Services) (raw : Text) (s : State)
      → (handle_payload c sv raw s).shutting_down ≡ s.shutting_down
  unfolding handle_payload
  handle_payload-shutting_down sv raw s = ground arith

  -- A delivery lowers the tries left in a queue that is not empty.
  abbrev Delivered : State → State → Type 0
  Delivered s t =
      (t.shutting_down ≡ s.shutting_down)
      × AllCount c t.queue
      × (((s.queue ≡ []) × (t ≡ s)) ⊎ (total_tries c t.queue < total_tries c s.queue))

  deliver_last-total :
      (sv : Services) (s : State)
      → KeepsAttempts c
      → AllCount c s.queue
      → Delivered s (deliver_last c sv s (pop_last s.queue))
  deliver_last-total sv s k h = elim (pop_last-total s.queue) [
    | inl (e, p) ↦ rw p (unfold deliver_last in (refl, h, inl (e, refl)))
    | inr (rest, raw, p, t, n) ↦
        let s' : State = record s { queue = rest } in
        let (less, counts) = handle_payload-total sv raw s' k (n h).1 (n h).0 in
        rw p (
          unfold deliver_last in
          (handle_payload-shutting_down sv raw s', counts, inr (omega (arith, less, t))))
  ]

  run_round-deliver :
      (sv : Services) (s : State)
      → s.shutting_down ≡ false
      → run_round c s (deliver sv) ≡ deliver_last c sv s (pop_last s.queue)
  unfolding run_round
  run_round-deliver sv s up = ap (λ b. if b then s else deliver_last c sv s (pop_last s.queue)) up

  run_round-total :
      (sv : Services) (s : State)
      → KeepsAttempts c
      → AllCount c s.queue
      → s.shutting_down ≡ false
      → Delivered s (run_round c s (deliver sv))
  run_round-total sv s k h up =
      subst (Delivered s) (sym (run_round-deliver sv s up)) (deliver_last-total sv s k h)

  tries_pos : (raw : Text) → 0 < tries c raw
  tries_pos raw = payload_tries-pos c (c.parse raw)

  total_tries-zero : (raws : List Text) → total_tries c raws ≤ 0 → raws ≡ []
  total_tries-zero [] h = refl
  total_tries-zero (r ∷ rs) h = absurd (omega (arith, tries_pos r))

  -- As many deliveries as the queue has tries left empty it, whatever each job does: every payload
  -- that was in the queue, and every retry, has been handled, and none is retried for ever. No shutdown
  -- has come, and no attempt number in the queue is below -2 ^ 53, where adding 1 may change nothing; the
  -- limit is at most 2 ^ 53, the attempt number of a retry is read back as it was written, and the sum of 1
  -- and a fraction is not below the next whole number.
  pub run-queue :
      (svs : List Services) (s : State)
      → KeepsAttempts c
      → AllCount c s.queue
      → s.shutting_down ≡ false
      → total_tries c s.queue ≤ length svs
      → (run c s (map deliver svs)).queue ≡ []
  unfolding run
  run-queue [] s k n up h = total_tries-zero s.queue h
  run-queue (sv ∷ svs) s k n up h =
      let (same, counts, less) = run_round-total sv s k n up in
      run-queue svs (run_round c s (deliver sv)) k counts (same ∙ up) (left less)
    where
      left :
          ((s.queue ≡ []) × (run_round c s (deliver sv) ≡ s))
            ⊎ (total_tries c (run_round c s (deliver sv)).queue < total_tries c s.queue)
          → total_tries c (run_round c s (deliver sv)).queue ≤ length svs
      left (inl (e, r)) =
          rw (ap (λ (t : State). total_tries c t.queue) r ∙ ap (total_tries c) e) (omega arith)
      left (inr l) = omega arith
