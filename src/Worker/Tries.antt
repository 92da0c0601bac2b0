-- ===== src/Worker/Tries.antt =====
-- worker/queue-consumer.ts, the retries: how many tries an attempt number leaves, and that a retry lowers them.
use bubblog_ai.Prelude.{
  All, Option, ℕ, suc, ◌+◌, ◌-◌, ◌≤◌, ◌<◌, ◌≡◌, ◌⊎◌, inl, inr, refl, subst, true, none, some, List,
  [], ◌∷◌, arith, All,
}
use bubblog_ai.Prelude.Text.{Text}
use bubblog_ai.Prelude.Int.{ℤ, pos, negsuc, pos_part, neg_part, ◌<ℤ◌, ltb_ℤ}
use bubblog_ai.Worker.{
  plus_one, to_number, exact_limit, Number, nan, infinity, minus_infinity, finite, fraction, null,
  exact_limit, Field, num, EmbeddingJob, Services, Error, attempt_of, next_attempt, lt_number,
  Parsed, job_value, Setup, enriched,
}

-- How many times at most a job with this attempt number is handled: once, and once more for each
-- attempt that stays below the limit. -Infinity is written as `null`, which counts as 0.
abbrev pub tries_left : Number → ℤ → ℕ
tries_left (finite a) m = suc ((pos_part m + neg_part a) - (pos_part a + neg_part m + 1))
tries_left (fraction z t) m = suc ((pos_part m + neg_part z) - (pos_part z + neg_part m + 1))
tries_left minus_infinity m = suc (suc (pos_part m - (neg_part m + 1)))
tries_left _ m = 1

abbrev pub attempt_tries : ℤ → Option Number → ℕ
attempt_tries m none = 1
attempt_tries m (some n) = tries_left n m

abbrev pub payload_tries : (Text → Number) → ℤ → Parsed → ℕ
payload_tries text_number m (job_value job) = attempt_tries m (attempt_of text_number job.attempt)
payload_tries text_number m _ = 1

-- The number does not lie below -2 ^ 53, where adding 1 may change nothing.
abbrev pub IsCountable : Option Number → Type 0
IsCountable (some (finite a)) = neg_part a ≤ exact_limit
IsCountable (some (fraction z t)) = neg_part z ≤ exact_limit
IsCountable _ = Unit

abbrev pub CanCount : (Text → Number) → Parsed → Type 0
CanCount text_number (job_value job) = IsCountable (attempt_of text_number job.attempt)
CanCount text_number _ = Unit

-- `JSON.stringify` writes the numbers that are not finite as `null`.
abbrev pub written : Number → Field
written (finite a) = num (finite a)
written (fraction z t) = num (fraction z t)
written _ = null

-- What the retries rely on: a job that `JSON.stringify` writes is read back by `JSON.parse` with its
-- attempt number, the sum of 1 and a fraction is not below the next whole number, since that is a double
-- and rounding keeps the order, and the limit is not above 2 ^ 53.
pub record KeepsAttempts (c : Setup) : Type 0 where
  pub reread :
      (job : EmbeddingJob) (n : Number)
      → job.attempt ≡ num n
      → (back : EmbeddingJob) × (c.parse (c.stringify job) ≡ job_value back)
        × (back.attempt ≡ written n)
  pub grows :
      (z : ℤ) (t : Text)
      → (y : ℤ) × (z <ℤ y)
        × ((c.fraction_plus z t ≡ finite y) ⊎ ((u : Text) × (c.fraction_plus z t ≡ fraction y u)))
  pub limited : pos_part c.max_retries ≤ exact_limit

module _ (c : Setup) where
  abbrev pub tries : Text → ℕ
  tries raw = payload_tries c.text_number c.max_retries (c.parse raw)

  abbrev pub total_tries : List Text → ℕ
  total_tries [] = 0
  total_tries (raw ∷ raws) = tries raw + total_tries raws

  -- Every payload of the queue has an attempt number that counts.
  abbrev pub AllCount : List Text → Type 0
  AllCount raws = All (λ raw. CanCount c.text_number (c.parse raw)) raws

  pub attempt_tries-pos : (n : Option Number) → 0 < attempt_tries c.max_retries n
  attempt_tries-pos none = omega arith
  attempt_tries-pos (some nan) = omega arith
  attempt_tries-pos (some infinity) = omega arith
  attempt_tries-pos (some minus_infinity) = omega arith
  attempt_tries-pos (some (finite a)) = omega arith
  attempt_tries-pos (some (fraction z t)) = omega arith

  pub payload_tries-pos : (p : Parsed) → 0 < payload_tries c.text_number c.max_retries p
  payload_tries-pos (job_value job) = attempt_tries-pos (attempt_of c.text_number job.attempt)
  payload_tries-pos _ = omega arith

  -- What a retry makes of an attempt number has fewer tries, and counts.
  abbrev Lowers : Number → Option Number → Type 0
  Lowers n x = (attempt_tries c.max_retries x < tries_left n c.max_retries) × IsCountable x

  plus_one-below :
      (a : ℤ)
      → neg_part a ≤ exact_limit
      → pos_part c.max_retries ≤ exact_limit
      → ltb_ℤ (plus_one a) c.max_retries ≡ true
      → Lowers (finite a) (some (finite (plus_one a)))
  plus_one-below a low top below = ground (arith, below)

  -- A later whole number below the limit has fewer tries.
  later-below :
      (z y : ℤ) (t u : Text)
      → z <ℤ y
      → neg_part z ≤ exact_limit
      → ltb_ℤ y c.max_retries ≡ true
      → Lowers (fraction z t) (some (finite y)) × Lowers (fraction z t) (some (fraction y u))
  later-below z (pos y) t u more low below = ground (arith, below)
  later-below (pos z) (negsuc y) t u more low below = absurd (omega (arith, more))
  later-below (negsuc z) (negsuc y) t u more low below = ground (arith, below)

  attempt_of-written :
      (n : Number) (f : Field)
      → KeepsAttempts c
      → IsCountable (some n)
      → lt_number (next_attempt c.fraction_plus n) c.max_retries ≡ true
      → f ≡ written (next_attempt c.fraction_plus n)
      → Lowers n (attempt_of c.text_number f)
  unfolding attempt_of to_number
  attempt_of-written nan f k i l e = cc
  attempt_of-written infinity f k i l e = cc
  attempt_of-written minus_infinity f k i l e = rw e (omega arith, omega arith)
  attempt_of-written (finite a) f k i l e = rw e (plus_one-below a i k.limited l)
  attempt_of-written (fraction z t) f k i l e =
      let (y, more, s) = k.grows z t in
      elim s [
        | inl s ↦
            rw (e, s)
              (later-below z y t t more i (subst (λ n. lt_number n c.max_retries ≡ true) s l)).0
        | inr (u, s) ↦
            rw (e, s)
              (later-below z y t u more i (subst (λ n. lt_number n c.max_retries ≡ true) s l)).1
      ]

  -- A retry puts back a job that has fewer tries.
  pub tries-enriched :
      (sv : Services) (job : EmbeddingJob) (n : Number) (e : Error)
      → KeepsAttempts c
      → IsCountable (some n)
      → lt_number (next_attempt c.fraction_plus n) c.max_retries ≡ true
      → (tries (c.stringify (enriched c sv job n e)) < tries_left n c.max_retries)
        × CanCount c.text_number (c.parse (c.stringify (enriched c sv job n e)))
  unfolding enriched
  tries-enriched sv job n e k i l =
      let (back, read, same) =
        k.reread (enriched c sv job n e) (next_attempt c.fraction_plus n) refl in
      rw read (attempt_of-written n back.attempt k i l same)
