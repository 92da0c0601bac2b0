-- ===== src/Tests/Worker.antt =====
-- Tests of `Worker`, with `JSON` on jobs replaced by a code that keeps the attempt number.
use bubblog_ai.Prelude.{
  zero, suc, ◌≡◌, refl, ap, true, false, none, some, [], ◌∷◌, map, arith, length, inr,
}
use bubblog_ai.Prelude.Text.{Text, codes, trim, ascii_lower}
use bubblog_ai.Prelude.Int.{pos, negsuc, ◌+ℤ◌}
use bubblog_ai.Worker.{
  Number, nan, infinity, minus_infinity, finite, fraction, null, object, plus_one, exact_limit,
  to_number, Field, undefined, bool, num, str, EmbeddingJob, Post, Lookup, found, missing, Services,
  process_job, parse_flag, to_number, Parsed, invalid_json, null_value, job_value, State, Setup,
  deliver, shutdown, run, run_round, handle_payload, attempt_of, process_job,
}
use bubblog_ai.Worker.Jobs.{any_stored, any_invalidated, HasContent, process_job-invalidates}
use bubblog_ai.Worker.Tries.{KeepsAttempts, written}
use bubblog_ai.Worker.Drain.{run-queue}
use bubblog_ai.Worker.Accounting.{IsPlaced, handle_payload-IsPlaced, AllUsedUp, run-AllUsedUp}

abbrev pub job_with : Field → EmbeddingJob
job_with attempt = record {
  post_id = num (finite (pos 7));
  title = bool true;
  content = bool true;
  attempt = attempt;
  last_error = none;
  failed_at = none;
  metadata = [];
}

abbrev pub code_job : Field → Text
code_job (num (finite (pos n))) = 0 ∷ n ∷ []
code_job (num (finite (negsuc n))) = 1 ∷ n ∷ []
code_job (num (fraction (pos n) t)) = 3 ∷ n ∷ t
code_job (num (fraction (negsuc n) t)) = 4 ∷ n ∷ t
code_job _ = 5 ∷ []

abbrev pub read_job : Text → Parsed
read_job (zero ∷ n ∷ []) = job_value (job_with (num (finite (pos n))))
read_job (suc zero ∷ n ∷ []) = job_value (job_with (num (finite (negsuc n))))
read_job (suc (suc zero) ∷ []) = null_value
read_job (suc (suc (suc zero)) ∷ n ∷ t) = job_value (job_with (num (fraction (pos n) t)))
read_job (suc (suc (suc (suc zero))) ∷ n ∷ t) = job_value (job_with (num (fraction (negsuc n) t)))
read_job (suc (suc (suc (suc (suc zero)))) ∷ []) = job_value (job_with null)
read_job (suc (suc (suc (suc (suc (suc zero))))) ∷ []) = job_value (job_with (object none))
read_job _ = invalid_json

abbrev pub setup : Setup
setup = record {
  text_number = λ _. nan;
  fraction_plus = λ z t. fraction (z +ℤ pos 1) t;
  chunk_text = λ t. some (t ∷ []);
  parse = read_job;
  stringify = λ job. code_job job.attempt;
  max_retries = pos 3;
}

setup-reread :
    (job : EmbeddingJob) (n : Number)
    → job.attempt ≡ num n
    → (back : EmbeddingJob) × (read_job (code_job job.attempt) ≡ job_value back)
      × (back.attempt ≡ written n)
setup-reread job nan e = (job_with null, ap (λ f. read_job (code_job f)) e, refl)
setup-reread job infinity e = (job_with null, ap (λ f. read_job (code_job f)) e, refl)
setup-reread job minus_infinity e = (job_with null, ap (λ f. read_job (code_job f)) e, refl)
setup-reread job (finite (pos n)) e =
    (job_with (num (finite (pos n))), ap (λ f. read_job (code_job f)) e, refl)
setup-reread job (finite (negsuc n)) e =
    (job_with (num (finite (negsuc n))), ap (λ f. read_job (code_job f)) e, refl)
setup-reread job (fraction (pos n) t) e =
    (job_with (num (fraction (pos n) t)), ap (λ f. read_job (code_job f)) e, refl)
setup-reread job (fraction (negsuc n) t) e =
    (job_with (num (fraction (negsuc n) t)), ap (λ f. read_job (code_job f)) e, refl)

setup-KeepsAttempts : KeepsAttempts setup
setup-KeepsAttempts = record {
  reread = setup-reread;
  grows = λ z t. (z +ℤ pos 1, ground arith, inr (t, refl));
  limited = omega arith;
}

abbrev pub post : Post
post = record {
  title = some (codes " A title ");
  content = some (codes "  ");
  user_id = codes "u1";
}

abbrev pub working : Lookup → Services
working l = record {
  post = l;
  title_stored = none;
  embedded = none;
  content_stored = none;
  cache_deleted = none;
  requeued = none;
  failed_pushed = none;
  now = [];
}

abbrev pub full_post : Post
full_post = record post { content = some (codes "Text.") }

abbrev start : State
start = record { queue = (0 ∷ 0 ∷ []) ∷ []; failed = []; effects = []; shutting_down = false }

abbrev no_post : Services
no_post = working missing

flag_test : parse_flag (str (codes " True ")) ≡ true
unfolding parse_flag trim ascii_lower
flag_test = refl

given_up : length (run setup start (map deliver (no_post ∷ no_post ∷ no_post ∷ []))).failed ≡ 1
unfolding run run_round handle_payload process_job parse_flag
given_up = refl

pub full_post-HasContent : HasContent setup.chunk_text (job_with undefined) full_post
unfolding trim parse_flag
full_post-HasContent = inr (refl, λ e. cc)

process_job-invalidates_example :
    any_invalidated full_post.user_id
      (process_job setup.chunk_text setup.text_number
        (working (found full_post))
        (job_with undefined)).effects
    ≡ any_stored
        (process_job setup.chunk_text setup.text_number
          (working (found full_post))
          (job_with undefined)).effects
unfolding process_job trim parse_flag
process_job-invalidates_example =
    process_job-invalidates setup (working (found full_post)) (job_with undefined) full_post refl
      full_post-HasContent refl refl

run-queue_example : (run setup start (map deliver (no_post ∷ no_post ∷ no_post ∷ []))).queue ≡ []
unfolding attempt_of to_number
run-queue_example =
    run-queue setup (no_post ∷ no_post ∷ no_post ∷ []) start setup-KeepsAttempts (omega arith, tt)
      refl (omega arith)

handle_payload-IsPlaced_example :
    IsPlaced setup no_post
      (0 ∷ 0 ∷ [])
      (read_job (0 ∷ 0 ∷ []))
      start
      (handle_payload setup no_post (0 ∷ 0 ∷ []) start)
handle_payload-IsPlaced_example = handle_payload-IsPlaced setup no_post (0 ∷ 0 ∷ []) start refl refl

-- A job whose attempt number cannot be converted is lost.
lost : handle_payload setup no_post (6 ∷ []) start ≡ start
unfolding handle_payload attempt_of to_number
lost = refl

-- From 2 ^ 53 on the sum with 1 is rounded.
rounded : (plus_one (pos exact_limit) ≡ pos exact_limit) × (plus_one (negsuc 9) ≡ negsuc 8)
rounded = (refl, refl)

run-AllUsedUp_example :
    AllUsedUp setup (run setup start (deliver no_post ∷ shutdown ∷ deliver no_post ∷ []))
run-AllUsedUp_example =
    run-AllUsedUp setup (deliver no_post ∷ shutdown ∷ deliver no_post ∷ []) start tt
