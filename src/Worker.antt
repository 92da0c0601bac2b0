-- ===== src/Worker.antt =====
-- worker/queue-consumer.ts: the embedding jobs, their retries and the loop over the Redis queue.
-- Numbers are IEEE doubles: NaN, the infinities, the whole ones by their value, and the others by the
-- whole number below and the text that JavaScript writes. The sum of 1 and a whole one is written out
-- with its rounding; that of 1 and a fraction is a parameter. The limit of the retries is a whole number.
pub mod Jobs
pub mod Tries
pub mod Drain
pub mod Accounting
use Prim.Native.Nat.{◌%◌}
use bubblog_ai.Prelude.{
  ltb, leb, ℕ, suc, ◌+◌, ◌-◌, Bool, true, false, ◌&&◌, ◌||◌, not, ◌==◌, Option, none, some, List,
  [], ◌∷◌, ◌++◌, if◌then◌else◌,
}
use bubblog_ai.Prelude.Text.{Text, codes, text_eq, trim, ascii_lower, is_empty}
use bubblog_ai.Prelude.Int.{pos_part, neg_part, ℤ, pos, negsuc, ◌+ℤ◌, ltb_ℤ}

-- `fraction z t` lies between `z` and `z + 1`.
pub data Number : Type 0 where
  nan infinity minus_infinity : Number
  finite : ℤ → Number
  fraction : ℤ → Text → Number

-- A field of a parsed job. An object or array comes with what `Number` makes of it, where `none` is a
-- `TypeError`: JSON can give an object whose `valueOf` and `toString` are no functions.
pub data Field : Type 0 where
  undefined null : Field
  bool : Bool → Field
  num : Number → Field
  str : Text → Field
  object : Option Number → Field

pub data Error : Type 0 where
  invalid_post_id : Error
  post_not_found : Number → Error
  external : Text → Error

-- The job, with the two fields that a retry adds; `metadata` is all the rest.
pub record EmbeddingJob : Type 0 where
  pub post_id : Field
  pub title : Field
  pub content : Field
  pub attempt : Field
  pub last_error : Option Error
  pub failed_at : Option Text
  pub metadata : Text

pub record Post : Type 0 where
  pub title : Option Text
  pub content : Option Text
  pub user_id : Text

pub data Lookup : Type 0 where
  threw : Text → Lookup
  missing : Lookup
  found : Post → Lookup

-- What the calls made for one payload answer. `none` is success, `some` the message thrown.
pub record Services : Type 0 where
  pub post : Lookup
  pub title_stored : Option Text
  pub embedded : Option Text
  pub content_stored : Option Text
  pub cache_deleted : Option Text
  pub requeued : Option Text
  pub failed_pushed : Option Text
  pub now : Text

pub data Effect : Type 0 where
  stored_title : Number → Text → Effect
  stored_content : Number → List Text → Effect
  invalidated : Text → Effect

-- How a function ended, and the effects that it had first.
pub data Ending : Type 0 where
  returned : Ending
  raised : Error → Ending

pub record Run : Type 0 where
  pub effects : List Effect
  pub ending : Ending

unfoldable pub parse_flag : Field → Bool
parse_flag (bool b) = b
parse_flag (str s) =
    let lowered = ascii_lower (trim s) in
    if text_eq lowered (codes "true")
    then true
    else if text_eq lowered (codes "false")
    then false
    else false
parse_flag _ = false

-- `typeof x === 'string' ? x.trim() : ''`
abbrev pub trimmed : Option Text → Text
trimmed none = []
trimmed (some t) = trim t

-- `Number.isFinite(postId) && postId > 0`
abbrev pub is_post_id : Number → Bool
is_post_id (finite z) = ltb_ℤ (pos 0) z
is_post_id (fraction z t) = ltb_ℤ (negsuc 0) z
is_post_id _ = false

-- `text_number` is `Number` on a string; `none` stands for a conversion that throws.
module _ (text_number : Text → Number) where
  unfoldable pub to_number : Field → Option Number
  to_number undefined = some nan
  to_number null = some (finite (pos 0))
  to_number (bool b) = if b then some (finite (pos 1)) else some (finite (pos 0))
  to_number (num n) = some n
  to_number (str s) = some (text_number s)
  to_number (object n) = n

  -- `Number(job.attempt || 0)`
  unfoldable pub attempt_of : Field → Option Number
  unfolding to_number
  attempt_of undefined = some (finite (pos 0))
  attempt_of (num nan) = some (finite (pos 0))
  attempt_of (str []) = some (finite (pos 0))
  attempt_of f = to_number f

-- `chunk_text` is `chunkText` of services/embedding.service.ts; `none` stands for a text on which the
-- tokenizer throws.
module _ (chunk_text : Text → Option (List Text)) where
  -- The last lines of `processJob`: a failure to delete is caught.
  invalidate : Services → Post → Bool → List Effect → Run
  invalidate sv p stored before =
      if stored
      then elim sv.cache_deleted [
        | none ↦ record { effects = before ++ (invalidated p.user_id ∷ []); ending = returned }
        | some _ ↦ record { effects = before; ending = returned }
      ]
      else record { effects = before; ending = returned }

  store_chunks : Services → Number → Post → List Text → List Effect → Run
  unfolding invalidate
  store_chunks sv post_id p chunks before = elim sv.embedded [
    | some e ↦ record { effects = before; ending = raised (external e) }
    | none ↦ elim sv.content_stored [
      | some e ↦ record { effects = before; ending = raised (external e) }
      | none ↦ invalidate sv p true (before ++ (stored_content post_id chunks ∷ []))
    ]
  ]

  store_content : Services → Number → Post → List Text → List Effect → Run
  unfolding store_chunks
  store_content sv post_id p [] before = record { effects = before; ending = returned }
  store_content sv post_id p (c ∷ cs) before = store_chunks sv post_id p (c ∷ cs) before

  chunked : Services → Number → Post → Option (List Text) → List Effect → Run
  unfolding store_content
  chunked sv post_id p none before = record {
    effects = before;
    ending = raised (external (codes "special token"));
  }
  chunked sv post_id p (some chunks) before = store_content sv post_id p chunks before

  content_step : Services → Number → Post → Bool → Bool → List Effect → Run
  unfolding chunked
  content_step sv post_id p should_process stored before =
      if should_process
      then if is_empty (trimmed p.content)
        then record { effects = before; ending = returned }
        else chunked sv post_id p (chunk_text (trimmed p.content)) before
      else invalidate sv p stored before

  store_title : Services → Number → Post → Bool → Run
  unfolding content_step
  store_title sv post_id p process_content = elim sv.title_stored [
    | some e ↦ record { effects = []; ending = raised (external e) }
    | none ↦
        content_step sv post_id p process_content true (stored_title post_id (trimmed p.title) ∷ [])
  ]

  title_step : Services → Number → Post → Bool → Bool → Run
  unfolding store_title
  title_step sv post_id p process_title process_content =
      if process_title && not (is_empty (trimmed p.title))
      then store_title sv post_id p process_content
      else content_step sv post_id p process_content false []

  process_found : Services → EmbeddingJob → Number → Lookup → Run
  unfolding title_step
  process_found sv job post_id (threw e) = record { effects = []; ending = raised (external e) }
  process_found sv job post_id missing = record {
    effects = [];
    ending = raised (post_not_found post_id);
  }
  process_found sv job post_id (found p) =
      title_step sv post_id p (parse_flag job.title) (parse_flag job.content)

  process_number : Services → EmbeddingJob → Option Number → Run
  unfolding process_found
  process_number sv job none = record {
    effects = [];
    ending = raised (external (codes "Cannot convert object to primitive value"));
  }
  process_number sv job (some post_id) =
      if is_post_id post_id
      then if not (parse_flag job.title) && not (parse_flag job.content)
        then record { effects = []; ending = returned }
        else process_found sv job post_id sv.post
      else record { effects = []; ending = raised invalid_post_id }

  unfoldable pub process_job : (Text → Number) → Services → EmbeddingJob → Run
  unfolding process_number to_number
  process_job text_number sv job = process_number sv job (to_number text_number job.post_id)

-- 2 ^ 53, up to which every integer is a double.
abbrev pub exact_limit : ℕ
exact_limit = 9007199254740992

-- `a + 1` for a whole double. From 2 ^ 53 on the whole doubles are even, so that the sum lies between
-- two of them or closer to `a`, and the tie goes to the multiple of 4.
abbrev pub plus_one : ℤ → ℤ
plus_one a =
    if leb (neg_part a) exact_limit && ltb (pos_part a) exact_limit
    then a +ℤ pos 1
    else if (pos_part a + neg_part a) % 4 == 0
    then a
    else a +ℤ pos 2

-- `attempt + 1`, where `fraction_plus` is the sum of 1 and a fraction.
abbrev pub next_attempt : (ℤ → Text → Number) → Number → Number
next_attempt fraction_plus nan = nan
next_attempt fraction_plus infinity = infinity
next_attempt fraction_plus minus_infinity = minus_infinity
next_attempt fraction_plus (finite a) = finite (plus_one a)
next_attempt fraction_plus (fraction z t) = fraction_plus z t

abbrev pub lt_number : Number → ℤ → Bool
lt_number nan m = false
lt_number infinity m = false
lt_number minus_infinity m = true
lt_number (finite a) m = ltb_ℤ a m
lt_number (fraction z t) m = ltb_ℤ z m

-- What `JSON.parse` makes of a payload: it throws, or gives `null`, or any other value.
pub data Parsed : Type 0 where
  invalid_json : Parsed
  null_value : Parsed
  job_value : EmbeddingJob → Parsed

-- An entry of the failed queue, without its time stamp.
pub data FailedPayload : Type 0 where
  raw_payload : Text → FailedPayload
  gave_up : EmbeddingJob → FailedPayload

-- The two Redis lists, heads first: `lpush` puts at the head and `brpop` takes the last.
pub record State : Type 0 where
  pub queue : List Text
  pub failed : List FailedPayload
  pub effects : List Effect
  pub shutting_down : Bool

-- The errors that `pushToFailedQueue` meets are caught.
push_to_failed_queue : Services → FailedPayload → State → State
push_to_failed_queue sv payload s = elim sv.failed_pushed [
  | none ↦ record s { failed = payload ∷ s.failed }
  | some _ ↦ s
]

-- The parameters of `Worker`: `Number` on strings, the sum of 1 and a fraction, `chunkText`,
-- `JSON.parse` and `JSON.stringify` on payloads, and `EMBEDDING_WORKER_MAX_RETRIES`.
pub record Setup : Type 0 where
  pub text_number : Text → Number
  pub fraction_plus : ℤ → Text → Number
  pub chunk_text : Text → Option (List Text)
  pub parse : Text → Parsed
  pub stringify : EmbeddingJob → Text
  pub max_retries : ℤ

module _ (c : Setup) where
  unfoldable pub enriched : Services → EmbeddingJob → Number → Error → EmbeddingJob
  enriched sv job attempt e = record job {
    attempt = num (next_attempt c.fraction_plus attempt);
    last_error = some e;
    failed_at = some sv.now;
  }

  -- The `catch` of `handlePayload`; the state with an error is that of a failing `lpush`.
  retry : Services → EmbeddingJob → Number → Error → State → State
  unfolding enriched push_to_failed_queue
  retry sv job attempt e s =
      if lt_number (next_attempt c.fraction_plus attempt) c.max_retries
      then elim sv.requeued [
        | none ↦ record s { queue = c.stringify (enriched sv job attempt e) ∷ s.queue }
        | some _ ↦ s
      ]
      else push_to_failed_queue sv (gave_up (enriched sv job attempt e)) s

  after_job : Services → EmbeddingJob → Number → Ending → State → State
  unfolding retry
  after_job sv job attempt returned s = s
  after_job sv job attempt (raised e) s = retry sv job attempt e s

  -- An attempt whose conversion throws does so before the `try`: the loop catches it.
  handle_job : Services → EmbeddingJob → Option Number → State → State
  unfolding after_job
  handle_job sv job none s = s
  handle_job sv job (some attempt) s =
      let r = process_job c.chunk_text c.text_number sv job in
      after_job sv job attempt r.ending (record s { effects = s.effects ++ r.effects })

  handle_parsed : Services → Text → Parsed → State → State
  unfolding handle_job attempt_of
  handle_parsed sv raw invalid_json s = push_to_failed_queue sv (raw_payload raw) s
  handle_parsed sv raw null_value s = s
  handle_parsed sv raw (job_value job) s =
      handle_job sv job (attempt_of c.text_number job.attempt) s

  -- `handlePayload`, and the `catch` of the loop: reading a field of `null` throws there.
  unfoldable pub handle_payload : Services → Text → State → State
  unfolding handle_parsed
  handle_payload sv raw s = handle_parsed sv raw (c.parse raw) s

-- `brpop` takes the last item.
abbrev pub pop_last {ℓ} : {A : Type ℓ} → List A → Option (List A × A)
pop_last [] = none
pop_last (x ∷ xs) = elim (pop_last xs) [ none ↦ some ([], x) | some (ys, y) ↦ some (x ∷ ys, y) ]

-- A round of the loop, where `brpop` delivers, gives nothing or throws, or what happens beside it: a
-- producer pushes a job, a signal asks to stop. A round that finds no job waits, and changes nothing.
pub data Round : Type 0 where
  deliver : Services → Round
  nothing broken : Round
  produce : Text → Round
  shutdown : Round

module _ (c : Setup) where
  deliver_last : Services → State → Option (List Text × Text) → State
  deliver_last sv s none = s
  deliver_last sv s (some (rest, raw)) = handle_payload c sv raw (record s { queue = rest })

  unfoldable pub run_round : State → Round → State
  unfolding deliver_last
  run_round s (deliver sv) = if s.shutting_down then s else deliver_last sv s (pop_last s.queue)
  run_round s nothing = s
  run_round s broken = s
  run_round s (produce raw) = record s { queue = raw ∷ s.queue }
  run_round s shutdown = record s { shutting_down = true }

  unfoldable pub run : State → List Round → State
  run s [] = s
  run s (r ∷ rs) = run (run_round s r) rs
