-- ===== src/Worker/Jobs.antt =====
-- worker/queue-consumer.ts, `processJob`: which effects a job has, and when cached answers are
-- invalidated.
use bubblog_ai.Prelude.{
  ap, ◌≡◌, ◌≢◌, ◌⊎◌, ◌↔◌, inl, inr, refl, Bool, true, false, Option, none, some, List, [], ◌∷◌,
  ◌++◌, arith, ◌||◌, ◌&&◌, not, if◌then◌else◌,
}
use bubblog_ai.Prelude.Text.{Text, codes, text_eq, text_eq_iff, trim, ascii_lower, is_empty}
use bubblog_ai.Worker.{
  is_post_id, chunked, Number, Field, bool, str, EmbeddingJob, Post, found, Services, Effect,
  stored_title, stored_content, invalidated, returned, raised, Run, external, parse_flag, trimmed,
  is_post_id, to_number, chunked, invalidate, store_chunks, store_content, content_step, title_step,
  process_found, process_number, process_job, Setup,
}

-- A flag is set exactly by `true` and by a text that is `true` but for case and outer space.
pub parse_flag_iff :
    (f : Field)
    → (parse_flag f ≡ true)
      ↔ ((f ≡ bool true) ⊎ ((s : Text) × (f ≡ str s) × (ascii_lower (trim s) ≡ codes "true")))
unfolding parse_flag
parse_flag_iff (bool true) = (λ _. inl refl, λ _. refl)
parse_flag_iff (bool false) = (λ e. cc, λ h. elim h [ inl e ↦ cc | inr (s, e, _) ↦ cc ])
parse_flag_iff (str s) =
    let same = text_eq_iff (ascii_lower (trim s)) (codes "true") in
    (
      λ e. inr (s, refl, same.0 (ground arith)),
      λ h. elim h [ inl e ↦ cc | inr (t, e, low) ↦ ground (arith, same.1 (ground arith)) ],
    )
parse_flag_iff _ = (λ e. cc, λ h. elim h [ inl e ↦ cc | inr (s, e, _) ↦ cc ])

abbrev pub any_stored : List Effect → Bool
any_stored [] = false
any_stored (stored_title _ _ ∷ es) = true
any_stored (stored_content _ _ ∷ es) = true
any_stored (invalidated _ ∷ es) = any_stored es

-- The answers of the owner are invalidated.
abbrev pub any_invalidated : Text → List Effect → Bool
any_invalidated owner [] = false
any_invalidated owner (invalidated o ∷ es) = text_eq o owner || any_invalidated owner es
any_invalidated owner (_ ∷ es) = any_invalidated owner es

-- The content of the post is not blank and is not cut into no chunks, if the job asks for them.
abbrev pub HasContent : (Text → Option (List Text)) → EmbeddingJob → Post → Type 0
HasContent chunk_text job p =
    (parse_flag job.content ≡ false)
    ⊎ ((is_empty (trimmed p.content) ≡ false) × (chunk_text (trimmed p.content) ≢ some []))

any_stored-append : (es fs : List Effect) → any_stored (es ++ fs) ≡ (any_stored es || any_stored fs)
any_stored-append [] fs = refl
any_stored-append (stored_title _ _ ∷ es) fs = refl
any_stored-append (stored_content _ _ ∷ es) fs = refl
any_stored-append (invalidated _ ∷ es) fs = any_stored-append es fs

any_invalidated-append :
    (owner : Text) (es fs : List Effect)
    → any_invalidated owner (es ++ fs) ≡ (any_invalidated owner es || any_invalidated owner fs)
any_invalidated-append owner [] fs = refl
any_invalidated-append owner (stored_title _ _ ∷ es) fs = any_invalidated-append owner es fs
any_invalidated-append owner (stored_content _ _ ∷ es) fs = any_invalidated-append owner es fs
any_invalidated-append owner (invalidated o ∷ es) fs =
    ground (arith, any_invalidated-append owner es fs)

-- A run that returns has invalidated the owner's answers exactly if it has stored.
record Agrees (owner : Text) (r : Run) : Type 0 where
  at : r.ending ≡ returned → any_invalidated owner r.effects ≡ any_stored r.effects

Agrees-if :
    {owner : Text} {r q : Run} (b : Bool)
    → Agrees owner r
    → Agrees owner q
    → Agrees owner (if b then r else q)
Agrees-if true f g = f
Agrees-if false f g = g

module _ (chunk_text : Text → Option (List Text)) (sv : Services) (post_id : Number)
    (p : Post) where
  invalidate-Agrees :
      (stored : Bool) (before : List Effect)
      → sv.cache_deleted ≡ none
      → any_stored before ≡ stored
      → any_invalidated p.user_id before ≡ false
      → Agrees p.user_id (invalidate chunk_text sv p stored before)
  unfolding invalidate
  invalidate-Agrees stored before d s i = record {
    at = λ r. ground (
      arith,
      any_stored-append before (invalidated p.user_id ∷ []),
      any_invalidated-append p.user_id before (invalidated p.user_id ∷ []),
      (text_eq_iff p.user_id p.user_id).1 refl,
    );
  }

  store_chunks-Agrees :
      (chunks : List Text) (before : List Effect)
      → sv.cache_deleted ≡ none
      → any_invalidated p.user_id before ≡ false
      → Agrees p.user_id (store_chunks chunk_text sv post_id p chunks before)
  unfolding store_chunks
  store_chunks-Agrees chunks before d i =
      let after : List Effect = before ++ stored_content post_id chunks ∷ [] in
      record {
        at = λ r. ground (
          arith,
          any_stored-append before (stored_content post_id chunks ∷ []),
          any_invalidated-append p.user_id before (stored_content post_id chunks ∷ []),
          any_stored-append after (invalidated p.user_id ∷ []),
          any_invalidated-append p.user_id after (invalidated p.user_id ∷ []),
          (text_eq_iff p.user_id p.user_id).1 refl,
        );
      }

  store_content-Agrees :
      (chunks : List Text) (before : List Effect)
      → chunks ≢ []
      → sv.cache_deleted ≡ none
      → any_invalidated p.user_id before ≡ false
      → Agrees p.user_id (store_content chunk_text sv post_id p chunks before)
  unfolding store_content
  store_content-Agrees [] before n d i = absurd (n refl)
  store_content-Agrees (c ∷ cs) before n d i = store_chunks-Agrees (c ∷ cs) before d i

  chunked-Agrees :
      (chunks : Option (List Text)) (before : List Effect)
      → chunks ≢ some []
      → sv.cache_deleted ≡ none
      → any_invalidated p.user_id before ≡ false
      → Agrees p.user_id (chunked chunk_text sv post_id p chunks before)
  unfolding chunked
  chunked-Agrees none before n d i = record { at = λ r. cc }
  chunked-Agrees (some chunks) before n d i =
      store_content-Agrees chunks before (λ e. n (ap some e)) d i

  content_step-Agrees :
      (wanted stored : Bool) (before : List Effect)
      → (wanted ≡ false)
        ⊎ ((is_empty (trimmed p.content) ≡ false) × (chunk_text (trimmed p.content) ≢ some []))
      → sv.cache_deleted ≡ none
      → any_stored before ≡ stored
      → any_invalidated p.user_id before ≡ false
      → Agrees p.user_id (content_step chunk_text sv post_id p wanted stored before)
  unfolding content_step
  content_step-Agrees false stored before h d s i = invalidate-Agrees stored before d s i
  content_step-Agrees true stored before (inl e) d s i = cc
  content_step-Agrees true stored before (inr (e, n)) d s i =
      rw e (chunked-Agrees (chunk_text (trimmed p.content)) before n d i)

  title_step-Agrees :
      (titled wanted : Bool)
      → (wanted ≡ false)
        ⊎ ((is_empty (trimmed p.content) ≡ false) × (chunk_text (trimmed p.content) ≢ some []))
      → sv.cache_deleted ≡ none
      → Agrees p.user_id (title_step chunk_text sv post_id p titled wanted)
  unfolding title_step
  title_step-Agrees titled wanted h d =
      Agrees-if (titled && not (is_empty (trimmed p.title))) (go sv.title_stored)
        (content_step-Agrees wanted false [] h d refl refl)
    where
      go :
          (o : Option Text)
          → Agrees p.user_id (elim o [
            | some e ↦ record { effects = []; ending = raised (external e) }
            | none ↦
                content_step chunk_text sv post_id p wanted true
                  (stored_title post_id (trimmed p.title) ∷ [])
          ])
      go (some e) = record { at = λ r. refl }
      go none = content_step-Agrees wanted true _ h d refl refl

  process_found-Agrees :
      (job : EmbeddingJob)
      → HasContent chunk_text job p
      → sv.cache_deleted ≡ none
      → Agrees p.user_id (process_found chunk_text sv job post_id (found p))
  unfolding process_found
  process_found-Agrees job h d =
      title_step-Agrees (parse_flag job.title) (parse_flag job.content) h d

module _ (c : Setup) (sv : Services) (job : EmbeddingJob) (p : Post) where
  process_number-Agrees :
      (n : Option Number)
      → sv.post ≡ found p
      → HasContent c.chunk_text job p
      → sv.cache_deleted ≡ none
      → Agrees p.user_id (process_number c.chunk_text sv job n)
  unfolding process_number
  process_number-Agrees none f h d = record { at = λ r. refl }
  process_number-Agrees (some post_id) f h d =
      Agrees-if (is_post_id post_id)
        (Agrees-if (not (parse_flag job.title) && not (parse_flag job.content))
          (record { at = λ r. refl })
          (rw f (process_found-Agrees c.chunk_text sv post_id p job h d)))
        (record { at = λ r. refl })

  -- A job that returns has invalidated the owner's cached answers exactly if it has stored an
  -- embedding: for a post that was found, content that gives chunks where the job asks for content,
  -- and a deletion that does not fail.
  pub process_job-invalidates :
      sv.post ≡ found p
      → HasContent c.chunk_text job p
      → sv.cache_deleted ≡ none
      → (process_job c.chunk_text c.text_number sv job).ending ≡ returned
      → any_invalidated p.user_id (process_job c.chunk_text c.text_number sv job).effects
        ≡ any_stored (process_job c.chunk_text c.text_number sv job).effects
  unfolding process_job
  process_job-invalidates f h d =
      (process_number-Agrees (to_number c.text_number job.post_id) f h d).at
