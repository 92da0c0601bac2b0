-- ===== src/Llm/OpenAi/Framing.antt =====
-- llm/providers/openai-responses.ts: what the stream carries is a sequence of answer events, closed
-- by at most one end or error event.
use bubblog_ai.Prelude.{
  ◌≡◌, refl, sym, ap, ◌∙◌, Bool, true, false, List, [], ◌∷◌, ◌++◌, map, append_assoc, append-nil,
  arith, concat, if◌then◌else◌,
}
use mathlib.Core.List.{map-append}
use bubblog_ai.Prelude.Text.{Text, codes}
use bubblog_ai.Prelude.Json.{quote}
use bubblog_ai.Prelude.Split.{closed}
use bubblog_ai.Sse.Frames.{answer_frame}
use bubblog_ai.Llm.OpenAi.{
  Sink, open_sink, is_writable, safe_write, safe_end, event_line, data_line, write_answer,
  write_end, write_error,
}

-- What stands behind the answer events.
pub data Tail : Type 0 where
  still_open at_end at_error : Tail

abbrev pub end_block : Text
end_block = codes "event: end" ++ (10 ∷ codes "data: [DONE]")

abbrev pub error_block : Text
error_block = codes "event: error" ++ (10 ∷ codes "data: {\"message\":\"Internal server error\"}")

abbrev pub tail_text : Tail → Text
tail_text still_open = []
tail_text at_end = closed end_block
tail_text at_error = closed error_block

abbrev pub is_terminal : Tail → Bool
is_terminal still_open = false
is_terminal _ = true

abbrev pub frames : List Text → Text
frames ts = concat (map answer_frame ts)

pub record IsFramed (s : Sink) : Type 0 where
  pub answers : List Text
  pub tail : Tail
  pub carried : concat s.out ≡ frames answers ++ tail_text tail
  pub ending : s.ended ≡ is_terminal tail

pub concat-append : (xs ys : List Text) → concat (xs ++ ys) ≡ concat xs ++ concat ys
concat-append [] ys = refl
concat-append (x ∷ xs) ys = rw (concat-append xs ys) (sym (append_assoc x _ _))

pub frames-append :
    (ts : List Text) (t : Text) → frames (ts ++ t ∷ []) ≡ frames ts ++ answer_frame t
frames-append ts t =
    ap concat (map-append answer_frame ts (t ∷ []))
    ∙ concat-append (map answer_frame ts) (answer_frame t ∷ [])
    ∙ ap (λ x. frames ts ++ x) (append-nil (answer_frame t))

-- The two writes of an event happen or are dropped together.
pub write_two :
    (s : Sink) (a b : Text)
    → safe_write (safe_write s a) b
      ≡ (if is_writable s then record s { out = s.out ++ (a ∷ b ∷ []) } else s)
unfolding safe_write
write_two s a b = ground (arith, append_assoc s.out (a ∷ []) (b ∷ []))

-- A sink that can be written to has no end or error event.
writable-open : {s : Sink} → IsFramed s → is_writable s ≡ true → s.ended ≡ false
writable-open {s} f w = ground arith

open_carried : {s : Sink} (f : IsFramed s) → s.ended ≡ false → concat s.out ≡ frames f.answers
open_carried {s} f e = at_tail f.tail f.carried (sym e ∙ f.ending)
  where
    at_tail :
        (t : Tail)
        → concat s.out ≡ frames f.answers ++ tail_text t
        → false ≡ is_terminal t
        → concat s.out ≡ frames f.answers
    at_tail still_open c n = c ∙ append-nil (frames f.answers)
    at_tail at_end c n = cc
    at_tail at_error c n = cc

pub answer_lines :
    (t : Text) → concat (event_line (codes "answer") ∷ data_line (quote t) ∷ []) ≡ answer_frame t
answer_lines t = simp (append_assoc, append-nil)

-- Two written lines put their text behind the answers.
two_lines :
    {s : Sink} (f : IsFramed s) (a b : Text)
    → s.ended ≡ false
    → concat (s.out ++ (a ∷ b ∷ [])) ≡ frames f.answers ++ concat (a ∷ b ∷ [])
two_lines {s} f a b e =
    concat-append s.out (a ∷ b ∷ []) ∙ ap (λ x. x ++ concat (a ∷ b ∷ [])) (open_carried f e)

pub write_answer-IsFramed : {s : Sink} (t : Text) → IsFramed s → IsFramed (write_answer s t)
unfolding write_answer
write_answer-IsFramed {s} t f =
    rw (write_two s (event_line (codes "answer")) (data_line (quote t))) (go (is_writable s) refl)
  where
    go :
        (w : Bool)
        → is_writable s ≡ w
        → IsFramed (
            if w
            then record s {
              out = s.out ++ (event_line (codes "answer") ∷ data_line (quote t) ∷ []);
            }
            else s)
    go false e = f
    go true e = record {
      answers = f.answers ++ t ∷ [];
      tail = still_open;
      carried =
          two_lines f _ _ (writable-open f e)
          ∙ ap (λ x. frames f.answers ++ x) (answer_lines t)
          ∙ sym (frames-append f.answers t)
          ∙ sym (append-nil _);
      ending = writable-open f e;
    }

-- An end or error event, then `safeEnd`.
pub write_tail : Sink → Text → Text → Sink
write_tail s a b = safe_end (safe_write (safe_write s a) b)

pub safe_end-writable :
    (s : Sink) → is_writable s ≡ true → safe_end s ≡ record s { closed = true; ended = true }
unfolding safe_end
safe_end-writable s e = rw e

safe_end-blocked : (s : Sink) → is_writable s ≡ false → safe_end s ≡ record s { closed = true }
unfolding safe_end
safe_end-blocked s e = rw e

write_tail-IsFramed :
    {s : Sink} (t : Tail) (a b : Text)
    → is_terminal t ≡ true
    → concat (a ∷ b ∷ []) ≡ tail_text t
    → IsFramed s
    → IsFramed (write_tail s a b)
unfolding write_tail
write_tail-IsFramed {s} t a b term text f = rw (write_two s a b) (go (is_writable s) refl)
  where
    go :
        (w : Bool)
        → is_writable s ≡ w
        → IsFramed (safe_end (if w then record s { out = s.out ++ (a ∷ b ∷ []) } else s))
    go false e =
        rw (safe_end-blocked s e)
          (record { answers = f.answers; tail = f.tail; carried = f.carried; ending = f.ending })
    go true e = rw (safe_end-writable (record s { out = s.out ++ (a ∷ b ∷ []) }) e) (record {
      answers = f.answers;
      tail = t;
      carried = two_lines f a b (writable-open f e) ∙ ap (λ x. frames f.answers ++ x) text;
      ending = sym term;
    })

pub write_end-IsFramed : {s : Sink} → IsFramed s → IsFramed (write_end s)
unfolding write_end write_tail
write_end-IsFramed f = write_tail-IsFramed at_end _ _ refl refl f

pub write_error-IsFramed : {s : Sink} → IsFramed s → IsFramed (write_error s)
unfolding write_error write_tail
write_error-IsFramed f = write_tail-IsFramed at_error _ _ refl refl f

pub open_sink-IsFramed : IsFramed open_sink
open_sink-IsFramed = record { answers = []; tail = still_open; carried = refl; ending = refl }
