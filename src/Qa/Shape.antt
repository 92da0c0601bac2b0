-- ===== src/Qa/Shape.antt =====
-- services/qa.service.ts: how the stream of a question ends.
use bubblog_ai.Prelude.{ℕ, ◌≡◌, ◌≢◌, refl, Bool, true, Option, List, [], ◌∷◌}
use bubblog_ai.Repository.{Db, Outcome, returned, threw}
use bubblog_ai.Repository.Cache.{Vectors}
use bubblog_ai.History.{persist_conversation}
use bubblog_ai.Qa.Data.{ended, pending, LlmStream, ChatMessage, Request, Reader}
use bubblog_ai.Qa.{turn_of, saved_event, save_embedded, answer_stream}
use bubblog_ai.Qa.Flow.Writes.{is_served, is_open, open-served, open-open}
use bubblog_ai.Qa.Flow.{Finishing, Flow, answer_stream-Closed}

-- The stream of the model, where there is one, finishes.
abbrev pub Finishes : Option LlmStream → Type 0
Finishes = Finishing (λ f. f ≢ pending)

module _ {E S : Type 0} (to_date : ℕ → ℕ) (v : Vectors E S) (reader : Reader) (r : Request E) where
  pub saved-served :
      (cached : Bool) (o : Outcome)
      → is_served (saved_event to_date v reader cached o ∷ ended ∷ []) ≡ true
  saved-served cached returned = refl
  saved-served cached threw = refl

  -- Writes while it is open, and behind its end what `is_served` says.
  unfoldable pub shape : Flow to_date v reader r
  unfolding save_embedded
  shape = record {
    Open = λ st. is_open st.out ≡ true;
    Closed = λ st. is_served st.out ≡ true;
    Ends = λ f. f ≢ pending;
    writes = λ st w k h. open-open st.out w h k;
    stops = λ st w k h. open-served st.out w h k;
    stores = λ st cached unembedded answer plan meta tone q d h.
        let o =
          (persist_conversation to_date v r.faults
            (turn_of to_date v reader r answer plan meta tone q d) st.db).1 in
        open-served st.out (saved_event to_date v reader cached o ∷ ended ∷ []) h
          (saved-served cached o);
    hangs = λ st n h. absurd (n refl);
  }

  -- Whatever the services answer and wherever one throws, the stream of a question gets writes, then at
  -- most one event on the session, then its end, once, if every stream of the model finishes.
  pub answer_stream-served :
      ((ms : List ChatMessage) → Finishes (r.llm ms))
      → (db : Db E) → is_served (answer_stream to_date v reader r db).out ≡ true
  unfolding shape
  answer_stream-served finishes db = answer_stream-Closed to_date v reader r shape finishes db refl
