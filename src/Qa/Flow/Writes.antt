-- ===== src/Qa/Flow/Writes.antt =====
-- services/qa.service.ts: what is written for a question, and how it ends.
use bubblog_ai.Prelude.{
  ◌≡◌, refl, Bool, true, false, Option, none, some, List, [], ◌∷◌, ◌++◌, map, arith,
}
use bubblog_ai.Prelude.Text.{Text}
use bubblog_ai.Qa.Data.{
  Out, write, session_saved, session_error, ended, written_option, written_context,
}

-- Writes only, then at most one event on the session, then the end, and nothing after it.
abbrev pub is_served : List Out → Bool
is_served [] = false
is_served (write _ ∷ out) = is_served out
is_served (session_saved _ ∷ ended ∷ []) = true
is_served (session_error _ ∷ ended ∷ []) = true
is_served (ended ∷ []) = true
is_served _ = false

-- Only writes.
abbrev pub is_open : List Out → Bool
is_open [] = true
is_open (write _ ∷ out) = is_open out
is_open _ = false

pub open-served :
    (a b : List Out) → is_open a ≡ true → is_served b ≡ true → is_served (a ++ b) ≡ true
open-served [] b h k = k
open-served (write t ∷ a) b h k = open-served a b h k
open-served (session_saved c ∷ a) b h k = absurd (ground (arith, h))
open-served (session_error c ∷ a) b h k = absurd (ground (arith, h))
open-served (ended ∷ a) b h k = absurd (ground (arith, h))

pub open-open : (a b : List Out) → is_open a ≡ true → is_open b ≡ true → is_open (a ++ b) ≡ true
open-open [] b h k = k
open-open (write t ∷ a) b h k = open-open a b h k
open-open (session_saved c ∷ a) b h k = absurd (ground (arith, h))
open-open (session_error c ∷ a) b h k = absurd (ground (arith, h))
open-open (ended ∷ a) b h k = absurd (ground (arith, h))

pub open-writes : (ts : List Text) → is_open (map write ts) ≡ true
open-writes [] = refl
open-writes (t ∷ ts) = open-writes ts

pub option-open : (name : Text) (o : Option Text) → is_open (written_option name o) ≡ true
option-open name none = refl
option-open name (some t) = refl

pub context-open : (o : Option Text) → is_open (written_context o) ≡ true
context-open none = refl
context-open (some t) = refl
