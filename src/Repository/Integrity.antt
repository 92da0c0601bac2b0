-- ===== src/Repository/Integrity.antt =====
-- What holds of the tables at all times, and that each statement keeps it.
pub mod Steps
use bubblog_ai.Prelude.{
  ℕ, suc, ◌<◌, ◌≤◌, ◌≡◌, ◌≢◌, inl, inr, refl, sym, subst, ◌∙◌, Bool, true, false, none, some, arith,
  ◌==◌, List, [], ◌∷◌, ◌++◌, All, All-append, Bool-cases, if◌then◌else◌,
}
use bubblog_ai.Prelude.Filter.{filter, find, filter-All, All-weaken}
use bubblog_ai.Prelude.Found.{find-map}
use bubblog_ai.Repository.{AskMessage, AskSession, CacheRow, Db, refers}
use bubblog_ai.Repository.Order.{Distinct}
use bubblog_ai.Repository.Messages.{MessageInput, with_message, new_message}
use bubblog_ai.Repository.Sessions.{update_where}

abbrev pub HasSession : List AskSession → ℕ → Type 0
HasSession ss i = (s : AskSession) × (find (λ s. s.id == i) ss ≡ some s)

-- Keys are unique and below their sequence, no row is newer than the clock, and a message has its
-- session, a cached question its message.
pub record IsWellFormed {E : Type 0} (db : Db E) : Type 0 where
  pub session_ids : All (λ s. s.id < db.next_session) db.sessions
  pub sessions_distinct : Distinct (λ (s : AskSession). s.id) db.sessions
  pub message_ids : All (λ m. m.id < db.next_message) db.messages
  pub messages_distinct : Distinct (λ (m : AskMessage). m.id) db.messages
  pub message_times : All (λ m. m.created_at ≤ db.now) db.messages
  pub message_sessions : All (λ m. HasSession db.sessions m.session_id) db.messages
  pub questions : All (λ r. refers db.messages (some r.message_id) ≡ true) db.cache

module _ {A : Type 0} (id : A → ℕ) where
  pub Distinct-append :
      (xs : List A) (x : A)
      → Distinct id xs
      → All (λ y. id y < id x) xs
      → Distinct id (xs ++ (x ∷ []))
  Distinct-append [] x h k = (tt, tt)
  Distinct-append (y ∷ ys) x (p, h) (q, k) = (
    All-append (λ z. id y ≢ id z) ys (x ∷ []) p ((omega (arith, q)), tt),
    Distinct-append ys x h k,
  )

  pub filter-Distinct : (p : A → Bool) (xs : List A) → Distinct id xs → Distinct id (filter p xs)
  unfolding filter
  filter-Distinct p [] h = tt
  filter-Distinct p (x ∷ xs) (q, h) = elim (Bool-cases (p x)) [
    | inl e ↦ rw (e) (filter-All (λ y. id x ≢ id y) p xs (λ y _ a. a) q, filter-Distinct p xs h)
    | inr e ↦ rw (e) (filter-Distinct p xs h)
  ]

  -- An item is found by its id in the longer list if it was in the shorter one.
  pub find-append :
      (i : ℕ) (xs ys : List A) (x : A)
      → find (λ y. id y == i) xs ≡ some x
      → find (λ y. id y == i) (xs ++ ys) ≡ some x
  unfolding find
  find-append i [] ys x e = ground (arith, e)
  find-append i (y ∷ xs) ys x e = elim (Bool-cases (id y == i)) [
    | inl d ↦ rw (d) (subst (λ b. (if b then some y else find (λ y. id y == i) xs) ≡ some x) d e)
    | inr d ↦ rw (d) (
        find-append i xs ys x
          (subst (λ b. (if b then some y else find (λ y. id y == i) xs) ≡ some x) d e))
  ]

pub HasSession-append :
    (ss ts : List AskSession) (i : ℕ) → HasSession ss i → HasSession (ss ++ ts) i
HasSession-append ss ts i (s, e) = (s, find-append (λ (s : AskSession). s.id) i ss ts s e)

-- A message stays found when others follow.
pub refers-append :
    (ms ns : List AskMessage) (i : ℕ)
    → refers ms (some i) ≡ true
    → refers (ms ++ ns) (some i) ≡ true
unfolding find
refers-append [] ns i e = ground (arith, e)
refers-append (m ∷ ms) ns i e = elim (Bool-cases (m.id == i)) [
  | inl d ↦ rw (refers, d) refl
  | inr d ↦
      rw (refers, d)
        (refers-append ms ns i (
          subst
            (λ b.
              elim (if b then some m else find (λ x. x.id == i) ms) [ none ↦ false | some _ ↦ true ]
              ≡ true)
            d e))
]

module _ {E : Type 0} where
  pub with_message-IsWellFormed :
      (params : MessageInput) (db : Db E)
      → HasSession db.sessions params.session_id
      → IsWellFormed db
      → IsWellFormed (with_message params db)
  with_message-IsWellFormed params db found w = record {
    session_ids = w.session_ids;
    sessions_distinct = w.sessions_distinct;
    message_ids =
        All-append (λ m. m.id < suc db.next_message) db.messages (new_message params db ∷ [])
          (All-weaken (λ (m : AskMessage). m.id < suc db.next_message) db.messages
            (λ m k. omega (arith, k)) w.message_ids)
          (omega arith, tt);
    messages_distinct =
        Distinct-append (λ (m : AskMessage). m.id) db.messages (new_message params db)
          w.messages_distinct w.message_ids;
    message_times =
        All-append (λ m. m.created_at ≤ db.now) db.messages (new_message params db ∷ [])
          w.message_times (omega arith, tt);
    message_sessions =
        All-append (λ m. HasSession db.sessions m.session_id) db.messages
          (new_message params db ∷ []) w.message_sessions (found, tt);
    questions =
        All-weaken
          (λ (r : CacheRow E).
            refers (db.messages ++ (new_message params db ∷ [])) (some r.message_id) ≡ true)
          db.cache (λ r k. refers-append db.messages (new_message params db ∷ []) r.message_id k)
          w.questions;
  }

-- An update of the sessions that keeps their ids.
module _ (p : AskSession → Bool) (f : AskSession → AskSession)
    (same : (s : AskSession) → (f s).id ≡ s.id) where
  update_where-id : (s : AskSession) → (if p s then f s else s).id ≡ s.id
  update_where-id s = elim (Bool-cases (p s)) [ inl e ↦ rw (e) (same s) | inr e ↦ rw (e) refl ]

  update_where-All :
      (n : ℕ) (ss : List AskSession)
      → All (λ s. s.id < n) ss
      → All (λ s. s.id < n) (update_where p f ss)
  update_where-All n [] h = tt
  update_where-All n (s ∷ ss) (k, h) =
      (omega (arith, update_where-id s, k), update_where-All n ss h)

  update_where-apart :
      (s : AskSession) (ss : List AskSession)
      → All (λ t. s.id ≢ t.id) ss
      → All (λ t. (if p s then f s else s).id ≢ t.id) (update_where p f ss)
  update_where-apart s [] h = tt
  update_where-apart s (t ∷ ss) (k, h) =
      ((λ e. k (sym (update_where-id s) ∙ e ∙ update_where-id t)), update_where-apart s ss h)

  update_where-Distinct :
      (ss : List AskSession) → Distinct (λ s. s.id) ss → Distinct (λ s. s.id) (update_where p f ss)
  update_where-Distinct [] h = tt
  update_where-Distinct (s ∷ ss) (k, h) = (update_where-apart s ss k, update_where-Distinct ss h)

  update_where-HasSession :
      (ss : List AskSession) (i : ℕ) → HasSession ss i → HasSession (update_where p f ss) i
  update_where-HasSession ss i (s, e) =
      let same =
        find-map (λ s. s.id == i) (λ s. if p s then f s else s) ss
          (λ s. rw (update_where-id s) refl) in
      ((if p s then f s else s), rw (same, e) refl)

  pub update_where-IsWellFormed :
      {E : Type 0} (db : Db E)
      → IsWellFormed db
      → IsWellFormed (record db { sessions = update_where p f db.sessions })
  update_where-IsWellFormed db w = record {
    session_ids = update_where-All db.next_session db.sessions w.session_ids;
    sessions_distinct = update_where-Distinct db.sessions w.sessions_distinct;
    message_ids = w.message_ids;
    messages_distinct = w.messages_distinct;
    message_times = w.message_times;
    message_sessions =
        All-weaken (λ (m : AskMessage). HasSession (update_where p f db.sessions) m.session_id)
          db.messages (λ m h. update_where-HasSession db.sessions m.session_id h)
          w.message_sessions;
    questions = w.questions;
  }
