-- ===== src/Repository/Order.antt =====
-- The orders in which the queries return sessions and messages: by time and id.
use bubblog_ai.Prelude.Paging.{Apart}
use bubblog_ai.Prelude.{[], ◌∷◌, All, sym, ◌∷◌, Bool, List, ℕ, ◌≡◌, ◌≢◌, ◌⊎◌, true, false, arith}
use bubblog_ai.Prelude.Sort.{IsOrder}
use bubblog_ai.Prelude.Filter.{All-weaken}
use bubblog_ai.Repository.{
  oldest_message, AskMessage, newest_session, AskSession, key_after, newest_message,
}

key_asymm : (t i u j : ℕ) → key_after t i u j ≡ true → key_after u j t i ≡ false
key_asymm t i u j e = ground arith

key_trans :
    (t i u j s k : ℕ)
    → key_after u j t i ≡ false
    → key_after s k u j ≡ false
    → key_after s k t i ≡ false
key_trans t i u j s k e d = ground arith

key_total : (t i u j : ℕ) → i ≢ j → (key_after t i u j ≡ true) ⊎ (key_after u j t i ≡ true)
key_total t i u j n = ground arith

pub newest_message-IsOrder : IsOrder newest_message
newest_message-IsOrder = record {
  asymm = λ a b. key_asymm a.created_at a.id b.created_at b.id;
  trans = λ a b c. key_trans a.created_at a.id b.created_at b.id c.created_at c.id;
}

pub oldest_message-IsOrder : IsOrder oldest_message
oldest_message-IsOrder = record {
  asymm = λ a b. key_asymm b.created_at b.id a.created_at a.id;
  trans = λ a b c e d. key_trans c.created_at c.id b.created_at b.id a.created_at a.id d e;
}

pub newest_session-IsOrder : IsOrder newest_session
newest_session-IsOrder = record {
  asymm = λ a b. key_asymm a.created_at a.id b.created_at b.id;
  trans = λ a b c. key_trans a.created_at a.id b.created_at b.id c.created_at c.id;
}

-- No two rows have the same id.
module _ {A : Type 0} (id : A → ℕ) where
  abbrev pub Distinct : List A → Type 0
  Distinct [] = Unit
  Distinct (x ∷ xs) = All (λ y. id x ≢ id y) xs × Distinct xs

module _ {A : Type 0} (id : A → ℕ) (less : A → A → Bool)
    (total : (x y : A) → id x ≢ id y → (less x y ≡ true) ⊎ (less y x ≡ true)) where
  pub Distinct-Apart : (xs : List A) → Distinct id xs → Apart less xs
  Distinct-Apart [] h = tt
  Distinct-Apart (x ∷ xs) (p, h) = (
    All-weaken (λ y. (less x y ≡ true) ⊎ (less y x ≡ true)) xs (λ y. total x y) p,
    Distinct-Apart xs h,
  )

pub newest_message-total :
    (a b : AskMessage) → a.id ≢ b.id → (newest_message a b ≡ true) ⊎ (newest_message b a ≡ true)
newest_message-total a b = key_total a.created_at a.id b.created_at b.id

pub oldest_message-total :
    (a b : AskMessage) → a.id ≢ b.id → (oldest_message a b ≡ true) ⊎ (oldest_message b a ≡ true)
oldest_message-total a b n = key_total b.created_at b.id a.created_at a.id (λ e. n (sym e))

pub newest_session-total :
    (a b : AskSession) → a.id ≢ b.id → (newest_session a b ≡ true) ⊎ (newest_session b a ≡ true)
newest_session-total a b = key_total a.created_at a.id b.created_at b.id
