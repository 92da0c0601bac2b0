-- ===== src/Sessions/Messages.antt =====
-- controllers/session.controller.ts, `getSessionMessagesHandler`: what the cursor of a page selects.
use bubblog_ai.Prelude.{
  ℕ, suc, ◌≡◌, refl, ap, ◌∙◌, none, some, ◌&&◌, List, [], ◌∷◌, ◌++◌, map, take,
}
use mathlib.Core.List.{reverse, reverse-cons}
use bubblog_ai.Prelude.Filter.{filter}
use bubblog_ai.Prelude.Sort.{sort}
use bubblog_ai.Prelude.Paging.{next_page}
use bubblog_ai.Repository.{AskMessage, Db, newest_message, oldest_message, key_after}
use bubblog_ai.Repository.Order.{
  Distinct, Distinct-Apart, newest_message-IsOrder, newest_message-total, oldest_message-IsOrder,
  oldest_message-total,
}
use bubblog_ai.Repository.Messages.{
  Cursor, forward, backward, in_session, map_message, get_messages_by_session,
}
use bubblog_ai.Sessions.Requests.{last_row}
use bubblog_ai.Sessions.Paging.{filter-true}

module _ {A : Type 0} where
  last_row-append : (xs : List A) (c : A) → last_row (xs ++ (c ∷ [])) ≡ some c
  last_row-append [] c = refl
  last_row-append (x ∷ []) c = refl
  last_row-append (x ∷ y ∷ ys) c = last_row-append (y ∷ ys) c

-- The cursor that an answer makes of a row.
abbrev pub row_cursor : (ℕ → ℕ) → AskMessage → Cursor
row_cursor to_date m = record { created_at = to_date m.created_at; id = m.id }

module _ {E : Type 0} (to_date : ℕ → ℕ) (db : Db E) (session_id limit : ℕ)
    (distinct : Distinct (λ (m : AskMessage). m.id) db.messages) where
  -- Forward, the cursor of a row selects the rows that follow it, if its time is whole: a client that
  -- follows the cursors misses none and gets none twice.
  pub get_messages_by_session-forward :
      (c : AskMessage) (pre post : List AskMessage)
      → to_date c.created_at ≡ c.created_at
      → sort oldest_message (filter (in_session session_id) db.messages) ≡ pre ++ c ∷ post
      → get_messages_by_session to_date db session_id limit forward (some (row_cursor to_date c))
        ≡ map (map_message to_date) (take limit post)
  unfolding get_messages_by_session
  get_messages_by_session-forward c pre post w e =
      let order =
        Distinct-Apart (λ (m : AskMessage). m.id) oldest_message oldest_message-total db.messages
          distinct in
      ap
        (λ t. map (map_message to_date) (
          take limit (
            sort oldest_message (
              filter (λ m. in_session session_id m && key_after m.created_at m.id t c.id)
                db.messages))))
        w
      ∙ ap (λ rows. map (map_message to_date) (take limit rows))
          (next_page oldest_message-IsOrder (in_session session_id) db.messages c pre post order e)

  backward-next :
      (c : AskMessage) (pre post : List AskMessage)
      → to_date c.created_at ≡ c.created_at
      → sort newest_message (filter (in_session session_id) db.messages) ≡ pre ++ c ∷ post
      → get_messages_by_session to_date db session_id limit backward (some (row_cursor to_date c))
        ≡ reverse (map (map_message to_date) (take limit post))
  unfolding get_messages_by_session
  backward-next c pre post w e =
      let order =
        Distinct-Apart (λ (m : AskMessage). m.id) newest_message newest_message-total db.messages
          distinct in
      ap
        (λ t. reverse (
          map (map_message to_date) (
            take limit (
              sort newest_message (
                filter (λ m. in_session session_id m && key_after t c.id m.created_at m.id)
                  db.messages)))))
        w
      ∙ ap (λ rows. reverse (map (map_message to_date) (take limit rows)))
          (next_page newest_message-IsOrder (in_session session_id) db.messages c pre post order e)

module _ {E : Type 0} (to_date : ℕ → ℕ) (db : Db E) (session_id m : ℕ)
    (distinct : Distinct (λ (m : AskMessage). m.id) db.messages) where
  first-backward :
      (c : AskMessage) (rest : List AskMessage)
      → sort newest_message (filter (in_session session_id) db.messages) ≡ c ∷ rest
      → get_messages_by_session to_date db session_id (suc m) backward none
        ≡ reverse (map (map_message to_date) (take m rest)) ++ (map_message to_date c ∷ [])
  unfolding get_messages_by_session
  first-backward c rest e =
      ap (λ rows. reverse (map (map_message to_date) (take (suc m) (sort newest_message rows))))
        (filter-true (in_session session_id) db.messages)
      ∙ ap (λ rows. reverse (map (map_message to_date) (take (suc m) rows))) e
      ∙ reverse-cons (map_message to_date c) (map (map_message to_date) (take m rest))

  -- Backward, the last row of the first page is the newest message, and the page that its cursor selects
  -- starts behind that one message: it repeats the first page but for a single message.
  pub get_messages_by_session-backward :
      (c : AskMessage) (rest : List AskMessage)
      → to_date c.created_at ≡ c.created_at
      → sort newest_message (filter (in_session session_id) db.messages) ≡ c ∷ rest
      → (last_row (get_messages_by_session to_date db session_id (suc m) backward none)
          ≡ some (map_message to_date c))
        × (get_messages_by_session to_date db session_id
              (suc m)
              backward
              (some (row_cursor to_date c))
            ≡ reverse (map (map_message to_date) (take (suc m) rest)))
  get_messages_by_session-backward c rest w e = (
    ap last_row (first-backward c rest e)
        ∙ last_row-append (reverse (map (map_message to_date) (take m rest)))
            (map_message to_date c),
    backward-next to_date db session_id (suc m) distinct c [] rest w e,
  )
