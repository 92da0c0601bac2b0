-- ===== src/Sessions/Paging.antt =====
-- controllers/session.controller.ts: a client that follows the cursors of the session list, and what the
-- cursor of a backward page of messages selects.
use bubblog_ai.Prelude.{
  ℕ, zero, suc, ◌<◌, ◌≡◌, ◌≢◌, inl, inr, refl, ap, sym, subst, ◌∙◌, Bool, true, Option, none, some,
  arith, ◌==◌, ==_iff, ◌&&◌, List, [], ◌∷◌, ◌++◌, map, All, take, drop, length, length-take,
  length-drop, length-map, take-append-drop, append_assoc, append-nil, Bool-cases, length-append,
}
use bubblog_ai.Prelude.Text.{Text}
use bubblog_ai.Prelude.Filter.{filter}
use bubblog_ai.Prelude.Sort.{sort}
use bubblog_ai.Prelude.Paging.{next_page}
use bubblog_ai.Repository.{AskSession, Db, newest_session, key_after}
use bubblog_ai.Repository.Order.{
  Distinct, Distinct-Apart, newest_session-IsOrder, newest_session-total,
}
use bubblog_ai.Repository.Sessions.{
  AskSessionSummary, is_listed, past_session_cursor, summary, list_sessions_for_requester,
}
use bubblog_ai.Sessions.{Platform, Reply, ok, failed, encode_cursor}
use bubblog_ai.Sessions.Requests.{
  SessionListQuery, Page, last_row, next_cursor, page_of, encode_summary, list_params, list_page,
  list_sessions_handler,
}
use bubblog_ai.Sessions.Cursors.{IsCodec, read_cursor-encode_cursor}

module _ {A : Type 0} where
  pub snoc :
      (n : ℕ) (xs : List A) → length xs ≡ suc n → (pre : List A) × (c : A) × (xs ≡ pre ++ (c ∷ []))
  snoc n [] e = absurd (omega (arith, e))
  snoc n (x ∷ []) e = ([], x, refl)
  snoc zero (x ∷ y ∷ ys) e = absurd (omega (arith, e))
  snoc (suc n) (x ∷ y ∷ ys) e =
      let r = snoc n (y ∷ ys) (omega (arith, e)) in (x ∷ r.0, r.1, ap (λ t. x ∷ t) r.2)

  last_row-snoc :
      {B : Type 0} (f : A → B) (pre : List A) (c : A)
      → last_row (map f (pre ++ (c ∷ []))) ≡ some (f c)
  last_row-snoc f [] c = refl
  last_row-snoc f (x ∷ []) c = refl
  last_row-snoc f (x ∷ y ∷ ys) c = last_row-snoc f (y ∷ ys) c

  take-all : (n : ℕ) (xs : List A) → length (take n xs) ≢ n → take n xs ≡ xs
  take-all zero xs h = absurd (h refl)
  take-all (suc n) [] h = refl
  take-all (suc n) (x ∷ xs) h = ap (λ t. x ∷ t) (take-all n xs (λ e. h (ap suc e)))

  map-append : {B : Type 0} (f : A → B) (xs ys : List A) → map f (xs ++ ys) ≡ map f xs ++ map f ys
  map-append f [] ys = refl
  map-append f (x ∷ xs) ys = ap (λ t. f x ∷ t) (map-append f xs ys)

  pub filter-true : (p : A → Bool) (xs : List A) → filter (λ x. p x && true) xs ≡ filter p xs
  unfolding filter
  filter-true p [] = refl
  filter-true p (x ∷ xs) = elim (Bool-cases (p x)) [
    | inl e ↦ rw (e, filter-true p xs) refl
    | inr e ↦ rw (e, filter-true p xs) refl
  ]

abbrev reply_items : Reply (Page AskSessionSummary) → List AskSessionSummary
reply_items (ok p) = p.items
reply_items (failed _ _) = []

abbrev reply_cursor : Reply (Page AskSessionSummary) → Option Text
reply_cursor (ok p) = p.cursor
reply_cursor (failed _ _) = none

abbrev query_with : ℕ → Option Text → Option Text → SessionListQuery
query_with n owner k = record { limit = n; cursor = k; owner_user_id = owner }

module _ {E : Type 0} (env : Platform) where
  -- A client that asks again with the cursor of each answer, and gathers the sessions.
  unfoldable pub follow : Db E → Text → Option Text → ℕ → ℕ → Option Text → List AskSessionSummary
  unfolding list_sessions_handler
  follow db requester owner n zero k = []
  follow db requester owner n (suc fuel) k =
      let reply = list_sessions_handler env db (some requester) (some (query_with n owner k)) in
      reply_items reply ++ elim (reply_cursor reply) [
        | none ↦ []
        | some next ↦ follow db requester owner n fuel (some next)
      ]

  -- All sessions of the requester, newest first.
  abbrev pub listed : Db E → Text → Option Text → List AskSession
  listed db requester owner =
      sort newest_session
        (filter (is_listed (list_params requester (query_with 0 owner none) none)) db.sessions)

-- The rows of the table that have a whole time stamp and an id.
abbrev pub IsWhole : Platform → AskSession → Type 0
IsWhole env s = (env.to_date s.created_at ≡ s.created_at) × (s.id ≢ 0)

positive : (i : ℕ) → i ≢ 0 → (j : ℕ) × (i ≡ suc j)
positive zero h = absurd (h refl)
positive (suc j) h = (j, refl)

module _ {E : Type 0} (env : Platform) (laws : IsCodec env) (db : Db E) (r : ℕ) (rs : Text)
    (owner : Option Text) (m : ℕ) (distinct : Distinct (λ (s : AskSession). s.id) db.sessions) where
  shown : List AskSession → List AskSessionSummary
  shown rows = map (summary env.to_date db) rows

  mine : AskSession → Bool
  mine = is_listed (list_params (r ∷ rs) (query_with 0 owner none) none)

  -- The rows behind the cursor's row, as the query selects them.
  behind :
      (c : AskSession) (pre post : List AskSession)
      → IsWhole env c
      → listed env db (r ∷ rs) owner ≡ pre ++ c ∷ post
      → sort newest_session (
          filter (λ s. mine s && past_session_cursor (some c.created_at) (some c.id) s) db.sessions)
        ≡ post
  unfolding mine
  behind c pre post w e =
      let p = positive c.id w.1 in
      let base =
        next_page newest_session-IsOrder mine db.sessions c pre post
          (Distinct-Apart (λ (s : AskSession). s.id) newest_session newest_session-total db.sessions
            distinct)
          e in
      subst
        (λ i.
          sort newest_session
            (filter (λ s. mine s && past_session_cursor (some c.created_at) (some i) s) db.sessions)
          ≡ post)
        (sym p.1)
        (subst
          (λ i.
            sort newest_session
              (filter (λ s. mine s && key_after c.created_at i s.created_at s.id) db.sessions)
            ≡ post)
          p.1 base)

  -- What the handler answers to the cursor of a row.
  answered :
      (c : AskSession) (pre post : List AskSession)
      → IsWhole env c
      → listed env db (r ∷ rs) owner ≡ pre ++ c ∷ post
      → list_sessions_handler env db
          (some (r ∷ rs))
          (some (query_with (suc m) owner (some (encode_cursor env c.created_at c.id))))
        ≡ ok (page_of (encode_summary env) (suc m) (shown (take (suc m) post)))
  unfolding list_sessions_handler list_page list_sessions_for_requester mine shown
  answered c pre post w e =
      let q = query_with (suc m) owner (some (encode_cursor env c.created_at c.id)) in
      ap (list_page env db (r ∷ rs) q) (read_cursor-encode_cursor env laws c.created_at c.id w.0)
      ∙ ap (λ rows. ok (page_of (encode_summary env) (suc m) (shown (take (suc m) rows))))
          (behind c pre post w e)

  follow-next :
      (fuel : ℕ) (k : Option Text) (p : Page AskSessionSummary) (next : Text)
      → list_sessions_handler env db (some (r ∷ rs)) (some (query_with (suc m) owner k)) ≡ ok p
      → p.cursor ≡ some next
      → follow env db (r ∷ rs) owner (suc m) (suc fuel) k
        ≡ p.items ++ follow env db (r ∷ rs) owner (suc m) fuel (some next)
  unfolding follow
  follow-next fuel k p next a e = rw (follow, a, e) refl

  follow-last :
      (fuel : ℕ) (k : Option Text) (p : Page AskSessionSummary)
      → list_sessions_handler env db (some (r ∷ rs)) (some (query_with (suc m) owner k)) ≡ ok p
      → p.cursor ≡ none
      → follow env db (r ∷ rs) owner (suc m) (suc fuel) k ≡ p.items
  unfolding follow
  follow-last fuel k p a e = rw (follow, a, e) (append-nil p.items)

  -- The cursor of a full page is that of its last row.
  full-cursor :
      (pre : List AskSession) (c : AskSession) (rows : List AskSession)
      → rows ≡ pre ++ (c ∷ [])
      → IsWhole env c
      → (length (shown rows) == suc m) ≡ true
      → next_cursor (encode_summary env) (suc m) (shown rows)
        ≡ some (encode_cursor env c.created_at c.id)
  unfolding shown
  full-cursor pre c rows e w full =
      rw (next_cursor, full, e, last_row-snoc (summary env.to_date db) pre c, w.0) refl

  split-All :
      (pre : List AskSession) (c : AskSession) (post : List AskSession)
      → All (IsWhole env) (pre ++ c ∷ post)
      → IsWhole env c × All (IsWhole env) post
  split-All [] c post (p, h) = (p, h)
  split-All (x ∷ pre) c post (p, h) = split-All pre c post h

  -- From any place in the list, enough requests give all that is left of it.
  follow-rest :
      (fuel : ℕ) (k : Option Text) (pre post : List AskSession)
      → All (IsWhole env) post
      → listed env db (r ∷ rs) owner ≡ pre ++ post
      → list_sessions_handler env db (some (r ∷ rs)) (some (query_with (suc m) owner k))
        ≡ ok (page_of (encode_summary env) (suc m) (shown (take (suc m) post)))
      → length post < fuel
      → follow env db (r ∷ rs) owner (suc m) fuel k ≡ shown post
  unfolding shown
  follow-rest zero k pre post w e a h = absurd (omega (arith, h))
  follow-rest (suc fuel) k pre post w e a h =
      let page : List AskSession = take (suc m) post in
      let rest : List AskSession = drop (suc m) post in
      elim (Bool-cases (length (shown page) == suc m)) [
        | inr short ↦
            follow-last fuel k (page_of (encode_summary env) (suc m) (shown page)) a
              (rw (next_cursor, short) refl)
            ∙ ap shown (
                take-all (suc m) post
                  (λ d. ground (arith, length-map (summary env.to_date db) page, d, short)))
        | inl full ↦
            let count : length page ≡ suc m =
              sym (length-map (summary env.to_date db) page)
              ∙ (==_iff (length (shown page)) (suc m)).0 full in
            let last = snoc m page count in
            let here : post ≡ last.0 ++ last.1 ∷ rest =
              sym (take-append-drop (suc m) post)
              ∙ ap (λ t. t ++ rest) last.2
              ∙ append_assoc last.0 (last.1 ∷ []) rest in
            let parts = split-All last.0 last.1 rest (subst (All (IsWhole env)) here w) in
            follow-next fuel k (page_of (encode_summary env) (suc m) (shown page))
              (encode_cursor env last.1.created_at last.1.id) a
              (full-cursor last.0 last.1 page last.2 parts.0 full)
            ∙ ap (λ t. shown page ++ t)
                (follow-rest fuel (some (encode_cursor env last.1.created_at last.1.id))
                  (pre ++ page) rest parts.1
                  (e
                    ∙ ap (λ t. pre ++ t) (sym (take-append-drop (suc m) post))
                    ∙ sym (append_assoc pre page rest))
                  (answered last.1 (pre ++ last.0) rest parts.0
                    (e ∙ ap (λ t. pre ++ t) here ∙ sym (append_assoc pre last.0 (last.1 ∷ rest))))
                  (omega (
                    arith,
                    h,
                    count,
                    length-drop (suc m) post,
                    length-append page rest,
                    length-take (suc m) post,
                  )))
            ∙ sym (map-append (summary env.to_date db) page rest)
            ∙ ap shown (take-append-drop (suc m) post)
      ]

  first-page :
      list_sessions_handler env db (some (r ∷ rs)) (some (query_with (suc m) owner none))
      ≡ ok (
          page_of
            (encode_summary env)
            (suc m)
            (shown (take (suc m) (listed env db (r ∷ rs) owner))))
  unfolding list_sessions_handler list_page list_sessions_for_requester mine shown
  first-page =
      ap
        (λ rows.
          ok (
            page_of (encode_summary env) (suc m) (shown (take (suc m) (sort newest_session rows)))))
        (filter-true mine db.sessions)

  -- A client that follows the cursors, and asks at least once more than there are sessions, gets each of
  -- the requester's sessions once, newest first, if ids are unique and not 0 and times are whole.
  pub follow-listed :
      (fuel : ℕ)
      → All (IsWhole env) (listed env db (r ∷ rs) owner)
      → length (listed env db (r ∷ rs) owner) < fuel
      → follow env db (r ∷ rs) owner (suc m) fuel none
        ≡ map (summary env.to_date db) (listed env db (r ∷ rs) owner)
  unfolding shown
  follow-listed fuel w h =
      follow-rest fuel none [] (listed env db (r ∷ rs) owner) w refl first-page h
