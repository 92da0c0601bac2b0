-- ===== src/History/Answers.antt =====
-- services/session-history.service.ts, `findCachedAnswer`: which stored answers it may give.
use bubblog_ai.Prelude.{
  length-map, ℕ, zero, suc, ◌≤◌, ◌≡◌, inl, inr, refl, subst, true, false, Option, none, some, arith,
  List, [], ◌∷◌, All, All-append, All-take, Bool-cases, take, length, length-take, length-append,
}
use mathlib.Core.List.{Mem}
use bubblog_ai.Prelude.Text.{text_eq_iff}
use bubblog_ai.Prelude.Filter.{filter, filter-All, members, map-All}
use bubblog_ai.Prelude.Sort.{sort, sort-All}
use bubblog_ai.Repository.{AskMessage, Db, CacheRow}
use bubblog_ai.Repository.Messages.{get_message_by_id}
use bubblog_ai.Repository.Cache.{
  Vectors, SimilarMessage, is_candidate, scope_matches, similar, nearer, find_similar_embeddings,
}
use bubblog_ai.History.{
  FindCachedAnswerParams, CachedAnswerResult, nonzero, hydrate_messages, hydrate_id, hydrate,
  hydrate_all, find_cached_answer,
}

module _ {E S : Type 0} (to_date : ℕ → ℕ) (v : Vectors E S) (db : Db E)
    (q : FindCachedAnswerParams E) (K : CacheRow E → Type 0) where
  -- A row with what is known of all rows of the cache, for the owner, the post or else the category, of
  -- the query.
  pub record IsFound (c : SimilarMessage S) : Type 0 where
    pub row : CacheRow E
    pub cached : K row
    pub owner : row.owner_user_id ≡ q.owner_user_id
    pub scope : scope_matches q.post_id q.category_id row ≡ true
    pub seen : similar v q.embedding row ≡ c

  -- An answer that the cache may give: that of a message which a row of the owner and scope names, and
  -- whose question is at least as similar as the threshold asks.
  pub record IsHit (r : CachedAnswerResult S) : Type 0 where
    pub row : CacheRow E
    pub cached : K row
    pub owner : row.owner_user_id ≡ q.owner_user_id
    pub scope : scope_matches q.post_id q.category_id row ≡ true
    pub close : v.below (v.similarity row.embedding q.embedding) v.threshold ≡ false
    pub tone : r.speech_tone_id ≡ row.speech_tone_id
    pub answer_id : ℕ
    pub named : row.answer_message_id ≡ some answer_id
    pub message : AskMessage
    pub stored : get_message_by_id to_date db answer_id ≡ some message
    pub content : r.answer ≡ message.content

  candidate-IsFound :
      (row : CacheRow E)
      → is_candidate q.owner_user_id q.post_id q.category_id row ≡ true
      → K row
      → IsFound (similar v q.embedding row)
  candidate-IsFound row e m = record {
    row = row;
    cached = m;
    owner = (text_eq_iff row.owner_user_id q.owner_user_id).0 (ground (arith, e));
    scope = ground (arith, e);
    seen = refl;
  }

  find_similar_embeddings-All :
      (n : ℕ)
      → All K db.cache
      → All IsFound
          (find_similar_embeddings v db q.owner_user_id q.embedding q.post_id q.category_id n)
  unfolding find_similar_embeddings
  find_similar_embeddings-All n known =
      let rows : List (CacheRow E) =
        filter (is_candidate q.owner_user_id q.post_id q.category_id) db.cache in
      let keeps : CacheRow E → Type 0 = λ row. IsFound (similar v q.embedding row) in
      map-All IsFound (similar v q.embedding) (take n (sort (nearer v q.embedding) rows))
        (λ row h. h)
        (All-take keeps n (sort (nearer v q.embedding) rows) (
          sort-All (nearer v q.embedding) keeps rows (
            filter-All keeps (is_candidate q.owner_user_id q.post_id q.category_id) db.cache
              (λ row e m. candidate-IsFound row e m) known)))

  -- What is known of a row before its messages are read.
  record IsClose (row : CacheRow E) : Type 0 where
    cached : K row
    owner : row.owner_user_id ≡ q.owner_user_id
    scope : scope_matches q.post_id q.category_id row ≡ true
    close : v.below (v.similarity row.embedding q.embedding) v.threshold ≡ false

  messages-All :
      (row : CacheRow E) (i : ℕ) (question answer : Option AskMessage)
      → IsClose row
      → row.answer_message_id ≡ some i
      → get_message_by_id to_date db i ≡ answer
      → All IsHit (hydrate_messages to_date v (similar v q.embedding row) question answer)
  messages-All row i none answer k e d = tt
  messages-All row i (some x) none k e d = tt
  messages-All row i (some x) (some y) k e d = (
    record {
      row = row;
      cached = k.cached;
      owner = k.owner;
      scope = k.scope;
      close = k.close;
      tone = refl;
      answer_id = i;
      named = e;
      message = y;
      stored = d;
      content = refl;
    },
    tt,
  )

  id-All :
      (row : CacheRow E) (a : Option ℕ)
      → IsClose row
      → row.answer_message_id ≡ a
      → All IsHit (hydrate_id to_date v db (similar v q.embedding row) (nonzero a))
  id-All row none k e = tt
  id-All row (some zero) k e = tt
  id-All row (some (suc i)) k e =
      messages-All row (suc i) (get_message_by_id to_date db row.message_id)
        (get_message_by_id to_date db (suc i)) k e refl

  hydrate-All : (c : SimilarMessage S) → IsFound c → All IsHit (hydrate to_date v db c)
  unfolding hydrate
  hydrate-All c f =
      subst (λ d. All IsHit (hydrate to_date v db d)) f.seen
        (elim (Bool-cases (v.below (v.similarity f.row.embedding q.embedding) v.threshold)) [
          | inl e ↦ rw (e) tt
          | inr e ↦ rw (e) (
              id-All f.row f.row.answer_message_id
                (record { cached = f.cached; owner = f.owner; scope = f.scope; close = e }) refl)
        ])

  hydrate_all-All :
      (cs : List (SimilarMessage S)) → All IsFound cs → All IsHit (hydrate_all to_date v db cs)
  unfolding hydrate_all
  hydrate_all-All [] h = tt
  hydrate_all-All (c ∷ cs) (p, h) =
      All-append IsHit (hydrate to_date v db c) (hydrate_all to_date v db cs) (hydrate-All c p)
        (hydrate_all-All cs h)

  -- The cached answers that are found, with what is known of all rows.
  pub find_cached_answer-All : All K db.cache → All IsHit (find_cached_answer to_date v db q)
  unfolding find_cached_answer
  find_cached_answer-All known =
      hydrate_all-All
        (find_similar_embeddings v db q.owner_user_id q.embedding q.post_id q.category_id 3)
        (find_similar_embeddings-All 3 known)

module _ {E S : Type 0} (to_date : ℕ → ℕ) (v : Vectors E S) (db : Db E)
    (q : FindCachedAnswerParams E) where
  messages-length :
      (c : SimilarMessage S) (x y : Option AskMessage)
      → length (hydrate_messages to_date v c x y) ≤ 1
  messages-length c none y = omega arith
  messages-length c (some x) none = omega arith
  messages-length c (some x) (some y) = omega arith

  id-length :
      (c : SimilarMessage S) (a : Option ℕ) → length (hydrate_id to_date v db c (nonzero a)) ≤ 1
  id-length c none = omega arith
  id-length c (some zero) = omega arith
  id-length c (some (suc i)) =
      messages-length c (get_message_by_id to_date db c.message_id)
        (get_message_by_id to_date db (suc i))

  hydrate-length : (c : SimilarMessage S) → length (hydrate to_date v db c) ≤ 1
  unfolding hydrate
  hydrate-length c = elim (Bool-cases (v.below c.similarity v.threshold)) [
    | inl e ↦ rw (e) (omega arith)
    | inr e ↦ rw (e) (id-length c c.answer_message_id)
  ]

  hydrate_all-length :
      (cs : List (SimilarMessage S)) → length (hydrate_all to_date v db cs) ≤ length cs
  unfolding hydrate_all
  hydrate_all-length [] = omega arith
  hydrate_all-length (c ∷ cs) = omega (
    arith,
    length-append (hydrate to_date v db c) (hydrate_all to_date v db cs),
    hydrate-length c,
    hydrate_all-length cs,
  )

  find_similar_embeddings-length :
      (n : ℕ)
      → length (find_similar_embeddings v db q.owner_user_id q.embedding q.post_id q.category_id n)
        ≤ n
  unfolding find_similar_embeddings
  find_similar_embeddings-length n =
      let rows : List (CacheRow E) =
        sort (nearer v q.embedding)
          (filter (is_candidate q.owner_user_id q.post_id q.category_id) db.cache) in
      omega (arith, length-map (similar v q.embedding) (take n rows), length-take n rows)

  -- There are at most three cached answers, and each is the content of the answer that a cached question
  -- of the same owner and scope names, whose similarity is not below the threshold.
  pub find_cached_answer-hits :
      All (IsHit to_date v db q (λ row. Mem row db.cache)) (find_cached_answer to_date v db q)
      × (length (find_cached_answer to_date v db q) ≤ 3)
  unfolding find_cached_answer
  find_cached_answer-hits =
      let found : List (SimilarMessage S) =
        find_similar_embeddings v db q.owner_user_id q.embedding q.post_id q.category_id 3 in
      (
        find_cached_answer-All to_date v db q (λ row. Mem row db.cache) (members db.cache),
        omega (arith, hydrate_all-length found, find_similar_embeddings-length 3),
      )
