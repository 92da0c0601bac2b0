-- ===== src/Posts/Owned.antt =====
-- repositories/post.repository.ts: whose posts the queries of a user find, and which of them.
use bubblog_ai.Prelude.{
  ℕ, ◌≡◌, inl, inr, refl, ap, subst, Bool, Bool-cases, true, false, ◌&&◌, ◌==◌, ==_iff, arith, min,
  max, Option, none, some, List, map, take, All, All-take,
}
use mathlib.Core.List.{Mem}
use bubblog_ai.Prelude.Text.{Text, text_eq, text_eq_iff, number_text}
use bubblog_ai.Prelude.Filter.{filter, filter-All, members, map-All, concat-map-All}
use bubblog_ai.Prelude.Sort.{sort, sort-All}
use bubblog_ai.Aggregate.{ChunkHit}
use bubblog_ai.Search.{Doubles, VectorQuery, TextQuery}
use bubblog_ai.Hybrid.Scope.{OnChunks, IsHit, AreHits, vector_scope, text_scope}
use bubblog_ai.Posts.Tables.{
  BlogPost, Blog, Sql, in_category, filtered_posts, TimeRange, always, invalid, range, time_range,
  in_range, Scored, query_text, patterns, likes,
}
use bubblog_ai.Posts.{
  ordered_before, clamped, vector_scored, vector_rows_of, vector_rows, is_near, vector_hit,
  similar_rows, unless_invalid, find_similar_chunks_v2, text_rows, text_hit, matching_rows,
  text_search_chunks_v2, sources_of, of_embedding,
}

module _ {W : Type 0} (b : Blog W) (user_id : Text) (category : Option ℕ) where
  -- A post of the user, in the category or a descendant of it where one is asked for.
  pub record IsOwn (p : BlogPost) : Type 0 where
    pub stored : Mem p b.posts
    pub owner : p.user_id ≡ user_id
    pub within : in_category b.closure category p.category_id ≡ true

  -- A row made of such a post and one of its chunks.
  pub record IsJoined (r : Scored W) : Type 0 where
    pub own : IsOwn r.post
    pub chunk_stored : Mem r.chunk b.chunks
    pub joined : r.chunk.post_id ≡ r.post.id

  -- What a hit is made of: such a row, in the range of times.
  pub record IsOwned (times : TimeRange) (id title chunk : Text) : Type 0 where
    pub row : Scored W
    pub is_joined : IsJoined row
    pub in_time : in_range times row.post.created_at ≡ true
    pub id_is : number_text row.post.id ≡ id
    pub title_is : row.post.title ≡ title
    pub chunk_is : row.chunk.content ≡ chunk

  both : (x y : Bool) → (x && y) ≡ true → (x ≡ true) × (y ≡ true)
  both true y h = (refl, h)
  both false y h = absurd (ground (arith, h))

  filtered_posts-All : All IsOwn (filtered_posts b user_id category)
  unfolding filtered_posts
  filtered_posts-All =
      filter-All IsOwn
        (λ p. text_eq p.user_id user_id && in_category b.closure category p.category_id) b.posts
        (λ p e m.
          let (u, w) =
            both (text_eq p.user_id user_id) (in_category b.closure category p.category_id) e in
          record { stored = m; owner = (text_eq_iff p.user_id user_id).0 u; within = w })
        (members b.posts)

  -- The chunks of a post.
  own_chunks :
      (p : BlogPost)
      → All (λ c. Mem c b.chunks × (c.post_id ≡ p.id)) (filter (λ c. c.post_id == p.id) b.chunks)
  own_chunks p =
      filter-All (λ c. Mem c b.chunks × (c.post_id ≡ p.id)) (λ c. c.post_id == p.id) b.chunks
        (λ c e m. (m, (==_iff c.post_id p.id).0 e)) (members b.chunks)

  module _ (n : Doubles W) (sql : Sql W) where
    vector_rows-IsJoined :
        (chunk_weight title_weight : W) (e : List W)
        → All IsJoined
            (vector_rows n sql b chunk_weight title_weight e (filtered_posts b user_id category))
    vector_rows-IsJoined chunk_weight title_weight e =
        concat-map-All IsJoined (vector_rows_of n sql b chunk_weight title_weight e) _
          (λ p o.
            concat-map-All IsJoined
              (λ c.
                map (λ t. vector_scored n sql chunk_weight title_weight e p c t)
                  (filter (λ t. t.post_id == p.id) b.titles))
              _
              (λ c m.
                map-All IsJoined (λ t. vector_scored n sql chunk_weight title_weight e p c t)
                  (filter (λ t. t.post_id == p.id) b.titles)
                  (λ t h. record { own = o; chunk_stored = m.0; joined = m.1 })
                  (members (filter (λ t. t.post_id == p.id) b.titles)))
              (own_chunks p))
          filtered_posts-All

    text_rows-IsJoined :
        (q : Option Text) → All IsJoined (text_rows n sql b q (filtered_posts b user_id category))
    text_rows-IsJoined q =
        concat-map-All IsJoined _ _
          (λ p o.
            map-All IsJoined _ (filter (λ c. c.post_id == p.id) b.chunks)
              (λ c m. record { own = o; chunk_stored = m.0; joined = m.1 }) (own_chunks p))
          filtered_posts-All

-- A chunk of a post of the user, in the category or a descendant of it and in the range of times.
abbrev pub OwnedChunks :
    {W : Type 0} → Blog W → Sql W → Text → Option ℕ → Option Text → Option Text → OnChunks
OwnedChunks b sql user_id category from to id title chunk i created =
    IsOwned b user_id category (time_range sql.read_time from to) id title chunk

module _ {W : Type 0} (b : Blog W) (n : Doubles W) (sql : Sql W) (user_id : Text) where
  module _ (category : Option ℕ) (times : TimeRange) where
    record InTime (r : Scored W) : Type 0 where
      is_joined : IsJoined b user_id category r
      in_time : in_range times r.post.created_at ≡ true

    abbrev TimedChunks : OnChunks
    TimedChunks id title chunk i created = IsOwned b user_id category times id title chunk

    InTime-IsHit : (r : Scored W) → InTime r → IsHit TimedChunks (vector_hit n sql r)
    InTime-IsHit r h = record {
      row = r;
      is_joined = h.is_joined;
      in_time = h.in_time;
      id_is = refl;
      title_is = refl;
      chunk_is = refl;
    }

    -- The rows that are kept in the range, in any order, cut off anywhere.
    kept-hits :
        (hit : Scored W → ChunkHit W) (less : Scored W → Scored W → Bool) (k : ℕ)
        (rows : List (Scored W))
        → ((r : Scored W) → InTime r → IsHit TimedChunks (hit r))
        → All InTime rows
        → AreHits TimedChunks (unless_invalid n sql times (map hit (take k (sort less rows))))
    kept-hits hit less k rows f h = unless times
      where
        unless :
            (t : TimeRange)
            → AreHits TimedChunks (unless_invalid n sql t (map hit (take k (sort less rows))))
        unless invalid = tt
        unless always =
            map-All (IsHit TimedChunks) hit (take k (sort less rows)) f
              (All-take InTime k (sort less rows) (sort-All less InTime rows h))
        unless (range u v) =
            map-All (IsHit TimedChunks) hit (take k (sort less rows)) f
              (All-take InTime k (sort less rows) (sort-All less InTime rows h))

  find_similar_chunks_v2-AreHits :
      (e : List W) (q : VectorQuery W)
      → AreHits
          (OwnedChunks b sql user_id q.category_id q.from q.to)
          (find_similar_chunks_v2 n sql b user_id e q)
  unfolding find_similar_chunks_v2 similar_rows
  find_similar_chunks_v2-AreHits e q =
      let times = time_range sql.read_time q.from q.to in
      let near = is_near n sql (clamped n sql q.threshold) e in
      kept-hits q.category_id times (vector_hit n sql) (ordered_before n sql q.order)
        (min 10 (max 1 q.top_k)) _ (InTime-IsHit q.category_id times)
        (filter-All (InTime q.category_id times) (λ r. near r && in_range times r.post.created_at) _
          (λ r p j. record {
            is_joined = j;
            in_time = (both b user_id q.category_id (near r) _ p).1;
          })
          (vector_rows-IsJoined b user_id q.category_id n sql (clamped n sql q.weights.chunk)
            (clamped n sql q.weights.title) e))

  text_search_chunks_v2-AreHits :
      (q : TextQuery)
      → AreHits
          (OwnedChunks b sql user_id q.category_id q.from q.to)
          (text_search_chunks_v2 n sql b user_id q)
  unfolding text_search_chunks_v2 matching_rows
  text_search_chunks_v2-AreHits q =
      let times = time_range sql.read_time q.from q.to in
      let like =
        λ (r : Scored W). likes sql.ilike (patterns q.keywords) r.chunk.content r.post.title in
      kept-hits q.category_id times (text_hit n sql) (ordered_before n sql q.order)
        (min 10 (max 1 q.top_k)) _ (λ r h. InTime-IsHit q.category_id times r h)
        (filter-All (InTime q.category_id times) (λ r. in_range times r.post.created_at && like r) _
          (λ r p j. record {
            is_joined = j;
            in_time =
                (both b user_id q.category_id (in_range times r.post.created_at) (like r) p).0;
          })
          (text_rows-IsJoined b user_id q.category_id n sql (query_text (some q.query))))

  of_embedding-AreHits :
      (q : VectorQuery W)
      → q.user_id ≡ some user_id
      → (e : Option (List W))
      → AreHits (OwnedChunks b sql user_id q.category_id q.from q.to) (of_embedding n sql b e q)
  unfolding find_similar_chunks_v2
  of_embedding-AreHits q u (some e) = rw (u) (find_similar_chunks_v2-AreHits e q)
  of_embedding-AreHits q u none = elim (Bool-cases sql.vector_required) [
    | inl r ↦ rw (r) tt
    | inr r ↦ rw (r) tt
  ]

  module _ (create_embeddings : List Text → Option (List (List W))) (category : Option ℕ)
      (from to : Option Text) where
    pub similar-AreHits :
        (q : VectorQuery W)
        → vector_scope q ≡ (some user_id, category, from, to)
        → AreHits
            (OwnedChunks b sql user_id category from to)
            ((sources_of n sql b create_embeddings).similar q)
    similar-AreHits q h =
        subst
          (λ s.
            AreHits (OwnedChunks b sql user_id s.1 s.2 s.3) (of_embedding n sql b q.embedding q))
          h (of_embedding-AreHits q (ap (λ s. s.0) h) q.embedding)

    pub textual-AreHits :
        (q : TextQuery)
        → text_scope q ≡ (some user_id, category, from, to)
        → AreHits
            (OwnedChunks b sql user_id category from to)
            ((sources_of n sql b create_embeddings).textual q)
    unfolding text_search_chunks_v2
    textual-AreHits q h =
        subst
          (λ s.
            AreHits (OwnedChunks b sql user_id s.1 s.2 s.3)
              ((sources_of n sql b create_embeddings).textual q))
          h (rw (ap (λ s. s.0) h) (text_search_chunks_v2-AreHits q))
