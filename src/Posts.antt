-- ===== src/Posts.antt =====
-- repositories/post.repository.ts: posts, categories and chunks, with the queries read as what PostgreSQL
-- does for their text. Rows that are equal in the order of a query come in the order of the tables.
pub mod Tables
pub mod Store
pub mod Owned
pub mod Index
pub mod Content
use bubblog_ai.Prelude.{
  ℕ, zero, suc, ◌*◌, min, max, Bool, true, false, not, ◌&&◌, ◌||◌, ltb, leb, ◌==◌, Option, none,
  some, List, [], ◌∷◌, ◌++◌, map, concat, take, if◌then◌else◌,
}
use bubblog_ai.Prelude.Text.{Text, codes, text_eq, trim, is_empty, number_text}
use bubblog_ai.Prelude.Filter.{filter, find}
use bubblog_ai.Prelude.Sort.{sort}
use bubblog_ai.Aggregate.{ChunkHit}
use bubblog_ai.Search.{
  Doubles, Weights, PlanSort, created_at_desc, created_at_asc, VectorQuery, TextQuery, Sources,
}
use bubblog_ai.Posts.Tables.{
  BlogPost, ClosureRow, PostChunk, TitleEmbedding, Blog, Sql, find_post_by_id, any_descendant,
  in_category, filtered_posts, TimeRange, always, invalid, range, times, time_range, in_range,
  Scored, query_text, patterns, any_like, likes,
}

module _ {W : Type 0} (n : Doubles W) (sql : Sql W) where
  -- `score DESC`, then the time.
  abbrev pub ordered_before : PlanSort → Scored W → Scored W → Bool
  ordered_before created_at_desc a b =
      n.less b.score a.score
      || (not (n.less a.score b.score) && ltb b.post.created_at a.post.created_at)
  ordered_before created_at_asc a b =
      n.less b.score a.score
      || (not (n.less a.score b.score) && ltb a.post.created_at b.post.created_at)

  abbrev score_before : Scored W → Scored W → Bool
  score_before a b = n.less b.score a.score

  abbrev clamped : W → W
  clamped w = n.larger (n.decimal 0 0) (n.smaller (n.decimal 1 0) w)

  -- `1.0 - (a <=> b)`
  abbrev closeness_of : List W → List W → W
  closeness_of a b = n.minus (n.decimal 1 0) (sql.distance a b)

  abbrev vector_scored : W → W → List W → BlogPost → PostChunk W → TitleEmbedding W → Scored W
  vector_scored chunk_weight title_weight e p c t = record {
    post = p;
    chunk = c;
    score =
        n.plus (n.times chunk_weight (closeness_of c.embedding e))
          (n.times title_weight (closeness_of t.embedding e));
    other_score = n.decimal 0 0;
  }

  -- The chunks of a post with its embedded title.
  abbrev pub vector_rows_of : Blog W → W → W → List W → BlogPost → List (Scored W)
  vector_rows_of b chunk_weight title_weight e p = concat (
      map
        (λ c.
          map (λ t. vector_scored chunk_weight title_weight e p c t)
            (filter (λ t. t.post_id == p.id) b.titles))
        (filter (λ c. c.post_id == p.id) b.chunks))

  abbrev pub vector_rows : Blog W → W → W → List W → List BlogPost → List (Scored W)
  vector_rows b chunk_weight title_weight e ps =
      concat (map (vector_rows_of b chunk_weight title_weight e) ps)

  abbrev pub is_near : W → List W → Scored W → Bool
  is_near threshold e r = n.less threshold (closeness_of r.chunk.embedding e)

  abbrev pub vector_hit : Scored W → ChunkHit W
  vector_hit r = record {
    post_id = number_text r.post.id;
    post_title = r.post.title;
    post_chunk = r.chunk.content;
    similarity_score = r.score;
    chunk_index = some r.chunk.chunk_index;
    post_created_at = some (sql.time_text r.post.created_at);
  }

  abbrev plain_hit : Scored W → ChunkHit W
  plain_hit r = record (vector_hit r) { chunk_index = none; post_created_at = none }

  -- `if (categoryId)`
  abbrev truthy_category : Option ℕ → Option ℕ
  truthy_category (some (suc c)) = some (suc c)
  truthy_category _ = none

  unfoldable pub find_similar_chunks : Blog W → Text → List W → Option ℕ → List (ChunkHit W)
  unfolding filter sort filtered_posts number_text
  find_similar_chunks b user_id e category = map plain_hit (
      take 5 (
        sort score_before (
          filter (is_near (n.decimal 2 1) e) (
            vector_rows b (n.decimal 7 1) (n.decimal 3 1) e
              (filtered_posts b user_id (truthy_category category))))))

  -- The rows of `findSimilarChunksV2` before their order, in a range of times.
  unfoldable pub similar_rows : Blog W → Text → List W → VectorQuery W → TimeRange → List (Scored W)
  unfolding filter filtered_posts
  similar_rows b user_id e q times =
      filter (λ r. is_near (clamped q.threshold) e r && in_range times r.post.created_at)
        (vector_rows b (clamped q.weights.chunk) (clamped q.weights.title) e
          (filtered_posts b user_id q.category_id))

  abbrev pub unless_invalid : {A : Type 0} → TimeRange → A → Option A
  unless_invalid invalid a = none
  unless_invalid _ a = some a

  unfoldable pub find_similar_chunks_v2 :
      Blog W → Text → List W → VectorQuery W → Option (List (ChunkHit W))
  unfolding similar_rows sort time_range number_text
  find_similar_chunks_v2 b user_id e q =
      let times = time_range sql.read_time q.from q.to in
      unless_invalid times (
        map vector_hit (
          take (min 10 (max 1 q.top_k))
            (sort (ordered_before q.order) (similar_rows b user_id e q times))))

  abbrev nearer_chunk : List W → PostChunk W → PostChunk W → Bool
  nearer_chunk e a b = n.less (sql.distance a.embedding e) (sql.distance b.embedding e)

  -- `nn`
  unfoldable pub nearest : Blog W → List W → ℕ → List (PostChunk W)
  unfolding sort
  nearest b e most = take most (sort (nearer_chunk e) b.chunks)

  -- `scored`, made of the chunks of `nn`.
  abbrev pub scored_rows : Blog W → W → W → List W → List (PostChunk W) → List (Scored W)
  scored_rows b chunk_weight title_weight e cs = concat (
      map
        (λ c. concat (
          map
            (λ p.
              map (λ t. vector_scored chunk_weight title_weight e p c t)
                (filter (λ t. t.post_id == c.post_id) b.titles))
            (filter (λ p. p.id == c.post_id) b.posts)))
        cs)

  unfoldable pub find_similar_chunks_global_ann :
      Blog W → List W → ℕ → VectorQuery W → List (ChunkHit W)
  unfolding filter sort nearest number_text
  find_similar_chunks_global_ann b e ann_factor q =
      let top_k = min 50 (max 1 q.top_k) in
      let ann_limit = min 500 (top_k * min 20 (max 1 ann_factor)) in
      map vector_hit (
        take top_k (
          sort (ordered_before q.order) (
            filter (is_near (clamped q.threshold) e) (
              scored_rows b (clamped q.weights.chunk) (clamped q.weights.title) e
                (nearest b e ann_limit)))))

  abbrev similarity_to : Option Text → Text → W
  similarity_to none t = n.decimal 0 0
  similarity_to (some q) t = sql.similarity t q

  -- The chunks of the posts, embedded title or not, with `content_sim` and `title_sim`.
  abbrev pub text_rows : Blog W → Option Text → List BlogPost → List (Scored W)
  text_rows b q ps = concat (
      map
        (λ p.
          map
            (λ c. record {
              post = p;
              chunk = c;
              score = similarity_to q c.content;
              other_score = similarity_to q p.title;
            })
            (filter (λ c. c.post_id == p.id) b.chunks))
        ps)

  abbrev number_or_zero : W → W
  number_or_zero w = if n.truthy w then w else n.decimal 0 0

  abbrev pub text_hit : Scored W → ChunkHit W
  text_hit r = record (vector_hit r) {
    similarity_score = n.larger (number_or_zero r.score) (number_or_zero r.other_score);
  }

  unfoldable pub matching_rows : Blog W → List BlogPost → TextQuery → TimeRange → List (Scored W)
  unfolding filter trim
  matching_rows b ps q times =
      filter
        (λ r.
          in_range times r.post.created_at
          && likes sql.ilike (patterns q.keywords) r.chunk.content r.post.title)
        (text_rows b (query_text (some q.query)) ps)

  unfoldable pub text_search_chunks_v2 : Blog W → Text → TextQuery → Option (List (ChunkHit W))
  unfolding matching_rows filtered_posts sort time_range number_text
  text_search_chunks_v2 b user_id q =
      let times = time_range sql.read_time q.from q.to in
      unless_invalid times (
        map text_hit (
          take (min 10 (max 1 q.top_k)) (
            sort (ordered_before q.order)
              (matching_rows b (filtered_posts b user_id q.category_id) q times))))

  -- Its rows have no `chunkIndex`.
  unfoldable pub text_search_chunks_global : Blog W → TextQuery → List (ChunkHit W)
  unfolding matching_rows sort number_text
  text_search_chunks_global b q =
      map (λ r. record (text_hit r) { chunk_index = none })
        (take (min 50 (max 1 q.top_k))
          (sort (ordered_before q.order) (matching_rows b b.posts q always)))

  abbrev embedded_query : Blog W → Option Text → List W → VectorQuery W → Option (List (ChunkHit W))
  embedded_query b none e q = some (find_similar_chunks_global_ann b e 5 q)
  embedded_query b (some user_id) e q = find_similar_chunks_v2 b user_id e q

  abbrev of_embedding : Blog W → Option (List W) → VectorQuery W → Option (List (ChunkHit W))
  of_embedding b none q = if sql.vector_required then none else some []
  of_embedding b (some e) q = embedded_query b q.user_id e q

  abbrev of_text : Blog W → Option Text → TextQuery → Option (List (ChunkHit W))
  of_text b none q = some (text_search_chunks_global b q)
  of_text b (some user_id) q = text_search_chunks_v2 b user_id q

  -- The repository as the searches use it.
  abbrev pub sources_of : Blog W → (List Text → Option (List (List W))) → Sources W
  sources_of b create_embeddings = record {
    create_embeddings = create_embeddings;
    similar = λ q. of_embedding b q.embedding q;
    textual = λ q. of_text b q.user_id q;
  }
