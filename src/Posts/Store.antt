-- ===== src/Posts/Store.antt =====
-- repositories/post.repository.ts: the embeddings of a title and of the chunks of a content, stored over a
-- pool that runs each statement on a connection of its choice.
use bubblog_ai.Prelude.{
  ℕ, suc, Bool, false, not, ◌==◌, Option, none, some, List, [], ◌∷◌, ◌++◌, map, if◌then◌else◌,
}
use bubblog_ai.Prelude.Text.{Text}
use bubblog_ai.Prelude.Filter.{filter, find}
use bubblog_ai.Repository.{Outcome, returned, threw}
use bubblog_ai.Posts.Tables.{PostChunk, Blog}

-- The tables as committed, and the transaction that is open: its connection and what it does to the chunks.
pub record Pool (W : Type 0) : Type 0 where
  pub blog : Blog W
  pub held : Option ℕ
  pub pending : List (PostChunk W) → List (PostChunk W)

-- The connections that the statements get, and which of them are refused.
pub record Choices : Type 0 where
  pub begin_on : ℕ
  pub delete_on : ℕ
  pub insert_on : ℕ
  pub commit_on : ℕ
  pub rollback_on : ℕ
  pub begin_fails : Bool
  pub delete_fails : Bool
  pub insert_fails : Bool
  pub commit_fails : Bool

abbrev pub holds : Option ℕ → ℕ → Bool
holds none c = false
holds (some h) c = h == c

module _ {W : Type 0} where
  -- `INSERT ... ON CONFLICT (post_id) DO UPDATE`
  unfoldable pub store_title_embedding : Blog W → ℕ → List W → Blog W
  unfolding find
  store_title_embedding b post_id e = elim (find (λ t. t.post_id == post_id) b.titles) [
    | none ↦ record b { titles = b.titles ++ (record { post_id = post_id; embedding = e } ∷ []) }
    | some _ ↦ record b {
      titles = map (λ t. if t.post_id == post_id then record t { embedding = e } else t) b.titles;
    }
  ]

  -- The rows of `UNNEST`: the chunks with their embeddings, the arrays being of the same length.
  unfoldable pub unnest : ℕ → ℕ → List (Text × List W) → List (PostChunk W)
  unnest post_id i [] = []
  unnest post_id i (x ∷ xs) =
      record { post_id = post_id; chunk_index = i; content = x.0; embedding = x.1 }
      ∷ unnest post_id (suc i) xs

  unfoldable pub without : ℕ → List (PostChunk W) → List (PostChunk W)
  unfolding filter
  without post_id cs = filter (λ c. not (c.post_id == post_id)) cs

  abbrev pub with_rows : ℕ → List (Text × List W) → List (PostChunk W) → List (PostChunk W)
  with_rows post_id xs cs = cs ++ unnest post_id 0 xs

  abbrev released : Pool W → Pool W
  released s = record s { held = none; pending = λ cs. cs }

  abbrev on_chunks : (List (PostChunk W) → List (PostChunk W)) → Blog W → Blog W
  on_chunks f b = record b { chunks = f b.chunks }

  -- A statement in the transaction, or by itself on another connection.
  unfoldable pub run_change : ℕ → (List (PostChunk W) → List (PostChunk W)) → Pool W → Pool W
  run_change c f s =
      if holds s.held c
      then record s { pending = λ cs. f (s.pending cs) }
      else record s { blog = on_chunks f s.blog }

  unfoldable pub run_commit : ℕ → Pool W → Pool W
  run_commit c s =
      if holds s.held c then released (record s { blog = on_chunks s.pending s.blog }) else s

  unfoldable pub run_rollback : ℕ → Pool W → Pool W
  run_rollback c s = if holds s.held c then released s else s

  -- A `COMMIT` that is refused ends the transaction all the same, and then comes `ROLLBACK`.
  unfoldable pub after_begin : Choices → ℕ → List (Text × List W) → Pool W → Pool W × Outcome
  unfolding run_change run_commit run_rollback without unnest
  after_begin k post_id xs s =
      if k.delete_fails
      then (run_rollback k.rollback_on s, threw)
      else let s1 = run_change k.delete_on (without post_id) s in
        if k.insert_fails
        then (run_rollback k.rollback_on s1, threw)
        else let s2 = run_change k.insert_on (with_rows post_id xs) s1 in
          if k.commit_fails
          then (run_rollback k.rollback_on (run_rollback k.commit_on s2), threw)
          else (run_commit k.commit_on s2, returned)

  unfoldable pub store_content_embeddings :
      Choices → ℕ → List (Text × List W) → Pool W → Pool W × Outcome
  unfolding after_begin
  store_content_embeddings k post_id xs s =
      if k.begin_fails
      then (s, threw)
      else after_begin k post_id xs (record s { held = some k.begin_on; pending = λ cs. cs })
