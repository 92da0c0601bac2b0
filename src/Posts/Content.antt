-- ===== src/Posts/Content.antt =====
-- repositories/post.repository.ts: the stores as updates of the map from posts.
use bubblog_ai.Prelude.{
  ℕ, ◌≡◌, refl, ap, ◌∙◌, Bool, true, false, ◌||◌, ◌==◌, arith, none, some, List, [], ◌∷◌,
  if◌then◌else◌,
}
use bubblog_ai.Prelude.Text.{Text}
use bubblog_ai.Repository.{Outcome, returned, threw}
use bubblog_ai.Posts.Tables.{PostChunk, Blog}
use bubblog_ai.Posts.Store.{
  Pool, Choices, store_title_embedding, without, with_rows, after_begin, store_content_embeddings,
  run_change, run_commit, run_rollback,
}
use bubblog_ai.Posts.Index.{
  Index, update, index_of, chunks_of, chunks_of-replaced, title_in-store_title_embedding,
  chunks-kept, Index-ext,
}

-- Which statements of the store are refused, all on the connection `c`.
abbrev pub on_one : ℕ → Bool → Bool → Bool → Bool → Choices
on_one c begin delete insert commit = record {
  begin_on = c;
  delete_on = c;
  insert_on = c;
  commit_on = c;
  rollback_on = c;
  begin_fails = begin;
  delete_fails = delete;
  insert_fails = insert;
  commit_fails = commit;
}

-- A call of a store.
pub data StoreCall (W : Type 0) : Type 0 where
  title_call : ℕ → List W → StoreCall W
  content_call : ℕ → List (Text × List W) → ℕ → Bool → Bool → Bool → Bool → StoreCall W

same : (c : ℕ) → (c == c) ≡ true
same c = ground arith

module _ {W : Type 0} where
  -- After the store over one connection: all of it, or nothing of it.
  pub record Stored (b : Blog W) (p : ℕ) (xs : List (Text × List W)) (fails : Bool)
      (r : Pool W × Outcome) : Type 0 where
    pub blog :
        r.0.blog ≡ (if fails then b else record b { chunks = with_rows p xs (without p b.chunks) })
    pub idle : r.0.held ≡ none
    pub outcome : r.1 ≡ (if fails then threw else returned)

  run_change-held :
      (c : ℕ) (f : List (PostChunk W) → List (PostChunk W)) (s : Pool W)
      → s.held ≡ some c
      → run_change c f s ≡ record s { pending = λ cs. f (s.pending cs) }
  unfolding run_change
  run_change-held c f s h = rw (h, same c) refl

  run_commit-held :
      (c : ℕ) (s : Pool W)
      → s.held ≡ some c
      → run_commit c s ≡ record {
        blog = record s.blog { chunks = s.pending s.blog.chunks };
        held = none;
        pending = λ cs. cs;
      }
  unfolding run_commit
  run_commit-held c s h = rw (h, same c) refl

  run_rollback-held :
      (c : ℕ) (s : Pool W)
      → s.held ≡ some c
      → run_rollback c s ≡ record { blog = s.blog; held = none; pending = λ cs. cs }
  unfolding run_rollback
  run_rollback-held c s h = rw (h, same c) refl

  run_rollback-idle : (c : ℕ) (s : Pool W) → s.held ≡ none → run_rollback c s ≡ s
  unfolding run_rollback
  run_rollback-idle c s h = rw (h) refl

  abbrev begun : ℕ → Pool W → Pool W
  begun c s = record s { held = some c; pending = λ cs. cs }

  abbrev deleted : ℕ → ℕ → Pool W → Pool W
  deleted c p s = record s { held = some c; pending = without p }

  abbrev filled : ℕ → ℕ → List (Text × List W) → Pool W → Pool W
  filled c p xs s = record s { held = some c; pending = λ cs. with_rows p xs (without p cs) }

  pub store_content_embeddings-Stored :
      (c p : ℕ) (xs : List (Text × List W)) (f g h i : Bool) (s : Pool W)
      → s.held ≡ none
      → Stored s.blog p xs (f || g || h || i) (store_content_embeddings (on_one c f g h i) p xs s)
  unfolding store_content_embeddings after_begin
  store_content_embeddings-Stored c p xs true g h i s e = record {
    blog = refl;
    idle = e;
    outcome = refl;
  }
  store_content_embeddings-Stored c p xs false true h i s e =
      rw (run_rollback-held c (begun c s) refl)
        (record { blog = refl; idle = refl; outcome = refl })
  store_content_embeddings-Stored c p xs false false true i s e =
      rw (run_change-held c (without p) (begun c s) refl, run_rollback-held c (deleted c p s) refl)
        (record { blog = refl; idle = refl; outcome = refl })
  store_content_embeddings-Stored c p xs false false false true s e =
      rw
        (
          run_change-held c (without p) (begun c s) refl,
          run_change-held c (with_rows p xs) (deleted c p s) refl,
          run_rollback-held c (filled c p xs s) refl,
          run_rollback-idle c (record s { held = none; pending = λ cs. cs }) refl,
        )
        (record { blog = refl; idle = refl; outcome = refl })
  store_content_embeddings-Stored c p xs false false false false s e =
      rw
        (
          run_change-held c (without p) (begun c s) refl,
          run_change-held c (with_rows p xs) (deleted c p s) refl,
          run_commit-held c (filled c p xs s) refl,
        )
        (record { blog = refl; idle = refl; outcome = refl })

  unfoldable pub run_store : StoreCall W → Pool W → Pool W
  unfolding store_title_embedding store_content_embeddings
  run_store (title_call p e) s = record s { blog = store_title_embedding s.blog p e }
  run_store (content_call p xs c f g h i) s = (store_content_embeddings (on_one c f g h i) p xs s).0

  unfoldable pub run_stores : List (StoreCall W) → Pool W → Pool W
  unfolding run_store
  run_stores [] s = s
  run_stores (k ∷ ks) s = run_stores ks (run_store k s)

  -- The same calls on the map: an update each, or nothing where a statement is refused.
  unfoldable pub index_store : StoreCall W → Index W → Index W
  index_store (title_call p e) x = record x { title = update p (some e) x.title }
  index_store (content_call p xs c f g h i) x =
      if f || g || h || i then x else record x { contents = update p xs x.contents }

  unfoldable pub index_stores : List (StoreCall W) → Index W → Index W
  unfolding index_store
  index_stores [] x = x
  index_stores (k ∷ ks) x = index_stores ks (index_store k x)

  pub content-refines :
      (b d : Blog W) (p : ℕ) (xs : List (Text × List W)) (fails : Bool)
      → d ≡ (if fails then b else record b { chunks = with_rows p xs (without p b.chunks) })
      → index_of d ≡ (
          if fails
          then index_of b
          else record (index_of b) { contents = update p xs (index_of b).contents })
  content-refines b d p xs true h = ap index_of h
  content-refines b d p xs false h =
      ap index_of h ∙ Index-ext _ _ (chunks_of-replaced p xs b.chunks) refl

  run_store-refines :
      (k : StoreCall W) (s : Pool W)
      → s.held ≡ none
      → (index_of (run_store k s).blog ≡ index_store k (index_of s.blog))
        × ((run_store k s).held ≡ none)
  unfolding run_store index_store store_title_embedding
  run_store-refines (title_call p e) s h = (
    Index-ext _ _ (ap chunks_of (chunks-kept s.blog p e))
        (title_in-store_title_embedding s.blog p e),
    h,
  )
  run_store-refines (content_call p xs c f g h' i) s h =
      let t = store_content_embeddings-Stored c p xs f g h' i s h in
      (content-refines s.blog _ p xs (f || g || h' || i) t.blog, t.idle)

  -- On a pool with no open transaction, any stores of titles and contents, each on one connection, whatever
  -- statements are refused, do to the tables, seen as a map from posts to their embedded chunks and
  -- their embedded titles, what the same updates do to the map: a content is replaced as a whole, or, if
  -- one of its statements is refused, not at all. No transaction is left open.
  pub run_stores-refines :
      (ks : List (StoreCall W)) (s : Pool W)
      → s.held ≡ none
      → (index_of (run_stores ks s).blog ≡ index_stores ks (index_of s.blog))
        × ((run_stores ks s).held ≡ none)
  unfolding run_stores index_stores
  run_stores-refines [] s h = (refl, h)
  run_stores-refines (k ∷ ks) s h =
      let one = run_store-refines k s h in
      let rest = run_stores-refines ks (run_store k s) one.1 in
      (rest.0 ∙ ap (index_stores ks) one.0, rest.1)
