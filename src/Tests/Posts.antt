-- ===== src/Tests/Posts.antt =====
-- Tests of `Posts`, with thousandths for numbers.
use bubblog_ai.Prelude.{ℕ, ◌≡◌, refl, true, false, none, some, List, [], ◌∷◌}
use bubblog_ai.Prelude.Text.{codes}
use bubblog_ai.Repository.{threw}
use bubblog_ai.Posts.Tables.{BlogPost, PostChunk, Blog, Sql}
use bubblog_ai.Posts.Store.{Pool, Choices, store_content_embeddings}
use bubblog_ai.Posts.Index.{index_of}
use bubblog_ai.Posts.Content.{
  StoreCall, title_call, content_call, run_stores, index_stores, run_stores-refines,
}

abbrev pub tea_post : BlogPost
tea_post = record {
  id = 4;
  title = codes "Tea";
  content = codes "Green tea.";
  created_at = 7;
  user_id = codes "o";
  is_public = true;
  category_id = none;
}

abbrev pub tea_chunk : PostChunk ℕ
tea_chunk = record {
  post_id = 4;
  chunk_index = 0;
  content = codes "Green tea.";
  embedding = 900 ∷ [];
}

abbrev pub tea_blog : Blog ℕ
tea_blog = record {
  posts = tea_post ∷ [];
  closure = [];
  chunks = tea_chunk ∷ [];
  titles = record { post_id = 4; embedding = 800 ∷ [] } ∷ [];
}

abbrev pub plain_sql : Sql ℕ
plain_sql = record {
  distance = λ a b. 100;
  similarity = λ a b. 300;
  ilike = λ t p. false;
  time_text = λ t. codes "2026-01-01";
  read_time = λ t. some 7;
  vector_required = true;
}

abbrev pub idle_pool : Pool ℕ
idle_pool = record { blog = tea_blog; held = none; pending = λ cs. cs }

abbrev calls : List (StoreCall ℕ)
calls =
    title_call 4 (700 ∷ [])
    ∷ content_call 4 ((codes "Black tea.", 600 ∷ []) ∷ []) 1 false false true false
    ∷ content_call 5 ((codes "Coffee.", 500 ∷ []) ∷ []) 2 false false false false
    ∷ []

run_stores-refines_example :
    (index_of (run_stores calls idle_pool).blog ≡ index_stores calls (index_of tea_blog))
    × ((run_stores calls idle_pool).held ≡ none)
run_stores-refines_example = run_stores-refines calls idle_pool refl

-- `DELETE` on another connection than `BEGIN` is not rolled back when `INSERT` is refused: the post has
-- lost its chunks.
abbrev scattered : Choices
scattered = record {
  begin_on = 1;
  delete_on = 2;
  insert_on = 1;
  commit_on = 1;
  rollback_on = 1;
  begin_fails = false;
  delete_fails = false;
  insert_fails = true;
  commit_fails = false;
}

chunks_lost :
    ((store_content_embeddings scattered 4
        ((codes "Black tea.", 600 ∷ []) ∷ [])
        idle_pool).0.blog.chunks
      ≡ [])
    × ((store_content_embeddings scattered 4 ((codes "Black tea.", 600 ∷ []) ∷ []) idle_pool).1
        ≡ threw)
unfolding store_content_embeddings
chunks_lost = (refl, refl)
