-- ===== src/Tests/Aggregate.antt =====
-- Tests of `Aggregate`, with natural numbers for scores.
use Prim.Native.Nat.{◌/◌}
use bubblog_ai.Prelude.{ℕ, ◌+◌, ◌≡◌, refl, ◌*◌, ◌==◌, map, none, some, List, [], ◌∷◌, length, ltb}
use bubblog_ai.Prelude.Text.{Text, codes}
use bubblog_ai.Prelude.Sort.{sort, insert}
use bubblog_ai.Aggregate.{
  Scores, ChunkHit, AggregateOptions, add_hit, group_hits, posts_of, all_posts, aggregate_posts,
}

-- Thousandths, and the length of a date for its time.
abbrev pub scores : Scores ℕ
scores = record {
  zero = 0;
  fifth = 200;
  plus = λ a b. a + b;
  times = λ a b. a * b / 1000;
  less = ltb;
  same = λ a b. a == b;
  date_parse = λ t. length t;
}

abbrev hit : Text → ℕ → ChunkHit ℕ
hit post score = record {
  post_id = post;
  post_title = post;
  post_chunk = post;
  similarity_score = score;
  chunk_index = none;
  post_created_at = none;
}

abbrev hits : List (ChunkHit ℕ)
hits =
    hit (codes "a") 3000 ∷ hit (codes "b") 4000 ∷ hit (codes "a") 2000 ∷ hit (codes "c") 3400 ∷ []

abbrev options : AggregateOptions
options = record { limit = some 3; offset = none }

-- The second chunk of a post counts by a fifth, and equal scores are left in the order of the chunks.
scored : map (λ p. p.score) (aggregate_posts scores hits options).posts ≡ 4000 ∷ 3400 ∷ 3400 ∷ []
unfolding aggregate_posts all_posts posts_of group_hits add_hit sort insert
scored = refl
