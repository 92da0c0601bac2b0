-- ===== src/Aggregate.antt =====
-- services/search-aggregate.service.ts: chunks grouped by post, the best chunk of each post, and a page
-- of the posts. Options below 0 count as 0, which has the same effect.
pub mod Page
pub mod Groups
use bubblog_ai.Prelude.{
  ℕ, min, max, Bool, Option, none, some, List, [], ◌∷◌, ◌++◌, length, take, drop, if◌then◌else◌,
}
use bubblog_ai.Prelude.Text.{Text, text_eq}
use bubblog_ai.Prelude.Sort.{sort}

-- JavaScript numbers, as far as the aggregation calculates with them: `same` is `===`, `fifth` is 0.2, and
-- `date_parse` is `Date.parse`.
pub record Scores (S : Type 0) : Type 0 where
  pub zero : S
  pub fifth : S
  pub plus : S → S → S
  pub times : S → S → S
  pub less : S → S → Bool
  pub same : S → S → Bool
  pub date_parse : Text → S

pub record ChunkHit (S : Type 0) : Type 0 where
  pub post_id : Text
  pub post_title : Text
  pub post_chunk : Text
  pub similarity_score : S
  pub chunk_index : Option ℕ
  pub post_created_at : Option Text

pub record PostHit (S : Type 0) : Type 0 where
  pub post_id : Text
  pub post_title : Text
  pub score : S
  pub created_at : Option Text
  pub best : ChunkHit S

-- An entry of `byPost`, whose array always has a first chunk.
pub record Group (S : Type 0) : Type 0 where
  pub post_id : Text
  pub first_hit : ChunkHit S
  pub more : List (ChunkHit S)

pub record AggregateOptions : Type 0 where
  pub limit : Option ℕ
  pub offset : Option ℕ

pub record Aggregated (S : Type 0) : Type 0 where
  pub posts : List (PostHit S)
  pub total : ℕ

abbrev pub or_default : ℕ → Option ℕ → ℕ
or_default d none = d
or_default d (some n) = n

module _ {S : Type 0} where
  unfoldable pub add_hit : ChunkHit S → List (Group S) → List (Group S)
  add_hit c [] = record { post_id = c.post_id; first_hit = c; more = [] } ∷ []
  add_hit c (g ∷ gs) =
      let rest = add_hit c gs in
      if text_eq g.post_id c.post_id then record g { more = g.more ++ (c ∷ []) } ∷ gs else g ∷ rest

  unfoldable pub group_hits : List (Group S) → List (ChunkHit S) → List (Group S)
  unfolding add_hit
  group_hits gs [] = gs
  group_hits gs (c ∷ cs) = group_hits (add_hit c gs) cs

module _ {S : Type 0} (n : Scores S) where
  -- `b.similarityScore - a.similarityScore` is below 0.
  abbrev pub better : ChunkHit S → ChunkHit S → Bool
  better a b = n.less b.similarity_score a.similarity_score

  -- The score of the sorted chunks of a post; `top` is the first of them.
  abbrev pub post_of : Text → List (ChunkHit S) → List (PostHit S)
  post_of post_id [] = []
  post_of post_id (top ∷ []) =
      record {
        post_id = post_id;
        post_title = top.post_title;
        score = n.plus top.similarity_score n.zero;
        created_at = top.post_created_at;
        best = top;
      }
      ∷ []
  post_of post_id (top ∷ second ∷ _) =
      record {
        post_id = post_id;
        post_title = top.post_title;
        score = n.plus top.similarity_score (n.times n.fifth second.similarity_score);
        created_at = top.post_created_at;
        best = top;
      }
      ∷ []

  unfoldable pub posts_of : List (Group S) → List (PostHit S)
  unfolding sort
  posts_of [] = []
  posts_of (g ∷ gs) = post_of g.post_id (sort better (g.first_hit ∷ g.more)) ++ posts_of gs

  -- `createdAt ? Date.parse(createdAt) : 0`
  abbrev pub time_of : Option Text → S
  time_of none = n.zero
  time_of (some []) = n.zero
  time_of (some (c ∷ cs)) = n.date_parse (c ∷ cs)

  -- The comparison of `a` with `b` is below 0: a difference is below 0 where its first term is smaller.
  abbrev pub before : PostHit S → PostHit S → Bool
  before a b =
      if n.same b.score a.score
      then n.less (time_of b.created_at) (time_of a.created_at)
      else n.less b.score a.score

  unfoldable pub all_posts : List (ChunkHit S) → List (PostHit S)
  unfolding posts_of group_hits sort
  all_posts chunks = sort before (posts_of (group_hits [] chunks))

  unfoldable pub aggregate_posts : List (ChunkHit S) → AggregateOptions → Aggregated S
  unfolding all_posts
  aggregate_posts chunks o =
      let posts = all_posts chunks in
      record {
        posts = take (max 1 (min 10 (or_default 10 o.limit))) (drop (or_default 0 o.offset) posts);
        total = length posts;
      }
