-- ===== src/Posts/Tables.antt =====
-- repositories/post.repository.ts: the tables that its queries read, and the conditions of the queries.
use bubblog_ai.Prelude.{
  ℕ, Bool, true, false, not, ◌&&◌, ◌||◌, leb, ◌==◌, Option, none, some, List, [], ◌∷◌, ◌++◌, map,
  if◌then◌else◌,
}
use bubblog_ai.Prelude.Text.{Text, codes, text_eq, trim, is_empty}
use bubblog_ai.Prelude.Filter.{filter, find}

-- Times are counted in the database's unit.
pub record BlogPost : Type 0 where
  pub id : ℕ
  pub title : Text
  pub content : Text
  pub created_at : ℕ
  pub user_id : Text
  pub is_public : Bool
  pub category_id : Option ℕ

pub record ClosureRow : Type 0 where
  pub ancestor_id : ℕ
  pub descendant_id : ℕ

pub record PostChunk (W : Type 0) : Type 0 where
  pub post_id : ℕ
  pub chunk_index : ℕ
  pub content : Text
  pub embedding : List W

pub record TitleEmbedding (W : Type 0) : Type 0 where
  pub post_id : ℕ
  pub embedding : List W

pub record Blog (W : Type 0) : Type 0 where
  pub posts : List BlogPost
  pub closure : List ClosureRow
  pub chunks : List (PostChunk W)
  pub titles : List (TitleEmbedding W)

-- What the queries use of PostgreSQL, pgvector and pg_trgm: `<=>`, `similarity`, `ILIKE`, a time as the
-- driver returns it, a text as a time, `none` where it is none, and whether an embedding that is not
-- there makes the query throw; if it does not, it selects no rows.
pub record Sql (W : Type 0) : Type 0 where
  pub distance : List W → List W → W
  pub similarity : Text → Text → W
  pub ilike : Text → Text → Bool
  pub time_text : ℕ → Text
  pub read_time : Text → Option ℕ
  pub vector_required : Bool

unfoldable pub find_post_by_id : {W : Type 0} → Blog W → ℕ → Option BlogPost
unfolding find
find_post_by_id b post_id = find (λ p. p.id == post_id) b.posts

abbrev pub any_descendant : ℕ → ℕ → List ClosureRow → Bool
any_descendant category d [] = false
any_descendant category d (r ∷ rs) =
    ((r.ancestor_id == category) && (r.descendant_id == d)) || any_descendant category d rs

-- `category_id IN (SELECT descendant_id FROM category_ids)`, or no condition.
abbrev pub in_category : List ClosureRow → Option ℕ → Option ℕ → Bool
in_category closure none d = true
in_category closure (some category) none = false
in_category closure (some category) (some d) = any_descendant category d closure

-- `filtered_posts`
unfoldable pub filtered_posts : {W : Type 0} → Blog W → Text → Option ℕ → List BlogPost
unfolding filter
filtered_posts b user_id category =
    filter (λ p. text_eq p.user_id user_id && in_category b.closure category p.category_id) b.posts

-- `created_at BETWEEN`, where both texts are given and not empty. A text that is no time is an error.
pub data TimeRange : Type 0 where
  always invalid : TimeRange
  range : ℕ → ℕ → TimeRange

abbrev pub times : Option ℕ → Option ℕ → TimeRange
times (some a) (some b) = range a b
times _ _ = invalid

unfoldable pub time_range : (Text → Option ℕ) → Option Text → Option Text → TimeRange
time_range read (some f) (some t) =
    if is_empty f || is_empty t then always else times (read f) (read t)
time_range read _ _ = always

abbrev pub in_range : TimeRange → ℕ → Bool
in_range (range a b) t = leb a t && leb t b
in_range _ t = true

-- A row of a query: what the result is made of, and the keys of its order.
pub record Scored (W : Type 0) : Type 0 where
  pub post : BlogPost
  pub chunk : PostChunk W
  pub score : W
  pub other_score : W

abbrev pub query_text : Option Text → Option Text
query_text none = none
query_text (some q) = if is_empty (trim q) then none else some q

abbrev pub patterns : List Text → List Text
patterns ks = map (λ k. codes "%" ++ k ++ codes "%") (filter (λ k. not (is_empty (trim k))) ks)

abbrev pub any_like : (Text → Text → Bool) → Text → List Text → Bool
any_like ilike t [] = false
any_like ilike t (p ∷ ps) = ilike t p || any_like ilike t ps

-- `ILIKE ANY`, where there are patterns.
abbrev pub likes : (Text → Text → Bool) → List Text → Text → Text → Bool
likes ilike [] content title = true
likes ilike (p ∷ ps) content title =
    any_like ilike content (p ∷ ps) || any_like ilike title (p ∷ ps)
