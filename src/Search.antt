-- ===== src/Search.antt =====
-- types/ai.v2.types.ts, services/retrieval-presets.ts, services/semantic-search.service.ts: the plan of a
-- search, the presets of a hybrid search, the queries that a search makes, and the semantic search.
use bubblog_ai.Prelude.{ℕ, ◌*◌, Bool, true, false, Option, none, some, List, [], ◌∷◌}
use bubblog_ai.Prelude.Text.{Text}
use bubblog_ai.Prelude.Int.{ℤ}
use bubblog_ai.Aggregate.{ChunkHit}

-- JavaScript numbers, as far as the searches calculate with them: `decimal n d` is n / 10 ^ d, `truthy`
-- is false for 0 and NaN, and `larger`, `smaller`, `root` are the functions of `Math`.
pub record Doubles (W : Type 0) : Type 0 where
  pub decimal : ℕ → ℕ → W
  pub plus : W → W → W
  pub minus : W → W → W
  pub times : W → W → W
  pub over : W → W → W
  pub larger : W → W → W
  pub smaller : W → W → W
  pub root : W → W
  pub less : W → W → Bool
  pub truthy : W → Bool

pub data RetrievalBias : Type 0 where
  lexical balanced semantic : RetrievalBias

pub record RetrievalPreset (W : Type 0) : Type 0 where
  pub alpha : W
  pub sem_boost_threshold : W
  pub lex_boost_threshold : W

pub data TimeUnit : Type 0 where
  day week month year : TimeUnit

pub data TimePreset : Type 0 where
  all_time all today yesterday last_7_days last_14_days last_30_days : TimePreset
  this_month last_month : TimePreset

pub data TimeFilter : Type 0 where
  absolute : Text → Text → TimeFilter
  relative : TimeUnit → ℕ → TimeFilter
  month_of : Option ℤ → ℕ → TimeFilter
  quarter_of : Option ℤ → ℕ → TimeFilter
  year_of : ℤ → TimeFilter
  named : TimePreset → TimeFilter
  label : Text → TimeFilter

pub data PlanMode : Type 0 where
  rag post : PlanMode

pub data PlanSort : Type 0 where
  created_at_desc created_at_asc : PlanSort

pub record Weights (W : Type 0) : Type 0 where
  pub chunk : W
  pub title : W

pub record HybridPlan (W : Type 0) : Type 0 where
  pub enabled : Bool
  pub retrieval_bias : RetrievalBias
  pub alpha : Option W
  pub max_rewrites : ℕ
  pub max_keywords : ℕ

-- A plan that `planSchema` accepts, its defaults filled in.
pub record SearchPlan (W : Type 0) : Type 0 where
  pub mode : PlanMode
  pub top_k : ℕ
  pub threshold : W
  pub weights : Weights W
  pub rewrites : List Text
  pub keywords : List Text
  pub hybrid : HybridPlan W
  pub time : Option TimeFilter
  pub order : PlanSort
  pub limit : ℕ

-- The parameters of `findSimilarChunksV2`, and without a user those of `findSimilarChunksGlobalANN`.
pub record VectorQuery (W : Type 0) : Type 0 where
  pub user_id : Option Text
  pub embedding : Option (List W)
  pub category_id : Option ℕ
  pub from : Option Text
  pub to : Option Text
  pub threshold : W
  pub top_k : ℕ
  pub weights : Weights W
  pub order : PlanSort

-- The parameters of `textSearchChunksV2`, and without a user those of `textSearchChunksGlobal`.
pub record TextQuery : Type 0 where
  pub user_id : Option Text
  pub query : Text
  pub keywords : List Text
  pub category_id : Option ℕ
  pub from : Option Text
  pub to : Option Text
  pub top_k : ℕ
  pub order : PlanSort

-- The options of a search.
pub record SearchOptions : Type 0 where
  pub category_id : Option ℕ
  pub limit : Option ℕ
  pub global : Bool

-- `createEmbeddings` and the queries of the repository, `none` where they throw. The score of a chunk that
-- a text query finds is its `textScore`.
pub record Sources (W : Type 0) : Type 0 where
  pub create_embeddings : List Text → Option (List (List W))
  pub similar : VectorQuery W → Option (List (ChunkHit W))
  pub textual : TextQuery → Option (List (ChunkHit W))

abbrev pub time_from : Option TimeFilter → Option Text
time_from (some (absolute f t)) = some f
time_from _ = none

abbrev pub time_to : Option TimeFilter → Option Text
time_to (some (absolute f t)) = some t
time_to _ = none

abbrev pub first_of : {A : Type 0} → List A → Option A
first_of [] = none
first_of (x ∷ _) = some x

module _ {W : Type 0} where
  abbrev pub get_preset : Doubles W → RetrievalBias → RetrievalPreset W
  get_preset n lexical = record {
    alpha = n.decimal 30 2;
    sem_boost_threshold = n.decimal 65 2;
    lex_boost_threshold = n.decimal 80 2;
  }
  get_preset n balanced = record {
    alpha = n.decimal 50 2;
    sem_boost_threshold = n.decimal 70 2;
    lex_boost_threshold = n.decimal 75 2;
  }
  get_preset n semantic = record {
    alpha = n.decimal 75 2;
    sem_boost_threshold = n.decimal 80 2;
    lex_boost_threshold = n.decimal 65 2;
  }

  unfoldable pub vector_query :
      Text → SearchPlan W → Option ℕ → Bool → Option (List W) → VectorQuery W
  vector_query user_id plan category_id true embedding = record {
    user_id = none;
    embedding = embedding;
    category_id = none;
    from = none;
    to = none;
    threshold = plan.threshold;
    top_k = plan.top_k * 5;
    weights = plan.weights;
    order = plan.order;
  }
  vector_query user_id plan category_id false embedding = record {
    user_id = some user_id;
    embedding = embedding;
    category_id = category_id;
    from = time_from plan.time;
    to = time_to plan.time;
    threshold = plan.threshold;
    top_k = plan.top_k;
    weights = plan.weights;
    order = plan.order;
  }

  abbrev pub semantic_rows :
      Sources W
      → Text
      → SearchPlan W
      → SearchOptions
      → Option (List (List W))
      → Option (List (ChunkHit W))
  semantic_rows s user_id plan o none = none
  semantic_rows s user_id plan o (some es) =
      s.similar (vector_query user_id plan o.category_id o.global (first_of es))

  unfoldable pub run_semantic_search :
      Sources W → Text → Text → SearchPlan W → SearchOptions → Option (List (ChunkHit W))
  run_semantic_search s question user_id plan o =
      semantic_rows s user_id plan o (s.create_embeddings (question ∷ []))
