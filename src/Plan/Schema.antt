-- ===== src/Plan/Schema.antt =====
-- types/ai.v2.types.ts: what `planSchema` accepts, and its defaults.
use bubblog_ai.Prelude.Options.{◌>>=◌}
use bubblog_ai.Prelude.{
  ℕ, Bool, true, false, not, ◌&&◌, leb, Option, none, some, List, [], if◌then◌else◌,
}
use bubblog_ai.Prelude.Text.{Text, is_empty}
use bubblog_ai.Search.{
  Doubles, RetrievalBias, balanced, TimeFilter, relative, month_of, quarter_of, label, PlanMode,
  rag, PlanSort, created_at_desc, Weights, HybridPlan, SearchPlan,
}

-- A field of a JSON object: not there, of another type than the schema asks for, or a value of the type.
-- A number where a natural one is asked for is of another type if it is none.
pub data SchemaField (A : Type 0) : Type 0 where
  absent wrong : SchemaField A
  given : A → SchemaField A

pub record RawHybrid (W : Type 0) : Type 0 where
  pub enabled : SchemaField Bool
  pub retrieval_bias : SchemaField RetrievalBias
  pub alpha : SchemaField W
  pub max_rewrites : SchemaField ℕ
  pub max_keywords : SchemaField ℕ

-- The object `filters` may have no other field than `time`.
pub record RawPlan (W : Type 0) : Type 0 where
  pub mode : SchemaField PlanMode
  pub top_k : SchemaField ℕ
  pub threshold : SchemaField W
  pub weights : SchemaField (Weights W)
  pub rewrites : SchemaField (List Text)
  pub keywords : SchemaField (List Text)
  pub hybrid : SchemaField (RawHybrid W)
  pub filters : SchemaField (SchemaField TimeFilter)
  pub order : SchemaField PlanSort
  pub limit : SchemaField ℕ

-- `.default(d)` after the test of a value, and `.optional()`.
abbrev pub defaulted : {A : Type 0} → (A → Bool) → A → SchemaField A → Option A
defaulted test d absent = some d
defaulted test d wrong = none
defaulted test d (given a) = if test a then some a else none

abbrev pub optional : {A : Type 0} → (A → Bool) → SchemaField A → Option (Option A)
optional test absent = some none
optional test wrong = none
optional test (given a) = if test a then some (some a) else none

abbrev pub between : ℕ → ℕ → ℕ → Bool
between lo hi n = leb lo n && leb n hi

abbrev pub any : {A : Type 0} → A → Bool
any _ = true

-- `timeFilterSchema`
unfoldable pub time_filter_schema : TimeFilter → Bool
time_filter_schema (relative u value) = between 1 365 value
time_filter_schema (month_of y m) = between 1 12 m
time_filter_schema (quarter_of y q) = between 1 4 q
time_filter_schema (label l) = not (is_empty l)
time_filter_schema _ = true

-- The optional object `filters` and its optional field `time`.
abbrev filters_schema : SchemaField (SchemaField TimeFilter) → Option (Option TimeFilter)
filters_schema absent = some none
filters_schema wrong = none
filters_schema (given t) = optional time_filter_schema t

module _ {W : Type 0} (n : Doubles W) where
  abbrev in_unit : W → Bool
  in_unit w = not (n.less w (n.decimal 0 0)) && not (n.less (n.decimal 1 0) w)

  abbrev default_hybrid : HybridPlan W
  default_hybrid = record {
    enabled = false;
    retrieval_bias = balanced;
    alpha = none;
    max_rewrites = 3;
    max_keywords = 6;
  }

  unfoldable pub hybrid_schema : SchemaField (RawHybrid W) → Option (HybridPlan W)
  hybrid_schema absent = some default_hybrid
  hybrid_schema wrong = none
  hybrid_schema (given h) = do
    enabled ← defaulted any false h.enabled
    bias ← defaulted any balanced h.retrieval_bias
    alpha ← optional in_unit h.alpha
    max_rewrites ← defaulted (between 0 4) 3 h.max_rewrites
    max_keywords ← defaulted (between 0 8) 6 h.max_keywords
    some (record {
      enabled = enabled;
      retrieval_bias = bias;
      alpha = alpha;
      max_rewrites = max_rewrites;
      max_keywords = max_keywords;
    })

  abbrev weights_schema : Weights W → Bool
  weights_schema w = in_unit w.chunk && in_unit w.title

  unfoldable pub plan_schema : RawPlan W → Option (SearchPlan W)
  unfolding hybrid_schema time_filter_schema
  plan_schema r = do
    mode ← defaulted any rag r.mode
    top_k ← defaulted (between 1 10) 5 r.top_k
    threshold ← defaulted in_unit (n.decimal 2 1) r.threshold
    weights ←
        defaulted weights_schema (record { chunk = n.decimal 7 1; title = n.decimal 3 1 }) r.weights
    rewrites ← defaulted any [] r.rewrites
    keywords ← defaulted any [] r.keywords
    hybrid ← hybrid_schema r.hybrid
    time ← filters_schema r.filters
    order ← defaulted any created_at_desc r.order
    limit ← defaulted (between 1 20) 5 r.limit
    some (record {
      mode = mode;
      top_k = top_k;
      threshold = threshold;
      weights = weights;
      rewrites = rewrites;
      keywords = keywords;
      hybrid = hybrid;
      time = time;
      order = order;
      limit = limit;
    })
