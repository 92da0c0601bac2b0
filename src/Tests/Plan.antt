-- ===== src/Tests/Plan.antt =====
-- Tests of `Plan`, with thousandths for numbers and numbers for JSON values.
use bubblog_ai.Prelude.{
  leb, ℕ, zero, suc, ◌+◌, ◌-◌, ◌*◌, ◌≡◌, ◌⊎◌, refl, true, not, ◌==◌, min, max, ltb, arith, Option,
  none, some, [], ◌∷◌, ◌++◌, if◌then◌else◌,
}
use Prim.Native.Nat.{◌/◌}
use bubblog_ai.Prelude.Text.{Text, codes, text_eq, ascii_lower}
use bubblog_ai.Prelude.Json.{quote}
use bubblog_ai.Search.{
  Doubles, TimeFilter, named, last_7_days, rag, created_at_desc, lexical, SearchPlan,
}
use bubblog_ai.Plan.Parsing.{Parser, PlanModel, formatted, extract}
use bubblog_ai.Plan.Cleaning.{Words, clean_keywords, normalize}
use bubblog_ai.Plan.{generate_search_plan}
use bubblog_ai.Plan.Calls.{generate_search_plan-calls}
use bubblog_ai.Plan.Extract.{Body, done, plain, string, object, body_text, extract-object}
use bubblog_ai.Plan.Normal.{AreClamping, IsNormal, normalize-IsNormal}

abbrev scale : ℕ → ℕ
scale zero = 1000
scale (suc zero) = 100
scale (suc (suc d)) = 10

abbrev quotient : ℕ → ℕ → ℕ
quotient a zero = 0
quotient a (suc b) = a * 1000 / suc b

-- Where the divisor is not smaller the quotient is one at most.
abbrev over : ℕ → ℕ → ℕ
over a b = if leb a b then min 1000 (quotient a b) else quotient a b

abbrev pub thousandths : Doubles ℕ
thousandths = record {
  decimal = λ n d. n * scale d;
  plus = λ a b. a + b;
  minus = λ a b. a - b;
  times = λ a b. a * b / 1000;
  over = over;
  larger = max;
  smaller = min;
  root = λ a. a;
  less = ltb;
  truthy = λ a. not (a == 0);
}

thousandths-AreClamping : AreClamping thousandths
thousandths-AreClamping = record {
  smaller-choice = λ a b. min_cases a b;
  smaller-left = λ a b. ground arith;
  larger-left = λ a b. ground arith;
  unit = refl;
  plus-left = λ a b e. ground arith;
  plus-right = λ a b e. ground arith;
  over-unit = λ a b e f g. ground (arith, f);
  tenths = ((refl, refl), (refl, refl));
}
  where
    min_cases : (a b : ℕ) → (min a b ≡ a) ⊎ (min a b ≡ b)
    min_cases a b = ground arith

abbrev pub ascii_words : Words
ascii_words = record { to_lower_case = ascii_lower; is_word = λ t. true }

abbrev pub this_week : TimeFilter → Option (Text × Text)
this_week _ = some (codes "2026-01-01", codes "2026-01-07")

abbrev pub wide_plan : SearchPlan ℕ
wide_plan = record {
  mode = rag;
  top_k = 40;
  threshold = 2500;
  weights = record { chunk = 700; title = 300 };
  rewrites = codes " Tea " ∷ codes "tea" ∷ codes "x" ∷ codes "green tea" ∷ [];
  keywords = codes "tea" ∷ codes "green tea" ∷ codes "정보" ∷ [];
  hybrid = record {
    enabled = true;
    retrieval_bias = lexical;
    alpha = none;
    max_rewrites = 9;
    max_keywords = 9;
  };
  time = some (named last_7_days);
  order = created_at_desc;
  limit = 0;
}

normalize-IsNormal_example :
    IsNormal thousandths wide_plan (normalize thousandths ascii_words this_week wide_plan)
normalize-IsNormal_example =
    normalize-IsNormal thousandths thousandths-AreClamping ascii_words this_week wide_plan

keywords_cleaned :
    clean_keywords ascii_words (codes " Tea " ∷ codes "green tea" ∷ codes "정보" ∷ codes "TEA" ∷ []) 4
    ≡ codes "tea" ∷ []
unfolding clean_keywords ascii_lower
keywords_cleaned = refl

abbrev nested : Body
nested =
    string (codes "a") (plain 58 (object (string (codes "}\"") (plain 58 (plain 49 done))) done))

abbrev nested_text : Text
nested_text = codes "{\"a\":{\"}\\\"\":1}}"

abbrev pub one_object : Parser ℕ ℕ
one_object = record {
  parse = λ t. if text_eq t nested_text then some 7 else none;
  truthy = λ j. true;
  fields = λ j. none;
}

extract-object_example :
    extract one_object (codes "Plan } " ++ (123 ∷ (body_text nested ++ (125 ∷ codes " {?}"))))
    ≡ some 7
unfolding quote
extract-object_example =
    extract-object one_object (codes "Plan } ") (codes " {?}") nested 7 (omega arith) (omega arith)
      refl refl

abbrev pub silent : PlanModel ℕ
silent = record {
  formatted = some (record { output = []; output_text = some (codes "no plan") });
  unformatted = none;
  chat = none;
}

generate_search_plan-calls_example :
    (generate_search_plan one_object thousandths ascii_words this_week silent).0 ≡ formatted ∷ []
generate_search_plan-calls_example =
    generate_search_plan-calls one_object thousandths ascii_words this_week silent
