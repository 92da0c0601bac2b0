-- ===== src/Plan/Cleaning.antt =====
-- services/search-plan.service.ts: a plan brought into bounds, its texts cleaned.
use bubblog_ai.Prelude.{
  ℕ, leb, zero, suc, min, max, Bool, false, not, ◌&&◌, ◌||◌, ltb, ◌==◌, Option, none, some, List,
  [], ◌∷◌, ◌++◌, take, length, if◌then◌else◌,
}
use bubblog_ai.Prelude.Text.{Text, codes, text_eq, trim, is_empty, is_space}
use bubblog_ai.Search.{Doubles, get_preset, TimeFilter, absolute, Weights, HybridPlan, SearchPlan}

-- `toLowerCase` of strings, and whether a text is of the characters of the pattern for keywords,
-- `/^[\p{L}\p{N}_-]+$/u`.
pub record Words : Type 0 where
  pub to_lower_case : Text → Text
  pub is_word : Text → Bool

abbrev pub one_of : Text → List Text → Bool
one_of t [] = false
one_of t (x ∷ xs) = text_eq t x || one_of t xs

abbrev pub stopwords : List Text
stopwords =
    codes "글"
    ∷ codes "포스트"
    ∷ codes "블로그"
    ∷ codes "소개"
    ∷ codes "정리"
    ∷ codes "내용"
    ∷ codes "최신"
    ∷ codes "최근"
    ∷ codes "정보"
    ∷ []

abbrev pub any_space : Text → Bool
any_space [] = false
any_space (c ∷ s) = is_space c || any_space s

-- Without U+200B to U+200D and U+FEFF.
unfoldable pub visible : Text → Text
visible [] = []
visible (c ∷ s) =
    let rest = visible s in
    if (leb 0x200b c && leb c 0x200d) || (c == 0xfeff) then rest else c ∷ rest

-- `uniq`: a new key comes last.
unfoldable pub unique : (Text → Option Text) → List Text → List Text → List Text
unique key uniq [] = uniq
unique key uniq (s ∷ ss) = elim (key s) [
  | none ↦ unique key uniq ss
  | some k ↦ unique key (if one_of k uniq then uniq else uniq ++ (k ∷ [])) ss
]

module _ (w : Words) where
  -- The key of a rewrite, if it is not left out, whatever the keys before it.
  unfoldable pub list_key : Text → Option Text
  unfolding trim
  list_key s =
      let t = trim s in
      if is_empty t || ltb (length t) 2 || one_of t stopwords
      then none
      else some (w.to_lower_case t)

  unfoldable pub keyword_key : Text → Option Text
  unfolding trim visible
  keyword_key s =
      let raw = trim s in
      let token = visible raw in
      if is_empty raw
        || any_space raw
        || ltb (length raw) 2
        || not (w.is_word token)
        || one_of (w.to_lower_case token) stopwords
      then none
      else some (w.to_lower_case token)

  unfoldable pub clean_list : List Text → ℕ → List Text
  unfolding unique list_key
  clean_list arr most = take most (unique list_key [] arr)

  unfoldable pub clean_keywords : List Text → ℕ → List Text
  unfolding unique keyword_key
  clean_keywords arr most = take (min 5 most) (unique keyword_key [] arr)

-- `n || d`
abbrev pub or_number : ℕ → ℕ → ℕ
or_number zero d = d
or_number (suc k) d = suc k

module _ {W : Type 0} (n : Doubles W) where
  abbrev pub unit_clamp : W → W
  unit_clamp w = n.smaller (n.decimal 1 0) (n.larger (n.decimal 0 0) w)

  unfoldable pub normal_weights : Weights W → Weights W
  normal_weights w =
      let sum = n.plus w.chunk w.title in
      if n.less (n.decimal 0 0) sum
      then record { chunk = n.over w.chunk sum; title = n.over w.title sum }
      else record { chunk = n.decimal 7 1; title = n.decimal 3 1 }

  abbrev pub given_or : Option W → W → W
  given_or none d = d
  given_or (some w) d = w

  -- `to_absolute` is `toAbsoluteRangeKst` at the time of the search.
  abbrev pub normal_time :
      (TimeFilter → Option (Text × Text)) → Option TimeFilter → Option TimeFilter
  normal_time to_absolute none = none
  normal_time to_absolute (some t) = elim (to_absolute t) [
    | none ↦ none
    | some r ↦ some (absolute r.0 r.1)
  ]

  unfoldable pub normal_hybrid : HybridPlan W → HybridPlan W
  normal_hybrid h = record {
    enabled = h.enabled;
    retrieval_bias = h.retrieval_bias;
    alpha = some (unit_clamp (given_or h.alpha (get_preset n h.retrieval_bias).alpha));
    max_rewrites = min 4 h.max_rewrites;
    max_keywords = min 5 (min 8 h.max_keywords);
  }

  -- `normPlan`
  unfoldable pub normalize :
      Words → (TimeFilter → Option (Text × Text)) → SearchPlan W → SearchPlan W
  unfolding normal_weights normal_hybrid clean_list clean_keywords
  normalize w to_absolute plan =
      let hybrid = normal_hybrid plan.hybrid in
      record {
        mode = plan.mode;
        top_k = min 10 (max 1 (or_number plan.top_k 5));
        threshold = unit_clamp plan.threshold;
        weights = normal_weights plan.weights;
        rewrites = clean_list w plan.rewrites hybrid.max_rewrites;
        keywords = clean_keywords w plan.keywords hybrid.max_keywords;
        hybrid = hybrid;
        time = normal_time to_absolute plan.time;
        order = plan.order;
        limit = min 20 (max 1 (or_number plan.limit 5));
      }
