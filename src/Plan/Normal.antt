-- ===== src/Plan/Normal.antt =====
-- services/search-plan.service.ts: the bounds of a normalized plan, and its rewrites and keywords.
use bubblog_ai.Prelude.{
  ◌≤◌, ◌≡◌, ◌≢◌, ◌⊎◌, inl, inr, refl, sym, subst, min, true, false, not, ◌||◌, Bool, Option, none,
  some, List, [], ◌∷◌, ◌++◌, length, length-take, All, All-append, All-take, Pairwise,
  Pairwise-take, arith, Bool-cases, Option-cases, if◌then◌else◌,
}
use bubblog_ai.Prelude.Text.{Text, text_eq, text_eq_iff}
use bubblog_ai.Search.{Doubles, TimeFilter, absolute, Weights, SearchPlan}
use bubblog_ai.Plan.{get_preset, ltb, is_empty, trim}
use bubblog_ai.Plan.Cleaning.{
  given_or, any_space, visible, Words, one_of, stopwords, list_key, keyword_key, unique, clean_list,
  clean_keywords, unit_clamp, normal_weights, normal_hybrid, normal_time, normalize,
}

-- Neither below 0 nor above 1.
abbrev pub IsUnit : {W : Type 0} → Doubles W → W → Type 0
IsUnit n w = (n.less w (n.decimal 0 0) ≡ false) × (n.less (n.decimal 1 0) w ≡ false)

-- What the order of the numbers, `Math.min`, `Math.max`, sums and quotients have to satisfy.
pub record AreClamping {W : Type 0} (n : Doubles W) : Type 0 where
  pub smaller-choice : (a b : W) → (n.smaller a b ≡ a) ⊎ (n.smaller a b ≡ b)
  pub smaller-left : (a b : W) → n.less a (n.smaller a b) ≡ false
  pub larger-left : (a b : W) → n.less (n.larger a b) a ≡ false
  pub unit : n.less (n.decimal 1 0) (n.decimal 0 0) ≡ false
  pub plus-left : (a b : W) → n.less b (n.decimal 0 0) ≡ false → n.less (n.plus a b) a ≡ false
  pub plus-right : (a b : W) → n.less a (n.decimal 0 0) ≡ false → n.less (n.plus a b) b ≡ false
  pub over-unit :
      (a b : W)
      → n.less a (n.decimal 0 0) ≡ false
      → n.less b a ≡ false
      → n.less (n.decimal 0 0) b ≡ true
      → IsUnit n (n.over a b)
  pub tenths : IsUnit n (n.decimal 7 1) × IsUnit n (n.decimal 3 1)

one_of-differs : (t : Text) (xs : List Text) → one_of t xs ≡ false → All (λ x. x ≢ t) xs
one_of-differs t [] h = tt
one_of-differs t (x ∷ xs) h = elim (Bool-cases (text_eq t x)) [
  | inl e ↦ absurd (ground (arith, e, h))
  | inr e ↦
      ((λ q. ground (arith, (text_eq_iff t x).1 (sym q), e)), one_of-differs t xs (rw (e) at h))
]

AreDistinct-append :
    (t : Text) (xs : List Text)
    → All (λ x. x ≢ t) xs
    → Pairwise (λ x y. x ≢ y) xs
    → Pairwise (λ x y. x ≢ y) (xs ++ (t ∷ []))
AreDistinct-append t [] n h = (tt, tt)
AreDistinct-append t (x ∷ xs) (n, ns) (p, h) =
    (All-append (λ y. x ≢ y) xs (t ∷ []) p (n, tt), AreDistinct-append t xs ns h)

unique-distinct :
    (key : Text → Option Text) (uniq ss : List Text)
    → Pairwise (λ x y. x ≢ y) uniq
    → Pairwise (λ x y. x ≢ y) (unique key uniq ss)
unfolding unique
unique-distinct key uniq [] h = h
unique-distinct key uniq (s ∷ ss) h = elim (Option-cases (key s)) [
  | inl e ↦ rw (unique, e) (unique-distinct key uniq ss h)
  | inr (k, e) ↦ elim (Bool-cases (one_of k uniq)) [
    | inl b ↦ rw (unique, e, b) (unique-distinct key uniq ss h)
    | inr b ↦
        rw (unique, e, b)
          (unique-distinct key (uniq ++ (k ∷ [])) ss
            (AreDistinct-append k uniq (one_of-differs k uniq b) h))
  ]
]

-- What holds of every key holds of all the kept ones.
unique-All :
    (P : Text → Type 0) (key : Text → Option Text) (uniq ss : List Text)
    → ((s k : Text) → key s ≡ some k → P k)
    → All P uniq
    → All P (unique key uniq ss)
unfolding unique
unique-All P key uniq [] f h = h
unique-All P key uniq (s ∷ ss) f h = elim (Option-cases (key s)) [
  | inl e ↦ rw (unique, e) (unique-All P key uniq ss f h)
  | inr (k, e) ↦ elim (Bool-cases (one_of k uniq)) [
    | inl b ↦ rw (unique, e, b) (unique-All P key uniq ss f h)
    | inr b ↦
        rw (unique, e, b)
          (unique-All P key (uniq ++ (k ∷ [])) ss f (All-append P uniq (k ∷ []) h (f s k e, tt)))
  ]
]

guarded_some :
    (a b : Bool) (t k : Text) → (if a || b then none else some t) ≡ some k → (b ≡ false) × (t ≡ k)
guarded_some true b t k h = absurd (ground (arith, h))
guarded_some false true t k h = absurd (ground (arith, h))
guarded_some false false t k h = (refl, ground (arith, h))

keyword_key-allowed :
    (w : Words) (s k : Text) → keyword_key w s ≡ some k → one_of k stopwords ≡ false
unfolding keyword_key
keyword_key-allowed w s k h =
    let token = visible (trim s) in
    let (b, e) =
      guarded_some
        (is_empty (trim s)
          || any_space (trim s)
          || ltb (length (trim s)) 2
          || not (w.is_word token))
        (one_of (w.to_lower_case token) stopwords) (w.to_lower_case token) k h in
    subst (λ t. one_of t stopwords ≡ false) e b

-- The weights of a normalized plan: their shares in the sum of the given ones, or 0.7 and 0.3 where that
-- sum is not above 0. They lie between 0 and 1 where none of the given ones is
-- below 0.
pub record AreShares {W : Type 0} (n : Doubles W) (given shares : Weights W) : Type 0 where
  pub shared :
      n.less (n.decimal 0 0) (n.plus given.chunk given.title) ≡ true
      → (shares.chunk ≡ n.over given.chunk (n.plus given.chunk given.title))
        × (shares.title ≡ n.over given.title (n.plus given.chunk given.title))
  pub fixed :
      n.less (n.decimal 0 0) (n.plus given.chunk given.title) ≡ false
      → (shares.chunk ≡ n.decimal 7 1) × (shares.title ≡ n.decimal 3 1)
  pub unit :
      n.less given.chunk (n.decimal 0 0) ≡ false
      → n.less given.title (n.decimal 0 0) ≡ false
      → IsUnit n shares.chunk × IsUnit n shares.title

-- A plan that is made of `given` by normalization: `top_k`, the limit, the threshold, the alpha and the
-- numbers of rewrites and keywords are in their bounds, the weights are shares, the rewrites and the
-- keywords are distinct and no more than the plan allows, no keyword is a stop word, and the time is a
-- range or none.
pub record IsNormal {W : Type 0} (n : Doubles W) (given plan : SearchPlan W) : Type 0 where
  pub top_k : (1 ≤ plan.top_k) × (plan.top_k ≤ 10)
  pub limit : (1 ≤ plan.limit) × (plan.limit ≤ 20)
  pub threshold :
      (n.less plan.threshold (n.decimal 0 0) ≡ false)
      × (n.less (n.decimal 1 0) plan.threshold ≡ false)
  pub alpha :
      (a : W) × (plan.hybrid.alpha ≡ some a)
      × (n.less a (n.decimal 0 0) ≡ false)
      × (n.less (n.decimal 1 0) a ≡ false)
  pub weights : AreShares n given.weights plan.weights
  pub max_rewrites : plan.hybrid.max_rewrites ≤ 4
  pub max_keywords : plan.hybrid.max_keywords ≤ 5
  pub rewrites : length plan.rewrites ≤ plan.hybrid.max_rewrites
  pub keywords : length plan.keywords ≤ plan.hybrid.max_keywords
  pub rewrites_distinct : Pairwise (λ x y. x ≢ y) plan.rewrites
  pub keywords_distinct : Pairwise (λ x y. x ≢ y) plan.keywords
  pub keywords_allowed : All (λ k. one_of k stopwords ≡ false) plan.keywords
  pub time :
      (plan.time ≡ none) ⊎ ((from : Text) × (to : Text) × (plan.time ≡ some (absolute from to)))

module _ {W : Type 0} (n : Doubles W) (laws : AreClamping n) where
  unit_clamp-bounds :
      (w : W)
      → (n.less (unit_clamp n w) (n.decimal 0 0) ≡ false)
        × (n.less (n.decimal 1 0) (unit_clamp n w) ≡ false)
  unit_clamp-bounds w =
      let one = n.decimal 1 0 in
      let low = n.larger (n.decimal 0 0) w in
      (
        elim (laws.smaller-choice one low) [
          | inl e ↦ subst (λ c. n.less c (n.decimal 0 0) ≡ false) (sym e) laws.unit
          | inr e ↦
              subst (λ c. n.less c (n.decimal 0 0) ≡ false) (sym e)
                (laws.larger-left (n.decimal 0 0) w)
        ],
        laws.smaller-left one low,
      )

  normal_time-cases :
      (to_absolute : TimeFilter → Option (Text × Text)) (t : Option TimeFilter)
      → (normal_time n to_absolute t ≡ none)
        ⊎ ((from : Text) × (to : Text) × (normal_time n to_absolute t ≡ some (absolute from to)))
  normal_time-cases to_absolute none = inl refl
  normal_time-cases to_absolute (some t) = elim (Option-cases (to_absolute t)) [
    | inl e ↦ inl (rw (normal_time, e) refl)
    | inr (r, e) ↦ inr (r.0, r.1, rw (normal_time, e) refl)
  ]

  normal_weights-AreShares : (given : Weights W) → AreShares n given (normal_weights n given)
  unfolding normal_weights
  normal_weights-AreShares given =
      let sum = n.plus given.chunk given.title in
      record {
        shared = λ e. rw e (refl, refl);
        fixed = λ e. rw e (refl, refl);
        unit = λ p q. elim (Bool-cases (n.less (n.decimal 0 0) sum)) [
          | inl e ↦ rw e (
            laws.over-unit given.chunk sum p (laws.plus-left given.chunk given.title q) e,
            laws.over-unit given.title sum q (laws.plus-right given.chunk given.title p) e,
          )
          | inr e ↦ rw e laws.tenths
        ];
      }

  -- Every plan, accepted by the schema or not, is normalized: `top_k`, the limit, the threshold, the alpha
  -- and the numbers of rewrites and keywords are in their bounds; the weights are the given ones by their
  -- sum, or 0.7 and 0.3 where that is not above 0, and lie between 0 and 1 if no given one is below 0; the
  -- rewrites and the keywords are distinct and not too many, without a stop word among the keywords, and
  -- the time is a range or none. The laws of the numbers are those of doubles.
  pub normalize-IsNormal :
      (w : Words) (to_absolute : TimeFilter → Option (Text × Text)) (plan : SearchPlan W)
      → IsNormal n plan (normalize n w to_absolute plan)
  unfolding normalize normal_hybrid clean_list clean_keywords
  normalize-IsNormal w to_absolute plan =
      let h = plan.hybrid in
      let listed = unique (list_key w) [] plan.rewrites in
      let alpha = given_or n h.alpha (get_preset n h.retrieval_bias).alpha in
      let clamped = unit_clamp-bounds alpha in
      let words = unique (keyword_key w) [] plan.keywords in
      record {
        top_k = ground arith;
        limit = ground arith;
        threshold = unit_clamp-bounds plan.threshold;
        weights = normal_weights-AreShares plan.weights;
        alpha = (unit_clamp n alpha, refl, clamped.0, clamped.1);
        max_rewrites = omega arith;
        max_keywords = omega arith;
        rewrites = omega (arith, length-take (min 4 h.max_rewrites) listed);
        keywords = omega (arith, length-take (min 5 (min 5 (min 8 h.max_keywords))) words);
        rewrites_distinct =
            Pairwise-take _ (min 4 h.max_rewrites) listed
              (unique-distinct (list_key w) [] plan.rewrites tt);
        keywords_distinct =
            Pairwise-take _ (min 5 (min 5 (min 8 h.max_keywords))) words
              (unique-distinct (keyword_key w) [] plan.keywords tt);
        keywords_allowed =
            All-take _ (min 5 (min 5 (min 8 h.max_keywords))) words
              (unique-All _ (keyword_key w) [] plan.keywords (keyword_key-allowed w) tt);
        time = normal_time-cases to_absolute plan.time;
      }
