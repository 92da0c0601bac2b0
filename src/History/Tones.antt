-- ===== src/History/Tones.antt =====
-- services/session-history.service.ts, `selectToneAwareCacheCandidate` and the block of questions that
-- is embedded to find duplicates.
use bubblog_ai.Prelude.{
  ◌≡◌, ◌≢◌, ◌⊎◌, ◌↔◌, inl, inr, refl, Bool, true, false, Option, none, some, arith, ==_iff, List,
  [], ◌∷◌, All, Bool-cases,
}
use mathlib.Core.List.{Mem, mem-cons_self, mem-cons_of_mem}
use bubblog_ai.Prelude.Int.{ℤ, pos, negsuc}
use bubblog_ai.Prelude.Filter.{find}
use bubblog_ai.History.{
  CachedAnswerResult, eq_ℤ, first, normalized_tone, select_tone_aware_cache_candidate,
}

eq_ℤ_iff : (a b : ℤ) → (eq_ℤ a b ≡ true) ↔ (a ≡ b)
eq_ℤ_iff (pos a) (pos b) = ground (arith, ==_iff a b)
eq_ℤ_iff (negsuc a) (negsuc b) = ground (arith, ==_iff a b)
eq_ℤ_iff (pos a) (negsuc b) = ground arith
eq_ℤ_iff (negsuc a) (pos b) = ground arith

module _ {A : Type 0} (p : A → Bool) where
  find_lem :
      (xs : List A)
      → ((x : A) × Mem x xs × (p x ≡ true) × (find p xs ≡ some x))
        ⊎ (All (λ x. p x ≡ false) xs × (find p xs ≡ none))
  unfolding find
  find_lem [] = inr (tt, refl)
  find_lem (x ∷ xs) = elim (Bool-cases (p x)) [
    | inl e ↦ inl (x, mem-cons_self, e, rw (e) refl)
    | inr e ↦ elim (find_lem xs) [
      | inl (y, m, d, f) ↦ inl (y, mem-cons_of_mem x m, d, rw (e) f)
      | inr (h, f) ↦ inr ((e, h), rw (e) f)
    ]
  ]

module _ {S : Type 0} where
  differ :
      (t : ℤ) (cs : List (CachedAnswerResult S))
      → All (λ c. eq_ℤ c.speech_tone_id t ≡ false) cs
      → All (λ c. c.speech_tone_id ≢ t) cs
  differ t [] h = tt
  differ t (c ∷ cs) (e, h) =
      ((λ d. ground (arith, (eq_ℤ_iff c.speech_tone_id t).1 d, e)), differ t cs h)

  -- Either a candidate in the requested tone is taken as it is, or none has that tone and the first one
  -- is to be rewritten.
  pub select_tone_aware_cache_candidate_lem :
      (cs : List (CachedAnswerResult S)) (requested : Option ℤ)
      → ((c : CachedAnswerResult S) × Mem c cs
          × (c.speech_tone_id ≡ normalized_tone requested)
          × (select_tone_aware_cache_candidate cs requested
              ≡ record { matching_candidate = some c; rewrite_candidate = none }))
        ⊎ (All (λ c. c.speech_tone_id ≢ normalized_tone requested) cs
            × (select_tone_aware_cache_candidate cs requested
                ≡ record { matching_candidate = none; rewrite_candidate = first cs }))
  unfolding select_tone_aware_cache_candidate
  select_tone_aware_cache_candidate_lem cs requested =
      elim (find_lem (λ c. eq_ℤ c.speech_tone_id (normalized_tone requested)) cs) [
        | inl (c, m, e, f) ↦ inl (
          c,
          m,
          (eq_ℤ_iff c.speech_tone_id (normalized_tone requested)).0 e,
          rw (select_tone_aware_cache_candidate, f) refl,
        )
        | inr (h, f) ↦ inr (
          differ (normalized_tone requested) cs h,
          rw (select_tone_aware_cache_candidate, f) refl,
        )
      ]
