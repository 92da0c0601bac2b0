-- ===== src/Plan/Extract.antt =====
-- services/search-plan.service.ts: the object that is found in the text of the model.
use bubblog_ai.Prelude.{
  ℕ, suc, ◌≡◌, ◌≢◌, refl, sym, ap, ◌∙◌, subst, false, none, some, [], ◌∷◌, ◌++◌, append_assoc,
  append-nil, All, arith,
}
use bubblog_ai.Prelude.Text.{Text}
use bubblog_ai.Prelude.Int.{ℤ, pos}
use bubblog_ai.Prelude.Json.{quote}
use bubblog_ai.Prelude.Json.Laws.{inner, quote-eq-inner, IsInner, over, unit, pair, inner-IsInner}
use bubblog_ai.Plan.Parsing.{
  Parser, Place, outside, inside, escaped, next_place, next_depth, closes, from_brace, try_parse,
  scan, extract,
}

-- What stands between the braces of a JSON object, as far as braces and quotes go: single units, strings
-- that `JSON.stringify` wrote, and objects.
pub data Body : Type 0 where
  done : Body
  plain : ℕ → Body → Body
  string : Text → Body → Body
  object : Body → Body → Body

abbrev pub body_text : Body → Text
body_text done = []
body_text (plain c b) = c ∷ body_text b
body_text (string t b) = quote t ++ body_text b
body_text (object a b) = 123 ∷ (body_text a ++ (125 ∷ body_text b))

-- The single units are neither braces nor quotes.
abbrev pub IsBody : Body → Type 0
IsBody done = Unit
IsBody (plain c b) = (c ≢ 34) × (c ≢ 123) × (c ≢ 125) × IsBody b
IsBody (string t b) = IsBody b
IsBody (object a b) = IsBody a × IsBody b

abbrev pub object_text : Body → Text
object_text b = 123 ∷ (body_text b ++ (125 ∷ []))

next_depth-up : (k : ℕ) → next_depth outside (pos k) 123 ≡ pos (suc k)
unfolding next_depth
next_depth-up k = ground arith

next_depth-down : (k : ℕ) → next_depth outside (pos (suc k)) 125 ≡ pos k
unfolding next_depth
next_depth-down k = ground arith

next_depth-plain : (d : ℤ) (c : ℕ) → c ≢ 123 → c ≢ 125 → next_depth outside d c ≡ d
unfolding next_depth
next_depth-plain d c m n = ground arith

next_place-plain : (c : ℕ) → c ≢ 34 → next_place outside c ≡ outside
unfolding next_place
next_place-plain c n = ground arith

next_place-unit : (c : ℕ) → c ≢ 34 → c ≢ 92 → next_place inside c ≡ inside
unfolding next_place
next_place-unit c m n = ground arith

next_place-escape : next_place inside 92 ≡ escaped
unfolding next_place
next_place-escape = refl

next_place-escaped : (c : ℕ) → next_place escaped c ≡ inside
unfolding next_place
next_place-escaped c = refl

closes-plain : (d : ℤ) (c : ℕ) → c ≢ 125 → closes outside d c ≡ false
unfolding closes
closes-plain d c n = ground arith

closes-deep : (k : ℕ) → closes outside (pos (suc (suc k))) 125 ≡ false
unfolding closes
closes-deep k = rw (next_depth-down (suc k)) refl

module _ {J W : Type 0} (p : Parser J W) where
  -- The loop goes over `t` from one place and depth to another, and finds nothing.
  record Goes (place : Place) (d : ℤ) (t : Text) (place' : Place) (d' : ℤ) : Type 0 where
    go : (seen rest : Text) → scan p place d seen (t ++ rest) ≡ scan p place' d' (seen ++ t) rest

  Goes-nil : (place : Place) (d : ℤ) → Goes place d [] place d
  Goes-nil place d = record { go = λ seen rest. rw (append-nil seen) refl }

  Goes-cons :
      {place place' place'' : Place} {d d' d'' : ℤ} (c : ℕ) (t : Text)
      → closes place d c ≡ false
      → next_place place c ≡ place'
      → next_depth place d c ≡ d'
      → Goes place' d' t place'' d''
      → Goes place d (c ∷ t) place'' d''
  unfolding scan
  Goes-cons {place'' = place''} {d'' = d''} c t e f g h = record {
    go = λ seen rest.
        rw (scan, e, f, g)
          (h.go (seen ++ (c ∷ [])) rest
            ∙ ap (λ u. scan p place'' d'' u rest) (append_assoc seen (c ∷ []) t));
  }

  Goes-append :
      {place place' place'' : Place} {d d' d'' : ℤ} (t u : Text)
      → Goes place d t place' d'
      → Goes place' d' u place'' d''
      → Goes place d (t ++ u) place'' d''
  Goes-append {place = place} {place'' = place''} {d = d} {d'' = d''} t u g h = record {
    go = λ seen rest.
        ap (scan p place d seen) (append_assoc t u rest)
        ∙ g.go seen (u ++ rest)
        ∙ h.go (seen ++ t) rest
        ∙ ap (λ x. scan p place'' d'' x rest) (append_assoc seen t u);
  }

  inner-Goes : (d : ℤ) (t : Text) → IsInner t → Goes inside d t inside d
  unfolding closes next_depth
  inner-Goes d [] over = Goes-nil inside d
  inner-Goes d (c ∷ t) (unit m n h) =
      Goes-cons c t refl (next_place-unit c m n) refl (inner-Goes d t h)
  inner-Goes d (c ∷ e ∷ t) (pair h) =
      Goes-cons 92 (e ∷ t) refl next_place-escape refl
        (Goes-cons e t refl (next_place-escaped e) refl (inner-Goes d t h))

  quote-Goes : (d : ℤ) (t : Text) → Goes outside d (quote t) outside d
  unfolding next_place next_depth
  quote-Goes d t =
      subst (λ q. Goes outside d q outside d) (sym (quote-eq-inner t))
        (Goes-cons 34 (inner t ++ 34 ∷ []) (closes-plain d 34 (omega arith)) refl refl (
          Goes-append (inner t) (34 ∷ []) (inner-Goes d (inner t) (inner-IsInner t))
            (Goes-cons 34 [] (unfold closes in refl) refl refl (Goes-nil outside d))))

  body_text-Goes :
      (k : ℕ) (b : Body) → IsBody b → Goes outside (pos (suc k)) (body_text b) outside (pos (suc k))
  body_text-Goes k done h = Goes-nil outside (pos (suc k))
  body_text-Goes k (plain c b) (l, m, n, h) =
      Goes-cons c (body_text b) (closes-plain _ c n) (next_place-plain c l)
        (next_depth-plain _ c m n) (body_text-Goes k b h)
  body_text-Goes k (string t b) h =
      Goes-append (quote t) (body_text b) (quote-Goes (pos (suc k)) t) (body_text-Goes k b h)
  body_text-Goes k (object a b) (g, h) =
      Goes-cons 123 (body_text a ++ (125 ∷ body_text b)) (closes-plain _ 123 (omega arith))
        (next_place-plain 123 (omega arith)) (next_depth-up (suc k))
        (Goes-append (body_text a) (125 ∷ body_text b) (body_text-Goes (suc k) a g) (
          Goes-cons 125 (body_text b) (closes-deep k) (next_place-plain 125 (omega arith))
            (next_depth-down (suc k)) (body_text-Goes k b h)))

  scan-last :
      (seen after : Text) (j : J)
      → try_parse p (seen ++ (125 ∷ [])) ≡ some j
      → scan p outside (pos 1) seen (125 ∷ after) ≡ some j
  unfolding scan
  scan-last seen after j e = rw (scan, e) refl

  scan-object :
      (b : Body) (after : Text) (j : J)
      → IsBody b
      → try_parse p (object_text b) ≡ some j
      → scan p outside (pos 0) [] (123 ∷ (body_text b ++ (125 ∷ after))) ≡ some j
  scan-object b after j h e =
      let opened : Goes outside (pos 0) (123 ∷ body_text b) outside (pos 1) =
        Goes-cons 123 (body_text b) (closes-plain _ 123 (omega arith))
          (next_place-plain 123 (omega arith)) (next_depth-up 0) (body_text-Goes 0 b h) in
      opened.go [] (125 ∷ after) ∙ scan-last (123 ∷ body_text b) after j e

  from_brace-append :
      (before t : Text) → All (λ c. c ≢ 123) before → from_brace (before ++ (123 ∷ t)) ≡ 123 ∷ t
  unfolding from_brace
  from_brace-append [] t h = refl
  from_brace-append (c ∷ before) t (n, h) = ground (arith, from_brace-append before t h)

  -- If the text as a whole does not parse, an object in it is found, whatever strings with braces, quotes
  -- or backslashes and whatever objects it has in it, and whatever text follows. The text before it has no
  -- opening brace.
  pub extract-object :
      (before after : Text) (b : Body) (j : J)
      → All (λ c. c ≢ 123) before
      → IsBody b
      → try_parse p (before ++ (123 ∷ (body_text b ++ (125 ∷ after)))) ≡ none
      → try_parse p (object_text b) ≡ some j
      → extract p (before ++ (123 ∷ (body_text b ++ (125 ∷ after)))) ≡ some j
  unfolding extract
  extract-object before after b j n h whole e =
      rw
        (
          whole,
          from_brace-append before (body_text b ++ (125 ∷ after)) n,
          scan-object b after j h e,
        )
        refl
