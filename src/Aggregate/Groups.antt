-- ===== src/Aggregate/Groups.antt =====
-- services/search-aggregate.service.ts: the groups of `byPost`.
use bubblog_ai.Prelude.{
  ◌≡◌, ◌≢◌, refl, sym, ap, subst, ◌∙◌, Bool, false, List, [], ◌∷◌, ◌++◌, arith, All, Bool-cases,
  inl, inr, append-nil, append_assoc, if◌then◌else◌,
}
use bubblog_ai.Prelude.Text.{Text, text_eq, text_eq_iff}
use bubblog_ai.Prelude.Filter.{filter, filter-append, filter-keep, filter-drop, All-weaken}
use bubblog_ai.Aggregate.{ChunkHit, Group, add_hit, group_hits}

differs : (a b : Text) → a ≢ b → text_eq a b ≡ false
differs a b n = elim (Bool-cases (text_eq a b)) [
  | inl e ↦ absurd (n ((text_eq_iff a b).0 e))
  | inr e ↦ e
]

module _ {S : Type 0} where
  abbrev pub of_post : Text → ChunkHit S → Bool
  of_post id c = text_eq id c.post_id

  -- The chunks of the group are those of its post, in order.
  abbrev pub IsFull : List (ChunkHit S) → Group S → Type 0
  IsFull chunks g = g.first_hit ∷ g.more ≡ filter (of_post g.post_id) chunks

  abbrev pub AreApart : List (Group S) → Type 0
  AreApart [] = Unit
  AreApart (g ∷ gs) = All (λ h. h.post_id ≢ g.post_id) gs × AreApart gs

  -- A post without a group has no chunks.
  abbrev pub AreAll : List (ChunkHit S) → List (Group S) → Type 0
  AreAll chunks gs = (id : Text) → All (λ g. g.post_id ≢ id) gs → filter (of_post id) chunks ≡ []

  filter-other :
      (id : Text) (done : List (ChunkHit S)) (c : ChunkHit S)
      → id ≢ c.post_id
      → filter (of_post id) (done ++ (c ∷ [])) ≡ filter (of_post id) done
  filter-other id done c n =
      filter-append (of_post id) done (c ∷ [])
      ∙ rw (filter-drop (of_post id) (c ∷ []) (differs id c.post_id n, tt))
          (append-nil (filter (of_post id) done))

  filter-own :
      (id : Text) (done : List (ChunkHit S)) (c : ChunkHit S)
      → id ≡ c.post_id
      → filter (of_post id) (done ++ (c ∷ [])) ≡ filter (of_post id) done ++ (c ∷ [])
  filter-own id done c e =
      filter-append (of_post id) done (c ∷ [])
      ∙ rw (filter-keep (of_post id) (c ∷ []) ((text_eq_iff id c.post_id).1 e, tt)) refl

  others-IsFull :
      (done : List (ChunkHit S)) (c : ChunkHit S) (gs : List (Group S))
      → All (λ g. g.post_id ≢ c.post_id) gs
      → All (IsFull done) gs
      → All (IsFull (done ++ (c ∷ []))) gs
  others-IsFull done c [] n h = tt
  others-IsFull done c (g ∷ gs) (k, n) (p, h) =
      (p ∙ sym (filter-other g.post_id done c k), others-IsFull done c gs n h)

  add_hit-IsFull :
      (done : List (ChunkHit S)) (c : ChunkHit S) (gs : List (Group S))
      → AreApart gs
      → (All (λ g. g.post_id ≢ c.post_id) gs → filter (of_post c.post_id) done ≡ [])
      → All (IsFull done) gs
      → All (IsFull (done ++ (c ∷ []))) (add_hit c gs)
  unfolding add_hit
  add_hit-IsFull done c [] d a h =
      (sym (filter-own c.post_id done c refl ∙ ap (λ x. x ++ (c ∷ [])) (a tt)), tt)
  add_hit-IsFull done c (g ∷ gs) (u, d) a (p, h) = elim (Bool-cases (text_eq g.post_id c.post_id)) [
    | inl e ↦
        let same = (text_eq_iff g.post_id c.post_id).0 e in
        rw (e) (
          ap (λ x. x ++ (c ∷ [])) p ∙ sym (filter-own g.post_id done c same),
          others-IsFull done c gs
              (All-weaken (λ (k : Group S). k.post_id ≢ c.post_id) gs (λ k n q. n (q ∙ sym same)) u)
              h,
        )
    | inr e ↦
        let n : g.post_id ≢ c.post_id =
          λ q. ground (arith, (text_eq_iff g.post_id c.post_id).1 q, e) in
        rw (e)
          (p ∙ sym (filter-other g.post_id done c n), add_hit-IsFull done c gs d (λ m. a (n, m)) h)
  ]

  -- What holds of all ids of the groups and of the chunk holds after it is added, and the other way.
  add_hit-ids :
      (P : Text → Type 0) (c : ChunkHit S) (gs : List (Group S))
      → P c.post_id
      → All (λ g. P g.post_id) gs
      → All (λ g. P g.post_id) (add_hit c gs)
  unfolding add_hit
  add_hit-ids P c [] p h = (p, tt)
  add_hit-ids P c (g ∷ gs) p (q, h) = elim (Bool-cases (text_eq g.post_id c.post_id)) [
    | inl e ↦ rw (e) (q, h)
    | inr e ↦ rw (e) (q, add_hit-ids P c gs p h)
  ]

  ids-add_hit :
      (P : Text → Type 0) (c : ChunkHit S) (gs : List (Group S))
      → All (λ g. P g.post_id) (add_hit c gs)
      → P c.post_id × All (λ g. P g.post_id) gs
  unfolding add_hit
  ids-add_hit P c [] (p, h) = (p, tt)
  ids-add_hit P c (g ∷ gs) h = elim (Bool-cases (text_eq g.post_id c.post_id)) [
    | inl e ↦
        let k : P g.post_id × All (λ (g : Group S). P g.post_id) gs =
          subst
            (λ b.
              All (λ (g : Group S). P g.post_id)
                (if b then record g { more = g.more ++ (c ∷ []) } ∷ gs else g ∷ add_hit c gs))
            e h in
        (subst P ((text_eq_iff g.post_id c.post_id).0 e) k.0, k)
    | inr e ↦
        let k : P g.post_id × All (λ (g : Group S). P g.post_id) (add_hit c gs) =
          subst
            (λ b.
              All (λ (g : Group S). P g.post_id)
                (if b then record g { more = g.more ++ (c ∷ []) } ∷ gs else g ∷ add_hit c gs))
            e h in
        let r = ids-add_hit P c gs k.1 in (r.0, (k.0, r.1))
  ]

  add_hit-AreApart : (c : ChunkHit S) (gs : List (Group S)) → AreApart gs → AreApart (add_hit c gs)
  unfolding add_hit
  add_hit-AreApart c [] h = (tt, tt)
  add_hit-AreApart c (g ∷ gs) (u, d) = elim (Bool-cases (text_eq g.post_id c.post_id)) [
    | inl e ↦ rw (e) (u, d)
    | inr e ↦ rw (e) (
      add_hit-ids (λ id. id ≢ g.post_id) c gs
          (λ q. ground (arith, (text_eq_iff g.post_id c.post_id).1 (sym q), e)) u,
      add_hit-AreApart c gs d,
    )
  ]

  -- The groups are those of the chunks: each has the chunks of its post in their order, no two have the
  -- same post, and every post with a chunk has a group.
  pub record IsGrouping (chunks : List (ChunkHit S)) (gs : List (Group S)) : Type 0 where
    pub full : All (IsFull chunks) gs
    pub apart : AreApart gs
    pub all : AreAll chunks gs

  add_hit-IsGrouping :
      (done : List (ChunkHit S)) (c : ChunkHit S) (gs : List (Group S))
      → IsGrouping done gs
      → IsGrouping (done ++ (c ∷ [])) (add_hit c gs)
  add_hit-IsGrouping done c gs i = record {
    full = add_hit-IsFull done c gs i.apart (i.all c.post_id) i.full;
    apart = add_hit-AreApart c gs i.apart;
    all = λ id h.
        let k = ids-add_hit (λ x. x ≢ id) c gs h in
        filter-other id done c (λ q. k.0 (sym q)) ∙ i.all id k.1;
  }

  grow :
      (done cs : List (ChunkHit S)) (gs : List (Group S))
      → IsGrouping done gs
      → IsGrouping (done ++ cs) (group_hits gs cs)
  unfolding group_hits
  grow done [] gs i = subst (λ d. IsGrouping d gs) (sym (append-nil done)) i
  grow done (c ∷ cs) gs i =
      subst (λ d. IsGrouping d (group_hits (add_hit c gs) cs)) (append_assoc done (c ∷ []) cs)
        (grow (done ++ (c ∷ [])) cs (add_hit c gs) (add_hit-IsGrouping done c gs i))

  -- The groups made of any chunks satisfy `IsGrouping`.
  pub group_hits-IsGrouping :
      (chunks : List (ChunkHit S)) → IsGrouping chunks (group_hits [] chunks)
  group_hits-IsGrouping chunks =
      grow [] chunks [] (record { full = tt; apart = tt; all = λ id h. nothing id })
    where
      nothing : (id : Text) → filter (of_post id) [] ≡ []
      nothing id = filter-drop (of_post id) [] tt
