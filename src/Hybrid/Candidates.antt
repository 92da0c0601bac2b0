-- ===== src/Hybrid/Candidates.antt =====
-- services/hybrid-search.service.ts: the candidates, and the chunks that are kept of a post.
use bubblog_ai.Prelude.{
  ℕ, suc, Bool, true, false, leb, Option, none, some, List, [], ◌∷◌, ◌++◌, if◌then◌else◌,
}
use bubblog_ai.Prelude.Text.{Text, text_eq, number_text}
use bubblog_ai.Aggregate.{ChunkHit}

-- A value of `byKey`.
pub record Candidate (W : Type 0) : Type 0 where
  pub post_id : Text
  pub post_title : Text
  pub post_chunk : Text
  pub chunk_index : Option ℕ
  pub vec_score : Option W
  pub text_score : Option W
  pub post_created_at : Option Text

-- A query, its text empty for the question itself, with its entries of `weightsByIndex` and `keepIndex`.
pub record Weighted (W : Type 0) : Type 0 where
  pub rewrite : Text
  pub embedding : List W
  pub weight : W
  pub keep : Bool

abbrev pub index_text : Option ℕ → Text → Text
index_text none chunk = chunk
index_text (some i) chunk = number_text i

-- `key`
unfoldable pub chunk_key : Text → Option ℕ → Text → Text
unfolding number_text
chunk_key post_id i chunk = post_id ++ (58 ∷ index_text i chunk)

-- `!prev` and `byKey.set`, or the change of what is there.
unfoldable pub put_candidate :
    {W : Type 0}
    → (Candidate W → Candidate W)
    → Candidate W
    → List (Candidate W)
    → List (Candidate W)
unfolding chunk_key
put_candidate change fresh [] = fresh ∷ []
put_candidate change fresh (c ∷ cs) =
    let rest = put_candidate change fresh cs in
    if text_eq (chunk_key c.post_id c.chunk_index c.post_chunk)
      (chunk_key fresh.post_id fresh.chunk_index fresh.post_chunk)
    then change c ∷ cs
    else c ∷ rest

abbrev pub counted : Text → (Text → ℕ) → Text → ℕ
counted id counts p = if text_eq p id then suc (counts p) else counts p

-- The loop over `sorted`, with `byPostCount`.
unfoldable pub diversify : {W : Type 0} → (Text → ℕ) → List (ChunkHit W) → List (ChunkHit W)
diversify counts [] = []
diversify counts (r ∷ rs) = elim (leb 2 (counts r.post_id)) [
  | true ↦ diversify counts rs
  | false ↦ r ∷ diversify (counted r.post_id counts) rs
]
