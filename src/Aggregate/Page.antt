-- ===== src/Aggregate/Page.antt =====
-- services/search-aggregate.service.ts: the page of posts.
use bubblog_ai.Prelude.Text.{Text}
use bubblog_ai.Prelude.{◌≡◌, false, List, All, not, true, ◌||◌}
use bubblog_ai.Aggregate.{Scores, time_of, ChunkHit, PostHit}

-- What holds of numbers that are not NaN: neither is less than itself, "not less" is transitive, and two
-- numbers are the same if none of them is less.
pub record AreOrdered {S : Type 0} (n : Scores S) : Type 0 where
  pub asymm : (a b : S) → n.less a b ≡ true → n.less b a ≡ false
  pub trans : (a b c : S) → n.less b a ≡ false → n.less c b ≡ false → n.less c a ≡ false
  pub same-less : (a b : S) → n.same a b ≡ not (n.less a b || n.less b a)

module _ {S : Type 0} (n : Scores S) where
  -- A post does not come before one with a higher score, nor before a later one with the same score.
  abbrev pub InOrder : PostHit S → PostHit S → Type 0
  InOrder a b =
      (n.less a.score b.score ≡ false)
      × (n.same a.score b.score ≡ true
          → n.less (time_of n a.created_at) (time_of n b.created_at) ≡ false)

  -- The chunk of a post that is shown: no found chunk of the post scores higher.
  abbrev pub IsBest : List (ChunkHit S) → PostHit S → Type 0
  IsBest chunks p =
      All (λ c. c.post_id ≡ p.post_id → n.less p.best.similarity_score c.similarity_score ≡ false)
        chunks
