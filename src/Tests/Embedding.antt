-- ===== src/Tests/Embedding.antt =====
-- Tests of `Embedding`.
use bubblog_ai.Prelude.{◌≤◌, List, [], ◌∷◌, arith, All, length}
use bubblog_ai.Prelude.{ℕ, ◌≡◌, refl, Bool, false, ◌==◌, ◌||◌, none, some, if◌then◌else◌}
use bubblog_ai.Prelude.Text.{codes}
use bubblog_ai.Embedding.Sentences.{split_sentences}
use bubblog_ai.Embedding.Service.{
  Tokenizer, EmbeddingApi, text_chunks, Replaced, embed_content_handler, embed_title_handler,
  embed_content_handler-Replaced,
}
use bubblog_ai.Posts.Content.{on_one}
use bubblog_ai.Tests.Posts.{idle_pool}
use bubblog_ai.Embedding.{Tokens, chunk_text}
use bubblog_ai.Embedding.Bounds.{chunk_text-bounds}
use bubblog_ai.Embedding.Kept.{IsKept, chunk_text-keeps}

abbrev sentences : List Tokens
sentences = (1 ∷ 2 ∷ []) ∷ (3 ∷ []) ∷ []

chunk_text-bounds_example : All (λ c. length c ≤ 512) (chunk_text sentences)
chunk_text-bounds_example = chunk_text-bounds sentences ((omega arith), ((omega arith), tt))

chunk_text-keeps_example : All (λ t. IsKept t (chunk_text sentences)) sentences
chunk_text-keeps_example = chunk_text-keeps sentences

-- The number after a version and a mark without a space behind it end no sentence.
two_sentences :
    split_sentences (codes "Use v1.2 now!  Is it?Yes")
    ≡ codes "Use v1.2 now!" ∷ codes "Is it?Yes" ∷ []
unfolding split_sentences
two_sentences = refl

-- `<` stands for a special token.
abbrev has_special : Tokens → Bool
has_special [] = false
has_special (c ∷ cs) = (c == 60) || has_special cs

abbrev unit_tokens : Tokenizer
unit_tokens = record { encode = λ t. if has_special t then none else some t; decode = λ t. t }

abbrev length_api : EmbeddingApi ℕ
length_api = record { fails = λ ts. false; embed = λ t. length t ∷ [] }

embed_content_handler-Replaced_example :
    Replaced length_api 5 (codes "Hi.Tea?" ∷ []) false idle_pool (
      embed_content_handler length_api unit_tokens
        (on_one 1 false false false false)
        5
        (codes "Hi. Tea?")
        idle_pool)
unfolding text_chunks
embed_content_handler-Replaced_example =
    embed_content_handler-Replaced length_api unit_tokens 1 5 false false false false
      (codes "Hi. Tea?") idle_pool refl

-- A special token ends the request, and the pool is left as it was.
special_token :
    embed_content_handler length_api unit_tokens
      (on_one 1 false false false false)
      5
      (codes "Hi. <end> Tea?")
      idle_pool
    ≡ (idle_pool, none)
unfolding embed_content_handler text_chunks split_sentences
special_token = refl

embed_title_handler_title :
    (embed_title_handler length_api false 5 (codes "Tea") idle_pool).0.blog.titles
    ≡ record { post_id = 4; embedding = 800 ∷ [] } ∷ record { post_id = 5; embedding = 3 ∷ [] } ∷ []
unfolding embed_title_handler
embed_title_handler_title = refl
