-- ===== src/Sessions/Cursors.antt =====
-- controllers/session.controller.ts: the cursor that an answer carries is read back as it was.
use bubblog_ai.Prelude.{ℕ, ◌≡◌, ◌≢◌, refl, false, some, arith, [], ◌∷◌, ◌++◌, All}
use bubblog_ai.Prelude.Text.{Text, is_empty}
use bubblog_ai.Repository.Messages.{Cursor}
use bubblog_ai.Sessions.{
  Platform, ok, encode_cursor, before_bar, after_bar, decode_cursor, read_cursor,
}

-- Base 64 and the texts of times and ids are read back, and neither text is empty or has a bar. A
-- stored time that is no whole `Date` need not be read back.
pub record IsCodec (env : Platform) : Type 0 where
  pub base64 : (t : Text) → env.of_base64 (env.to_base64 t) ≡ t
  pub base64_filled : (t : Text) → is_empty t ≡ false → is_empty (env.to_base64 t) ≡ false
  pub dates : (t : ℕ) → env.to_date t ≡ t → env.parse_date (env.to_iso t) ≡ some t
  pub ids : (i : ℕ) → env.text_id (env.id_text i) ≡ some i
  pub iso_plain : (t : ℕ) → All (λ c. c ≢ 124) (env.to_iso t)
  pub iso_filled : (t : ℕ) → is_empty (env.to_iso t) ≡ false
  pub id_plain : (i : ℕ) → All (λ c. c ≢ 124) (env.id_text i)
  pub id_filled : (i : ℕ) → is_empty (env.id_text i) ≡ false

before_bar-plain : (a b : Text) → All (λ c. c ≢ 124) a → before_bar (a ++ 124 ∷ b) ≡ a
unfolding before_bar
before_bar-plain [] b h = refl
before_bar-plain (c ∷ a) b (p, h) = ground (arith, p, before_bar-plain a b h)

before_bar-all : (a : Text) → All (λ c. c ≢ 124) a → before_bar a ≡ a
unfolding before_bar
before_bar-all [] h = refl
before_bar-all (c ∷ a) (p, h) = ground (arith, p, before_bar-all a h)

after_bar-plain : (a b : Text) → All (λ c. c ≢ 124) a → after_bar (a ++ 124 ∷ b) ≡ some b
unfolding after_bar
after_bar-plain [] b h = refl
after_bar-plain (c ∷ a) b (p, h) = ground (arith, p, after_bar-plain a b h)

module _ (env : Platform) (laws : IsCodec env) where
  -- A cursor made of a whole time and an id is read back as that time and id.
  pub decode_cursor-encode_cursor :
      (t i : ℕ)
      → env.to_date t ≡ t
      → decode_cursor env (encode_cursor env t i) ≡ some (record { created_at = t; id = i })
  unfolding decode_cursor
  decode_cursor-encode_cursor t i w =
      rw
        (
          laws.base64 (env.to_iso t ++ 124 ∷ env.id_text i),
          before_bar-plain (env.to_iso t) (env.id_text i) (laws.iso_plain t),
          after_bar-plain (env.to_iso t) (env.id_text i) (laws.iso_plain t),
          laws.iso_filled t,
          before_bar-all (env.id_text i) (laws.id_plain i),
          laws.id_filled i,
          laws.dates t w,
          laws.ids i,
        )
        refl

  filled-append : (a : Text) (b : Text) → is_empty (a ++ 124 ∷ b) ≡ false
  filled-append [] b = refl
  filled-append (c ∷ a) b = refl

  read-filled :
      (k : Text) (c : Cursor)
      → is_empty k ≡ false
      → decode_cursor env k ≡ some c
      → read_cursor env (some k) ≡ ok (some c)
  read-filled [] c f e = absurd (ground (arith, f))
  read-filled (x ∷ xs) c f e = rw (read_cursor, e) refl

  pub read_cursor-encode_cursor :
      (t i : ℕ)
      → env.to_date t ≡ t
      → read_cursor env (some (encode_cursor env t i))
        ≡ ok (some (record { created_at = t; id = i }))
  read_cursor-encode_cursor t i w =
      read-filled (encode_cursor env t i) (record { created_at = t; id = i })
        (laws.base64_filled (env.to_iso t ++ 124 ∷ env.id_text i)
          (filled-append (env.to_iso t) (env.id_text i)))
        (decode_cursor-encode_cursor t i w)
