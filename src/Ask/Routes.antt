-- ===== src/Ask/Routes.antt =====
-- middlewares/auth.middleware.ts, routes/ai.v2.routes.ts: a question with the token of its request.
use bubblog_ai.Prelude.{
  Bool-cases, ℕ, inl, inr, Bool-cases, ◌≡◌, refl, true, ◌==◌, Option, none, some, List, [], ◌∷◌,
  drop, if◌then◌else◌,
}
use bubblog_ai.Prelude.Text.{Text, codes, starts_with}
use bubblog_ai.Repository.{AskSession, Db}
use bubblog_ai.Repository.Cache.{Vectors}
use bubblog_ai.Sessions.{Platform, Reply, ok, failed, User}
use bubblog_ai.Qa.Data.{ChatMessage, Request, Reader}
use bubblog_ai.Qa.Shape.{Finishes}
use bubblog_ai.QaV2.{Planning}
use bubblog_ai.Ask.{Sent, json_reply, AskBody, ask_v2_handler}
use bubblog_ai.Ask.Replies.{is_answered, ask_v2_handler-answered}

-- `s.split(' ')[0]`
abbrev until_space : Text → Text
until_space [] = []
until_space (c ∷ s) = let rest = until_space s in if c == 32 then [] else c ∷ rest

abbrev checked : Option User → Reply User
checked none = failed 401 (codes "Invalid token")
checked (some u) = ok u

-- The header `authorization`, and `jwt.verify` with the key, `none` where it throws. Behind `Bearer ` stands
-- the second part of the header.
unfoldable pub auth_middleware : (Text → Option User) → Option Text → Reply User
auth_middleware verify none = failed 401 (codes "Missing Bearer token")
auth_middleware verify (some h) =
    if starts_with (codes "Bearer ") h
    then checked (verify (until_space (drop 7 h)))
    else failed 401 (codes "Missing Bearer token")

abbrev pub routed : {E : Type 0} → (User → List Sent × Db E) → Db E → Reply User → List Sent × Db E
routed handler db (failed status message) = (json_reply status message ∷ [], db)
routed handler db (ok u) = handler u

module _ {E : Type 0} (env : Platform) {S : Type 0} (to_date : ℕ → ℕ) (v : Vectors E S)
    (reader : Reader) (verify : Text → Option User) {J W : Type 0} (g : Planning J W)
    (around : AskSession → Request E) where
  -- `POST /ai/v2/ask`
  unfoldable pub ask_v2_route : Option Text → AskBody → Db E → List Sent × Db E
  unfolding auth_middleware ask_v2_handler
  ask_v2_route header b db =
      routed (λ u. ask_v2_handler env to_date v reader g around (some u) b db) db
        (auth_middleware verify header)

  routed-answered :
      (finishes : (s : AskSession) (ms : List ChatMessage) → Finishes ((around s).llm ms))
      (b : AskBody) (db : Db E) (r : Reply User)
      → is_answered
          (routed (λ u. ask_v2_handler env to_date v reader g around (some u) b db) db r).0
        ≡ true
  routed-answered finishes b db (failed status message) = refl
  routed-answered finishes b db (ok u) =
      ask_v2_handler-answered env to_date v reader around finishes g (some u) b db

  -- Whatever the header, the token, the body, the sessions and the services are, a question to the planned
  -- search gets one reply with a status, or the headers, then writes and then the end, once, if every stream
  -- of the model finishes.
  pub ask_v2_route-answered :
      (finishes : (s : AskSession) (ms : List ChatMessage) → Finishes ((around s).llm ms))
      (header : Option Text) (b : AskBody) (db : Db E)
      → is_answered (ask_v2_route header b db).0 ≡ true
  unfolding ask_v2_route
  ask_v2_route-answered finishes header b db =
      routed-answered finishes b db (auth_middleware verify header)

  -- Where there is no token, or it is not verified, a question is refused, and nothing is changed.
  pub ask_v2_route-refused :
      (header : Option Text) (b : AskBody) (db : Db E)
      → ((t : Text) → header ≡ some t → verify (until_space (drop 7 t)) ≡ none)
      → (ask_v2_route header b db).1 ≡ db
  unfolding ask_v2_route auth_middleware
  ask_v2_route-refused none b db h = refl
  ask_v2_route-refused (some t) b db h = elim (Bool-cases (starts_with (codes "Bearer ") t)) [
    | inl e ↦ rw (e, h t refl) refl
    | inr e ↦ rw (e) refl
  ]
