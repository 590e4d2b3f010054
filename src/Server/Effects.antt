-- ===== src/Server/Effects.antt =====
-- app/routes/verify.py: what finishing a request does to the sessions, and what it answers.
pub mod Ways
pub mod Replies
use doppelganger_web.Prelude.{
  String, Bool, true, false, [], ◌∷◌, ◌≡◌, refl, Option, none, some, ◌==◌, Bool-cases, inl, inr,
  arith,
}
use doppelganger_web.Exec.{
  Error, raised, type_error, syntax_error, Result, ok, throw, lift, ◌>>=◌, and_then, pure,
}
use doppelganger_web.Value.{Value, str, num, obj, object}
use doppelganger_web.Server.{Python, Config, Reply, error_reply}
use doppelganger_web.Server.Redis.{
  Hash, hget, Redis, lookup, hset, publish, Link, up, down, cut, call,
}
use doppelganger_web.Server.Store.{
  key_of, channel_of, has_phase, finalize, finalize_script, finalize_found, Outcome, gone,
  completed, won,
}
use doppelganger_web.Server.Scoring.{Pending, score_of, updates, event, won_reply}
use doppelganger_web.Server.Session.{serve, answered}
use doppelganger_web.Server.Verify.{conclude, finish, outcome_reply}

abbrev pub is_waiting : Hash → Bool
is_waiting h = has_phase "WAITING_FOR_BOB" (hget "phase" h)

abbrev pub is_success : Reply → Bool
is_success reply = reply.status == 200

pub is_success-error_reply : (e : Error) → is_success (error_reply e) ≡ false
unfolding error_reply
is_success-error_reply (type_error k) = refl
is_success-error_reply syntax_error = refl
is_success-error_reply (raised s) = ground (arith)

-- The event that tells Alice a verdict, with the percentage of the score.
abbrev pub announcement : Bool → Pending → String → Value
announcement true p percent = obj (
    object (
      ("event", str "VERIFIED")
      ∷ ("bob_name", p.bob_name)
      ∷ ("bob_pubkey_jwk", p.bob_jwk)
      ∷ ("score", num percent)
      ∷ []))
announcement false p percent = obj (object (("event", str "FAILED") ∷ ("score", num percent) ∷ []))

pub event-announcement :
    (py : Python) (passed : Bool) (p : Pending) (score : String)
    → event py passed p score ≡ announcement passed p (py.percent score)
event-announcement py true p score = refl
event-announcement py false p score = refl

-- The three ways in which the script ends.
pub data Ended (key channel message : String) (fields : Hash) (r : Redis)
    : Outcome → Redis → Type 0 where
  found_none : lookup r key ≡ none → Ended key channel message fields r gone r
  found_over :
      (h : Hash)
      → lookup r key ≡ some h
      → is_waiting h ≡ false
      → Ended key channel message fields r completed r
  found_waiting :
      (h : Hash)
      → lookup r key ≡ some h
      → is_waiting h ≡ true
      → Ended key channel message fields r won (publish channel message (hset key fields r))

found-Ended :
    (key channel message : String) (fields : Hash) (r : Redis) (found : Option Hash)
    → lookup r key ≡ found
    → let end = finalize_found key channel message fields found r in
      Ended key channel message fields r end.0 end.1
unfolding finalize_found
found-Ended key channel message fields r none same = found_none same
found-Ended key channel message fields r (some h) same = elim (Bool-cases (is_waiting h)) [
  | inl waiting ↦ rw waiting (found_waiting h same waiting)
  | inr over ↦ rw over (found_over h same over)
]

-- The script of `finalize` moves a session on exactly when it is there and waits, and otherwise changes
-- nothing and says why.
pub finalize_script-Ended :
    (key channel message : String) (fields : Hash) (r : Redis)
    → let end = finalize_script key channel message fields r in
      Ended key channel message fields r end.0 end.1
unfolding finalize_script
finalize_script-Ended key channel message fields r = found-Ended key channel message fields r _ refl

module _ (py : Python) (config : Config) where
  -- The redis after a verdict.
  abbrev pub decide : Bool → Pending → String → Redis → Redis
  decide passed p score r =
      publish (channel_of p.session_id) (py.dumps (event py passed p score))
        (hset (key_of p.session_id) (updates py passed p score) r)

  -- The one who has brought the verdict about is told it, or gets no success (Ways.antt says when).
  pub data Told (passed : Bool) (p : Pending) (score : String) : Reply → Type 0 where
    told : (reply : Reply) → won_reply py passed p score ≡ ok reply → Told passed p score reply
    lost : (reply : Reply) → is_success reply ≡ false → Told passed p score reply

  -- The ways in which a request ends, with the sessions and the reply: it is refused and changes nothing,
  -- or it moves a waiting session on and announces the verdict in one step.
  pub data Finished (p : Pending) (given : Option Value) (r : Redis) : Reply → Redis → Type 0 where
    refused : (reply : Reply) → is_success reply ≡ false → Finished p given r reply r
    decided :
        (reply : Reply) (embedding : Value) (passed : Bool) (score : String) (h : Hash)
        → given ≡ some embedding
        → score_of py p embedding ≡ ok score
        → py.at_least score config.threshold ≡ passed
        → lookup r (key_of p.session_id) ≡ some h
        → is_waiting h ≡ true
        → Told passed p score reply
        → Finished p given r reply (decide passed p score r)

  won-Told :
      (passed : Bool) (p : Pending) (score : String) (res : Result Reply)
      → won_reply py passed p score ≡ res
      → Told passed p score (answered res)
  won-Told passed p score (ok reply) same = told reply same
  won-Told passed p score (throw e) same = lost (error_reply e) (is_success-error_reply e)

  module _ (p : Pending) (r : Redis) (embedding : Value) (score : String)
      (scored : score_of py p embedding ≡ ok score) (passed : Bool)
      (judged : py.at_least score config.threshold ≡ passed) where
    abbrev Concluded : Outcome → Redis → Type 0
    Concluded =
        Ended (key_of p.session_id) (channel_of p.session_id) (py.dumps (event py passed p score))
          (updates py passed p score) r

    answered-Finished :
        (o : Outcome) (s : Redis)
        → Concluded o s
        → Finished p (some embedding) r (answered (outcome_reply py passed p score o)) s
    answered-Finished o s (found_none missing) = refused _ refl
    answered-Finished o s (found_over h found over) = refused _ refl
    answered-Finished o s (found_waiting h found waiting) =
        decided _ embedding passed score h refl scored judged found waiting
          (won-Told passed p score _ refl)

    cut-Finished :
        (o : Outcome) (s : Redis)
        → Concluded o s
        → Finished p (some embedding) r (error_reply (raised "RedisError")) s
    unfolding error_reply
    cut-Finished o s (found_none missing) = refused _ refl
    cut-Finished o s (found_over h found over) = refused _ refl
    cut-Finished o s (found_waiting h found waiting) =
        decided _ embedding passed score h refl scored judged found waiting (lost _ refl)

    finite-Finished :
        (link : Link)
        → py.is_finite score ≡ true
        → Finished p
            (some embedding)
            r
            (serve (conclude py link p score passed) r).0
            (serve (conclude py link p score passed) r).1
    unfolding conclude serve error_reply finalize call ◌>>=◌ and_then lift
    finite-Finished up finite = rw finite (answered-Finished _ _ (finalize_script-Ended _ _ _ _ r))
    finite-Finished cut finite = rw finite (cut-Finished _ _ (finalize_script-Ended _ _ _ _ r))
    finite-Finished down finite = rw finite (refused _ refl)

    conclude-Finished :
        (link : Link)
        → Finished p
            (some embedding)
            r
            (serve (conclude py link p score passed) r).0
            (serve (conclude py link p score passed) r).1
    unfolding conclude serve error_reply ◌>>=◌ and_then lift
    conclude-Finished link = elim (Bool-cases (py.is_finite score)) [
      | inl finite ↦ finite-Finished link finite
      | inr endless ↦ rw endless (refused _ refl)
    ]

  scored-Finished :
      (link : Link) (p : Pending) (r : Redis) (embedding : Value) (res : Result String)
      → score_of py p embedding ≡ res
      → let route =
          lift res >>= λ score. conclude py link p score (py.at_least score config.threshold) in
        Finished p (some embedding) r (serve route r).0 (serve route r).1
  unfolding serve ◌>>=◌ lift
  scored-Finished link p r embedding (ok score) scored =
      conclude-Finished p r embedding score scored _ refl link
  scored-Finished link p r embedding (throw e) scored = refused _ (is_success-error_reply e)

  -- Whatever the embedding, and however the call of Redis goes, a request ends in one of the ways of `Finished`.
  pub finish-Finished :
      (link : Link) (p : Pending) (embedding : Option Value) (r : Redis)
      → Finished p embedding r
          (serve (finish py config link p embedding) r).0
          (serve (finish py config link p embedding) r).1
  unfolding finish serve pure
  finish-Finished link p none r = refused _ refl
  finish-Finished link p (some embedding) r = scored-Finished link p r embedding _ refl
