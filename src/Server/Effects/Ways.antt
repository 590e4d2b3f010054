-- ===== src/Server/Effects/Ways.antt =====
-- app/routes/verify.py: the ways in which a request to verify ends, each with its reply and the sessions after it.
use doppelganger_web.Prelude.{ℕ, String, Bool, true, false, [], ◌∷◌, ◌≡◌, Option, none, some}
use doppelganger_web.Exec.{Error, Result, ok, throw}
use doppelganger_web.Exec.Fallible
use doppelganger_web.Value.{Value, str, num, object}
use doppelganger_web.Server.{Python, Config, Reply, error_reply}
use doppelganger_web.Server.Redis.{Hash, Redis, lookup, hset, publish, Link, up, down, cut}
use doppelganger_web.Server.Store.{key_of, channel_of}
use doppelganger_web.Server.Scoring.{Pending, score_of, at_key, name_text}
use doppelganger_web.Server.Effects.{announcement, is_waiting}

abbrev pub error_with : ℕ → String → Reply
error_with status text = record { status = status; body = object (("error", str text) ∷ []) }

abbrev pub store_busy : Reply
store_busy = error_with 503 "Session store is busy. Please try again in a moment."

-- The session is there and waits.
abbrev pub IsWaiting : Pending → Redis → Type 0
IsWaiting p r = (h : Hash) × (lookup r (key_of p.session_id) ≡ some h) × (is_waiting h ≡ true)

-- The session is gone or over.
abbrev pub IsOver : Pending → Redis → Type 0
IsOver p r = (h : Hash) → lookup r (key_of p.session_id) ≡ some h → is_waiting h ≡ false

module _ (py : Python) (config : Config) where
  -- The embedding of the answer is given and has a score.
  pub record HasScore (p : Pending) (given : Option Value) (score : String) : Type 0 where
    pub embedding : Value
    pub is_given : given ≡ some embedding
    pub scored : score_of py p embedding ≡ ok score

  -- The session after its verdict, with the event on its channel.
  abbrev pub settled : Bool → Pending → String → Redis → Redis
  settled true p score r =
      publish (channel_of p.session_id) (py.dumps (announcement true p (py.percent score))) (
        hset (key_of p.session_id)
          (("phase", "VERIFIED")
            ∷ ("bob_name", name_text p.bob_name)
            ∷ ("bob_pubkey_jwk", py.dumps p.bob_jwk)
            ∷ ("similarity_score", py.round_to_4 score)
            ∷ [])
          r)
  settled false p score r =
      publish (channel_of p.session_id) (py.dumps (announcement false p (py.percent score))) (
        hset (key_of p.session_id)
          (("phase", "FAILED") ∷ ("similarity_score", py.round_to_4 score) ∷ []) r)

  -- Alice's key, as it is read for the reply.
  abbrev pub alice_key : Pending → Result Value
  alice_key p = Fallible.◌>>=◌ (at_key "alice_pubkey_jwk" p.session) py.loads

  -- How a request ends that has a score.
  pub data Judged (link : Link) (p : Pending) (score : String) (r : Redis)
      : Reply → Redis → Type 0 where
    no_percentage :
        py.is_finite score ≡ false
        → Judged link p score r (error_with 500 "Internal server error. Please try again.") r
    unreachable : link ≡ down → Judged link p score r store_busy r
    was_gone :
        link ≡ up
        → lookup r (key_of p.session_id) ≡ none
        → Judged link p score r (error_with 404 "Session expired while scoring") r
    was_over :
        (h : Hash)
        → link ≡ up
        → lookup r (key_of p.session_id) ≡ some h
        → is_waiting h ≡ false
        → Judged link p score r (error_with 409 "Session already completed") r
    unheard_refusal : link ≡ cut → IsOver p r → Judged link p score r store_busy r
    passes :
        (jwk : Value)
        → link ≡ up
        → IsWaiting p r
        → py.at_least score config.threshold ≡ true
        → alice_key p ≡ ok jwk
        → Judged link p score r
            (record {
              status = 200;
              body = object (
                  ("result", str "PASS")
                  ∷ ("score", num (py.percent score))
                  ∷ ("alice_pubkey_jwk", jwk)
                  ∷ []);
            })
            (settled true p score r)
    fails :
        link ≡ up
        → IsWaiting p r
        → py.at_least score config.threshold ≡ false
        → Judged link p score r
            (record {
              status = 200;
              body = object (("result", str "FAIL") ∷ ("score", num (py.percent score)) ∷ []);
            })
            (settled false p score r)
    passes_without_key :
        (e : Error)
        → link ≡ up
        → IsWaiting p r
        → py.at_least score config.threshold ≡ true
        → alice_key p ≡ throw e
        → Judged link p score r (error_reply e) (settled true p score r)
    unheard_verdict :
        (passed : Bool)
        → link ≡ cut
        → IsWaiting p r
        → py.at_least score config.threshold ≡ passed
        → Judged link p score r store_busy (settled passed p score r)

  pub data Ends (link : Link) (p : Pending) (given : Option Value) (r : Redis)
      : Reply → Redis → Type 0 where
    no_embedding :
        given ≡ none
        → Ends link p given r (error_with 503 "Embedding service busy — please try again") r
    no_score :
        (embedding : Value) (e : Error)
        → given ≡ some embedding
        → score_of py p embedding ≡ throw e
        → Ends link p given r (error_reply e) r
    judged :
        (score : String) (reply : Reply) (s : Redis)
        → HasScore p given score
        → Judged link p score r reply s
        → Ends link p given r reply s
