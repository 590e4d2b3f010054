-- ===== src/Server/Effects/Replies.antt =====
-- app/routes/verify.py: a request to verify ends in one of the ways of Server/Effects/Ways.antt.
use mathlib.Core.Option.{none-ne-some, some_inj}
use doppelganger_web.Prelude.{
  sym, ap, ◌∙◌, subst, String, Bool, true, false, [], ◌∷◌, ◌≡◌, refl, Option, none, some,
  Bool-cases, inl, inr,
}
use doppelganger_web.Exec.{raised, Result, ok, throw, lift, ◌>>=◌, and_then, pure}
use doppelganger_web.Exec.Fallible
use doppelganger_web.Value.{Value, str, num, object}
use doppelganger_web.Server.{Python, Config, Reply, error_reply}
use doppelganger_web.Server.Redis.{Hash, Redis, lookup, Link, up, down, cut, call}
use doppelganger_web.Server.Store.{key_of, channel_of, finalize, Outcome}
use doppelganger_web.Server.Scoring.{Pending, score_of, at_key, updates, event, won_reply}
use doppelganger_web.Server.Session.{serve, answered}
use doppelganger_web.Server.Verify.{conclude, finish, outcome_reply}
use doppelganger_web.Server.Effects.{
  is_waiting, decide, Ended, found_none, found_over, found_waiting, finalize_script-Ended,
}
use doppelganger_web.Server.Effects.Ways.{
  store_busy, IsWaiting, IsOver, settled, alice_key, Judged, Ends, no_percentage, unreachable,
  was_gone, was_over, unheard_refusal, passes, fails, passes_without_key, unheard_verdict,
  no_embedding, no_score, judged,
}

module _ (py : Python) (config : Config) where
  none-IsOver : (p : Pending) (r : Redis) → lookup r (key_of p.session_id) ≡ none → IsOver p r
  none-IsOver p r missing h found = absurd (none-ne-some h (sym missing ∙ found))

  found-IsOver :
      (p : Pending) (r : Redis) (h : Hash)
      → lookup r (key_of p.session_id) ≡ some h
      → is_waiting h ≡ false
      → IsOver p r
  found-IsOver p r h found over g there = ap is_waiting (some_inj.0 (sym there ∙ found)) ∙ over

  module _ (p : Pending) (r : Redis) (score : String) where
    abbrev Found : Bool → Outcome → Redis → Type 0
    Found passed =
        Ended (key_of p.session_id) (channel_of p.session_id) (py.dumps (event py passed p score))
          (updates py passed p score) r

    decide-settled :
        (passed : Bool) → decide py config passed p score r ≡ settled py config passed p score r
    decide-settled true = refl
    decide-settled false = refl

    pass_reply : Value → Reply
    pass_reply jwk = record {
      status = 200;
      body = object (
          ("result", str "PASS")
          ∷ ("score", num (py.percent score))
          ∷ ("alice_pubkey_jwk", jwk)
          ∷ []);
    }

    -- The reply of a pass, once the key has been looked for and once it has been read.
    module _ (waits : IsWaiting p r) (passed : py.at_least score config.threshold ≡ true) where
      read-Judged :
          (read : Result Value)
          → alice_key py config p ≡ read
          → Judged py config up p score r
              (answered (Fallible.◌>>=◌ read (λ jwk. ok (pass_reply jwk))))
              (settled py config true p score r)
      unfolding pass_reply
      read-Judged (ok jwk) same = passes jwk refl waits passed same
      read-Judged (throw e) same = passes_without_key e refl waits passed same

      text-Judged :
          (text : Result String)
          → alice_key py config p ≡ Fallible.◌>>=◌ text py.loads
          → Judged py config up p score r
              (answered (
                Fallible.◌>>=◌ text
                  (λ t. Fallible.◌>>=◌ (py.loads t) (λ jwk. ok (pass_reply jwk)))))
              (settled py config true p score r)
      text-Judged (ok t) same = read-Judged (py.loads t) same
      text-Judged (throw e) same = passes_without_key e refl waits passed same

    won-Judged :
        (passed : Bool)
        → IsWaiting p r
        → py.at_least score config.threshold ≡ passed
        → Judged py config up p score r
            (answered (won_reply py passed p score))
            (decide py config passed p score r)
    unfolding won_reply pass_reply
    won-Judged false waits is = fails refl waits is
    won-Judged true waits is = text-Judged waits is (at_key "alice_pubkey_jwk" p.session) refl

    module _ (passed : Bool) (is : py.at_least score config.threshold ≡ passed) where
      up-Judged :
          (o : Outcome) (s : Redis)
          → Found passed o s
          → Judged py config up p score r (answered (outcome_reply py passed p score o)) s
      up-Judged _ _ (found_none missing) = was_gone refl missing
      up-Judged _ _ (found_over h found over) = was_over h refl found over
      up-Judged _ _ (found_waiting h found waits) = won-Judged passed (h, found, waits) is

      cut-Judged :
          (o : Outcome) (s : Redis)
          → Found passed o s
          → Judged py config cut p score r (error_reply (raised "RedisError")) s
      unfolding error_reply
      cut-Judged _ _ (found_none missing) = unheard_refusal refl (none-IsOver p r missing)
      cut-Judged _ _ (found_over h found over) =
          unheard_refusal refl (found-IsOver p r h found over)
      cut-Judged _ _ (found_waiting h found waits) =
          subst (Judged py config cut p score r store_busy) (sym (decide-settled passed))
            (unheard_verdict passed refl (h, found, waits) is)

      finite-Judged :
          (link : Link)
          → py.is_finite score ≡ true
          → Judged py config link p score r
              (serve (conclude py link p score passed) r).0
              (serve (conclude py link p score passed) r).1
      unfolding conclude serve error_reply finalize call ◌>>=◌ and_then lift
      finite-Judged up finite = rw finite (up-Judged _ _ (finalize_script-Ended _ _ _ _ r))
      finite-Judged cut finite = rw finite (cut-Judged _ _ (finalize_script-Ended _ _ _ _ r))
      finite-Judged down finite = rw finite (unreachable refl)

      conclude-Judged :
          (link : Link)
          → Judged py config link p score r
              (serve (conclude py link p score passed) r).0
              (serve (conclude py link p score passed) r).1
      unfolding conclude serve error_reply ◌>>=◌ and_then lift
      conclude-Judged link = elim (Bool-cases (py.is_finite score)) [
        | inl finite ↦ finite-Judged link finite
        | inr endless ↦ rw endless (no_percentage endless)
      ]

  scored-Ends :
      (link : Link) (p : Pending) (r : Redis) (embedding : Value) (res : Result String)
      → score_of py p embedding ≡ res
      → let route =
          lift res >>= λ score. conclude py link p score (py.at_least score config.threshold) in
        Ends py config link p (some embedding) r (serve route r).0 (serve route r).1
  unfolding serve ◌>>=◌ lift
  scored-Ends link p r embedding (ok score) scored =
      judged score _ _ (record { embedding = embedding; is_given = refl; scored = scored })
        (conclude-Judged p r score _ refl link)
  scored-Ends link p r embedding (throw e) scored = no_score embedding e refl scored

  -- Whatever the embedding, and however the call of Redis goes, a request to verify ends in one of these ways,
  -- with this reply. It changes nothing where no embedding was given (503), the score cannot be computed
  -- (its error) or has no percentage (500), Redis is down (503), the session is gone (404) or over (409),
  -- or either of the last two when the answer of Redis is lost (503). Where the session waits, its fields
  -- are set and its event is published: VERIFIED, with Bob's name and key, if the score reaches the
  -- threshold, and otherwise FAILED, both with the percentage. The reply then is 200 with a PASS, the
  -- percentage and Alice's key, or with a FAIL and the percentage; but it is an error where her key cannot
  -- be read, and a 503 where the answer of Redis is lost.
  pub finish-Ends :
      (link : Link) (p : Pending) (embedding : Option Value) (r : Redis)
      → Ends py config link p embedding r
          (serve (finish py config link p embedding) r).0
          (serve (finish py config link p embedding) r).1
  unfolding finish serve pure
  finish-Ends link p none r = no_embedding refl
  finish-Ends link p (some embedding) r = scored-Ends link p r embedding _ refl
