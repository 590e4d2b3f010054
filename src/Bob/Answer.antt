-- ===== src/Bob/Answer.antt =====
-- static/js/session.js: `submitAnswer`, which sends Bob's answer and completes the key exchange.
use doppelganger_web.Prelude.{
  ℕ, String, true, false, Option, none, some, [], ◌∷◌, ◌||◌, ◌==◌, if◌then◌else◌, str_eq, ltb, not,
}
use doppelganger_web.Exec.{
  Error, raised, Result, throw, Exec, lift, modify, gets, ◌>>=◌, ◌>>◌, attempt,
}
use doppelganger_web.Text.{concat, slice_to, length, trim, decimal}
use doppelganger_web.Value.{
  Value, num, str, Fields, object, truthy, get, is_text, to_text, cut, Engine, message, or_empty,
  score_text,
}
use doppelganger_web.Panel.{key, network, embed, phase}
use doppelganger_web.Panel.Events.{
  report, verify_submitted, similarity_scored, phase_transition, ecdh_derived,
}
use doppelganger_web.Crypto.{
  Key, KeyPair, Request, Response, is_ok, fetch, read_json, export_public_key, import_public_key,
  derive_shared_key, private_key,
}
use doppelganger_web.Bob.{
  Tab, submit_exported, submit_fetched, submit_answered, pass_imported, pass_derived, log, show,
  alert, await,
}

-- The body of POST /api/session/<id>/verify.
abbrev pub verify_body : String → String → Value → Fields
verify_body name answer exported =
    object (("bob_name", str name) ∷ ("answer", str answer) ∷ ("bob_pubkey_jwk", exported) ∷ [])

abbrev pub verify_request : String → String → String → Value → Request
verify_request session_id name answer exported = record {
  url = concat ("/api/session/" ∷ session_id ∷ "/verify" ∷ []);
  method = "POST";
  headers = ("Content-Type", "application/json") ∷ [];
  body = some (verify_body name answer exported);
}

-- `submitAnswer` once the form is filled in and the keys are there.
unfoldable pub start_submit : String → String → KeyPair → Exec Tab Unit
unfolding export_public_key
start_submit name answer keys = do
  modify (λ t. record t { submit_disabled = true; submit_label = "Submitting..." })
  show "step-scoring"
  await (export_public_key keys.public_key) (submit_exported name answer)

unfoldable pub submit_with : Option KeyPair → String → String → Exec Tab Unit
unfolding start_submit
submit_with none name answer = alert "Keys still generating — please wait."
submit_with (some keys) name answer = start_submit name answer keys

unfoldable pub submit_answer : Exec Tab Unit
unfolding submit_with trim
submit_answer = do
  name ← gets (λ t. trim t.bob_name)
  answer ← gets (λ t. trim t.bob_answer)
  keys ← gets (λ t. t.key_pair)
  if str_eq name "" || str_eq answer ""
      then alert "Please fill in your name and answer."
      else submit_with keys name answer

module _ (engine : Engine) where
  -- The `catch` block of `submitAnswer`.
  unfoldable pub submit_failed : Error → Exec Tab Unit
  submit_failed err = do
    log (report network "Verify request failed" (("error", str (message engine err)) ∷ []))
    alert "Something went wrong. Please try again."
    show "step-bob-challenge"
    modify (λ t. record t { submit_disabled = false; submit_label = "Submit Answer" })

  unfoldable pub on_submit_exported : String → String → Result Value → Exec Tab Unit
  unfolding submit_failed
  on_submit_exported name answer settled =
      attempt
        (do
          exported ← lift settled
          log verify_submitted
          log (
              report embed "Answer being embedded on server" (
                (
                  "answer_preview",
                  str (
                      concat
                        (slice_to 30 answer ∷ (if ltb 30 (length answer) then "..." else "") ∷ [])),
                )
                ∷ ("model", str "all-MiniLM-L6-v2")
                ∷ ("dimensions", num "384")
                ∷ ("note", str "Server computes cosine similarity against Alice's stored vector")
                ∷ []))
          session_id ← gets (λ t. t.session_id)
          await (fetch (verify_request session_id name answer exported)) submit_fetched)
        submit_failed

  unfoldable pub on_submit_fetched : Result Response → Exec Tab Unit
  unfolding submit_failed
  on_submit_fetched settled =
      attempt (do resp ← lift settled; await (read_json resp) (submit_answered resp.status))
        submit_failed

  -- The answer 404 or 409.
  unfoldable pub on_gone : ℕ → Value → Exec Tab Unit
  on_gone status answered = do
    error ← lift (get "error" answered)
    log (
        report phase "Session no longer available"
          (("status", num (decimal status)) ∷ ("reason", error) ∷ []))
    show "step-expired"

  -- throw new Error(data.error || …)
  unfoldable pub throw_refusal : ℕ → Value → Exec Tab Unit
  throw_refusal status answered = do
    error ← lift (get "error" answered)
    lift (
        throw (
          raised (
            if truthy error
            then to_text error
            else concat ("Server error (" ∷ decimal status ∷ ")" ∷ []))))

  unfoldable pub on_pass : Value → Exec Tab Unit
  unfolding import_public_key
  on_pass answered = do
    log (phase_transition "WAITING_FOR_BOB" "VERIFIED")
    alice_jwk ← lift (get "alice_pubkey_jwk" answered)
    x ← lift (get "x" alice_jwk)
    short_x ← lift (cut 16 "..." x)
    log (
        report key "Received alice_pubkey_jwk — Bob passed verification" (
          ("alice_pubkey_x", str short_x)
          ∷ ("note", str "This key was withheld until Bob proved himself")
          ∷ []))
    await (import_public_key alice_jwk) (pass_imported answered)

  unfoldable pub on_fail : Value → Value → Exec Tab Unit
  on_fail score answered = do
    log (phase_transition "WAITING_FOR_BOB" "FAILED")
    log (
        report key "alice_pubkey_jwk withheld — FAIL" (
          ("reason", str "score below threshold")
          ∷ ("key_exchange", str "did not occur")
          ∷ ("session", str "locked — cannot retry")
          ∷ []))
    modify (λ t. record t { bob_fail_score = score_text score "% match" })
    show "step-bob-fail"

  -- The answer of the server when it has scored.
  unfoldable pub on_scored : Value → Exec Tab Unit
  unfolding on_pass on_fail
  on_scored answered = do
    score ← lift (get "score" answered)
    result ← lift (get "result" answered)
    log (similarity_scored score result)
    if is_text "PASS" result then on_pass answered else on_fail score answered

  unfoldable pub on_submit_answered : ℕ → Result Value → Exec Tab Unit
  unfolding submit_failed on_gone throw_refusal on_scored
  on_submit_answered status settled =
      attempt
        (if status == 404 || status == 409
          then on_gone status (or_empty settled)
          else if not (is_ok (record { status = status }))
          then throw_refusal status (or_empty settled)
          else on_scored (or_empty settled))
        submit_failed

  unfoldable pub on_pass_imported : Value → Result Key → Exec Tab Unit
  unfolding submit_failed derive_shared_key
  on_pass_imported answered settled =
      attempt
        (do
          alice_key ← lift settled
          keys ← gets (λ t. t.key_pair)
          own_key ← lift (private_key keys)
          await (derive_shared_key own_key alice_key) (pass_derived answered))
        submit_failed

  unfoldable pub on_pass_derived : Value → Result Key → Exec Tab Unit
  unfolding submit_failed
  on_pass_derived answered settled =
      attempt
        (do
          lift settled
          log (ecdh_derived "Bob")
          score ← lift (get "score" answered)
          modify (λ t. record t { bob_score = score_text score "% match ✓" })
          show "step-bob-pass")
        submit_failed
