-- ===== src/Bob/Open.antt =====
-- static/js/session.js: `initBob`, which makes Bob's key pair and fetches Alice's question.
use doppelganger_web.Prelude.{String, false, none, some, [], ◌∷◌, ◌==◌, if◌then◌else◌, not}
use doppelganger_web.Exec.{Error, Result, Exec, lift, modify, ◌>>=◌, ◌>>◌, attempt}
use doppelganger_web.Text.{concat, slice_to}
use doppelganger_web.Value.{Value, str, get, is_text, to_text, shown, Engine, message}
use doppelganger_web.Panel.{key, network, phase}
use doppelganger_web.Panel.Events.{report, key_generated, session_fetched}
use doppelganger_web.Crypto.{
  KeyPair, Request, Response, fetch, read_json, generate_key_pair, export_public_key,
}
use doppelganger_web.Bob.{
  Tab, init_generated, init_exported, session_answered, session_read, log, show, await,
}

abbrev pub read_request : String → Request
read_request session_id = record {
  url = concat ("/api/session/" ∷ session_id ∷ []);
  method = "GET";
  headers = [];
  body = none;
}

module _ (engine : Engine) where
  -- The two `catch` blocks of `initBob`.
  unfoldable pub init_failed : Error → Exec Tab Unit
  init_failed err =
      log (report key "Bob keypair generation failed" (("error", str (message engine err)) ∷ []))

  unfoldable pub fetch_failed : Error → Exec Tab Unit
  fetch_failed err = do
    log (report network "Session fetch failed" (("error", str (message engine err)) ∷ []))
    show "step-expired"

  -- The second `try` block, up to its first `await`.
  unfoldable pub fetch_session : String → Exec Tab Unit
  unfolding fetch_failed
  fetch_session session_id =
      attempt
        (do
          log (
              report network (concat ("GET /api/session/" ∷ slice_to 12 session_id ∷ "..." ∷ []))
                (("note", str "alice_pubkey_jwk is withheld at this stage") ∷ []))
          await (fetch (read_request session_id)) (session_answered session_id))
        fetch_failed

  unfoldable pub on_init_generated : String → Result KeyPair → Exec Tab Unit
  unfolding init_failed fetch_session export_public_key
  on_init_generated session_id settled =
      attempt
        (do
          made ← lift settled
          modify (λ t. record t { key_pair = some made })
          await (export_public_key made.public_key) (init_exported session_id))
        (λ err. do init_failed err; fetch_session session_id)

  unfoldable pub on_init_exported : String → Result Value → Exec Tab Unit
  unfolding init_failed fetch_session
  on_init_exported session_id settled = do
    attempt
        (do
          exported ← lift settled
          log (key_generated "Bob" exported)
          modify (λ t. record t {
            key_html =
                "<span style=\"color:var(--success, #1a5c35)\">✓ Encryption keys ready</span>";
            submit_disabled = false;
          }))
        init_failed
    fetch_session session_id

  unfoldable pub on_session_answered : String → Result Response → Exec Tab Unit
  unfolding fetch_failed
  on_session_answered session_id settled =
      attempt
        (do
          resp ← lift settled
          if resp.status == 404
              then (do
                log (
                    report network "Session not found → 404" (
                      ("session_id", str (concat (slice_to 12 session_id ∷ "..." ∷ [])))
                      ∷ ("reason", str "expired or never existed")
                      ∷ []))
                show "step-expired")
              else await (read_json resp) session_read)
        fetch_failed

  -- The session is still open: show the question.
  unfoldable pub show_challenge : Value → Value → Exec Tab Unit
  show_challenge current session = do
    alice_name ← lift (get "alice_name" session)
    question ← lift (get "memory_question" session)
    log (session_fetched current alice_name)
    modify (λ t. record t {
      alice_name_display = shown alice_name;
      challenge_question = shown question;
    })
    show "step-bob-challenge"

  unfoldable pub on_session_read : Result Value → Exec Tab Unit
  unfolding fetch_failed show_challenge
  on_session_read settled =
      attempt
        (do
          session ← lift settled
          current ← lift (get "phase" session)
          if not (is_text "WAITING_FOR_BOB" current)
              then (do
                log (
                    report phase (concat ("Session already used — phase: " ∷ to_text current ∷ []))
                      (("reason", str "one-time use — session locked after first verify attempt")
                        ∷ []))
                show "step-expired")
              else show_challenge current session)
        fetch_failed

unfoldable pub init_bob : String → Exec Tab Unit
unfolding generate_key_pair
init_bob session_id = do
  show "step-loading"
  log (
      report key "Generating Bob ECDH P-256 keypair..." (
        ("algorithm", str "ECDH")
        ∷ ("curve", str "P-256")
        ∷ ("extractable", str "false — private key stays in this browser tab")
        ∷ []))
  await generate_key_pair (init_generated session_id)
