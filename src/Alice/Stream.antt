-- ===== src/Alice/Stream.antt =====
-- static/js/session.js: `connectAliceSSE`, what Alice's tab does with the events of the server.
use doppelganger_web.Prelude.{ℕ, zero, suc, String, Bool, true, List, [], ◌∷◌, if◌then◌else◌}
use doppelganger_web.Exec.{Result, Exec, lift, modify, gets, done, ◌>>=◌, ◌>>◌}
use doppelganger_web.Value.{Value, str, get, is_text, cut, score_text, Engine, parse_json}
use doppelganger_web.Panel.{key, network, phase}
use doppelganger_web.Panel.Events.{report, sse_event, phase_transition, ecdh_derived}
use doppelganger_web.Crypto.{Key, private_key, import_public_key, derive_shared_key}
use doppelganger_web.Alice.{
  Source, Tab, verified_imported, verified_derived, log, show, alert, await, close_source,
}
use doppelganger_web.Alice.Reset.{reset}

-- The branch for VERIFIED, once the source is closed.
unfoldable pub import_bob : Value → Exec Tab Unit
unfolding import_public_key
import_bob event = do
  bob_jwk ← lift (get "bob_pubkey_jwk" event)
  x ← lift (get "x" bob_jwk)
  short_x ← lift (cut 16 "..." x)
  log (
      report key "Importing Bob's public key from SSE event" (
        ("algorithm", str "ECDH P-256")
        ∷ ("bob_pubkey_x", str short_x)
        ∷ ("source", str "SSE stream — only released because Bob passed")
        ∷ []))
  await (import_public_key bob_jwk) (verified_imported event)

unfoldable pub on_verified : ℕ → Value → Exec Tab Unit
unfolding import_bob
on_verified i event = do close_source i; import_bob event

unfoldable pub on_verified_imported : Value → Result Key → Exec Tab Unit
unfolding derive_shared_key
on_verified_imported event settled = do
  bob_key ← lift settled
  keys ← gets (λ t. t.key_pair)
  own_key ← lift (private_key keys)
  await (derive_shared_key own_key bob_key) (verified_derived event)

unfoldable pub on_verified_derived : Value → Result Key → Exec Tab Unit
on_verified_derived event settled = do
  lift settled
  log (ecdh_derived "Alice")
  score ← lift (get "score" event)
  modify (λ t. record t { alice_score = score_text score "% match ✓" })
  log (phase_transition "WAITING_FOR_BOB" "VERIFIED")
  show "step-alice-pass"

-- The branch for FAILED, once the source is closed.
unfoldable pub show_failure : Value → Exec Tab Unit
show_failure event = do
  log (phase_transition "WAITING_FOR_BOB" "FAILED")
  score ← lift (get "score" event)
  modify (λ t. record t { alice_fail_score = score_text score "% match" })
  show "step-alice-fail"

unfoldable pub on_failed : ℕ → Value → Exec Tab Unit
unfolding show_failure
on_failed i event = do close_source i; show_failure event

-- The branch for EXPIRED, once the source is closed.
unfoldable pub start_over : Exec Tab Unit
unfolding reset
start_over = do
  log (
      report phase "Session expired before anyone answered"
        (("reason", str "TTL reached — Redis deleted the session") ∷ []))
  alert "This challenge expired before anyone answered. Create a new one."
  reset
  show "step-create"

unfoldable pub on_expired : ℕ → Exec Tab Unit
unfolding start_over
on_expired i = do close_source i; start_over

-- The three tests on `event.event`; at most one of them holds.
unfoldable pub dispatch : ℕ → Value → Value → Exec Tab Unit
unfolding on_verified on_failed on_expired
dispatch i kind event =
    if is_text "VERIFIED" kind
    then on_verified i event
    else if is_text "FAILED" kind
    then on_failed i event
    else if is_text "EXPIRED" kind
    then on_expired i
    else done

-- es.onmessage, for the source at place `i` and the text of the message.
unfoldable pub on_message : Engine → ℕ → String → Exec Tab Unit
unfolding dispatch
on_message engine i text = do
  event ← lift (parse_json engine text)
  log (sse_event event)
  kind ← lift (get "event" event)
  dispatch i kind event

abbrev pub is_closed : ℕ → List Source → Bool
is_closed i [] = true
is_closed zero (es ∷ rest) = es.closed
is_closed (suc i) (es ∷ rest) = is_closed i rest

-- es.onerror
unfoldable pub on_error : ℕ → Exec Tab Unit
on_error i = do
  closed ← gets (λ t. is_closed i t.sources)
  log (
      report network
        (if closed then "SSE stream closed" else "SSE dropped — browser is reconnecting")
        (("note", str "On reconnect the server re-sends the result if Bob already answered") ∷ []))
