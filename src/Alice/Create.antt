-- ===== src/Alice/Create.antt =====
-- static/js/session.js: `create`, which posts the challenge, and the opening of the event stream.
use doppelganger_web.Prelude.{
  ℕ, String, true, false, Option, none, some, [], ◌∷◌, ◌++◌, ◌||◌, if◌then◌else◌, str_eq, ltb,
}
use doppelganger_web.Exec.{Error, Result, Exec, lift, modify, gets, done, ◌>>=◌, ◌>>◌, attempt}
use doppelganger_web.Text.{concat, slice_to, length, trim, decimal}
use doppelganger_web.Value.{
  Value, str, Fields, object, truthy, get, to_text, shown, cut, joined, Engine, message, or_empty,
}
use doppelganger_web.Panel.{network}
use doppelganger_web.Panel.Events.{report, session_created, phase_transition, embedding_received}
use doppelganger_web.Crypto.{KeyPair, Request, Response, is_ok, fetch, read_json, export_public_key}
use doppelganger_web.Alice.{
  Tab, create_exported, create_fetched, create_refused, create_answered, log, show, alert, await,
}

-- createBtn.disabled = false; createBtn.textContent = …
unfoldable pub enable_create : Exec Tab Unit
enable_create =
    modify (λ t. record t { create_disabled = false; create_label = "Generate Challenge Link" })

-- `create` once the form is filled in and the keys are there.
unfoldable pub start_create : String → String → String → KeyPair → Exec Tab Unit
unfolding export_public_key
start_create name question answer keys = do
  modify (λ t. record t { create_disabled = true; create_label = "Creating..." })
  await (export_public_key keys.public_key) (create_exported name question answer)

unfoldable pub create_with : Option KeyPair → String → String → String → Exec Tab Unit
unfolding start_create
create_with none name question answer = alert "Keys still generating — please wait a moment."
create_with (some keys) name question answer = start_create name question answer keys

unfoldable pub create : Exec Tab Unit
unfolding create_with trim
create = do
  name ← gets (λ t. trim t.alice_name)
  question ← gets (λ t. trim t.memory_question)
  answer ← gets (λ t. trim t.memory_answer)
  keys ← gets (λ t. t.key_pair)
  if str_eq name "" || str_eq question "" || str_eq answer ""
      then alert "Please fill in all fields."
      else create_with keys name question answer

-- The body of POST /api/session.
abbrev pub create_body : String → String → String → Value → Fields
create_body name question answer exported = object (
    ("alice_name", str name)
    ∷ ("memory_question", str question)
    ∷ ("memory_answer", str answer)
    ∷ ("alice_pubkey_jwk", exported)
    ∷ [])

abbrev pub create_request : String → String → String → Value → Request
create_request name question answer exported = record {
  url = "/api/session";
  method = "POST";
  headers = ("Content-Type", "application/json") ∷ [];
  body = some (create_body name question answer exported);
}

unfoldable pub connect_alice_sse : Value → Exec Tab Unit
unfolding to_text cut
connect_alice_sse session_id = do
  short_id ← lift (cut 12 "" session_id)
  log (
      report network "SSE stream opened — waiting for Bob" (
        ("endpoint", str (concat ("/api/session/" ∷ short_id ∷ ".../stream" ∷ [])))
        ∷ ("transport", str "Server-Sent Events")
        ∷ ("waiting_for", str "VERIFIED or FAILED event")
        ∷ []))
  modify (λ t. record t {
    sources =
        t.sources
        ++ record {
          url = concat ("/api/session/" ∷ to_text session_id ∷ "/stream" ∷ []);
          closed = false;
        }
          ∷ [];
  })

module _ (engine : Engine) where
  -- The `catch` block of `create`.
  unfoldable pub create_failed : Error → Exec Tab Unit
  create_failed err = do
    log (report network "Session creation failed" (("error", str (message engine err)) ∷ []))
    alert "Something went wrong. Please try again."
    enable_create

  unfoldable pub on_create_exported : String → String → String → Result Value → Exec Tab Unit
  unfolding create_failed
  on_create_exported name question answer settled =
      attempt
        (do
          exported ← lift settled
          x ← lift (get "x" exported)
          short_x ← lift (cut 16 "..." x)
          log (
              report network "POST /api/session → creating session" (
                ("alice_name", str name)
                ∷ ("question", str question)
                ∷ ("answer", str "being embedded via temporary embedding service")
                ∷ ("alice_pubkey_x", str short_x)
                ∷ []))
          await (fetch (create_request name question answer exported)) (create_fetched question))
        create_failed

  unfoldable pub on_create_fetched : String → Result Response → Exec Tab Unit
  unfolding create_failed
  on_create_fetched question settled =
      attempt
        (do
          resp ← lift settled
          if is_ok resp
              then await (read_json resp) (create_answered question)
              else await (read_json resp) (create_refused resp.status))
        create_failed

  unfoldable pub on_create_refused : ℕ → Result Value → Exec Tab Unit
  unfolding create_failed
  on_create_refused status settled =
      attempt
        (do
          error ← lift (get "error" (or_empty settled))
          alert (
              if truthy error
              then to_text error
              else concat ("Server error (" ∷ decimal status ∷ "). Please try again." ∷ []))
          enable_create)
        create_failed

  -- The block between the comments on the vector preview.
  unfoldable pub show_preview : String → Value → Exec Tab Unit
  unfolding joined
  show_preview question answered = do
    preview ← lift (get "vector_preview" answered)
    dimensions ← lift (get "vector_dimensions" answered)
    if truthy preview
        then (do
          modify (λ t. record t {
            vector_question =
                concat
                  (slice_to 60 question ∷ (if ltb 60 (length question) then "..." else "") ∷ []);
            vector_dimensions = shown dimensions;
          })
          values ← lift (joined preview)
          modify (λ t. record t {
            vector_preview = concat ("[" ∷ values ∷ "...]" ∷ []);
            vector_shown = true;
          })
          log (embedding_received engine preview dimensions))
        else done

  unfoldable pub on_create_answered : String → Result Value → Exec Tab Unit
  unfolding create_failed show_preview connect_alice_sse
  on_create_answered question settled =
      attempt
        (do
          answered ← lift settled
          session_id ← lift (get "session_id" answered)
          modify (λ t. record t { current_session_id = session_id })
          link ← lift (get "link" answered)
          modify (λ t. record t { current_link = link })
          log (session_created session_id)
          log (phase_transition "—" "WAITING_FOR_BOB")
          qr ← lift (get "qr_code" answered)
          modify (λ t. record t { session_link = shown link; qr_code = to_text qr })
          show "step-waiting"
          show_preview question answered
          connect_alice_sse session_id)
        create_failed
