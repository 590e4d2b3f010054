-- ===== src/Panel/Events.antt =====
-- static/js/debug.js: the emitters for the events of the protocol.
use doppelganger_web.Prelude.{ℕ, String, some, List, [], ◌∷◌, if◌then◌else◌}
use doppelganger_web.Exec.{Result, ok, throw, type_error, Exec, lift, modify, ◌>>=◌}
use doppelganger_web.Text.{concat, decimal}
use doppelganger_web.Value.{
  Value, num, str, arr, Items, nil, cons, object, truthy, get, is_text, is_undefined, to_text, cut,
  take_items, count_items, Engine,
}
use doppelganger_web.Panel.{Kind, key, network, embed, score, phase, Panel, emit}

-- emit(kind, title, { … })
abbrev pub report : Kind → String → List (String × Value) → Exec Panel Unit
report kind title details = modify (emit kind title (some (object details)))

unfoldable pub key_generated : String → Value → Exec Panel Unit
key_generated role jwk = do
  x ← lift (get "x" jwk)
  short_x ← lift (cut 16 "..." x)
  y ← lift (get "y" jwk)
  short_y ← lift (cut 16 "..." y)
  report key (concat (role ∷ " keypair generated" ∷ [])) (
      ("algorithm", str "ECDH P-256")
      ∷ ("public_x", str short_x)
      ∷ ("public_y", str short_y)
      ∷ ("private_key", str "non-extractable — stays in browser")
      ∷ ("key_ops", str "deriveKey only")
      ∷ [])

unfoldable pub session_created : Value → Exec Panel Unit
session_created session_id = do
  short_id ← lift (cut 16 "..." session_id)
  report network "POST /api/session → 201 Created" (
      ("session_id", str short_id)
      ∷ ("phase", str "WAITING_FOR_BOB")
      ∷ ("answer_stored", str "embedding vector only — raw text discarded")
      ∷ [])

-- vector.slice(0, 8).map(v => v.toFixed(4))
fixed_items : Engine → Items → Result Items
fixed_items engine nil = ok nil
fixed_items engine (cons (num n) rest) = elim (fixed_items engine rest) [
  | ok done ↦ ok (cons (str (engine.to_fixed 4 n)) done)
  | throw e ↦ throw e
]
fixed_items engine (cons v rest) = throw (type_error "toFixed")

preview_items : Engine → Value → Result Items
unfolding fixed_items
preview_items engine (arr xs) = fixed_items engine (take_items 8 xs)
preview_items engine (str s) = throw (type_error "map")
preview_items engine v = throw (type_error "slice")

-- vector.length, read where `vector.slice(0, 8).map` has not thrown
item_count : Value → ℕ
item_count (arr xs) = count_items xs
item_count v = 0

unfoldable pub embedding_received : Engine → Value → Value → Exec Panel Unit
unfolding preview_items item_count
embedding_received engine vector full_dimensions = do
  preview ← lift (preview_items engine vector)
  report embed "Answer embedded → vector stored" (
      ("model", str "all-MiniLM-L6-v2")
      ∷ (
        "dimensions",
        if truthy full_dimensions then full_dimensions else num (decimal (item_count vector)),
      )
      ∷ ("preview [0..8]", arr preview)
      ∷ [])

unfoldable pub similarity_scored : Value → Value → Exec Panel Unit
similarity_scored value result =
    report score (concat ("Cosine similarity → " ∷ to_text result ∷ [])) (
      ("score", str (concat (to_text value ∷ "%" ∷ [])))
      ∷ ("threshold", str "75%")
      ∷ ("result", result)
      ∷ (
        "key_exchange",
        if is_text "PASS" result
            then str "alice_pubkey_jwk released to Bob"
            else str "alice_pubkey_jwk withheld",
      )
      ∷ [])

unfoldable pub phase_transition : String → String → Exec Panel Unit
phase_transition from to = report phase (concat ("Session phase: " ∷ from ∷ " → " ∷ to ∷ [])) (
    ("stored_in", str "Redis")
    ∷ ("ttl", str "5 minutes")
    ∷ ("one_time_use", str "session locked after first verify attempt")
    ∷ [])

unfoldable pub bob_key_preview : Value → Result String
bob_key_preview jwk =
    if truthy jwk then elim (get "x" jwk) [ ok x ↦ cut 16 "..." x | throw e ↦ throw e ] else ok "—"

unfoldable pub sse_event : Value → Exec Panel Unit
unfolding bob_key_preview
sse_event event_data = do
  event ← lift (get "event" event_data)
  value ← lift (get "score" event_data)
  jwk ← lift (get "bob_pubkey_jwk" event_data)
  short_key ← lift (bob_key_preview jwk)
  report network (concat ("SSE event received: " ∷ to_text event ∷ [])) (
      ("event", event)
      ∷ ("score", if is_undefined value then str "—" else str (concat (to_text value ∷ "%" ∷ [])))
      ∷ ("bob_pubkey", str short_key)
      ∷ [])

unfoldable pub ecdh_derived : String → Exec Panel Unit
ecdh_derived role = report key (concat (role ∷ " derived shared AES-GCM key" ∷ [])) (
    ("algorithm", str "ECDH → AES-GCM-256")
    ∷ ("method", str "deriveKey(ECDH, theirPublicKey, myPrivateKey)")
    ∷ ("key_length", str "256 bits")
    ∷ ("extractable", str "false — stays in browser")
    ∷ ("note", str "Alice and Bob now share the same key without transmitting it")
    ∷ [])

unfoldable pub session_fetched : Value → Value → Exec Panel Unit
session_fetched current alice_name =
    report network (concat ("GET /api/session → phase: " ∷ to_text current ∷ [])) (
      ("alice_name", alice_name)
      ∷ ("phase", current)
      ∷ ("alice_pubkey_jwk", str "withheld until Bob passes verification")
      ∷ [])

unfoldable pub verify_submitted : Exec Panel Unit
verify_submitted = report network "POST /api/session/verify → scoring..." (
    ("bob_answer", str "embedded client-side → vector sent")
    ∷ ("alice_pubkey", str "conditionally released on PASS only")
    ∷ [])
