-- ===== src/Alice/Reset.antt =====
-- static/js/session.js: `reset`, which clears the form and makes the key pair of the next session.
use doppelganger_web.Prelude.{true, false, some, [], ◌∷◌}
use doppelganger_web.Exec.{Result, Exec, lift, modify, ◌>>=◌, ◌>>◌}
use doppelganger_web.Value.{Value, null, str}
use doppelganger_web.Panel.{key}
use doppelganger_web.Panel.Events.{report, key_generated}
use doppelganger_web.Crypto.{KeyPair, generate_key_pair, export_public_key}
use doppelganger_web.Alice.{Tab, reset_generated, reset_exported, log, await}

abbrev pub cleared : Tab → Tab
cleared t = record t {
  alice_name = "";
  memory_question = "";
  memory_answer = "";
  question_count = "0";
  answer_count = "0";
  create_label = "Generate Challenge Link";
  create_disabled = true;
  key_ready = false;
  key_text = "Generating your encryption keys...";
  current_session_id = null;
  current_link = null;
}

unfoldable pub reset : Exec Tab Unit
unfolding generate_key_pair
reset = do
  modify cleared
  log (
      report key "Generating fresh keypair for new session" (
        ("reason", str "Previous session complete — new ECDH keys required")
        ∷ ("previous_keys", str "discarded")
        ∷ []))
  await generate_key_pair reset_generated

-- The function given to `then`; nothing catches what it throws.
unfoldable pub on_reset_generated : Result KeyPair → Exec Tab Unit
unfolding export_public_key
on_reset_generated settled = do
  made ← lift settled
  modify (λ t. record t { key_pair = some made })
  await (export_public_key made.public_key) reset_exported

unfoldable pub on_reset_exported : Result Value → Exec Tab Unit
on_reset_exported settled = do
  exported ← lift settled
  log (key_generated "Alice (new session)" exported)
  modify (λ t. record t {
    key_ready = true;
    key_text = "✓ Encryption keys ready";
    create_disabled = false;
  })
