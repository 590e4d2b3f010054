-- ===== src/Alice/Start.antt =====
-- static/js/session.js: `initAlice`, which makes the first key pair, and `copyLink`.
use doppelganger_web.Prelude.{true, false, some, [], ◌∷◌, if◌then◌else◌}
use doppelganger_web.Exec.{Error, Result, Exec, lift, modify, gets, done, ◌>>=◌, ◌>>◌, attempt}
use doppelganger_web.Value.{Value, str, truthy, to_text, Engine, message}
use doppelganger_web.Panel.{key}
use doppelganger_web.Panel.Events.{report, key_generated}
use doppelganger_web.Crypto.{
  KeyPair, generate_key_pair, export_public_key, write_clipboard, timeout,
}
use doppelganger_web.Alice.{
  Tab, init_generated, init_exported, link_copied, copied_shown, log, show, alert, await,
}

module _ (engine : Engine) where
  -- The `catch` block of `initAlice`.
  unfoldable pub init_failed : Error → Exec Tab Unit
  init_failed err =
      log (report key "Keypair generation failed" (("error", str (message engine err)) ∷ []))

  unfoldable pub init_alice : Exec Tab Unit
  unfolding init_failed generate_key_pair
  init_alice = do
    show "step-landing"
    attempt
        (do
          log (
              report key "Generating Alice ECDH P-256 keypair..." (
                ("algorithm", str "ECDH")
                ∷ ("curve", str "P-256")
                ∷ ("extractable", str "false — private key stays in this browser tab")
                ∷ []))
          await generate_key_pair init_generated)
        init_failed

  unfoldable pub on_init_generated : Result KeyPair → Exec Tab Unit
  unfolding init_failed export_public_key
  on_init_generated settled =
      attempt
        (do
          made ← lift settled
          modify (λ t. record t { key_pair = some made })
          await (export_public_key made.public_key) init_exported)
        init_failed

  unfoldable pub on_init_exported : Result Value → Exec Tab Unit
  unfolding init_failed
  on_init_exported settled =
      attempt
        (do
          exported ← lift settled
          log (key_generated "Alice" exported)
          modify (λ t. record t {
            key_ready = true;
            key_text = "✓ Encryption keys ready";
            create_disabled = false;
          }))
        init_failed

unfoldable pub copy_link : Exec Tab Unit
unfolding to_text
copy_link = do
  link ← gets (λ t. t.current_link)
  if truthy link then await (write_clipboard (to_text link)) link_copied else done

unfoldable pub on_link_copied : Result Unit → Exec Tab Unit
on_link_copied settled =
    attempt
      (do
        lift settled
        modify (λ t. record t { copy_label = "Copied!" })
        await (timeout 2000) copied_shown)
      (λ err. alert "Copy failed — select the link and copy manually")

unfoldable pub on_copied_shown : Result Unit → Exec Tab Unit
on_copied_shown settled = modify (λ t. record t { copy_label = "Copy" })
