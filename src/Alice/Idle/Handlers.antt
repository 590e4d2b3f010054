-- ===== src/Alice/Idle/Handlers.antt =====
-- static/js/session.js: the handlers of Alice's tab that make one thing of an idle tab.
use doppelganger_web.Prelude.{ℕ, String, true, false, [], ◌∷◌, ◌++◌, ◌≡◌, refl}
use doppelganger_web.Exec.{Error, Result, modify}
use doppelganger_web.Exec.Keeps.{Keeps}
use doppelganger_web.Exec.Ends.{Ends, Ends-attempt}
use doppelganger_web.Value.{Value, Engine}
use doppelganger_web.Crypto.{
  sends, nothing_sent, Awaited, Key, Call, Response, import_public_key, read_json,
}
use doppelganger_web.Alice.{Task, create_refused, create_answered, verified_imported, await}
use doppelganger_web.Alice.Start.{init_failed, on_init_exported}
use doppelganger_web.Alice.Create.{
  enable_create, connect_alice_sse, create_failed, on_create_fetched, on_create_refused,
  show_preview, on_create_answered,
}
use doppelganger_web.Alice.Stream.{import_bob, show_failure, on_verified_derived}
use doppelganger_web.Alice.Phase.{is_main, Core, weight, HasKey, Posted, Claim}
use doppelganger_web.Alice.Idle.{
  AtCore, awaited, at_rules, InvTab, posted_later, await-Ends, enable-Ends, open-Ends, show-Ends,
  neutral-Ends,
}

module _ (export : Key → Value) where
  module _ (c : Core) (idle : weight c ≡ 0) where
    pub keys_ready-Ends :
        HasKey export c
        → Ends (AtCore c) (InvTab export) (
            modify (λ t. record t {
              key_ready = true;
              key_text = "✓ Encryption keys ready";
              create_disabled = false;
            }))
    keys_ready-Ends key = (enable-Ends export c idle) _ (λ t. refl) (λ t. refl) key

    enable_create-Ends : HasKey export c → Ends (AtCore c) (InvTab export) enable_create
    unfolding enable_create
    enable_create-Ends key = (enable-Ends export c idle) _ (λ t. refl) (λ t. refl) key

    -- A step whose claim is that the key was posted, after a call that sends nothing.
    await_posted-Ends :
        {k : Awaited} (call : Call k) (task : Task k)
        → is_main task ≡ 1
        → sends k ≡ false
        → (Posted export (awaited c call task) → Claim export (awaited c call task) call task)
        → Posted export c
        → Ends (AtCore c) (InvTab export) (await call task)
    await_posted-Ends call task main silent claim p = (await-Ends export c idle) call task main (
        claim (
          (posted_later export c idle) (awaited c call task) p refl
            (nothing_sent call c.sent silent)))

    import-Ends :
        Posted export c
        → (v event : Value)
        → Ends (AtCore c) (InvTab export) (await (import_public_key v) (verified_imported event))
    import-Ends p v event =
        await_posted-Ends (import_public_key v) (verified_imported event) refl refl (λ q. q) p

    pub import_bob-Ends :
        Posted export c → (event : Value) → Ends (AtCore c) (InvTab export) (import_bob event)
    unfolding import_bob
    import_bob-Ends p event =
        search (at_rules, (neutral-Ends export c idle), import-Ends p) depth 12

    pub show_failure-Ends : (event : Value) → Ends (AtCore c) (InvTab export) (show_failure event)
    unfolding show_failure
    show_failure-Ends event = search (at_rules, (show-Ends export c idle)) depth 12

    pub on_verified_derived-Ends :
        (event : Value) (r : Result Key)
        → Ends (AtCore c) (InvTab export) (on_verified_derived event r)
    unfolding on_verified_derived
    on_verified_derived-Ends event r = search (at_rules, (show-Ends export c idle)) depth 12

    module _ (engine : Engine) where
      pub init_failed-At : (e : Error) → Keeps (AtCore c) (init_failed engine e)
      unfolding init_failed
      init_failed-At e = search at_rules

      pub on_init_exported-Ends :
          HasKey export c
          → (r : Result Value) → Ends (AtCore c) (InvTab export) (on_init_exported engine r)
      unfolding on_init_exported
      on_init_exported-Ends key r =
          Ends-attempt _ _ (search (at_rules, keys_ready-Ends key) depth 12)
            (λ e. (neutral-Ends export c idle) _ (init_failed-At e))

      pub create_failed-Ends :
          HasKey export c → (e : Error) → Ends (AtCore c) (InvTab export) (create_failed engine e)
      unfolding create_failed
      create_failed-Ends key e = search (at_rules, enable_create-Ends key) depth 12

      pub on_create_refused-Ends :
          HasKey export c
          → (status : ℕ) (r : Result Value)
          → Ends (AtCore c) (InvTab export) (on_create_refused engine status r)
      unfolding on_create_refused
      on_create_refused-Ends key status r =
          Ends-attempt _ _ (search (at_rules, enable_create-Ends key) depth 12)
            (create_failed-Ends key)

      read_answer-Ends :
          Posted export c
          → (r : Response) (question : String)
          → Ends (AtCore c) (InvTab export) (await (read_json r) (create_answered question))
      read_answer-Ends p r question =
          await_posted-Ends (read_json r) (create_answered question) refl refl (λ q. q) p

      read_refusal-Ends :
          Posted export c
          → (r : Response) (status : ℕ)
          → Ends (AtCore c) (InvTab export) (await (read_json r) (create_refused status))
      read_refusal-Ends p r status =
          await_posted-Ends (read_json r) (create_refused status) refl refl (λ q. q) p

      pub on_create_fetched-Ends :
          Posted export c
          → (question : String) (r : Result Response)
          → Ends (AtCore c) (InvTab export) (on_create_fetched engine question r)
      unfolding on_create_fetched
      on_create_fetched-Ends p question r =
          search
            (at_rules, read_answer-Ends p, read_refusal-Ends p, create_failed-Ends (p.keys, p.held))
            depth 12

      open_source-Ends :
          Posted export c
          → (url : String)
          → Ends (AtCore c) (InvTab export) (
              modify (λ t. record t {
                sources = t.sources ++ record { url = url; closed = false } ∷ [];
              }))
      open_source-Ends p url = (open-Ends export c idle) _ url (λ t. refl) (λ t. refl) p

      connect_alice_sse-Ends :
          Posted export c → (v : Value) → Ends (AtCore c) (InvTab export) (connect_alice_sse v)
      unfolding connect_alice_sse
      connect_alice_sse-Ends p v = search (at_rules, open_source-Ends p) depth 12

      show_preview-At :
          (question : String) (v : Value) → Keeps (AtCore c) (show_preview engine question v)
      unfolding show_preview
      show_preview-At question v = search at_rules depth 14

      pub on_create_answered-Ends :
          Posted export c
          → (question : String) (r : Result Value)
          → Ends (AtCore c) (InvTab export) (on_create_answered engine question r)
      unfolding on_create_answered
      on_create_answered-Ends p question r =
          search
            (
              at_rules,
              connect_alice_sse-Ends p,
              show_preview-At,
              create_failed-Ends (p.keys, p.held),
            )
            depth 26
