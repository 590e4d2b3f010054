-- ===== src/Alice/Exchange.antt =====
-- static/js/session.js, Alice: the handlers that change the key pair or start a call of their own.
use doppelganger_web.Prelude.{
  String, true, [], ◌∷◌, ◌++◌, ◌≡◌, refl, sym, ap, ◌∙◌, Option, some, none, arith,
}
use doppelganger_web.Exec.{Result, ok, throw, lift, run, ◌>>=◌, attempt}
use doppelganger_web.Exec.Ends.{Ends-attempt, ends_rules}
use doppelganger_web.Value.{Value, Engine}
use doppelganger_web.Ui.{Page}
use doppelganger_web.Crypto.{
  nothing_sent, Awaited, Key, KeyPair, export_public_key, derive_shared_key, fetch,
  generate_key_pair, private_key,
}
use doppelganger_web.Alice.{
  Task, init_exported, create_fetched, verified_derived, reset_generated, reset_exported, Tab,
  await,
}
use doppelganger_web.Alice.Start.{init_failed, on_init_generated}
use doppelganger_web.Alice.Create.{create_request, on_create_exported}
use doppelganger_web.Alice.Stream.{on_verified_imported}
use doppelganger_web.Alice.Reset.{on_reset_generated, on_reset_exported}
use doppelganger_web.Alice.Phase.{is_main, Core, weight, Live, HasKey, Posted, Claim, Inv}
use doppelganger_web.Alice.Idle.{
  AtCore, awaited, at_rules, InvTab, At-Inv, awaited-Inv, await-Inv, await-Ends, ends_Inv,
}
use doppelganger_web.Alice.Idle.Handlers.{keys_ready-Ends, create_failed-Ends, init_failed-At}

module _ (export : Key → Value) (c : Core) (idle : weight c ≡ 0) where
  -- A fresh key pair, whose public half is to be exported.
  keep_pair :
      (made : KeyPair) (task : Task Awaited.jwk)
      → is_main task ≡ 1
      → Claim export
          (awaited (record c { key_pair = some made }) (export_public_key made.public_key) task)
          (export_public_key made.public_key)
          task
      → (t : Tab) → AtCore c t
      → InvTab export
          (await (export_public_key made.public_key) task (record t { key_pair = some made })).1
  keep_pair made task main claim t n =
      await-Inv export (record c { key_pair = some made }) idle (export_public_key made.public_key)
        task main claim (record t { key_pair = some made })
        (record {
          same = ap (λ (d : Core). record d { key_pair = some made }) n.same;
          live = n.live;
        })

  pub on_init_generated-Inv :
      (engine : Engine) (r : Result KeyPair) (t : Tab)
      → AtCore c t
      → InvTab export (run (on_init_generated engine r) t)
  unfolding on_init_generated attempt ◌>>=◌ await
  on_init_generated-Inv engine (ok made) t n = keep_pair made init_exported refl (made, refl) t n
  on_init_generated-Inv engine (throw e) t n =
      At-Inv export c idle (init_failed engine e t).1
        ((init_failed-At export c idle engine e).after t n)

  pub on_reset_generated-Inv :
      (r : Result KeyPair) (t : Tab) → AtCore c t → InvTab export (run (on_reset_generated r) t)
  unfolding on_reset_generated ◌>>=◌ await
  on_reset_generated-Inv (ok made) t n = keep_pair made reset_exported refl (made, refl) t n
  on_reset_generated-Inv (throw e) t n = At-Inv export c idle t n

  pub on_reset_exported-Inv :
      HasKey export c
      → (r : Result Value) (t : Tab) → AtCore c t
      → InvTab export (run (on_reset_exported r) t)
  unfolding on_reset_exported
  on_reset_exported-Inv key r =
      ends_Inv export c idle (on_reset_exported r)
        (search (at_rules, keys_ready-Ends export c idle key) depth 12)

  pub on_create_exported-Inv :
      (engine : Engine) (name question answer : String) (keys : KeyPair) (r : Result Value)
      → c.key_pair ≡ some keys
      → ((v : Value) → r ≡ ok v → v ≡ export keys.public_key)
      → (t : Tab) → AtCore c t
      → InvTab export (run (on_create_exported engine name question answer r) t)
  unfolding on_create_exported
  on_create_exported-Inv engine name question answer keys (throw e) held honest =
      ends_Inv export c idle (on_create_exported engine name question answer (throw e)) (
        Ends-attempt _ _ (search ends_rules) (create_failed-Ends export c idle engine (keys, held)))
  on_create_exported-Inv engine name question answer keys (ok v) held honest =
      let posts =
        await-Ends export c idle (fetch (create_request name question answer v))
          (create_fetched question) refl
          (record {
            keys = keys;
            held = held;
            earlier = c.sent;
            name = name;
            question = question;
            answer = answer;
            last = ap (λ w. c.sent ++ create_request name question answer w ∷ []) (honest v refl);
          }) in
      ends_Inv export c idle (on_create_exported engine name question answer (ok v)) (
        Ends-attempt _ _ (search (at_rules, posts) depth 12)
          (create_failed-Ends export c idle engine (keys, held)))

  finish :
      (event : Value) (bob_key : Key) (p : Posted export c) (own : Option KeyPair)
      → own ≡ c.key_pair
      → (t : Tab) → AtCore c t
      → InvTab export (
          run
            (lift (private_key own) >>= λ own_key.
              await (derive_shared_key own_key bob_key) (verified_derived event))
            t)
  unfolding ◌>>=◌ await
  finish event bob_key p none held t n = cc (p.held)
  finish event bob_key p (some keys) held t n =
      let mine : p.keys ≡ keys = cc (p.held) in
      await-Inv export c idle (derive_shared_key keys.private_key bob_key) (verified_derived event)
        refl
        (record {
          posted = record {
            keys = p.keys;
            held = p.held;
            earlier = p.earlier;
            name = p.name;
            question = p.question;
            answer = p.answer;
            last = nothing_sent (derive_shared_key keys.private_key bob_key) c.sent refl ∙ p.last;
          };
          theirs = bob_key;
          own = ap (λ (k : KeyPair). derive_shared_key k.private_key bob_key) (sym mine);
        })
        t n

  pub on_verified_imported-Inv :
      (event : Value) (r : Result Key) (t : Tab)
      → Posted export c
      → AtCore c t
      → InvTab export (run (on_verified_imported event r) t)
  unfolding on_verified_imported ◌>>=◌ finish
  on_verified_imported-Inv event (throw e) t p n = At-Inv export c idle t n
  on_verified_imported-Inv event (ok bob_key) t p n =
      finish event bob_key p t.key_pair (ap (λ (d : Core). d.key_pair) n.same) t n

  -- What `reset` does to the core.
  abbrev pub reset_core : Core
  reset_core = awaited (record c { disabled = true }) generate_key_pair reset_generated

  pub restart-Inv : (page : Page) → Live page → c.disabled ≡ true → Inv export reset_core page
  restart-Inv page live off =
      awaited-Inv export (record c { disabled = true }) (omega arith) generate_key_pair
        reset_generated page refl tt live
