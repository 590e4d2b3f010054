-- ===== src/Alice/Steps.antt =====
-- static/js/session.js, Alice: the steps that leave what is under way alone, start it or begin anew.
pub mod Stream
use doppelganger_web.Prelude.{
  ℕ, zero, suc, ◌+◌, String, Bool, true, false, List, [], ◌∷◌, ◌++◌, ◌≡◌, refl, ap, ◌∙◌, Option,
  some, none, arith, All-append, if◌then◌else◌, str_eq, ◌||◌,
}
use mathlib.Core.List.{append-nil}
use doppelganger_web.Text.{trim}
use doppelganger_web.Exec.{Result, Exec, done, run, ◌>>=◌, ◌>>◌, attempt}
use doppelganger_web.Exec.Keeps.{Keeps, keeps_rules}
use doppelganger_web.Exec.Ends.{Leads, Leads-bind}
use doppelganger_web.Value.{Value, Engine}
use doppelganger_web.Ui
use doppelganger_web.Ui.{Page, visible}
use doppelganger_web.Ui.Screens.{layout}
use doppelganger_web.Panel.{Panel}
use doppelganger_web.Panel.Emitters.{Emits, emitters}
use doppelganger_web.Crypto.{
  Awaited, Key, KeyPair, Call, requests, export_public_key, generate_key_pair, timeout,
  write_clipboard,
}
use doppelganger_web.Alice.{
  Task, init_generated, create_exported, link_copied, copied_shown, job, Source, Tab, loaded, log,
  show, alert, await, close_source, close_at,
}
use doppelganger_web.Alice.Start.{init_alice, copy_link, on_link_copied, on_copied_shown}
use doppelganger_web.Alice.Create.{start_create, create_with, create}
use doppelganger_web.Alice.Stream.{
  start_over, import_bob, show_failure, on_message, dispatch, on_verified, on_failed, on_expired,
  is_closed, on_error,
}
use doppelganger_web.Alice.Reset.{reset}
use doppelganger_web.Alice.Phase.{
  is_main, open_sources, Core, core, weight, Live, Posted, Claim, JobClaim, Inv-jobs,
  main_jobs-append,
}
use doppelganger_web.Alice.Idle.{AtCore, InvTab, awaited-Inv, await-Inv, ends_Inv, Live-show}
use doppelganger_web.Alice.Idle.Handlers.{import_bob-Ends, show_failure-Ends}
use doppelganger_web.Alice.Exchange.{restart-Inv}

module _ (export : Key → Value) where
  -- Code that leaves the core and the page alone.
  log-Inv : (m : Exec Panel Unit) → Emits m → Keeps (InvTab export) (log m)
  unfolding log
  log-Inv m h = record { after = λ t n. n }

  alert-Inv : (text : String) → Keeps (InvTab export) (alert text)
  unfolding alert
  alert-Inv text = record { after = λ t n. n }

  pub show_create-Inv : Keeps (InvTab export) (show "step-create")
  unfolding show
  show_create-Inv = record {
    after = λ t h. record {
      single = h.single;
      claims = h.claims;
      keyed = h.keyed;
      posted = h.posted;
      live = λ p. Live-show "step-create" t.page refl refl refl (h.live p).screens;
    };
  }

  -- Copying the link.
  minor-Inv :
      (call : Call Awaited.nothing) (task : Task Awaited.nothing)
      → requests call ≡ []
      → is_main task ≡ 0
      → ((c : Core) → Claim export c call task)
      → Keeps (InvTab export) (await call task)
  unfolding await
  minor-Inv call task silent minor claim = record {
    after = λ t h.
        let later : Core = core (await call task t).1 in
        Inv-jobs export (core t) later t.page refl
          (ap (λ rs. t.sent ++ rs) silent ∙ append-nil t.sent) refl refl
          (main_jobs-append t.jobs (job call task ∷ []) ∙ omega arith)
          (All-append (JobClaim export (core t)) t.jobs (job call task ∷ []) h.claims
            (claim (core t), tt))
          h;
  }

  copied-Inv : (s : String) → Keeps (InvTab export) (await (write_clipboard s) link_copied)
  copied-Inv s = minor-Inv (write_clipboard s) link_copied refl refl (λ c. tt)

  timer-Inv : (n : ℕ) → Keeps (InvTab export) (await (timeout n) copied_shown)
  timer-Inv n = minor-Inv (timeout n) copied_shown refl refl (λ c. tt)

  ruleset inv_rules = (keeps_rules, emitters, log-Inv, alert-Inv, copied-Inv, timer-Inv)

  pub copy_link-Inv : Keeps (InvTab export) copy_link
  unfolding copy_link
  copy_link-Inv = search inv_rules depth 9

  pub on_link_copied-Inv : (r : Result Unit) → Keeps (InvTab export) (on_link_copied r)
  unfolding on_link_copied
  on_link_copied-Inv r = search inv_rules depth 9

  pub on_copied_shown-Inv : (r : Result Unit) → Keeps (InvTab export) (on_copied_shown r)
  unfolding on_copied_shown
  on_copied_shown-Inv r = search inv_rules depth 9

  pub on_error-Inv : (i : ℕ) → Keeps (InvTab export) (on_error i)
  unfolding on_error
  on_error-Inv i = search inv_rules depth 9

  -- A choice between two pieces of code.
  either-Inv :
      (b : Bool) (m n : Exec Tab Unit) (t : Tab)
      → InvTab export (run m t)
      → InvTab export (run n t)
      → InvTab export (run (if b then m else n) t)
  either-Inv true m n t h k = h
  either-Inv false m n t h k = k

  start_create-Inv :
      (name question answer : String) (keys : KeyPair) (t : Tab)
      → InvTab export t
      → t.create_disabled ≡ false
      → t.key_pair ≡ some keys
      → InvTab export (run (start_create name question answer keys) t)
  unfolding start_create ◌>>=◌ await
  start_create-Inv name question answer keys t h on held =
      await-Inv export (record (core t) { disabled = true }) (ground (arith, h.single))
        (export_public_key keys.public_key) (create_exported name question answer) refl
        (keys, held, refl) (record t { create_disabled = true; create_label = "Creating..." })
        (record { same = refl; live = h.live (ground arith) })

  create_with-Inv :
      (keys : Option KeyPair) (name question answer : String) (t : Tab)
      → InvTab export t
      → t.create_disabled ≡ false
      → t.key_pair ≡ keys
      → InvTab export (run (create_with keys name question answer) t)
  unfolding create_with alert
  create_with-Inv none name question answer t h on held = h
  create_with-Inv (some keys) name question answer t h on held =
      start_create-Inv name question answer keys t h on held

  pub create-Inv :
      (t : Tab) → InvTab export t → t.create_disabled ≡ false → InvTab export (run create t)
  unfolding create ◌>>=◌
  create-Inv t h on =
      either-Inv
        (str_eq (trim t.alice_name) ""
          || str_eq (trim t.memory_question) ""
          || str_eq (trim t.memory_answer) "")
        (alert "Please fill in all fields.")
        (create_with t.key_pair (trim t.alice_name) (trim t.memory_question) (trim t.memory_answer))
        t ((alert-Inv "Please fill in all fields.").after t h)
        (create_with-Inv t.key_pair (trim t.alice_name) (trim t.memory_question)
          (trim t.memory_answer) t h on refl)

  disabled_of_idle : (c : Core) → weight c ≡ 0 → c.disabled ≡ true
  disabled_of_idle c h = ground arith

  -- The tab starts over from a page with the screens of its own.
  pub start_over-Inv :
      (t : Tab)
      → weight (core t) ≡ 0
      → layout t.page ≡ layout loaded.page
      → InvTab export (run start_over t)
  unfolding start_over reset ◌>>=◌ log alert await show
  start_over-Inv t idle screens =
      restart-Inv export (core t) idle (Ui.show_step "step-create" t.page)
        (Live-show "step-create" t.page refl refl refl screens) (disabled_of_idle (core t) idle)

  pub again-Inv :
      (t : Tab)
      → weight (core t) ≡ 0
      → layout t.page ≡ layout loaded.page
      → InvTab export (run (reset >> show "step-create") t)
  unfolding reset ◌>>=◌ log await show
  again-Inv t idle screens =
      restart-Inv export (core t) idle (Ui.show_step "step-create" t.page)
        (Live-show "step-create" t.page refl refl refl screens) (disabled_of_idle (core t) idle)

  pub init_alice-Inv : (engine : Engine) → InvTab export (run (init_alice engine) loaded)
  unfolding init_alice ◌>>=◌ attempt log await show
  init_alice-Inv engine =
      awaited-Inv export (core loaded) refl generate_key_pair init_generated
        (Ui.show_step "step-landing" loaded.page) refl tt
        (Live-show "step-landing" loaded.page refl refl refl refl)
