-- ===== src/Alice/Sound.antt =====
-- What holds of Alice's tab at all times: the log is in order, one screen can be seen, and no call
-- lets a key out of the browser.
pub mod Handlers
use doppelganger_web.Prelude.{
  ℕ, String, List, [], ◌∷◌, ◌≡◌, refl, ◌∙◌, ap, All, All-append, if◌then◌else◌, true, false, Bool,
  ◌||◌, str_eq, Option, none, some,
}
use doppelganger_web.Exec.{Exec, Result, Error}
use doppelganger_web.Exec.Keeps.{Keeps, Keeps-bind, Keeps-gets, keeps_rules}
use doppelganger_web.Value.{Value, Engine}
use doppelganger_web.Ui.{Page, visible}
use doppelganger_web.Ui.Screens.{
  screen_at, layout, visible-show_step, layout-show_step, screen_at_of_layout,
}
use doppelganger_web.Panel.{Panel}
use doppelganger_web.Panel.Laws.{IsValid}
use doppelganger_web.Panel.Emitters.{Emits, emitters, emitter-IsValid}
use doppelganger_web.Crypto.{
  requests, Awaited, Settled, Call, Key, fetch, read_json, write_clipboard, timeout, IsConfined,
  Request, Response, generate_key_pair-IsConfined, KeyPair, import_public_key-IsConfined,
  derive_shared_key-IsConfined, export_public_key-IsConfined,
}
use doppelganger_web.Alice.{
  Task, init_generated, init_exported, create_exported, create_fetched, create_refused,
  create_answered, verified_imported, verified_derived, link_copied, copied_shown, reset_generated,
  reset_exported, Job, job, Tab, loaded, log, show, alert, await, close_source,
}
use doppelganger_web.Alice.Start.{
  init_failed, init_alice, on_init_generated, on_init_exported, copy_link, on_link_copied,
  on_copied_shown,
}
use doppelganger_web.Alice.Create.{
  create_request, start_create, create_with, enable_create, create, connect_alice_sse,
  create_failed, on_create_exported, on_create_fetched, on_create_refused, show_preview,
  on_create_answered,
}
use doppelganger_web.Alice.Stream.{
  import_bob, show_failure, start_over, on_verified, on_failed, on_expired, dispatch,
  on_verified_imported, on_verified_derived, on_message, on_error,
}
use doppelganger_web.Alice.Run.{resume}
use doppelganger_web.Alice.Reset.{reset, on_reset_generated, on_reset_exported}

abbrev pub JobIsConfined : Job → Type 0
JobIsConfined (job call task) = IsConfined call

abbrev pub Filled : String → String → String → Type 0
Filled name question answer =
    (str_eq name "" ≡ false) × (str_eq question "" ≡ false) × (str_eq answer "" ≡ false)

-- A request that posts a challenge with no text left empty.
pub record IsFilled (r : Request) : Type 0 where
  pub name : String
  pub question : String
  pub answer : String
  pub exported : Value
  pub filled : Filled name question answer
  pub posts : r ≡ create_request name question answer exported

abbrev pub TaskIsFilled : {k : Awaited} → Task k → Type 0
TaskIsFilled (create_exported name question answer) = Filled name question answer
TaskIsFilled _ = Unit

abbrev pub JobIsFilled : Job → Type 0
JobIsFilled (job call task) = TaskIsFilled task

-- One screen of the page can be seen.
pub record ShowsOne (page : Page) : Type 0 where
  pub step : String
  pub only : visible page ≡ step ∷ []
  pub screens : layout page ≡ layout loaded.page

pub record Sound (panel : Panel) (page : Page) (jobs : List Job) (sent : List Request)
    : Type 0 where
  pub log_valid : IsValid panel
  pub one_screen : ShowsOne page
  pub confined : All JobIsConfined jobs
  pub filled : All JobIsFilled jobs
  pub sent_filled : All IsFilled sent

abbrev pub IsSound : Tab → Type 0
IsSound t = Sound t.panel t.page t.jobs t.sent

pub log-IsSound : (m : Exec Panel Unit) → Emits m → Keeps IsSound (log m)
unfolding log
log-IsSound m h = record {
  after = λ t s. record {
    log_valid = (emitter-IsValid m h).after t.panel s.log_valid;
    one_screen = s.one_screen;
    confined = s.confined;
    filled = s.filled;
    sent_filled = s.sent_filled;
  };
}

show-IsSound : (step : String) → screen_at step loaded.page ≡ true → Keeps IsSound (show step)
unfolding show
show-IsSound step known = record {
  after = λ t s. record {
    log_valid = s.log_valid;
    confined = s.confined;
    filled = s.filled;
    sent_filled = s.sent_filled;
    one_screen = record {
      step = step;
      only =
          visible-show_step step t.page
          ∙ ap (λ b. if b then step ∷ [] else [])
              (screen_at_of_layout step t.page loaded.page s.one_screen.screens ∙ known);
      screens = layout-show_step step t.page ∙ s.one_screen.screens;
    };
  };
}

pub show_landing : Keeps IsSound (show "step-landing")
show_landing = show-IsSound "step-landing" refl

pub show_create : Keeps IsSound (show "step-create")
show_create = show-IsSound "step-create" refl

pub show_waiting : Keeps IsSound (show "step-waiting")
show_waiting = show-IsSound "step-waiting" refl

pub show_pass : Keeps IsSound (show "step-alice-pass")
show_pass = show-IsSound "step-alice-pass" refl

pub show_fail : Keeps IsSound (show "step-alice-fail")
show_fail = show-IsSound "step-alice-fail" refl

pub alert-IsSound : (text : String) → Keeps IsSound (alert text)
unfolding alert
alert-IsSound text = record { after = λ t s. s }

pub close_source-IsSound : (i : ℕ) → Keeps IsSound (close_source i)
unfolding close_source
close_source-IsSound i = record { after = λ t s. s }

pub await-IsSound :
    {k : Awaited} (call : Call k) (task : Task k)
    → IsConfined call
    → TaskIsFilled task
    → All IsFilled (requests call)
    → Keeps IsSound (await call task)
unfolding await
await-IsSound call task h named posts = record {
  after = λ t s. record {
    log_valid = s.log_valid;
    one_screen = s.one_screen;
    confined = All-append JobIsConfined t.jobs (job call task ∷ []) s.confined (h, tt);
    filled = All-append JobIsFilled t.jobs (job call task ∷ []) s.filled (named, tt);
    sent_filled = All-append IsFilled t.sent (requests call) s.sent_filled posts;
  };
}

body-TaskIsFilled : (task : Task Awaited.body) → TaskIsFilled task
body-TaskIsFilled (create_refused status) = tt
body-TaskIsFilled (create_answered question) = tt

nothing-TaskIsFilled : (task : Task Awaited.nothing) → TaskIsFilled task
nothing-TaskIsFilled link_copied = tt
nothing-TaskIsFilled copied_shown = tt

pub await_post :
    (name question answer : String) (exported : Value)
    → Filled name question answer
    → Keeps IsSound
        (await (fetch (create_request name question answer exported)) (create_fetched question))
await_post name question answer exported texts =
    await-IsSound (fetch (create_request name question answer exported)) (create_fetched question)
      tt tt
      (
        record {
          name = name;
          question = question;
          answer = answer;
          exported = exported;
          filled = texts;
          posts = refl;
        },
        tt,
      )

pub await_json :
    (r : Response) (task : Task Awaited.body) → Keeps IsSound (await (read_json r) task)
await_json r task = await-IsSound (read_json r) task tt (body-TaskIsFilled task) tt

pub await_clipboard :
    (s : String) (task : Task Awaited.nothing) → Keeps IsSound (await (write_clipboard s) task)
await_clipboard s task = await-IsSound (write_clipboard s) task tt (nothing-TaskIsFilled task) tt

pub await_timeout : (n : ℕ) (task : Task Awaited.nothing) → Keeps IsSound (await (timeout n) task)
await_timeout n task = await-IsSound (timeout n) task tt (nothing-TaskIsFilled task) tt

pub ruleset sound_rules = (
  keeps_rules, emitters, log-IsSound, show_landing, show_create, show_waiting, show_pass, show_fail,
  alert-IsSound, close_source-IsSound, await-IsSound, await_post, await_json, await_clipboard,
  await_timeout, generate_key_pair-IsConfined, import_public_key-IsConfined,
  derive_shared_key-IsConfined, export_public_key-IsConfined,
)
