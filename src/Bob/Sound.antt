-- ===== src/Bob/Sound.antt =====
-- What holds of Bob's tab at all times: the log is in order, one screen can be seen, and no call lets a
-- key out of the browser.
pub mod Handlers
use doppelganger_web.Prelude.{
  str_eq, ◌||◌, false, Bool, ℕ, String, List, [], ◌∷◌, ◌≡◌, refl, ◌∙◌, ap, All, All-append,
  if◌then◌else◌, true, Option, none, some,
}
use doppelganger_web.Exec.{Exec, Result, Error}
use doppelganger_web.Exec.Keeps.{Keeps, Keeps-bind, Keeps-gets, keeps_rules}
use doppelganger_web.Value.{Value, Engine}
use doppelganger_web.Ui.{Page, visible}
use doppelganger_web.Ui.Screens.{
  screen_at, layout, visible-show_step, layout-show_step, screen_at_of_layout,
}
use doppelganger_web.Panel.{Panel}
use doppelganger_web.Panel.Laws.{IsValid}
use doppelganger_web.Panel.Emitters.{Emits, emitters, emitter-IsValid}
use doppelganger_web.Crypto.{
  requests, Awaited, Settled, Call, Key, fetch, read_json, IsConfined, Request, Response,
  generate_key_pair-IsConfined, KeyPair, import_public_key-IsConfined, derive_shared_key-IsConfined,
  export_public_key-IsConfined,
}
use doppelganger_web.Bob.{
  Task, init_generated, init_exported, session_answered, session_read, submit_exported,
  submit_fetched, submit_answered, pass_imported, pass_derived, Job, job, Tab, loaded, log, show,
  alert, await,
}
use doppelganger_web.Bob.Open.{
  read_request, init_failed, fetch_failed, fetch_session, on_init_generated, on_init_exported,
  on_session_answered, show_challenge, on_session_read, init_bob,
}
use doppelganger_web.Bob.Answer.{
  verify_request, start_submit, submit_with, submit_answer, submit_failed, on_submit_exported,
  on_submit_fetched, on_gone, throw_refusal, on_pass, on_fail, on_scored, on_submit_answered,
  on_pass_imported, on_pass_derived,
}
use doppelganger_web.Bob.Run.{resume}

abbrev pub JobIsConfined : Job → Type 0
JobIsConfined (job call task) = IsConfined call

abbrev pub Filled : String → String → Type 0
Filled name answer = (str_eq name "" ≡ false) × (str_eq answer "" ≡ false)

-- A request that reads the session, or sends an answer with no text left empty.
pub data IsFilled (r : Request) : Type 0 where
  reads : (id : String) → r ≡ read_request id → IsFilled r
  submits :
      (id name answer : String) (exported : Value)
      → Filled name answer
      → r ≡ verify_request id name answer exported
      → IsFilled r

abbrev pub TaskIsFilled : {k : Awaited} → Task k → Type 0
TaskIsFilled (submit_exported name answer) = Filled name answer
TaskIsFilled _ = Unit

abbrev pub JobIsFilled : Job → Type 0
JobIsFilled (job call task) = TaskIsFilled task

-- One screen of the page can be seen.
pub record ShowsOne (page : Page) : Type 0 where
  pub step : String
  pub only : visible page ≡ step ∷ []
  pub screens : layout page ≡ layout (loaded "").page

pub record Sound (panel : Panel) (page : Page) (jobs : List Job) (sent : List Request)
    : Type 0 where
  pub log_valid : IsValid panel
  pub one_screen : ShowsOne page
  pub confined : All JobIsConfined jobs
  pub filled : All JobIsFilled jobs
  pub sent_filled : All IsFilled sent

abbrev pub IsSound : Tab → Type 0
IsSound t = Sound t.panel t.page t.jobs t.sent

pub log-IsSound : (m : Exec Panel Unit) → Emits m → Keeps IsSound (log m)
unfolding log
log-IsSound m h = record {
  after = λ t s. record {
    log_valid = (emitter-IsValid m h).after t.panel s.log_valid;
    one_screen = s.one_screen;
    confined = s.confined;
    filled = s.filled;
    sent_filled = s.sent_filled;
  };
}

show-IsSound : (step : String) → screen_at step (loaded "").page ≡ true → Keeps IsSound (show step)
unfolding show
show-IsSound step known = record {
  after = λ t s. record {
    log_valid = s.log_valid;
    one_screen = record {
      step = step;
      only =
          visible-show_step step t.page
          ∙ ap (λ b. if b then step ∷ [] else [])
              (screen_at_of_layout step t.page (loaded "").page s.one_screen.screens ∙ known);
      screens = layout-show_step step t.page ∙ s.one_screen.screens;
    };
    confined = s.confined;
    filled = s.filled;
    sent_filled = s.sent_filled;
  };
}

pub shows_loading : Keeps IsSound (show "step-loading")
shows_loading = show-IsSound "step-loading" refl

pub shows_challenge : Keeps IsSound (show "step-bob-challenge")
shows_challenge = show-IsSound "step-bob-challenge" refl

pub shows_scoring : Keeps IsSound (show "step-scoring")
shows_scoring = show-IsSound "step-scoring" refl

pub shows_pass : Keeps IsSound (show "step-bob-pass")
shows_pass = show-IsSound "step-bob-pass" refl

pub shows_fail : Keeps IsSound (show "step-bob-fail")
shows_fail = show-IsSound "step-bob-fail" refl

pub shows_expired : Keeps IsSound (show "step-expired")
shows_expired = show-IsSound "step-expired" refl

pub alert-IsSound : (text : String) → Keeps IsSound (alert text)
unfolding alert
alert-IsSound text = record { after = λ t s. s }

pub await-IsSound :
    {k : Awaited} (call : Call k) (task : Task k)
    → IsConfined call
    → TaskIsFilled task
    → All IsFilled (requests call)
    → Keeps IsSound (await call task)
unfolding await
await-IsSound call task h named posts = record {
  after = λ t s. record {
    log_valid = s.log_valid;
    one_screen = s.one_screen;
    confined = All-append JobIsConfined t.jobs (job call task ∷ []) s.confined (h, tt);
    filled = All-append JobIsFilled t.jobs (job call task ∷ []) s.filled (named, tt);
    sent_filled = All-append IsFilled t.sent (requests call) s.sent_filled posts;
  };
}

response-TaskIsFilled : (task : Task Awaited.response) → TaskIsFilled task
response-TaskIsFilled (session_answered id) = tt
response-TaskIsFilled submit_fetched = tt

body-TaskIsFilled : (task : Task Awaited.body) → TaskIsFilled task
body-TaskIsFilled session_read = tt
body-TaskIsFilled (submit_answered status) = tt

pub await_read :
    (id : String) (task : Task Awaited.response)
    → Keeps IsSound (await (fetch (read_request id)) task)
await_read id task =
    await-IsSound (fetch (read_request id)) task tt (response-TaskIsFilled task) (reads id refl, tt)

pub await_verify :
    (id name answer : String) (exported : Value) (task : Task Awaited.response)
    → Filled name answer
    → Keeps IsSound (await (fetch (verify_request id name answer exported)) task)
await_verify id name answer exported task texts =
    await-IsSound (fetch (verify_request id name answer exported)) task tt
      (response-TaskIsFilled task) (submits id name answer exported texts refl, tt)

pub await_json :
    (r : Response) (task : Task Awaited.body) → Keeps IsSound (await (read_json r) task)
await_json r task = await-IsSound (read_json r) task tt (body-TaskIsFilled task) tt

pub ruleset sound_rules = (
  keeps_rules, emitters, log-IsSound, shows_loading, shows_challenge, shows_scoring, shows_pass,
  shows_fail, shows_expired, alert-IsSound, await-IsSound, await_read, await_verify, await_json,
  generate_key_pair-IsConfined, import_public_key-IsConfined, derive_shared_key-IsConfined,
  export_public_key-IsConfined,
)
