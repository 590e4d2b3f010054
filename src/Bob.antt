-- ===== src/Bob.antt =====
-- static/js/session.js, the side of Bob: the state of his tab on the page templates/session.html,
-- cut at each `await` as the tab of Alice is.
pub mod Open
pub mod Answer
pub mod Run
pub mod Sound
pub mod Always
pub mod Phase
pub mod Idle
pub mod Steps
pub mod Activity
pub mod Outcomes
mod Tests
use doppelganger_web.Prelude.{ℕ, String, Bool, true, false, List, [], ◌∷◌, ◌++◌, Option, none}
use doppelganger_web.Exec.{Exec, modify}
use doppelganger_web.Value.{Value}
use doppelganger_web.Ui.{Page, Element, show_step}
use doppelganger_web.Panel
use doppelganger_web.Panel.{Panel}
use doppelganger_web.Crypto.{
  Request, requests, Call, Awaited, pair, jwk, key, response, body, KeyPair,
}

-- The code after each `await` of Bob's functions. The tasks of `initBob` go on to fetch the
-- session, whose id they keep.
pub data Task : Awaited → Type 0 where
  init_generated : String → Task pair
  init_exported : String → Task jwk
  session_answered : String → Task response
  session_read : Task body
  submit_exported : String → String → Task jwk
  submit_fetched : Task response
  submit_answered : ℕ → Task body
  pass_imported : Value → Task key
  pass_derived : Value → Task key

pub data Job : Type 0 where
  job : {k : Awaited} → Call k → Task k → Job

-- `session_id` is the constant SESSION_ID that the page defines; `key_html` is the markup of the key status.
pub record Tab : Type 0 where
  pub session_id : String
  pub key_pair : Option KeyPair
  pub bob_name : String
  pub bob_answer : String
  pub submit_disabled : Bool
  pub submit_label : String
  pub key_html : String
  pub alice_name_display : String
  pub challenge_question : String
  pub bob_score : String
  pub bob_fail_score : String
  pub page : Page
  pub panel : Panel
  pub alerts : List String
  pub jobs : List Job
  pub sent : List Request

abbrev pub screen : String → Bool → Element
screen id hidden = record { id = id; screen = true; hidden = hidden; fade_in = false }

-- The tab when the page of a session has loaded.
abbrev pub loaded : String → Tab
loaded session_id = record {
  session_id = session_id;
  key_pair = none;
  bob_name = "";
  bob_answer = "";
  submit_disabled = true;
  submit_label = "Submit Answer";
  key_html = "Generating your encryption keys in your browser...";
  alice_name_display = "";
  challenge_question = "";
  bob_score = "";
  bob_fail_score = "";
  page =
      screen "step-loading" false
      ∷ screen "step-bob-challenge" true
      ∷ screen "step-scoring" true
      ∷ screen "step-bob-pass" true
      ∷ screen "step-bob-fail" true
      ∷ screen "step-expired" true
      ∷ [];
  panel = Panel.init;
  alerts = [];
  jobs = [];
  sent = [];
}

-- Code of the protocol log, run on the tab.
unfoldable pub log : {A : Type 0} → Exec Panel A → Exec Tab A
log m t = let (r, p) = m t.panel in (r, record t { panel = p })

unfoldable pub show : String → Exec Tab Unit
unfolding modify
show step = modify (λ t. record t { page = show_step step t.page })

unfoldable pub alert : String → Exec Tab Unit
unfolding modify
alert text = modify (λ t. record t { alerts = t.alerts ++ text ∷ [] })

-- await call, with the code after it. `sent` is the list of requests that have gone to the server.
unfoldable pub await : {k : Awaited} → Call k → Task k → Exec Tab Unit
unfolding modify
await call task =
    modify (λ t. record t { jobs = t.jobs ++ job call task ∷ []; sent = t.sent ++ requests call })
