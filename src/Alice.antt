-- ===== src/Alice.antt =====
-- static/js/session.js, the side of Alice: the state of her tab on the page templates/index.html.
-- An async function is cut at each `await`: the call stands among the tab's jobs with a `Task`, the
-- code that follows it and the local variables that it still needs.
pub mod Start
pub mod Create
pub mod Stream
pub mod Reset
pub mod Run
pub mod Sound
pub mod Always
pub mod Phase
pub mod Idle
pub mod Exchange
pub mod Steps
pub mod Activity
pub mod Outcomes
mod Tests
use doppelganger_web.Prelude.{
  ℕ, zero, suc, String, Bool, true, false, List, [], ◌∷◌, ◌++◌, Option, none, some,
}
use doppelganger_web.Exec.{Exec, Result, ok, modify}
use doppelganger_web.Value.{Value, null}
use doppelganger_web.Ui.{Page, Element, show_step}
use doppelganger_web.Panel
use doppelganger_web.Panel.{Panel}
use doppelganger_web.Crypto.{
  Request, requests, Call, Awaited, pair, jwk, key, response, body, nothing, KeyPair,
}

-- The code after each `await` of Alice's functions, and of the promise chains of `reset` and
-- `copyLink`.
pub data Task : Awaited → Type 0 where
  init_generated : Task pair
  init_exported : Task jwk
  create_exported : String → String → String → Task jwk
  create_fetched : String → Task response
  create_refused : ℕ → Task body
  create_answered : String → Task body
  verified_imported : Value → Task key
  verified_derived : Value → Task key
  link_copied : Task nothing
  copied_shown : Task nothing
  reset_generated : Task pair
  reset_exported : Task jwk

pub data Job : Type 0 where
  job : {k : Awaited} → Call k → Task k → Job

-- An EventSource of the tab.
pub record Source : Type 0 where
  pub url : String
  pub closed : Bool

-- The variables of the closure (`null` is `none`, or the value `null`), the contents and properties of the
-- page's elements that the code writes, the alerts shown, and what is under way.
pub record Tab : Type 0 where
  pub key_pair : Option KeyPair
  pub current_session_id : Value
  pub current_link : Value
  pub alice_name : String
  pub memory_question : String
  pub memory_answer : String
  pub question_count : String
  pub answer_count : String
  pub create_disabled : Bool
  pub create_label : String
  pub key_ready : Bool
  pub key_text : String
  pub session_link : String
  pub qr_code : String
  pub vector_question : String
  pub vector_dimensions : String
  pub vector_preview : String
  pub vector_shown : Bool
  pub alice_score : String
  pub alice_fail_score : String
  pub copy_label : String
  pub page : Page
  pub panel : Panel
  pub alerts : List String
  pub jobs : List Job
  pub sent : List Request
  pub sources : List Source

abbrev pub screen : String → Bool → Element
screen id hidden = record { id = id; screen = true; hidden = hidden; fade_in = false }

-- The tab when the page has loaded: only the landing screen is shown, and the button is disabled.
abbrev pub loaded : Tab
loaded = record {
  key_pair = none;
  current_session_id = null;
  current_link = null;
  alice_name = "";
  memory_question = "";
  memory_answer = "";
  question_count = "0";
  answer_count = "0";
  create_disabled = true;
  create_label = "Generate Challenge Link";
  key_ready = false;
  key_text = "Generating your encryption keys...";
  session_link = "";
  qr_code = "";
  vector_question = "";
  vector_dimensions = "";
  vector_preview = "";
  vector_shown = false;
  alice_score = "";
  alice_fail_score = "";
  copy_label = "Copy";
  page =
      screen "step-landing" false
      ∷ screen "step-create" true
      ∷ screen "step-waiting" true
      ∷ screen "step-alice-pass" true
      ∷ screen "step-alice-fail" true
      ∷ [];
  panel = Panel.init;
  alerts = [];
  jobs = [];
  sent = [];
  sources = [];
}

-- Code of the protocol log, run on the tab.
unfoldable pub log : {A : Type 0} → Exec Panel A → Exec Tab A
log m t = let (r, p) = m t.panel in (r, record t { panel = p })

unfoldable pub show : String → Exec Tab Unit
unfolding modify
show step = modify (λ t. record t { page = show_step step t.page })

unfoldable pub alert : String → Exec Tab Unit
unfolding modify
alert text = modify (λ t. record t { alerts = t.alerts ++ text ∷ [] })

-- await call, with the code after it. `sent` is the list of requests that have gone to the server.
unfoldable pub await : {k : Awaited} → Call k → Task k → Exec Tab Unit
unfolding modify
await call task =
    modify (λ t. record t { jobs = t.jobs ++ job call task ∷ []; sent = t.sent ++ requests call })

abbrev pub close_at : ℕ → List Source → List Source
close_at i [] = []
close_at zero (es ∷ rest) = record es { closed = true } ∷ rest
close_at (suc i) (es ∷ rest) = es ∷ close_at i rest

-- es.close()
unfoldable pub close_source : ℕ → Exec Tab Unit
unfolding modify
close_source i = modify (λ t. record t { sources = close_at i t.sources })
