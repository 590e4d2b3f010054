-- ===== src/Alice/Run.antt =====
-- Alice's tab as the browser runs it: what follows each `await`, and the steps that the tab can take.
use doppelganger_web.Prelude.{ℕ, String, false, List, [], ◌∷◌, ◌++◌, ◌≡◌, ◌⊎◌}
use doppelganger_web.Text.{length, decimal}
use doppelganger_web.Exec.{Result, Exec, run, ◌>>◌}
use doppelganger_web.Value.{Engine}
use doppelganger_web.Ui.{visible}
use doppelganger_web.Panel
use doppelganger_web.Panel.{Control}
use doppelganger_web.Crypto.{Awaited, Settled, Call}
use doppelganger_web.Alice.{
  Task, init_generated, init_exported, create_exported, create_fetched, create_refused,
  create_answered, verified_imported, verified_derived, link_copied, copied_shown, reset_generated,
  reset_exported, Job, job, Tab, loaded, show, close_at,
}
use doppelganger_web.Alice.Start.{
  init_alice, on_init_generated, on_init_exported, copy_link, on_link_copied, on_copied_shown,
}
use doppelganger_web.Alice.Create.{
  create, on_create_exported, on_create_fetched, on_create_refused, on_create_answered,
}
use doppelganger_web.Alice.Stream.{
  on_verified_imported, on_verified_derived, on_message, is_closed, on_error,
}
use doppelganger_web.Alice.Reset.{reset, on_reset_generated, on_reset_exported}

-- The code after an `await`, given how the promise was settled.
unfoldable pub resume : Engine → {k : Awaited} → Task k → Result (Settled k) → Exec Tab Unit
resume engine init_generated r = on_init_generated engine r
resume engine init_exported r = on_init_exported engine r
resume engine (create_exported name question answer) r =
    on_create_exported engine name question answer r
resume engine (create_fetched question) r = on_create_fetched engine question r
resume engine (create_refused status) r = on_create_refused engine status r
resume engine (create_answered question) r = on_create_answered engine question r
resume engine (verified_imported event) r = on_verified_imported event r
resume engine (verified_derived event) r = on_verified_derived event r
resume engine link_copied r = on_link_copied r
resume engine copied_shown r = on_copied_shown r
resume engine reset_generated r = on_reset_generated r
resume engine reset_exported r = on_reset_exported r

-- The two listeners for `input` of static/js/ui.js, once the text is in its field.
abbrev pub input_question : String → Tab → Tab
input_question s t = record t { memory_question = s; question_count = decimal (length s) }

abbrev pub input_answer : String → Tab → Tab
input_answer s t = record t { memory_answer = s; answer_count = decimal (length s) }

-- What the browser may answer to a call.
abbrev pub Answers : Type 1
Answers = (k : Awaited) → Call k → Result (Settled k) → Type 0

module _ (engine : Engine) (answers : Answers) where
  -- What can happen next in the tab: the user types or presses a button that can be seen and is enabled, a
  -- promise is settled, a message of an open source comes in, or a source meets an error, after which
  -- the browser may give it up.
  pub data Step : Tab → Tab → Type 0 where
    type_name : (t : Tab) (s : String) → Step t (record t { alice_name = s })
    type_question : (t : Tab) (s : String) → Step t (input_question s t)
    type_answer : (t : Tab) (s : String) → Step t (input_answer s t)
    press_start :
        (t : Tab) → visible t.page ≡ "step-landing" ∷ [] → Step t (run (show "step-create") t)
    press_create :
        (t : Tab)
        → visible t.page ≡ "step-create" ∷ []
        → t.create_disabled ≡ false
        → Step t (run create t)
    press_copy : (t : Tab) → visible t.page ≡ "step-waiting" ∷ [] → Step t (run copy_link t)
    press_again :
        (t : Tab)
        → (visible t.page ≡ "step-alice-pass" ∷ []) ⊎ (visible t.page ≡ "step-alice-fail" ∷ [])
        → Step t (run (reset >> show "step-create") t)
    press_control : (t : Tab) (c : Control) → Step t (record t { panel = Panel.click c t.panel })
    settle :
        (t : Tab) {k : Awaited} (before after : List Job) (call : Call k) (task : Task k)
        (r : Result (Settled k))
        → t.jobs ≡ before ++ job call task ∷ after
        → answers k call r
        → Step t (run (resume engine task r) (record t { jobs = before ++ after }))
    message :
        (t : Tab) (i : ℕ) (text : String)
        → is_closed i t.sources ≡ false
        → Step t (run (on_message engine i text) t)
    give_up : (t : Tab) (i : ℕ) → Step t (record t { sources = close_at i t.sources })
    error : (t : Tab) (i : ℕ) → Step t (run (on_error i) t)

  -- The tabs that can come about after the page has loaded and called `initAlice`.
  pub data Reach : Tab → Type 0 where
    start : Reach (run (init_alice engine) loaded)
    next : {t u : Tab} → Reach t → Step t u → Reach u
