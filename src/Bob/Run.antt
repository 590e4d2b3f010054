-- ===== src/Bob/Run.antt =====
-- Bob's tab as the browser runs it: what follows each `await`, and the steps that the tab can take.
use doppelganger_web.Prelude.{String, false, List, [], ◌∷◌, ◌++◌, ◌≡◌}
use doppelganger_web.Exec.{Result, Exec, run}
use doppelganger_web.Value.{Engine}
use doppelganger_web.Ui.{visible}
use doppelganger_web.Panel
use doppelganger_web.Panel.{Control}
use doppelganger_web.Crypto.{Awaited, Settled, Call}
use doppelganger_web.Bob.{
  Task, init_generated, init_exported, session_answered, session_read, submit_exported,
  submit_fetched, submit_answered, pass_imported, pass_derived, Job, job, Tab, loaded,
}
use doppelganger_web.Bob.Open.{
  init_bob, on_init_generated, on_init_exported, on_session_answered, on_session_read,
}
use doppelganger_web.Bob.Answer.{
  submit_answer, on_submit_exported, on_submit_fetched, on_submit_answered, on_pass_imported,
  on_pass_derived,
}

-- The code after an `await`, given how the promise was settled.
unfoldable pub resume : Engine → {k : Awaited} → Task k → Result (Settled k) → Exec Tab Unit
resume engine (init_generated session_id) r = on_init_generated engine session_id r
resume engine (init_exported session_id) r = on_init_exported engine session_id r
resume engine (session_answered session_id) r = on_session_answered engine session_id r
resume engine session_read r = on_session_read engine r
resume engine (submit_exported name answer) r = on_submit_exported engine name answer r
resume engine submit_fetched r = on_submit_fetched engine r
resume engine (submit_answered status) r = on_submit_answered engine status r
resume engine (pass_imported answered) r = on_pass_imported engine answered r
resume engine (pass_derived answered) r = on_pass_derived engine answered r

-- What the browser may answer to a call.
abbrev pub Answers : Type 1
Answers = (k : Awaited) → Call k → Result (Settled k) → Type 0

module _ (engine : Engine) (answers : Answers) where
  -- What can happen next in the tab.
  pub data Step : Tab → Tab → Type 0 where
    type_name : (t : Tab) (s : String) → Step t (record t { bob_name = s })
    type_answer : (t : Tab) (s : String) → Step t (record t { bob_answer = s })
    press_submit :
        (t : Tab)
        → visible t.page ≡ "step-bob-challenge" ∷ []
        → t.submit_disabled ≡ false
        → Step t (run submit_answer t)
    press_control : (t : Tab) (c : Control) → Step t (record t { panel = Panel.click c t.panel })
    settle :
        (t : Tab) {k : Awaited} (before after : List Job) (call : Call k) (task : Task k)
        (r : Result (Settled k))
        → t.jobs ≡ before ++ job call task ∷ after
        → answers k call r
        → Step t (run (resume engine task r) (record t { jobs = before ++ after }))

  -- The tabs that can come about after the page of a session has loaded and called `initBob`.
  pub data Reach (session_id : String) : Tab → Type 0 where
    start : Reach session_id (run (init_bob session_id) (loaded session_id))
    next : {t u : Tab} → Reach session_id t → Step t u → Reach session_id u
