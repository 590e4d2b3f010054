-- ===== src/Bob/Outcomes.antt =====
-- static/js/session.js: what `submitAnswer` does with the answer of the server.
pub mod Recovery
use doppelganger_web.Prelude.{
  ℕ, Bool-cases, inl, inr, sym, subst, ◌<◌, String, Bool, true, false, not, List, [], ◌∷◌, ◌≡◌,
  refl, ap, ◌∙◌, arith, ◌&&◌, ◌||◌, ◌==◌, if◌then◌else◌, str_eq,
}
use doppelganger_web.Exec.{Error, Result, ok, throw, Exec, lift, run, ◌>>=◌, attempt}
use doppelganger_web.Exec.Keeps.{Keeps, Keeps-attempt, Keeps-bind, Keeps-lift, keeps_rules}
use doppelganger_web.Exec.Ends.{Ends, Leads, Leads-attempt, Ends-bind, ends_rules}
use doppelganger_web.Value.{
  Value, Engine, get, is_text, undefined, or_empty, obj, Fields, find, shown,
}
use doppelganger_web.Ui
use doppelganger_web.Ui.{Page, visible}
use doppelganger_web.Ui.Screens.{visible-show_step, layout, screen_at, screen_at_of_layout}
use doppelganger_web.Panel.{Panel}
use doppelganger_web.Crypto.{Awaited, Key, Call, Response, is_ok}
use doppelganger_web.Bob
use doppelganger_web.Bob.{
  Tab, Task, Job, job, loaded, submit_exported, submit_fetched, submit_answered, pass_imported,
  pass_derived, log, show, alert, await,
}
use doppelganger_web.Bob.Answer.{
  submit_failed, on_submit_exported, on_submit_fetched, on_gone, throw_refusal, on_pass, on_fail,
  on_scored, on_submit_answered, on_pass_imported, on_pass_derived,
}
use doppelganger_web.Panel.Events.{session_fetched}
use doppelganger_web.Bob.Open.{fetch_failed, show_challenge, on_session_read}
use doppelganger_web.Bob.Run.{resume}
use doppelganger_web.Bob.Phase.{count, count-append}

-- v.k, or `undefined` where reading it throws.
abbrev pub read : String → Value → Value
read k v = elim (get k v) [ ok w ↦ w | throw e ↦ undefined ]

-- The server has answered the request with success, and says that Bob has passed.
abbrev pub passed : ℕ → Result Value → Bool
passed status settled =
    not (status == 404 || status == 409)
    && (is_ok (record { status = status }) && is_text "PASS" (read "result" (or_empty settled)))

rest_false :
    (gone good pass : Bool)
    → (not gone && (good && pass)) ≡ false
    → gone ≡ false
    → not good ≡ false
    → pass ≡ false
rest_false gone good pass h g k = ground arith

-- The screens on which Bob's part ends.
abbrev pub is_last : String → Bool
is_last step =
    str_eq step "step-bob-pass" || str_eq step "step-bob-fail" || str_eq step "step-expired"

-- The tab has these jobs.
abbrev HasJobs : List Job → Tab → Type 0
HasJobs js t = t.jobs ≡ js

module _ (js : List Job) where
  log-HasJobs : (m : Exec Panel Unit) → Keeps (HasJobs js) (log m)
  unfolding log
  log-HasJobs m = record { after = λ t h. h }

  show-HasJobs : (step : String) → Keeps (HasJobs js) (show step)
  unfolding show
  show-HasJobs step = record { after = λ t h. h }

  alert-HasJobs : (text : String) → Keeps (HasJobs js) (alert text)
  unfolding alert
  alert-HasJobs text = record { after = λ t h. h }

  either-HasJobs :
      (b : Bool) (m n : Exec Tab Unit)
      → (b ≡ true → Keeps (HasJobs js) m)
      → (b ≡ false → Keeps (HasJobs js) n)
      → Keeps (HasJobs js) (if b then m else n)
  either-HasJobs true m n h k = h refl
  either-HasJobs false m n h k = k refl

  read-HasJobs :
      (key : String) (v : Value) (f : Value → Exec Tab Unit)
      → Keeps (HasJobs js) (f (read key v))
      → Keeps (HasJobs js) (lift (get key v) >>= f)
  unfolding ◌>>=◌
  read-HasJobs key v f h = record { after = λ t same. from (get key v) h t same }
    where
      from :
          (r : Result Value)
          → Keeps (HasJobs js) (f (elim r [ ok w ↦ w | throw e ↦ undefined ]))
          → (t : Tab) → HasJobs js t
          → HasJobs js ((lift r >>= f) t).1
      from (ok w) k t same = k.after t same
      from (throw e) k t same = same

  ruleset jobs_rules = (keeps_rules, log-HasJobs, show-HasJobs, alert-HasJobs)

  module _ (engine : Engine) where
    submit_failed-HasJobs : (e : Error) → Keeps (HasJobs js) (submit_failed engine e)
    unfolding submit_failed
    submit_failed-HasJobs e = search jobs_rules depth 10

    scored-HasJobs :
        (answered : Value)
        → is_text "PASS" (read "result" answered) ≡ false
        → Keeps (HasJobs js) (on_scored engine answered)
    unfolding on_scored on_fail
    scored-HasJobs answered failed = Keeps-bind _ _ (Keeps-lift _) (λ score.
        read-HasJobs "result" answered _ (
          Keeps-bind _ _ (log-HasJobs _) (λ _.
            either-HasJobs (is_text "PASS" (read "result" answered)) (on_pass engine answered)
              (on_fail engine score answered) (λ e. cc) (λ e. search jobs_rules depth 8))))

    answered-HasJobs :
        (status : ℕ) (settled : Result Value)
        → passed status settled ≡ false
        → Keeps (HasJobs js) (on_submit_answered engine status settled)
    unfolding on_submit_answered on_gone throw_refusal
    answered-HasJobs status settled h =
        Keeps-attempt _ _
          (either-HasJobs _ _ _ (λ _. search jobs_rules depth 8)
            (λ here.
              either-HasJobs _ _ _ (λ _. search jobs_rules depth 8)
                (λ good. scored-HasJobs (or_empty settled) (
                  rest_false (status == 404 || status == 409) (is_ok (record { status = status }))
                    (is_text "PASS" (read "result" (or_empty settled))) h here good))))
          submit_failed-HasJobs

-- Unless the server answers with success that Bob has passed, `submitAnswer` asks nothing more of the
-- browser once it has read the answer: it takes in no key and derives none.
pub no_key_without_pass :
    (engine : Engine) (status : ℕ) (settled : Result Value) (t : Tab)
    → passed status settled ≡ false
    → (run (resume engine (submit_answered status) settled) t).jobs ≡ t.jobs
unfolding resume
no_key_without_pass engine status settled t h =
    (answered-HasJobs t.jobs engine status settled h).after t refl
