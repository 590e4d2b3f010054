-- ===== src/Bob/Outcomes/Recovery.antt =====
-- static/js/session.js: where submitAnswer leaves Bob when a step fails, and what initBob shows him.
use doppelganger_web.Prelude.{
  ℕ, Bool-cases, inl, inr, sym, subst, ◌<◌, String, Bool, true, false, not, [], ◌∷◌, ◌≡◌, refl, ap,
  ◌∙◌, arith, if◌then◌else◌,
}
use doppelganger_web.Exec.{Error, Result, ok, throw, Exec, lift, run, ◌>>=◌, attempt}
use doppelganger_web.Exec.Keeps.{Keeps, Keeps-lift, keeps_rules}
use doppelganger_web.Exec.Ends.{Ends, Leads, Leads-attempt, Ends-bind, ends_rules}
use doppelganger_web.Value.{Value, Engine, is_text, obj, Fields, find, shown}
use doppelganger_web.Ui
use doppelganger_web.Ui.{Page, visible}
use doppelganger_web.Ui.Screens.{visible-show_step, layout, screen_at, screen_at_of_layout}
use doppelganger_web.Panel.{Panel}
use doppelganger_web.Crypto.{Awaited, Key, Call, Response}
use doppelganger_web.Bob
use doppelganger_web.Bob.{
  Tab, Task, Job, job, loaded, submit_exported, submit_fetched, submit_answered, pass_imported,
  pass_derived, log, show, alert, await,
}
use doppelganger_web.Bob.Answer.{
  submit_failed, on_submit_exported, on_submit_fetched, on_gone, throw_refusal, on_pass, on_fail,
  on_scored, on_submit_answered, on_pass_imported, on_pass_derived,
}
use doppelganger_web.Panel.Events.{session_fetched}
use doppelganger_web.Bob.Open.{fetch_failed, show_challenge, on_session_read}
use doppelganger_web.Bob.Run.{resume}
use doppelganger_web.Bob.Phase.{count, count-append}
use doppelganger_web.Bob.Outcomes.{is_last}

-- The page has the screens that it was loaded with.
abbrev pub HasScreens : Tab → Type 0
HasScreens t = layout t.page ≡ layout (loaded "").page

-- A call is under way, the challenge can be answered again, or a last screen is shown.
pub data GoesOn : Tab → Type 0 where
  under_way : {t : Tab} → 0 < count t.jobs → GoesOn t
  again :
      {t : Tab} → visible t.page ≡ "step-bob-challenge" ∷ [] → t.submit_disabled ≡ false → GoesOn t
  finished : {t : Tab} (step : String) → visible t.page ≡ step ∷ [] → is_last step ≡ true → GoesOn t

log-HasScreens : (m : Exec Panel Unit) → Keeps HasScreens (log m)
unfolding log
log-HasScreens m = record { after = λ t h. h }

alert-HasScreens : (text : String) → Keeps HasScreens (alert text)
unfolding alert
alert-HasScreens text = record { after = λ t h. h }

shown_step :
    (step : String) (t : Tab)
    → screen_at step (loaded "").page ≡ true
    → HasScreens t
    → visible (Ui.show_step step t.page) ≡ step ∷ []
shown_step step t known h =
    visible-show_step step t.page
    ∙ ap (λ b. if b then step ∷ [] else [])
        (screen_at_of_layout step t.page (loaded "").page h ∙ known)

show-GoesOn :
    (step : String)
    → screen_at step (loaded "").page ≡ true
    → is_last step ≡ true
    → Ends HasScreens GoesOn (show step)
unfolding show
show-GoesOn step known last = record {
  after = λ t h. finished step (shown_step step t known h) last;
}

await-GoesOn :
    {k : Awaited} (call : Call k) (task : Task k) → Ends HasScreens GoesOn (await call task)
unfolding await
await-GoesOn call task = record {
  after = λ t h. under_way (omega (arith, count-append t.jobs (job call task ∷ [])));
}

pass-GoesOn : Ends HasScreens GoesOn (show "step-bob-pass")
pass-GoesOn = show-GoesOn "step-bob-pass" refl refl

fail-GoesOn : Ends HasScreens GoesOn (show "step-bob-fail")
fail-GoesOn = show-GoesOn "step-bob-fail" refl refl

expired-GoesOn : Ends HasScreens GoesOn (show "step-expired")
expired-GoesOn = show-GoesOn "step-expired" refl refl

ruleset goes_rules = (
  ends_rules, keeps_rules, log-HasScreens, alert-HasScreens, pass-GoesOn, fail-GoesOn,
  expired-GoesOn, await-GoesOn,
)

module _ (engine : Engine) where
  submit_failed-GoesOn : (e : Error) → Leads HasScreens GoesOn (submit_failed engine e)
  unfolding submit_failed ◌>>=◌ log alert show
  submit_failed-GoesOn e = record {
    after = λ t h. again (shown_step "step-bob-challenge" t refl h) refl;
  }

  refused-GoesOn : (status : ℕ) (v : Value) → Ends HasScreens GoesOn (throw_refusal engine status v)
  unfolding throw_refusal lift
  refused-GoesOn status v = Ends-bind _ _ (Keeps-lift _) (λ error. record { after = λ t h. h })

  submit-GoesOn :
      (m : Exec Tab Unit)
      → Ends HasScreens GoesOn m
      → (t : Tab) → HasScreens t
      → GoesOn (run (attempt m (submit_failed engine)) t)
  submit-GoesOn m h t s = (Leads-attempt m (submit_failed engine) h submit_failed-GoesOn).after t s

  -- If the page has its screens, then however a step of `submitAnswer` is settled, and whatever
  -- the server has answered, Bob's tab does not get stuck on the scoring screen: the next call is
  -- under way, the challenge can be seen with its button enabled, or the screen for a pass, a fail
  -- or an expired session is shown.
  pub submit_recovers :
      (t : Tab) (name answer : String) (status : ℕ) (exported : Result Value)
      (fetched : Result Response) (settled : Result Value) (answered : Value)
      (imported derived : Result Key)
      → HasScreens t
      → GoesOn (run (resume engine (submit_exported name answer) exported) t)
        × GoesOn (run (resume engine submit_fetched fetched) t)
        × GoesOn (run (resume engine (submit_answered status) settled) t)
        × GoesOn (run (resume engine (pass_imported answered) imported) t)
        × GoesOn (run (resume engine (pass_derived answered) derived) t)
  unfolding resume on_submit_exported on_submit_fetched on_submit_answered on_pass_imported
      on_pass_derived on_gone on_scored on_pass on_fail
  submit_recovers t name answer status exported fetched settled answered imported derived h = (
    submit-GoesOn _ (search goes_rules depth 14) t h,
    submit-GoesOn _ (search goes_rules depth 14) t h,
    submit-GoesOn _ (search (goes_rules, refused-GoesOn) depth 20) t h,
    submit-GoesOn _ (search goes_rules depth 14) t h,
    submit-GoesOn _ (search goes_rules depth 14) t h,
  )

chosen :
    (b : Bool) (m n : Exec Tab Unit) (f : Error → Exec Tab Unit) (t : Tab)
    → b ≡ true
    → run (attempt (if not b then m else n) f) t ≡ run (attempt n f) t
chosen true m n f t h = refl
chosen false m n f t h = cc

refused :
    (b : Bool) (m n : Exec Tab Unit) (f : Error → Exec Tab Unit) (t : Tab)
    → b ≡ false
    → run (attempt (if not b then m else n) f) t ≡ run (attempt m f) t
refused true m n f t h = cc
refused false m n f t h = refl

-- What the answer to `GET /api/session/<id>` brings up.
pub data Read (session : Fields) (u : Tab) : Type 0 where
  waiting :
      is_text "WAITING_FOR_BOB" (find "phase" session) ≡ true
      → visible u.page ≡ "step-bob-challenge" ∷ []
      → u.alice_name_display ≡ shown (find "alice_name" session)
      → u.challenge_question ≡ shown (find "memory_question" session)
      → Read session u
  over :
      is_text "WAITING_FOR_BOB" (find "phase" session) ≡ false
      → visible u.page ≡ "step-expired" ∷ []
      → Read session u

-- If the page has its screens and the server's answer has been read, then either the answer has the phase
-- WAITING_FOR_BOB, and the challenge is shown with the answer's name and question, or it has
-- another phase or none, and the screen of an expired session is shown; and that is shown when the
-- answer could not be read.
pub session_read_lem :
    (engine : Engine) (session : Fields) (e : Error) (t : Tab)
    → HasScreens t
    → Read session (run (resume engine Bob.session_read (ok (obj session))) t)
      × (visible (run (resume engine Bob.session_read (throw e)) t).page ≡ "step-expired" ∷ [])
unfolding resume on_session_read fetch_failed show_challenge attempt ◌>>=◌ log show session_fetched
session_read_lem engine session e t h = (
  elim (Bool-cases (is_text "WAITING_FOR_BOB" (find "phase" session))) [
    | inl open_now ↦
        subst (Read session)
          (sym (
            chosen (is_text "WAITING_FOR_BOB" (find "phase" session)) _
              (show_challenge engine (find "phase" session) (obj session)) (fetch_failed engine) t
              open_now))
          (waiting open_now (shown_step "step-bob-challenge" t refl h) refl refl)
    | inr used ↦
        subst (Read session)
          (sym (
            refused (is_text "WAITING_FOR_BOB" (find "phase" session)) _
              (show_challenge engine (find "phase" session) (obj session)) (fetch_failed engine) t
              used))
          (over used (shown_step "step-expired" t refl h))
  ],
  shown_step "step-expired" t refl h,
)
