-- ===== src/Alice/Always.antt =====
-- static/js/session.js, Alice: the log, the screens, the calls and the requests of every tab that can come
-- about.
use doppelganger_web.Prelude.{String, [], ◌∷◌, ◌++◌, ◌≡◌, refl, All, All-without, All-middle}
use doppelganger_web.Exec.{◌>>◌}
use doppelganger_web.Exec.Keeps.{Keeps, Keeps-bind}
use doppelganger_web.Value.{Engine}
use doppelganger_web.Ui.{visible}
use doppelganger_web.Panel.Laws.{IsValid, init-IsValid, click-IsValid}
use doppelganger_web.Alice.{job, Tab, loaded, show}
use doppelganger_web.Alice.Reset.{reset}
use doppelganger_web.Alice.Run.{
  Answers, Step, type_name, type_question, type_answer, press_start, press_create, press_copy,
  press_again, press_control, settle, message, give_up, error, Reach, start, next,
}
use doppelganger_web.Alice.Sound.{JobIsConfined, JobIsFilled, IsFilled, IsSound, show_create}
use doppelganger_web.Alice.Sound.Handlers.{
  init_alice-IsSound, create-IsSound, copy_link-IsSound, reset-IsSound, on_message-IsSound,
  on_error-IsSound, resume-IsSound,
}

loaded-IsSound : IsSound loaded
loaded-IsSound = record {
  log_valid = init-IsValid;
  one_screen = record { step = "step-landing"; only = refl; screens = refl };
  confined = tt;
  filled = tt;
  sent_filled = tt;
}

again-IsSound : Keeps IsSound (reset >> show "step-create")
again-IsSound = Keeps-bind reset _ reset-IsSound (λ _. show_create)

module _ (engine : Engine) (answers : Answers) where
  step-IsSound : {t u : Tab} → Step engine answers t u → IsSound t → IsSound u
  step-IsSound (type_name t s) h = h
  step-IsSound (type_question t s) h = h
  step-IsSound (type_answer t s) h = h
  step-IsSound (press_start t v) h = show_create.after t h
  step-IsSound (press_create t v e) h = create-IsSound.after t h
  step-IsSound (press_copy t v) h = copy_link-IsSound.after t h
  step-IsSound (press_again t v) h = again-IsSound.after t h
  step-IsSound (press_control t c) h = record {
    log_valid = click-IsValid c t.panel h.log_valid;
    one_screen = h.one_screen;
    confined = h.confined;
    filled = h.filled;
    sent_filled = h.sent_filled;
  }
  step-IsSound (settle t before after call task r e a) h =
      (resume-IsSound engine task r
          (All-middle JobIsFilled before after (job call task) (rw e at h.filled))).after
        (record t { jobs = before ++ after })
        (record {
          log_valid = h.log_valid;
          one_screen = h.one_screen;
          confined = All-without JobIsConfined before after (job call task) (rw e at h.confined);
          filled = All-without JobIsFilled before after (job call task) (rw e at h.filled);
          sent_filled = h.sent_filled;
        })
  step-IsSound (message t i text v) h = (on_message-IsSound engine i text).after t h
  step-IsSound (give_up t i) h = h
  step-IsSound (error t i) h = (on_error-IsSound i).after t h

  pub reach-IsSound : {t : Tab} → Reach engine answers t → IsSound t
  reach-IsSound start = (init_alice-IsSound engine).after loaded loaded-IsSound
  reach-IsSound (next r s) = step-IsSound s (reach-IsSound r)

  -- In every tab of Alice that can come about, the counter of the protocol log counts the entries that it
  -- shows, its text says so, the placeholder and the dot tell whether there are any, and the classes and
  -- the attribute of the panel say whether it is open.
  pub log-IsValid : {t : Tab} → Reach engine answers t → IsValid t.panel
  log-IsValid r = (reach-IsSound r).log_valid

  -- In every tab of Alice that can come about, exactly one of the page's screens can be seen.
  pub one_screen :
      {t : Tab} → Reach engine answers t → (step : String) × (visible t.page ≡ step ∷ [])
  one_screen r = let shows = (reach-IsSound r).one_screen in (shows.step, shows.only)

  -- In every tab of Alice that can come about, each call of the browser that is under way makes keys that
  -- cannot be read out, takes in Bob's key without a use of its own, and derives a 256-bit AES-GCM
  -- key that can only encrypt and decrypt.
  pub calls_confined : {t : Tab} → Reach engine answers t → All JobIsConfined t.jobs
  calls_confined r = (reach-IsSound r).confined

  -- In every tab of Alice that can come about, each request that the tab has sent posts a challenge to
  -- `/api/session` whose name, question and answer are not empty.
  pub requests-IsFilled : {t : Tab} → Reach engine answers t → All IsFilled t.sent
  requests-IsFilled r = (reach-IsSound r).sent_filled
