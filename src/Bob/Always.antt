-- ===== src/Bob/Always.antt =====
-- static/js/session.js, Bob: the log, the screens, the calls and the requests of every tab that can come
-- about.
use doppelganger_web.Prelude.{String, [], ◌∷◌, ◌++◌, ◌≡◌, refl, All, All-without, All-middle}
use doppelganger_web.Value.{Engine}
use doppelganger_web.Ui.{visible}
use doppelganger_web.Panel.Laws.{IsValid, init-IsValid, click-IsValid}
use doppelganger_web.Bob.{job, Tab, loaded}
use doppelganger_web.Bob.Run.{
  Answers, Step, type_name, type_answer, press_submit, press_control, settle, Reach, start, next,
}
use doppelganger_web.Bob.Sound.{JobIsConfined, JobIsFilled, IsFilled, IsSound}
use doppelganger_web.Bob.Sound.Handlers.{init_bob-IsSound, submit_answer-IsSound, resume-IsSound}

loaded-IsSound : (session_id : String) → IsSound (loaded session_id)
loaded-IsSound session_id = record {
  log_valid = init-IsValid;
  one_screen = record { step = "step-loading"; only = refl; screens = refl };
  confined = tt;
  filled = tt;
  sent_filled = tt;
}

module _ (engine : Engine) (answers : Answers) where
  step-IsSound : {t u : Tab} → Step engine answers t u → IsSound t → IsSound u
  step-IsSound (type_name t s) h = h
  step-IsSound (type_answer t s) h = h
  step-IsSound (press_submit t v e) h = submit_answer-IsSound.after t h
  step-IsSound (press_control t c) h = record {
    log_valid = click-IsValid c t.panel h.log_valid;
    one_screen = h.one_screen;
    confined = h.confined;
    filled = h.filled;
    sent_filled = h.sent_filled;
  }
  step-IsSound (settle t before after call task r e a) h =
      (resume-IsSound engine task r
          (All-middle JobIsFilled before after (job call task) (rw e at h.filled))).after
        (record t { jobs = before ++ after })
        (record {
          log_valid = h.log_valid;
          one_screen = h.one_screen;
          confined = All-without JobIsConfined before after (job call task) (rw e at h.confined);
          filled = All-without JobIsFilled before after (job call task) (rw e at h.filled);
          sent_filled = h.sent_filled;
        })

  pub reach-IsSound :
      {session_id : String} {t : Tab} → Reach engine answers session_id t → IsSound t
  reach-IsSound {session_id} start =
      (init_bob-IsSound session_id).after (loaded session_id) (loaded-IsSound session_id)
  reach-IsSound (next r s) = step-IsSound s (reach-IsSound r)

  module _ {session_id : String} {t : Tab} (r : Reach engine answers session_id t) where
    -- In every tab of Bob that can come about, the counter of the protocol log counts the entries that it
    -- shows, its text says so, the placeholder and the dot tell whether there are any, and the classes
    -- and the attribute of the panel say whether it is open.
    pub bob_log-IsValid : IsValid t.panel
    bob_log-IsValid = (reach-IsSound r).log_valid

    -- In every tab of Bob that can come about, exactly one of the page's screens can be seen.
    pub bob_one_screen : (step : String) × (visible t.page ≡ step ∷ [])
    bob_one_screen = let shows = (reach-IsSound r).one_screen in (shows.step, shows.only)

    -- In every tab of Bob that can come about, each call of the browser that is under way makes keys that
    -- cannot be read out, takes in Alice's key without a use of its own, and derives a 256-bit
    -- AES-GCM key that can only encrypt and decrypt.
    pub bob_calls_confined : All JobIsConfined t.jobs
    bob_calls_confined = (reach-IsSound r).confined

    -- In every tab of Bob that can come about, each request that the tab has sent reads a session, or
    -- submits a name and an answer that are not empty.
    pub bob_requests-IsFilled : All IsFilled t.sent
    bob_requests-IsFilled = (reach-IsSound r).sent_filled
