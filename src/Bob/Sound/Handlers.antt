-- ===== src/Bob/Sound/Handlers.antt =====
-- static/js/session.js: every handler of Bob's tab keeps what holds at all times.
use doppelganger_web.Prelude.{
  str_eq, ◌||◌, false, Bool, ℕ, String, ◌≡◌, refl, if◌then◌else◌, true, Option, none, some,
}
use doppelganger_web.Exec.{Exec, Result, Error}
use doppelganger_web.Exec.Keeps.{Keeps, Keeps-bind, Keeps-gets}
use doppelganger_web.Value.{Value, Engine}
use doppelganger_web.Crypto.{Awaited, Settled, Key, Response, KeyPair}
use doppelganger_web.Bob.{
  Task, init_generated, init_exported, session_answered, session_read, submit_exported,
  submit_fetched, submit_answered, pass_imported, pass_derived, Tab,
}
use doppelganger_web.Bob.Open.{
  init_failed, fetch_failed, fetch_session, on_init_generated, on_init_exported,
  on_session_answered, show_challenge, on_session_read, init_bob,
}
use doppelganger_web.Bob.Answer.{
  start_submit, submit_with, submit_answer, submit_failed, on_submit_exported, on_submit_fetched,
  on_gone, throw_refusal, on_pass, on_fail, on_scored, on_submit_answered, on_pass_imported,
  on_pass_derived,
}
use doppelganger_web.Bob.Run.{resume}
use doppelganger_web.Bob.Sound.{Filled, TaskIsFilled, IsSound, alert-IsSound, sound_rules}

start_submit-IsSound :
    (name answer : String) (keys : KeyPair)
    → Filled name answer
    → Keeps IsSound (start_submit name answer keys)
unfolding start_submit
start_submit-IsSound name answer keys texts = search (sound_rules) depth 14

submit_with-IsSound :
    (keys : Option KeyPair) (name answer : String)
    → Filled name answer
    → Keeps IsSound (submit_with keys name answer)
unfolding submit_with
submit_with-IsSound none name answer texts = alert-IsSound "Keys still generating — please wait."
submit_with-IsSound (some keys) name answer texts = start_submit-IsSound name answer keys texts

checked-IsSound :
    (a b : Bool) (m n : Exec Tab Unit)
    → Keeps IsSound m
    → ((a ≡ false) × (b ≡ false) → Keeps IsSound n)
    → Keeps IsSound (if a || b then m else n)
checked-IsSound true b m n h k = h
checked-IsSound false true m n h k = h
checked-IsSound false false m n h k = k (refl, refl)

pub submit_answer-IsSound : Keeps IsSound (submit_answer)
unfolding submit_answer
submit_answer-IsSound = Keeps-bind _ _ (Keeps-gets _) (λ name.
    Keeps-bind _ _ (Keeps-gets _) (λ answer. Keeps-bind _ _ (Keeps-gets _) (λ keys.
      checked-IsSound (str_eq name "") (str_eq answer "") _ _
        (alert-IsSound "Please fill in your name and answer.")
        (λ texts. submit_with-IsSound keys name answer texts))))

pub init_bob-IsSound : (id : String) → Keeps IsSound (init_bob id)
unfolding init_bob
init_bob-IsSound id = search (sound_rules) depth 14

module _ (engine : Engine) where
  init_failed-IsSound : (e : Error) → Keeps IsSound (init_failed engine e)
  unfolding init_failed
  init_failed-IsSound e = search (sound_rules) depth 14

  fetch_failed-IsSound : (e : Error) → Keeps IsSound (fetch_failed engine e)
  unfolding fetch_failed
  fetch_failed-IsSound e = search (sound_rules) depth 14

  fetch_session-IsSound : (id : String) → Keeps IsSound (fetch_session engine id)
  unfolding fetch_session
  fetch_session-IsSound id = search (sound_rules, fetch_failed-IsSound) depth 14

  on_init_generated-IsSound :
      (id : String) (r : Result KeyPair) → Keeps IsSound (on_init_generated engine id r)
  unfolding on_init_generated
  on_init_generated-IsSound id r =
      search (sound_rules, init_failed-IsSound, fetch_session-IsSound) depth 14

  on_init_exported-IsSound :
      (id : String) (r : Result Value) → Keeps IsSound (on_init_exported engine id r)
  unfolding on_init_exported
  on_init_exported-IsSound id r =
      search (sound_rules, init_failed-IsSound, fetch_session-IsSound) depth 14

  on_session_answered-IsSound :
      (id : String) (r : Result Response) → Keeps IsSound (on_session_answered engine id r)
  unfolding on_session_answered
  on_session_answered-IsSound id r = search (sound_rules, fetch_failed-IsSound) depth 14

  show_challenge-IsSound : (v w : Value) → Keeps IsSound (show_challenge engine v w)
  unfolding show_challenge
  show_challenge-IsSound v w = search (sound_rules) depth 14

  on_session_read-IsSound : (r : Result Value) → Keeps IsSound (on_session_read engine r)
  unfolding on_session_read
  on_session_read-IsSound r =
      search (sound_rules, fetch_failed-IsSound, show_challenge-IsSound) depth 14

  submit_failed-IsSound : (e : Error) → Keeps IsSound (submit_failed engine e)
  unfolding submit_failed
  submit_failed-IsSound e = search (sound_rules) depth 14

  on_submit_exported-IsSound :
      (name answer : String) (r : Result Value)
      → Filled name answer
      → Keeps IsSound (on_submit_exported engine name answer r)
  unfolding on_submit_exported
  on_submit_exported-IsSound name answer r texts =
      search (sound_rules, submit_failed-IsSound) depth 14

  on_submit_fetched-IsSound : (r : Result Response) → Keeps IsSound (on_submit_fetched engine r)
  unfolding on_submit_fetched
  on_submit_fetched-IsSound r = search (sound_rules, submit_failed-IsSound) depth 14

  on_gone-IsSound : (n : ℕ) (v : Value) → Keeps IsSound (on_gone engine n v)
  unfolding on_gone
  on_gone-IsSound n v = search (sound_rules) depth 14

  throw_refusal-IsSound : (n : ℕ) (v : Value) → Keeps IsSound (throw_refusal engine n v)
  unfolding throw_refusal
  throw_refusal-IsSound n v = search (sound_rules) depth 14

  on_pass-IsSound : (v : Value) → Keeps IsSound (on_pass engine v)
  unfolding on_pass
  on_pass-IsSound v = search (sound_rules) depth 14

  on_fail-IsSound : (v w : Value) → Keeps IsSound (on_fail engine v w)
  unfolding on_fail
  on_fail-IsSound v w = search (sound_rules) depth 14

  on_scored-IsSound : (v : Value) → Keeps IsSound (on_scored engine v)
  unfolding on_scored
  on_scored-IsSound v = search (sound_rules, on_pass-IsSound, on_fail-IsSound) depth 14

  on_submit_answered-IsSound :
      (n : ℕ) (r : Result Value) → Keeps IsSound (on_submit_answered engine n r)
  unfolding on_submit_answered
  on_submit_answered-IsSound n r =
      search
        (
          sound_rules, submit_failed-IsSound, on_gone-IsSound, throw_refusal-IsSound,
          on_scored-IsSound,
        )
        depth 14

  on_pass_imported-IsSound :
      (v : Value) (r : Result Key) → Keeps IsSound (on_pass_imported engine v r)
  unfolding on_pass_imported
  on_pass_imported-IsSound v r = search (sound_rules, submit_failed-IsSound) depth 14

  on_pass_derived-IsSound :
      (v : Value) (r : Result Key) → Keeps IsSound (on_pass_derived engine v r)
  unfolding on_pass_derived
  on_pass_derived-IsSound v r = search (sound_rules, submit_failed-IsSound) depth 14

  pub resume-IsSound :
      {k : Awaited} (task : Task k) (r : Result (Settled k))
      → TaskIsFilled task
      → Keeps IsSound (resume engine task r)
  unfolding resume
  resume-IsSound (init_generated id) r texts = on_init_generated-IsSound id r
  resume-IsSound (init_exported id) r texts = on_init_exported-IsSound id r
  resume-IsSound (session_answered id) r texts = on_session_answered-IsSound id r
  resume-IsSound session_read r texts = on_session_read-IsSound r
  resume-IsSound (submit_exported name answer) r texts =
      on_submit_exported-IsSound name answer r texts
  resume-IsSound submit_fetched r texts = on_submit_fetched-IsSound r
  resume-IsSound (submit_answered n) r texts = on_submit_answered-IsSound n r
  resume-IsSound (pass_imported v) r texts = on_pass_imported-IsSound v r
  resume-IsSound (pass_derived v) r texts = on_pass_derived-IsSound v r
