-- ===== src/Alice/Sound/Handlers.antt =====
-- static/js/session.js: every handler of Alice's tab keeps what holds at all times.
use doppelganger_web.Prelude.{
  ℕ, String, ◌≡◌, refl, if◌then◌else◌, true, false, Bool, ◌||◌, str_eq, Option, none, some,
}
use doppelganger_web.Exec.{Exec, Result, Error}
use doppelganger_web.Exec.Keeps.{Keeps, Keeps-bind, Keeps-gets}
use doppelganger_web.Value.{Value, Engine}
use doppelganger_web.Crypto.{Awaited, Settled, Key, Response, KeyPair}
use doppelganger_web.Alice.{
  Task, init_generated, init_exported, create_exported, create_fetched, create_refused,
  create_answered, verified_imported, verified_derived, link_copied, copied_shown, reset_generated,
  reset_exported, Tab,
}
use doppelganger_web.Alice.Start.{
  init_failed, init_alice, on_init_generated, on_init_exported, copy_link, on_link_copied,
  on_copied_shown,
}
use doppelganger_web.Alice.Create.{
  start_create, create_with, enable_create, create, connect_alice_sse, create_failed,
  on_create_exported, on_create_fetched, on_create_refused, show_preview, on_create_answered,
}
use doppelganger_web.Alice.Stream.{
  import_bob, show_failure, start_over, on_verified, on_failed, on_expired, dispatch,
  on_verified_imported, on_verified_derived, on_message, on_error,
}
use doppelganger_web.Alice.Run.{resume}
use doppelganger_web.Alice.Reset.{reset, on_reset_generated, on_reset_exported}
use doppelganger_web.Alice.Sound.{Filled, TaskIsFilled, IsSound, alert-IsSound, sound_rules}

enable_create-IsSound : Keeps IsSound (enable_create)
unfolding enable_create
enable_create-IsSound = search (sound_rules) depth 12

start_create-IsSound :
    (name question answer : String) (keys : KeyPair)
    → Filled name question answer
    → Keeps IsSound (start_create name question answer keys)
unfolding start_create
start_create-IsSound name question answer keys texts = search (sound_rules) depth 12

pub copy_link-IsSound : Keeps IsSound (copy_link)
unfolding copy_link
copy_link-IsSound = search (sound_rules) depth 12

on_link_copied-IsSound : (r : Result Unit) → Keeps IsSound (on_link_copied r)
unfolding on_link_copied
on_link_copied-IsSound r = search (sound_rules) depth 12

on_copied_shown-IsSound : (r : Result Unit) → Keeps IsSound (on_copied_shown r)
unfolding on_copied_shown
on_copied_shown-IsSound r = search (sound_rules) depth 12

pub reset-IsSound : Keeps IsSound (reset)
unfolding reset
reset-IsSound = search (sound_rules) depth 12

on_reset_generated-IsSound : (r : Result KeyPair) → Keeps IsSound (on_reset_generated r)
unfolding on_reset_generated
on_reset_generated-IsSound r = search (sound_rules) depth 12

on_reset_exported-IsSound : (r : Result Value) → Keeps IsSound (on_reset_exported r)
unfolding on_reset_exported
on_reset_exported-IsSound r = search (sound_rules) depth 12

connect_alice_sse-IsSound : (v : Value) → Keeps IsSound (connect_alice_sse v)
unfolding connect_alice_sse
connect_alice_sse-IsSound v = search (sound_rules) depth 12

import_bob-IsSound : (v : Value) → Keeps IsSound (import_bob v)
unfolding import_bob
import_bob-IsSound v = search (sound_rules) depth 12

on_verified-IsSound : (i : ℕ) (v : Value) → Keeps IsSound (on_verified i v)
unfolding on_verified
on_verified-IsSound i v = search (sound_rules, import_bob-IsSound) depth 12

show_failure-IsSound : (v : Value) → Keeps IsSound (show_failure v)
unfolding show_failure
show_failure-IsSound v = search (sound_rules) depth 12

on_failed-IsSound : (i : ℕ) (v : Value) → Keeps IsSound (on_failed i v)
unfolding on_failed
on_failed-IsSound i v = search (sound_rules, show_failure-IsSound) depth 12

start_over-IsSound : Keeps IsSound (start_over)
unfolding start_over
start_over-IsSound = search (sound_rules, reset-IsSound) depth 12

on_expired-IsSound : (i : ℕ) → Keeps IsSound (on_expired i)
unfolding on_expired
on_expired-IsSound i = search (sound_rules, start_over-IsSound) depth 12

dispatch-IsSound : (i : ℕ) (kind v : Value) → Keeps IsSound (dispatch i kind v)
unfolding dispatch
dispatch-IsSound i kind v =
    search (sound_rules, on_verified-IsSound, on_failed-IsSound, on_expired-IsSound) depth 12

on_verified_imported-IsSound :
    (v : Value) (r : Result Key) → Keeps IsSound (on_verified_imported v r)
unfolding on_verified_imported
on_verified_imported-IsSound v r = search (sound_rules) depth 12

on_verified_derived-IsSound : (v : Value) (r : Result Key) → Keeps IsSound (on_verified_derived v r)
unfolding on_verified_derived
on_verified_derived-IsSound v r = search (sound_rules) depth 12

pub on_error-IsSound : (i : ℕ) → Keeps IsSound (on_error i)
unfolding on_error
on_error-IsSound i = search (sound_rules) depth 12

create_with-IsSound :
    (keys : Option KeyPair) (name question answer : String)
    → Filled name question answer
    → Keeps IsSound (create_with keys name question answer)
unfolding create_with
create_with-IsSound none name question answer texts =
    alert-IsSound "Keys still generating — please wait a moment."
create_with-IsSound (some keys) name question answer texts =
    start_create-IsSound name question answer keys texts

checked-IsSound :
    (a b c : Bool) (m n : Exec Tab Unit)
    → Keeps IsSound m
    → ((a ≡ false) × (b ≡ false) × (c ≡ false) → Keeps IsSound n)
    → Keeps IsSound (if a || b || c then m else n)
checked-IsSound true b c m n h k = h
checked-IsSound false true c m n h k = h
checked-IsSound false false true m n h k = h
checked-IsSound false false false m n h k = k (refl, refl, refl)

pub create-IsSound : Keeps IsSound create
unfolding create
create-IsSound = Keeps-bind _ _ (Keeps-gets _) (λ name. Keeps-bind _ _ (Keeps-gets _) (λ question.
    Keeps-bind _ _ (Keeps-gets _) (λ answer. Keeps-bind _ _ (Keeps-gets _) (λ keys.
      checked-IsSound (str_eq name "") (str_eq question "") (str_eq answer "") _ _
        (alert-IsSound "Please fill in all fields.")
        (λ texts. create_with-IsSound keys name question answer texts)))))

module _ (engine : Engine) where
  init_failed-IsSound : (e : Error) → Keeps IsSound (init_failed engine e)
  unfolding init_failed
  init_failed-IsSound e = search sound_rules

  pub init_alice-IsSound : Keeps IsSound (init_alice engine)
  unfolding init_alice
  init_alice-IsSound = search (sound_rules, init_failed-IsSound)

  on_init_generated-IsSound : (r : Result KeyPair) → Keeps IsSound (on_init_generated engine r)
  unfolding on_init_generated
  on_init_generated-IsSound r = search (sound_rules, init_failed-IsSound) depth 12

  on_init_exported-IsSound : (r : Result Value) → Keeps IsSound (on_init_exported engine r)
  unfolding on_init_exported
  on_init_exported-IsSound r = search (sound_rules, init_failed-IsSound) depth 12

  create_failed-IsSound : (e : Error) → Keeps IsSound (create_failed engine e)
  unfolding create_failed
  create_failed-IsSound e = search (sound_rules, enable_create-IsSound) depth 12

  on_create_exported-IsSound :
      (name question answer : String) (r : Result Value)
      → Filled name question answer
      → Keeps IsSound (on_create_exported engine name question answer r)
  unfolding on_create_exported
  on_create_exported-IsSound name question answer r texts =
      search (sound_rules, create_failed-IsSound) depth 12

  on_create_fetched-IsSound :
      (question : String) (r : Result Response)
      → Keeps IsSound (on_create_fetched engine question r)
  unfolding on_create_fetched
  on_create_fetched-IsSound question r = search (sound_rules, create_failed-IsSound) depth 12

  on_create_refused-IsSound :
      (status : ℕ) (r : Result Value) → Keeps IsSound (on_create_refused engine status r)
  unfolding on_create_refused
  on_create_refused-IsSound status r =
      search (sound_rules, create_failed-IsSound, enable_create-IsSound) depth 12

  show_preview-IsSound :
      (question : String) (v : Value) → Keeps IsSound (show_preview engine question v)
  unfolding show_preview
  show_preview-IsSound question v = search (sound_rules) depth 12

  on_create_answered-IsSound :
      (question : String) (r : Result Value) → Keeps IsSound (on_create_answered engine question r)
  unfolding on_create_answered
  on_create_answered-IsSound question r =
      search (sound_rules, create_failed-IsSound, show_preview-IsSound, connect_alice_sse-IsSound)
        depth 24

  pub on_message-IsSound : (i : ℕ) (text : String) → Keeps IsSound (on_message engine i text)
  unfolding on_message
  on_message-IsSound i text = search (sound_rules, dispatch-IsSound) depth 12

  pub resume-IsSound :
      {k : Awaited} (task : Task k) (r : Result (Settled k))
      → TaskIsFilled task
      → Keeps IsSound (resume engine task r)
  unfolding resume
  resume-IsSound init_generated r texts = on_init_generated-IsSound r
  resume-IsSound init_exported r texts = on_init_exported-IsSound r
  resume-IsSound (create_exported name question answer) r texts =
      on_create_exported-IsSound name question answer r texts
  resume-IsSound (create_fetched question) r texts = on_create_fetched-IsSound question r
  resume-IsSound (create_refused status) r texts = on_create_refused-IsSound status r
  resume-IsSound (create_answered question) r texts = on_create_answered-IsSound question r
  resume-IsSound (verified_imported event) r texts = on_verified_imported-IsSound event r
  resume-IsSound (verified_derived event) r texts = on_verified_derived-IsSound event r
  resume-IsSound link_copied r texts = on_link_copied-IsSound r
  resume-IsSound copied_shown r texts = on_copied_shown-IsSound r
  resume-IsSound reset_generated r texts = on_reset_generated-IsSound r
  resume-IsSound reset_exported r texts = on_reset_exported-IsSound r
