-- ===== src/Alice/Outcomes.antt =====
-- static/js/session.js: how `create` ends, errors included, and an event that Alice's tab cannot take.
use doppelganger_web.Prelude.{
  ℕ, Bool-cases, inl, inr, sym, subst, ◌<◌, String, Bool, true, false, [], ◌∷◌, ◌++◌, ◌≡◌, refl, ap,
  ◌∙◌, Option, none, some, arith, ◌||◌, str_eq, if◌then◌else◌,
}
use doppelganger_web.Text.{trim}
use doppelganger_web.Exec.{
  Error, Result, ok, throw, Exec, lift, modify, run, ◌>>=◌, ◌>>◌, and_then, type_error,
}
use doppelganger_web.Exec.Keeps.{Keeps}
use doppelganger_web.Exec.Ends.{Ends, Leads, Leads-attempt, ends_rules}
use doppelganger_web.Value.{Value, obj, Fields, find, undefined, Engine, get, parse_json, cut}
use doppelganger_web.Panel.{Panel}
use doppelganger_web.Panel.Events.{sse_event, bob_key_preview}
use doppelganger_web.Crypto.{Awaited, KeyPair, Call, Response, export_public_key, nothing_sent}
use doppelganger_web.Alice.{
  Tab, Task, job, create_exported, create_fetched, create_answered, create_refused, log, alert,
  await,
}
use doppelganger_web.Alice.Create.{
  start_create, create_with, create, enable_create, connect_alice_sse, create_failed,
  on_create_exported, on_create_fetched, on_create_refused, on_create_answered,
}
use doppelganger_web.Alice.Stream.{dispatch, on_message}
use doppelganger_web.Alice.Phase.{is_main, main_jobs-append, open_sources-append, core, weight}
use doppelganger_web.Alice.Run.{resume}

-- A field of the form has nothing but white space.
abbrev pub has_blank : Tab → Bool
has_blank t =
    str_eq (trim t.alice_name) ""
    || str_eq (trim t.memory_question) ""
    || str_eq (trim t.memory_answer) ""

first_of :
    (b : Bool) (m n : Exec Tab Unit) (t : Tab) → b ≡ true → run (if b then m else n) t ≡ run m t
first_of true m n t h = refl
first_of false m n t h = cc

second_of :
    (b : Bool) (m n : Exec Tab Unit) (t : Tab) → b ≡ false → run (if b then m else n) t ≡ run n t
second_of true m n t h = cc
second_of false m n t h = refl

abbrev with_trimmed : Option KeyPair → Tab → Exec Tab Unit
with_trimmed o t = create_with o (trim t.alice_name) (trim t.memory_question) (trim t.memory_answer)

-- What pressing the button of the form comes to: a complaint about the form, a complaint about the
-- keys, or the disabled button and the request for the public key that the tab holds, to go on with
-- the three texts trimmed.
pub data Created (t u : Tab) : Type 0 where
  incomplete :
      has_blank t ≡ true
      → u ≡ record t { alerts = t.alerts ++ "Please fill in all fields." ∷ [] }
      → Created t u
  too_early :
      has_blank t ≡ false
      → t.key_pair ≡ none
      → u ≡ record t { alerts = t.alerts ++ "Keys still generating — please wait a moment." ∷ [] }
      → Created t u
  asked :
      (keys : KeyPair)
      → has_blank t ≡ false
      → t.key_pair ≡ some keys
      → u.create_disabled ≡ true
      → u.jobs
        ≡ t.jobs
          ++ job
              (export_public_key keys.public_key)
              (create_exported (trim t.alice_name) (trim t.memory_question) (trim t.memory_answer))
            ∷ []
      → u.sent ≡ t.sent
      → Created t u

filled_in :
    (t : Tab) (o : Option KeyPair)
    → has_blank t ≡ false
    → t.key_pair ≡ o
    → Created t (run (with_trimmed o t) t)
unfolding create_with start_create ◌>>=◌ alert await
filled_in t none h k = too_early h k refl
filled_in t (some keys) h k =
    asked keys h k refl refl (nothing_sent (export_public_key keys.public_key) t.sent refl)

-- Whatever the form and the keys, `create` ends in one of the three ways of `Created`: a form with a blank field
-- or no key pair changes nothing but the alerts, and otherwise the button is disabled, the public key that the
-- tab holds is exported, and no request has been sent yet.
pub create_lem : (t : Tab) → Created t (run create t)
unfolding create ◌>>=◌ alert
create_lem t = elim (Bool-cases (has_blank t)) [
  | inl blank ↦ incomplete blank (
      first_of (has_blank t) (alert "Please fill in all fields.") (with_trimmed t.key_pair t) t
        blank)
  | inr full ↦
      subst (Created t)
        (sym (
          second_of (has_blank t) (alert "Please fill in all fields.") (with_trimmed t.key_pair t) t
            full))
        (filled_in t t.key_pair full refl)
]

-- Something goes on in the tab: a step of a protocol is under way, an event stream is open, or the
-- button of the form is enabled.
abbrev pub IsBusy : Tab → Type 0
IsBusy t = 0 < weight (core t)

abbrev Any : Tab → Type 0
Any t = Unit

await-Busy :
    {k : Awaited} (call : Call k) (task : Task k)
    → is_main task ≡ 1
    → Ends Any IsBusy (await call task)
unfolding await
await-Busy call task main = record {
  after = λ t n. omega (arith, main_jobs-append t.jobs (job call task ∷ []));
}

enable_create-Busy : Ends Any IsBusy enable_create
unfolding enable_create modify
enable_create-Busy = record { after = λ t n. omega arith }

opened-Busy :
    (url : String)
    → Ends Any IsBusy (
        modify (λ t. record t { sources = t.sources ++ record { url = url; closed = false } ∷ [] }))
unfolding modify
opened-Busy url = record {
  after = λ t n.
      omega (arith, open_sources-append t.sources (record { url = url; closed = false } ∷ []));
}

any : {A : Type 0} (m : Exec Tab A) → Keeps Any m
any m = record { after = λ t n. tt }

ruleset busy_rules = (ends_rules, any, enable_create-Busy, opened-Busy)

connect_alice_sse-Busy : (v : Value) → Ends Any IsBusy (connect_alice_sse v)
unfolding connect_alice_sse
connect_alice_sse-Busy v = search busy_rules depth 12

module _ (engine : Engine) where
  create_failed-Busy : (e : Error) → Leads Any IsBusy (create_failed engine e)
  unfolding create_failed enable_create ◌>>=◌ log alert
  create_failed-Busy e = record { after = λ t n. omega arith }

  -- However a step of `create` is settled, and whatever the server has answered, something goes on
  -- in the tab afterwards: a step is under way, an event stream is open, or the button of the form
  -- is enabled, be the form on the screen or not.
  pub create_recovers :
      (t : Tab) (name question answer : String) (status : ℕ) (exported : Result Value)
      (fetched : Result Response) (answered : Result Value)
      → IsBusy (run (resume engine (create_exported name question answer) exported) t)
        × IsBusy (run (resume engine (create_fetched question) fetched) t)
        × IsBusy (run (resume engine (create_refused status) answered) t)
        × IsBusy (run (resume engine (create_answered question) answered) t)
  unfolding resume on_create_exported on_create_fetched on_create_refused on_create_answered
  create_recovers t name question answer status exported fetched answered = (
    (Leads-attempt _ (create_failed engine)
          (search (busy_rules, await-Busy _ (create_fetched question) refl) depth 14)
          create_failed-Busy).after
        t tt,
    (Leads-attempt _ (create_failed engine)
          (search
            (
              busy_rules,
              await-Busy _ (create_answered question) refl,
              await-Busy _ (create_refused _) refl,
            )
            depth 14)
          create_failed-Busy).after
        t tt,
    (Leads-attempt _ (create_failed engine) (search busy_rules depth 14) create_failed-Busy).after t
        tt,
    (Leads-attempt _ (create_failed engine) (search (busy_rules, connect_alice_sse-Busy) depth 26)
          create_failed-Busy).after
        t tt,
  )

thrown :
    {A B : Type 0} (r : Result A) (f : A → Exec Panel B) (e : Error) (p : Panel)
    → r ≡ throw e
    → (lift r >>= f) p ≡ (throw e, p)
unfolding ◌>>=◌
thrown r f e p h = ap (λ q. and_then q f p) h

thrown_log :
    (m : Exec Panel Unit) (f : Unit → Exec Tab Unit) (e : Error) (t : Tab)
    → m t.panel ≡ (throw e, t.panel)
    → run (log m >>= f) t ≡ t
unfolding ◌>>=◌ log
thrown_log m f e t h =
    ap (λ (q : Result Unit × Panel). run (and_then q.0 f) (record t { panel = q.1 })) h

no_preview :
    (key : Fields)
    → find "x" key ≡ undefined
    → bob_key_preview (obj key) ≡ throw (type_error "slice")
unfolding bob_key_preview cut
no_preview key missing = ap (cut 16 "...") missing

sse_event-throws :
    (event key : Fields) (p : Panel)
    → find "bob_pubkey_jwk" event ≡ obj key
    → find "x" key ≡ undefined
    → sse_event (obj event) p ≡ (throw (type_error "slice"), p)
unfolding sse_event ◌>>=◌
sse_event-throws event key p sent missing =
    thrown (bob_key_preview (find "bob_pubkey_jwk" event)) _ (type_error "slice") p
      (ap bob_key_preview sent ∙ no_preview key missing)

-- If Bob's key in an event of the stream has no `x`, the handler throws while it writes the log, before
-- it closes the source: the tab stays as it was, and takes no key in.
pub event_without_x :
    (engine : Engine) (i : ℕ) (text : String) (event key : Fields) (t : Tab)
    → parse_json engine text ≡ ok (obj event)
    → find "bob_pubkey_jwk" event ≡ obj key
    → find "x" key ≡ undefined
    → run (on_message engine i text) t ≡ t
unfolding on_message ◌>>=◌
event_without_x engine i text event key t parsed sent missing =
    ap
      (λ r.
        run
          (lift r >>= λ v.
            log (sse_event v) >> (lift (get "event" v) >>= λ kind. dispatch i kind v))
          t)
      parsed
    ∙ thrown_log (sse_event (obj event)) _ (type_error "slice") t
        (sse_event-throws event key t.panel sent missing)
