-- ===== src/Bob/Tests.antt =====
-- A run of Bob's tab, from the loaded page to the derivation of the shared key.
use doppelganger_web.Prelude.{◌≢◌, ◌⊎◌, String, [], ◌∷◌, ◌≡◌, refl, none, All}
use doppelganger_web.Text.{decimal, trim}
use doppelganger_web.Exec.{Result, ok, throw, raised, run, ◌>>=◌, attempt}
use doppelganger_web.Value.{Value, Fields, str, num, obj, object, Engine, cut}
use doppelganger_web.Ui.{visible, show_step}
use doppelganger_web.Panel.Laws.{IsValid}
use doppelganger_web.Panel.Events.{
  key_generated, session_fetched, verify_submitted, similarity_scored, phase_transition,
}
use doppelganger_web.Crypto.{
  Awaited, Settled, Key, KeyPair, Call, generate_key, export_key, import_key, derive_key, fetch,
  read_json, write_clipboard, timeout, generate_key_pair, export_public_key, import_public_key,
  derive_shared_key,
}
use doppelganger_web.Bob.{
  Task, job, Tab, loaded, init_generated, init_exported, session_answered, session_read,
  submit_exported, submit_fetched, submit_answered, pass_imported, pass_derived, log, show, await,
}
use doppelganger_web.Bob.Open.{
  read_request, init_bob, fetch_session, on_init_generated, on_init_exported, on_session_answered,
  on_session_read, show_challenge,
}
use doppelganger_web.Bob.Answer.{
  verify_request, submit_answer, on_submit_exported, on_submit_fetched, on_submit_answered,
  on_scored, on_pass, on_pass_imported,
}
use doppelganger_web.Bob.Run.{
  Answers, resume, type_name, type_answer, press_submit, settle, Reach, start, next,
}
use doppelganger_web.Bob.Sound.{JobIsConfined, IsFilled}
use doppelganger_web.Bob.Always
use doppelganger_web.Bob.Phase.{count, core, HasKey, DerivesOwn}
use doppelganger_web.Bob.Activity.{Honest, bob_one_call, bob_enabled-HasKey, bob_derive-DerivesOwn}
use doppelganger_web.Bob.Outcomes.{no_key_without_pass}
use doppelganger_web.Bob.Outcomes.Recovery.{GoesOn, submit_recovers, Read, session_read_lem}

abbrev jwk_of : String → Value
jwk_of x = obj (object (("x", str x) ∷ ("y", str "abcd") ∷ []))

abbrev export : Key → Value
export k = jwk_of (decimal k)

abbrev engine : Engine
engine = record {
  type_message = λ k. "cannot read";
  syntax_message = "unexpected token";
  to_fixed = λ n s. s;
  json_parse = λ s. none;
}

abbrev keys : KeyPair
keys = record { public_key = 5; private_key = 6 }

abbrev session : Fields
session = object (
    ("phase", str "WAITING_FOR_BOB")
    ∷ ("alice_name", str "Alice")
    ∷ ("memory_question", str "Where?")
    ∷ [])

abbrev verdict : String → Value
verdict result = obj (
    object
      (("score", num "91.2") ∷ ("result", str result) ∷ ("alice_pubkey_jwk", jwk_of "alice") ∷ []))

-- Every body is `v`.
abbrev reply : Value → {k : Awaited} → Call k → Result (Settled k)
reply v (generate_key alg extractable usages) = ok keys
reply v (export_key format k) = ok (export k)
reply v (import_key format w alg extractable usages) = ok 7
reply v (derive_key name theirs own alg extractable usages) = ok 8
reply v (fetch r) = ok (record { status = 200 })
reply v (read_json r) = ok v
reply v (write_clipboard s) = ok tt
reply v (timeout n) = ok tt

abbrev answers : Answers
answers k call r = (v : Value) × (r ≡ reply v call)

honest : Honest export answers
honest format k v (w, h) = cc

-- The one job of the tab is done.
abbrev after_job : {k : Awaited} → Task k → Call k → Value → Tab → Tab
after_job task call v t = run (resume engine task (reply v call)) (record t { jobs = [] })

abbrev id : String
id = "0123456789abcdef"

settled :
    {t : Tab} {k : Awaited} (call : Call k) (task : Task k) (v : Value)
    → Reach engine answers id t
    → t.jobs ≡ job call task ∷ []
    → Reach engine answers id (after_job task call v t)
settled {t} call task v r at = next r (settle t [] [] call task (reply v call) at (v, refl))

abbrev t0 : Tab
t0 = run (init_bob id) (loaded id)

abbrev t1 : Tab
t1 = after_job (init_generated id) generate_key_pair (obj session) t0

r1 : Reach engine answers id t1
unfolding init_bob ◌>>=◌ attempt log show await
r1 = settled generate_key_pair (init_generated id) (obj session) start refl

abbrev t2 : Tab
t2 = after_job (init_exported id) (export_public_key keys.public_key) (obj session) t1

r2 : Reach engine answers id t2
unfolding init_bob ◌>>=◌ attempt log show await resume on_init_generated on_init_exported
    key_generated cut fetch_session
r2 = settled (export_public_key keys.public_key) (init_exported id) (obj session) r1 refl

abbrev t3 : Tab
t3 = after_job (session_answered id) (fetch (read_request id)) (obj session) t2

r3 : Reach engine answers id t3
unfolding init_bob ◌>>=◌ attempt log show await resume on_init_generated on_init_exported
    key_generated cut fetch_session
r3 = settled (fetch (read_request id)) (session_answered id) (obj session) r2 refl

abbrev t4 : Tab
t4 = after_job session_read (read_json (record { status = 200 })) (obj session) t3

r4 : Reach engine answers id t4
unfolding init_bob ◌>>=◌ attempt log show await resume on_init_generated on_init_exported
    key_generated cut fetch_session on_session_answered on_session_read show_challenge
    session_fetched show_step
r4 = settled (read_json (record { status = 200 })) session_read (obj session) r3 refl

abbrev t5 : Tab
t5 = record t4 { bob_name = "Bob" }

abbrev t6 : Tab
t6 = record t5 { bob_answer = "There" }

r6 : Reach engine answers id t6
r6 = next (next r4 (type_name t4 "Bob")) (type_answer t5 "There")

abbrev t7 : Tab
t7 = run submit_answer t6

r7 : Reach engine answers id t7
unfolding init_bob ◌>>=◌ attempt log show await resume on_init_generated on_init_exported
    key_generated cut fetch_session on_session_answered on_session_read show_challenge
    session_fetched show_step
r7 = next r6 (press_submit t6 refl refl)

abbrev t8 : Tab
t8 =
    after_job (submit_exported "Bob" "There") (export_public_key keys.public_key) (verdict "PASS")
      t7

r8 : Reach engine answers id t8
unfolding init_bob ◌>>=◌ attempt log show await resume on_init_generated on_init_exported
    key_generated cut fetch_session on_session_answered on_session_read show_challenge
    session_fetched show_step trim submit_answer on_submit_exported verify_submitted
    on_submit_fetched on_submit_answered similarity_scored phase_transition on_scored on_pass
r8 =
    settled (export_public_key keys.public_key) (submit_exported "Bob" "There") (verdict "PASS") r7
      refl

abbrev post : Call Awaited.response
post = fetch (verify_request id "Bob" "There" (export keys.public_key))

abbrev t9 : Tab
t9 = after_job submit_fetched post (verdict "PASS") t8

r9 : Reach engine answers id t9
unfolding init_bob ◌>>=◌ attempt log show await resume on_init_generated on_init_exported
    key_generated cut fetch_session on_session_answered on_session_read show_challenge
    session_fetched show_step trim submit_answer on_submit_exported verify_submitted
    on_submit_fetched on_submit_answered similarity_scored phase_transition on_scored on_pass
r9 = settled post submit_fetched (verdict "PASS") r8 refl

abbrev t10 : Tab
t10 = after_job (submit_answered 200) (read_json (record { status = 200 })) (verdict "PASS") t9

r10 : Reach engine answers id t10
unfolding init_bob ◌>>=◌ attempt log show await resume on_init_generated on_init_exported
    key_generated cut fetch_session on_session_answered on_session_read show_challenge
    session_fetched show_step trim submit_answer on_submit_exported verify_submitted
    on_submit_fetched on_submit_answered similarity_scored phase_transition on_scored on_pass
r10 = settled (read_json (record { status = 200 })) (submit_answered 200) (verdict "PASS") r9 refl

abbrev t11 : Tab
t11 =
    after_job (pass_imported (verdict "PASS")) (import_public_key (jwk_of "alice")) (verdict "PASS")
      t10

r11 : Reach engine answers id t11
unfolding init_bob ◌>>=◌ attempt log show await resume on_init_generated on_init_exported
    key_generated cut fetch_session on_session_answered on_session_read show_challenge
    session_fetched show_step trim submit_answer on_submit_exported verify_submitted
    on_submit_fetched on_submit_answered similarity_scored phase_transition on_scored on_pass
    on_pass_imported
r11 =
    settled (import_public_key (jwk_of "alice")) (pass_imported (verdict "PASS")) (verdict "PASS")
      r10 refl

bob_one_call_example :
    (t7.jobs ≡ []) ⊎ ((count t7.jobs ≡ 1) × (visible t7.page ≢ "step-bob-challenge" ∷ []))
bob_one_call_example = bob_one_call engine answers export honest r7

bob_enabled-HasKey_example : HasKey (core t6)
unfolding init_bob ◌>>=◌ attempt log show await resume on_init_generated on_init_exported
    key_generated cut fetch_session on_session_answered on_session_read show_challenge
    session_fetched show_step
bob_enabled-HasKey_example = bob_enabled-HasKey engine answers export honest r6 refl

bob_derive-DerivesOwn_example : DerivesOwn export (core t11) (derive_shared_key 6 7)
unfolding init_bob ◌>>=◌ attempt log show await resume on_init_generated on_init_exported
    key_generated cut fetch_session on_session_answered on_session_read show_challenge
    session_fetched show_step trim submit_answer on_submit_exported verify_submitted
    on_submit_fetched on_submit_answered similarity_scored phase_transition on_scored on_pass
    on_pass_imported
bob_derive-DerivesOwn_example =
    bob_derive-DerivesOwn engine answers export honest r11 [] [] (derive_shared_key 6 7)
      (verdict "PASS") refl

bob_log-IsValid_example : IsValid t10.panel
bob_log-IsValid_example = Always.bob_log-IsValid engine answers r10

bob_one_screen_example : (step : String) × (visible t10.page ≡ step ∷ [])
bob_one_screen_example = Always.bob_one_screen engine answers r10

bob_calls_confined_example : All JobIsConfined t11.jobs
bob_calls_confined_example = Always.bob_calls_confined engine answers r11

bob_requests-IsFilled_example : All IsFilled t10.sent
bob_requests-IsFilled_example = Always.bob_requests-IsFilled engine answers r10

-- The server refuses with a body that says PASS all the same.
no_key_without_pass_example :
    (run (resume engine (submit_answered 500) (ok (verdict "PASS"))) t8).jobs ≡ t8.jobs
no_key_without_pass_example = no_key_without_pass engine 500 (ok (verdict "PASS")) t8 refl

abbrev t_lost : Tab
t_lost = record t8 { jobs = [] }

submit_recovers_example :
    GoesOn (run (resume engine (submit_exported "Bob" "There") (throw (raised "lost"))) t_lost)
    × GoesOn (run (resume engine submit_fetched (throw (raised "lost"))) t_lost)
    × GoesOn (run (resume engine (submit_answered 500) (throw (raised "lost"))) t_lost)
    × GoesOn (run (resume engine (pass_imported (verdict "PASS")) (throw (raised "lost"))) t_lost)
    × GoesOn (run (resume engine (pass_derived (verdict "PASS")) (throw (raised "lost"))) t_lost)
unfolding init_bob ◌>>=◌ attempt log show await resume on_init_generated on_init_exported
    key_generated cut fetch_session on_session_answered on_session_read show_challenge
    session_fetched show_step trim submit_answer on_submit_exported verify_submitted
    on_submit_fetched on_submit_answered similarity_scored phase_transition on_scored on_pass
submit_recovers_example =
    submit_recovers engine t_lost "Bob" "There" 500 (throw (raised "lost")) (throw (raised "lost"))
      (throw (raised "lost")) (verdict "PASS") (throw (raised "lost")) (throw (raised "lost")) refl

-- An answer of the rate limiter: it has no phase.
abbrev limited : Fields
limited = object (("error", str "Too many requests") ∷ [])

session_read_lem_example :
    Read limited (run (resume engine session_read (ok (obj limited))) (loaded id))
    × (visible (run (resume engine session_read (throw (raised "lost"))) (loaded id)).page
        ≡ "step-expired" ∷ [])
session_read_lem_example = session_read_lem engine limited (raised "lost") (loaded id) refl
