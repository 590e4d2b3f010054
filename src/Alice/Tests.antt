-- ===== src/Alice/Tests.antt =====
-- A run of Alice's tab, from the loaded page to the derivation of the shared key.
use doppelganger_web.Prelude.{◌+◌, ◌≤◌, String, [], ◌∷◌, ◌≡◌, refl, some, arith, All}
use doppelganger_web.Text.{decimal, length, trim}
use doppelganger_web.Exec.{Result, ok, throw, raised, run, ◌>>=◌, attempt}
use doppelganger_web.Value.{
  Value, str, num, obj, arr, cons, nil, object, Engine, Fields, joined, cut,
}
use doppelganger_web.Ui.{visible, show_step}
use doppelganger_web.Panel.Events.{
  key_generated, session_created, phase_transition, sse_event, embedding_received,
}
use doppelganger_web.Panel.Laws.{IsValid}
use doppelganger_web.Crypto.{
  Awaited, Settled, Key, KeyPair, Call, generate_key, export_key, import_key, derive_key, fetch,
  read_json, write_clipboard, timeout, generate_key_pair, export_public_key, import_public_key,
  derive_shared_key,
}
use doppelganger_web.Alice.{
  Task, job, Tab, loaded, init_generated, init_exported, create_exported, create_fetched,
  create_answered, create_refused, verified_imported, log, show, await, close_source,
}
use doppelganger_web.Alice.Start.{init_alice, on_init_generated, on_init_exported}
use doppelganger_web.Alice.Create.{
  create, create_request, on_create_exported, on_create_fetched, on_create_answered,
  connect_alice_sse, show_preview,
}
use doppelganger_web.Alice.Stream.{on_message, on_verified_imported}
use doppelganger_web.Alice.Run.{
  Answers, resume, type_name, type_question, type_answer, press_start, press_create, settle,
  message, Reach, start, next,
}
use doppelganger_web.Alice.Sound.{JobIsConfined, IsFilled}
use doppelganger_web.Alice.Always
use doppelganger_web.Alice.Phase.{
  main_jobs, open_sources, open_source, core, HasKey, Posted, DerivesOwn,
}
use doppelganger_web.Alice.Outcomes.{create_lem, Created, create_recovers, IsBusy, event_without_x}
use doppelganger_web.Alice.Activity.{
  Honest, one_activity, enabled-HasKey, open-Posted, derive-DerivesOwn,
}

abbrev jwk_of : String → Value
jwk_of x = obj (object (("x", str x) ∷ ("y", str "abcd") ∷ []))

abbrev export : Key → Value
export k = jwk_of (decimal k)

abbrev event : Value
event = obj (
    object
      (("event", str "VERIFIED") ∷ ("score", num "91.2") ∷ ("bob_pubkey_jwk", jwk_of "bob") ∷ []))

abbrev engine : Engine
engine = record {
  type_message = λ k. "cannot read";
  syntax_message = "unexpected token";
  to_fixed = λ n s. s;
  json_parse = λ s. some event;
}

abbrev keys : KeyPair
keys = record { public_key = 5; private_key = 6 }

abbrev session : Value
session = obj (
    object (
      ("session_id", str "0123456789abcdef")
      ∷ ("link", str "https://example.org/s/0123456789abcdef")
      ∷ ("qr_code", str "data:image/png;base64,")
      ∷ ("vector_preview", arr (cons (num "0.1") nil))
      ∷ ("vector_dimensions", num "384")
      ∷ []))

abbrev reply : {k : Awaited} → Call k → Result (Settled k)
reply (generate_key alg extractable usages) = ok keys
reply (export_key format k) = ok (export k)
reply (import_key format v alg extractable usages) = ok 7
reply (derive_key name theirs own alg extractable usages) = ok 8
reply (fetch r) = ok (record { status = 201 })
reply (read_json r) = ok session
reply (write_clipboard s) = ok tt
reply (timeout n) = ok tt

abbrev answers : Answers
answers k call r = r ≡ reply call

honest : Honest export answers
honest format k v h = cc

-- The one job of the tab is done.
abbrev after_job : {k : Awaited} → Task k → Call k → Tab → Tab
after_job task call t = run (resume engine task (reply call)) (record t { jobs = [] })

settled :
    {t : Tab} {k : Awaited} (call : Call k) (task : Task k)
    → Reach engine answers t
    → t.jobs ≡ job call task ∷ []
    → Reach engine answers (after_job task call t)
settled {t} call task r at = next r (settle t [] [] call task (reply call) at refl)

abbrev t0 : Tab
t0 = run (init_alice engine) loaded

abbrev t1 : Tab
t1 = after_job init_generated generate_key_pair t0

r1 : Reach engine answers t1
unfolding init_alice ◌>>=◌ attempt log show await
r1 = settled generate_key_pair init_generated start refl

abbrev t2 : Tab
t2 = after_job init_exported (export_public_key keys.public_key) t1

r2 : Reach engine answers t2
unfolding init_alice ◌>>=◌ attempt log show await resume on_init_generated
r2 = settled (export_public_key keys.public_key) init_exported r1 refl

abbrev t3 : Tab
t3 = run (show "step-create") t2

r3 : Reach engine answers t3
unfolding init_alice ◌>>=◌ attempt log show await resume on_init_generated on_init_exported
    key_generated cut show_step
r3 = next r2 (press_start t2 refl)

abbrev t4 : Tab
t4 = record t3 { alice_name = " Alice " }

abbrev t5 : Tab
t5 = record t4 { memory_question = "Where?"; question_count = decimal (length "Where?") }

abbrev t6 : Tab
t6 = record t5 { memory_answer = "There"; answer_count = decimal (length "There") }

r6 : Reach engine answers t6
r6 =
    next (next (next r3 (type_name t3 " Alice ")) (type_question t4 "Where?"))
      (type_answer t5 "There")

abbrev t7 : Tab
t7 = run create t6

r7 : Reach engine answers t7
unfolding init_alice ◌>>=◌ attempt log show await resume on_init_generated on_init_exported
    key_generated cut show_step
r7 = next r6 (press_create t6 refl refl)

abbrev t8 : Tab
t8 = after_job (create_exported "Alice" "Where?" "There") (export_public_key keys.public_key) t7

r8 : Reach engine answers t8
unfolding init_alice ◌>>=◌ attempt log show await resume on_init_generated on_init_exported
    key_generated cut show_step trim create on_create_exported on_create_fetched on_create_answered
    session_created phase_transition show_preview joined embedding_received connect_alice_sse
r8 = settled (export_public_key keys.public_key) (create_exported "Alice" "Where?" "There") r7 refl

abbrev post : Call Awaited.response
post = fetch (create_request "Alice" "Where?" "There" (export keys.public_key))

abbrev t9 : Tab
t9 = after_job (create_fetched "Where?") post t8

r9 : Reach engine answers t9
unfolding init_alice ◌>>=◌ attempt log show await resume on_init_generated on_init_exported
    key_generated cut show_step trim create on_create_exported on_create_fetched on_create_answered
    session_created phase_transition show_preview joined embedding_received connect_alice_sse
r9 = settled post (create_fetched "Where?") r8 refl

abbrev t10 : Tab
t10 = after_job (create_answered "Where?") (read_json (record { status = 201 })) t9

r10 : Reach engine answers t10
unfolding init_alice ◌>>=◌ attempt log show await resume on_init_generated on_init_exported
    key_generated cut show_step trim create on_create_exported on_create_fetched on_create_answered
    session_created phase_transition show_preview joined embedding_received connect_alice_sse
r10 = settled (read_json (record { status = 201 })) (create_answered "Where?") r9 refl

abbrev t11 : Tab
t11 = run (on_message engine 0 "the event") t10

r11 : Reach engine answers t11
unfolding init_alice ◌>>=◌ attempt log show await resume on_init_generated on_init_exported
    key_generated cut show_step trim create on_create_exported on_create_fetched on_create_answered
    session_created phase_transition show_preview joined embedding_received connect_alice_sse
r11 = next r10 (message t10 0 "the event" refl)

abbrev t12 : Tab
t12 = after_job (verified_imported event) (import_public_key (jwk_of "bob")) t11

r12 : Reach engine answers t12
unfolding init_alice ◌>>=◌ attempt log show await resume on_init_generated on_init_exported
    key_generated cut show_step trim create on_create_exported on_create_fetched on_create_answered
    session_created phase_transition show_preview joined embedding_received connect_alice_sse
    on_message sse_event close_source on_verified_imported
r12 = settled (import_public_key (jwk_of "bob")) (verified_imported event) r11 refl

one_activity_example :
    main_jobs t7.jobs + (open_sources t7.sources + open_source t7.create_disabled) ≤ 1
one_activity_example = one_activity engine answers export honest r7

enabled-HasKey_example : HasKey export (core t6)
unfolding init_alice ◌>>=◌ attempt log show await resume on_init_generated on_init_exported
    key_generated cut show_step
enabled-HasKey_example = enabled-HasKey engine answers export honest r6 refl

open-Posted_example : Posted export (core t10)
unfolding init_alice ◌>>=◌ attempt log show await resume on_init_generated on_init_exported
    key_generated cut show_step trim create on_create_exported on_create_fetched on_create_answered
    session_created phase_transition show_preview joined embedding_received connect_alice_sse
open-Posted_example = open-Posted engine answers export honest r10 (omega arith)

derive-DerivesOwn_example : DerivesOwn export (core t12) (derive_shared_key 6 7)
unfolding init_alice ◌>>=◌ attempt log show await resume on_init_generated on_init_exported
    key_generated cut show_step trim create on_create_exported on_create_fetched on_create_answered
    session_created phase_transition show_preview joined embedding_received connect_alice_sse
    on_message sse_event close_source on_verified_imported
derive-DerivesOwn_example =
    derive-DerivesOwn engine answers export honest r12 [] [] (derive_shared_key 6 7) event refl

log-IsValid_example : IsValid t10.panel
log-IsValid_example = Always.log-IsValid engine answers r10

one_screen_example : (step : String) × (visible t10.page ≡ step ∷ [])
one_screen_example = Always.one_screen engine answers r10

calls_confined_example : All JobIsConfined t12.jobs
calls_confined_example = Always.calls_confined engine answers r12

requests-IsFilled_example : All IsFilled t10.sent
requests-IsFilled_example = Always.requests-IsFilled engine answers r10

create_lem_example : Created t6 (run create t6)
create_lem_example = create_lem t6

create_recovers_example :
    IsBusy (
      run
        (resume engine (create_exported "Alice" "Where?" "There") (throw (raised "lost")))
        (record t7 { jobs = [] }))
    × IsBusy (
        run
          (resume engine (create_fetched "Where?") (throw (raised "lost")))
          (record t7 { jobs = [] }))
    × IsBusy
        (run (resume engine (create_refused 503) (throw (raised "lost"))) (record t7 { jobs = [] }))
    × IsBusy (
        run
          (resume engine (create_answered "Where?") (throw (raised "lost")))
          (record t7 { jobs = [] }))
create_recovers_example =
    create_recovers engine (record t7 { jobs = [] }) "Alice" "Where?" "There" 503
      (throw (raised "lost")) (throw (raised "lost")) (throw (raised "lost"))

-- An event whose key has only the coordinate y.
abbrev odd_key : Fields
odd_key = object (("y", str "abcd") ∷ [])

abbrev odd_event : Fields
odd_event =
    object
      (("event", str "VERIFIED") ∷ ("score", num "91.2") ∷ ("bob_pubkey_jwk", obj odd_key) ∷ [])

event_without_x_example :
    run (on_message (record engine { json_parse = λ s. some (obj odd_event) }) 0 "the event") t10
    ≡ t10
event_without_x_example =
    event_without_x (record engine { json_parse = λ s. some (obj odd_event) }) 0 "the event"
      odd_event odd_key t10 refl refl refl
