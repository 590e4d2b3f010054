-- ===== src/Alice/Activity.antt =====
-- static/js/session.js, Alice: what is under way in a tab that can come about, and the keys that it uses.
use doppelganger_web.Prelude.{
  ℕ, zero, suc, ◌+◌, ◌≤◌, ◌<◌, String, false, List, [], ◌∷◌, ◌++◌, ◌≡◌, ◌⊎◌, refl, subst, ap, arith,
  All, All-without, All-middle, inl, inr,
}
use doppelganger_web.Exec.{Result, ok, run}
use doppelganger_web.Value.{Value, Engine}
use doppelganger_web.Ui.{visible}
use doppelganger_web.Crypto.{Awaited, Settled, Key, Call, export_key, export_public_key}
use doppelganger_web.Alice.{
  Task, init_generated, init_exported, create_exported, create_fetched, create_refused,
  create_answered, verified_imported, verified_derived, link_copied, copied_shown, reset_generated,
  reset_exported, Job, job, Tab, close_at, Source,
}
use doppelganger_web.Alice.Create.{on_create_fetched, on_create_refused, on_create_answered}
use doppelganger_web.Alice.Start.{on_init_exported}
use doppelganger_web.Alice.Stream.{on_verified_derived}
use doppelganger_web.Alice.Run.{
  Answers, resume, Step, type_name, type_question, type_answer, press_start, press_create,
  press_copy, press_again, press_control, settle, message, give_up, error, Reach, start, next,
}
use doppelganger_web.Alice.Sound.{IsSound}
use doppelganger_web.Alice.Always.{reach-IsSound}
use doppelganger_web.Alice.Phase.{
  is_main, main_jobs, open_source, open_sources, Core, core, weight, Live, HasKey, Posted,
  DerivesOwn, Claim, Claim-same, claims-same, Posted-same, JobClaim, Inv-jobs, main_jobs-append,
}
use doppelganger_web.Alice.Idle.{AtCore, InvTab, ends_Inv}
use doppelganger_web.Alice.Idle.Handlers.{
  on_init_exported-Ends, on_create_fetched-Ends, on_create_refused-Ends, on_create_answered-Ends,
  on_verified_derived-Ends,
}
use doppelganger_web.Alice.Exchange.{
  on_init_generated-Inv, on_reset_generated-Inv, on_reset_exported-Inv, on_create_exported-Inv,
  on_verified_imported-Inv,
}
use doppelganger_web.Alice.Steps.{
  show_create-Inv, copy_link-Inv, on_link_copied-Inv, on_copied_shown-Inv, on_error-Inv, create-Inv,
  again-Inv, init_alice-Inv,
}
use doppelganger_web.Alice.Steps.Stream.{on_message-Leads}

zero_or_more : (n : ℕ) → (n ≡ 0) ⊎ (0 < n)
zero_or_more n = omega arith

-- What the browser answers to a request for a public key is what `export` says of it.
abbrev pub Honest : (Key → Value) → Answers → Type 0
Honest export answers =
    (format : String) (k : Key) (v : Value)
    → answers Awaited.jwk (export_key format k) (ok v)
    → v ≡ export k

module _ (engine : Engine) (answers : Answers) (export : Key → Value)
    (honest : Honest export answers) where
  exported_value :
      (call : Call Awaited.jwk) (k : Key) (r : Result Value)
      → call ≡ export_public_key k
      → answers Awaited.jwk call r
      → (v : Value) → r ≡ ok v
      → v ≡ export k
  unfolding export_public_key
  exported_value call k r same a v e = honest "jwk" k v (rw e at (rw same at a))

  -- The code after the `await` of the one activity, in the tab that is left without it.
  module _ (t : Tab) (idle : weight (core t) ≡ 0) (live : Live t.page) where
    here : AtCore (core t) t
    here = record { same = refl; live = live }

    main-Inv :
        {k : Awaited} (call : Call k) (task : Task k) (r : Result (Settled k))
        → is_main task ≡ 1
        → Claim export (core t) call task
        → answers k call r
        → InvTab export (run (resume engine task r) t)
    unfolding resume
    main-Inv call init_generated r m c a =
        on_init_generated-Inv export (core t) idle engine r t here
    main-Inv call init_exported r m c a =
        ends_Inv export (core t) idle (on_init_exported engine r)
          (on_init_exported-Ends export (core t) idle engine c r) t here
    main-Inv call (create_exported name question answer) r m (keys, held, made) a =
        on_create_exported-Inv export (core t) idle engine name question answer keys r held
          (exported_value call keys.public_key r made a) t here
    main-Inv call (create_fetched question) r m c a =
        ends_Inv export (core t) idle (on_create_fetched engine question r)
          (on_create_fetched-Ends export (core t) idle engine c question r) t here
    main-Inv call (create_refused status) r m c a =
        ends_Inv export (core t) idle (on_create_refused engine status r)
          (on_create_refused-Ends export (core t) idle engine (c.keys, c.held) status r) t here
    main-Inv call (create_answered question) r m c a =
        ends_Inv export (core t) idle (on_create_answered engine question r)
          (on_create_answered-Ends export (core t) idle engine c question r) t here
    main-Inv call (verified_imported event) r m c a =
        on_verified_imported-Inv export (core t) idle event r t c here
    main-Inv call (verified_derived event) r m c a =
        ends_Inv export (core t) idle (on_verified_derived event r)
          (on_verified_derived-Ends export (core t) idle event r) t here
    main-Inv call link_copied r m c a = absurd (omega arith)
    main-Inv call copied_shown r m c a = absurd (omega arith)
    main-Inv call reset_generated r m c a = on_reset_generated-Inv export (core t) idle r t here
    main-Inv call reset_exported r m c a = on_reset_exported-Inv export (core t) idle c r t here

  minor-Inv :
      {k : Awaited} (task : Task k) (r : Result (Settled k)) (t : Tab)
      → is_main task ≡ 0
      → InvTab export t
      → InvTab export (run (resume engine task r) t)
  unfolding resume
  minor-Inv link_copied r t m h = (on_link_copied-Inv export r).after t h
  minor-Inv copied_shown r t m h = (on_copied_shown-Inv export r).after t h
  minor-Inv _ r t m h = absurd (omega arith)

  main_or_minor : {k : Awaited} (task : Task k) → (is_main task ≡ 1) ⊎ (is_main task ≡ 0)
  main_or_minor link_copied = inr refl
  main_or_minor copied_shown = inr refl
  main_or_minor _ = inl refl

  module _ (t : Tab) (h : InvTab export t) {k : Awaited} (before after : List Job) (call : Call k)
      (task : Task k) (r : Result (Settled k)) (at : t.jobs ≡ before ++ job call task ∷ after) where
    abbrev rest : Tab
    rest = record t { jobs = before ++ after }

    weight-rest : weight (core rest) + is_main task ≡ weight (core t)
    weight-rest = omega (
      arith,
      main_jobs-append before after,
      main_jobs-append before (job call task ∷ after),
      ap main_jobs at,
    )

    claimed : All (JobClaim export (core t)) (before ++ job call task ∷ after)
    claimed = subst (λ js. All (JobClaim export (core t)) js) at h.claims

    settle-Inv : answers k call r → InvTab export (run (resume engine task r) rest)
    settle-Inv a = elim (main_or_minor task) [
      | inl main ↦
          main-Inv rest (omega (arith, weight-rest, h.single)) (h.live (omega (arith, weight-rest)))
            call task r main
            (Claim-same export (core t) (core rest) call task refl refl
              (All-middle (JobClaim export (core t)) before after (job call task) claimed))
            a
      | inr minor ↦ minor-Inv task r rest minor (
          Inv-jobs export (core t) (core rest) t.page refl refl refl refl
            (omega (
              arith,
              main_jobs-append before after,
              main_jobs-append before (job call task ∷ after),
              ap main_jobs at,
            ))
            (All-without (JobClaim export (core t)) before after (job call task) claimed) h)
    ]

  fewer_open :
      (i : ℕ) (sources : List Source) → open_sources (close_at i sources) ≤ open_sources sources
  fewer_open i [] = omega arith
  fewer_open zero (es ∷ rest) = omega arith
  fewer_open (suc i) (es ∷ rest) = omega (arith, fewer_open i rest)

  give_up-Inv :
      (t : Tab) (i : ℕ)
      → InvTab export t
      → InvTab export (record t { sources = close_at i t.sources })
  give_up-Inv t i h =
      let later : Core = record (core t) { sources = close_at i t.sources } in
      record {
        single = omega (arith, fewer_open i t.sources, h.single);
        claims = claims-same export (core t) later t.jobs refl refl h.claims;
        keyed = h.keyed;
        posted = λ p.
            Posted-same export (core t) later refl refl
              (h.posted (omega (arith, fewer_open i t.sources)));
        live = λ p. h.live (omega (arith, fewer_open i t.sources));
      }

  -- A result is on the screen only when nothing is under way.
  result_idle :
      (t : Tab)
      → InvTab export t
      → (visible t.page ≡ "step-alice-pass" ∷ []) ⊎ (visible t.page ≡ "step-alice-fail" ∷ [])
      → weight (core t) ≡ 0
  result_idle t h shown = elim (zero_or_more (weight (core t))) [
    | inl none_left ↦ none_left
    | inr some_left ↦ elim shown [
      | inl pass ↦ absurd ((h.live some_left).not_pass pass)
      | inr fail ↦ absurd ((h.live some_left).not_fail fail)
    ]
  ]

  step-Inv : {t u : Tab} → Step engine answers t u → IsSound t → InvTab export t → InvTab export u
  step-Inv (type_name t s) sound h = h
  step-Inv (type_question t s) sound h = h
  step-Inv (type_answer t s) sound h = h
  step-Inv (press_start t v) sound h = (show_create-Inv export).after t h
  step-Inv (press_create t v on) sound h = create-Inv export t h on
  step-Inv (press_copy t v) sound h = (copy_link-Inv export).after t h
  step-Inv (press_again t v) sound h =
      again-Inv export t (result_idle t h v) sound.one_screen.screens
  step-Inv (press_control t c) sound h = h
  step-Inv (settle t before after call task r at a) sound h =
      settle-Inv t h before after call task r at a
  step-Inv (message t i text open_now) sound h =
      (on_message-Leads export engine i text).after t (h, open_now)
  step-Inv (give_up t i) sound h = give_up-Inv t i h
  step-Inv (error t i) sound h = (on_error-Inv export i).after t h

  reach-Inv : {t : Tab} → Reach engine answers t → InvTab export t
  reach-Inv start = init_alice-Inv export engine
  reach-Inv (next r s) = step-Inv s (reach-IsSound engine answers r) (reach-Inv r)

  module _ {t : Tab} (r : Reach engine answers t) where
    -- If the browser answers each request for a public key with the export of that key, then in
    -- every tab of Alice that can come about at most one of these is there: a pending step other
    -- than copying the link, an open event stream, the enabled button of the form.
    pub one_activity :
        main_jobs t.jobs + (open_sources t.sources + open_source t.create_disabled) ≤ 1
    one_activity = (reach-Inv r).single

    -- If the browser answers each request for a public key with the export of that key, then while
    -- the button of the form is enabled the tab holds a key pair, so `create` never meets missing
    -- keys.
    pub enabled-HasKey : t.create_disabled ≡ false → HasKey export (core t)
    enabled-HasKey = (reach-Inv r).keyed

    -- If the browser answers each request for a public key with the export of that key, then while
    -- an event stream is open the last request that the tab sent posted the public half of the key
    -- pair that the tab holds.
    pub open-Posted : 0 < open_sources t.sources → Posted export (core t)
    open-Posted = (reach-Inv r).posted

    -- If the browser answers each request for a public key with the export of that key, then
    -- whenever the derivation of the shared key is under way in the tab of Alice, it combines Bob's
    -- key with the private half of the key pair whose public half the tab posted last.
    pub derive-DerivesOwn :
        (before after : List Job) (call : Call Awaited.key) (event : Value)
        → t.jobs ≡ before ++ job call (verified_derived event) ∷ after
        → DerivesOwn export (core t) call
    derive-DerivesOwn before after call event at =
        All-middle (JobClaim export (core t)) before after (job call (verified_derived event))
          (subst (λ js. All (JobClaim export (core t)) js) at (reach-Inv r).claims)
