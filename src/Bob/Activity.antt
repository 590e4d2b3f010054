-- ===== src/Bob/Activity.antt =====
-- static/js/session.js, Bob: what is under way in a tab that can come about, and the keys that it uses.
use doppelganger_web.Prelude.{
  ℕ, ◌+◌, ◌≤◌, ◌<◌, String, false, List, [], ◌∷◌, ◌++◌, ◌≡◌, ◌≢◌, ◌⊎◌, refl, ap, subst, arith, All,
  All-middle, inl, inr,
}
use doppelganger_web.Exec.{Result, ok, run}
use doppelganger_web.Value.{Value, Engine}
use doppelganger_web.Ui.{visible}
use doppelganger_web.Crypto.{Awaited, Settled, Key, Call, export_key, export_public_key}
use doppelganger_web.Bob.{
  Task, init_generated, init_exported, session_answered, session_read, submit_exported,
  submit_fetched, submit_answered, pass_imported, pass_derived, Job, job, Tab,
}
use doppelganger_web.Bob.Open.{on_init_exported, on_session_answered, on_session_read}
use doppelganger_web.Bob.Answer.{on_submit_fetched, on_submit_answered, on_pass_derived}
use doppelganger_web.Bob.Run.{
  Answers, resume, Step, type_name, type_answer, press_submit, press_control, settle, Reach, start,
  next,
}
use doppelganger_web.Bob.Sound.{IsSound}
use doppelganger_web.Bob.Always.{reach-IsSound}
use doppelganger_web.Bob.Phase.{
  count, core, Live, HasKey, DerivesOwn, Claim, Claim-same, JobClaim, count-append, empty_of_count,
}
use doppelganger_web.Bob.Idle.{AtCore, InvTab, ends_Inv}
use doppelganger_web.Bob.Idle.Handlers.{
  on_init_exported-Ends, on_session_answered-Ends, on_session_read-Ends, on_submit_fetched-Ends,
  on_submit_answered-Ends, on_pass_derived-Ends,
}
use doppelganger_web.Bob.Steps.{
  on_init_generated-Inv, on_submit_exported-Inv, on_pass_imported-Inv, submit_answer-Inv,
  init_bob-Inv,
}

zero_or_more : (n : ℕ) → (n ≡ 0) ⊎ (0 < n)
zero_or_more n = omega arith

-- What the browser answers to a request for a public key is what `export` says of it.
abbrev pub Honest : (Key → Value) → Answers → Type 0
Honest export answers =
    (format : String) (k : Key) (v : Value)
    → answers Awaited.jwk (export_key format k) (ok v)
    → v ≡ export k

module _ (engine : Engine) (answers : Answers) (export : Key → Value)
    (honest : Honest export answers) where
  exported_value :
      (call : Call Awaited.jwk) (k : Key) (r : Result Value)
      → call ≡ export_public_key k
      → answers Awaited.jwk call r
      → (v : Value) → r ≡ ok v
      → v ≡ export k
  unfolding export_public_key
  exported_value call k r same a v e = honest "jwk" k v (rw e at (rw same at a))

  -- The code after the `await` of the call that was under way, in the tab without it.
  module _ (t : Tab) (idle : t.jobs ≡ []) (live : Live t.page)
      (keyed : t.submit_disabled ≡ false → HasKey (core t)) where
    here : AtCore (core t) t
    here = record { same = refl; keyed = keyed; live = live }

    resume-Inv :
        {k : Awaited} (call : Call k) (task : Task k) (r : Result (Settled k))
        → Claim export (core t) call task
        → answers k call r
        → InvTab export (run (resume engine task r) t)
    unfolding resume
    resume-Inv call (init_generated id) r c a =
        on_init_generated-Inv export (core t) idle engine id r t here
    resume-Inv call (init_exported id) r c a =
        ends_Inv export (core t) idle (on_init_exported engine id r)
          (on_init_exported-Ends export (core t) idle engine c id r) t here
    resume-Inv call (session_answered id) r c a =
        ends_Inv export (core t) idle (on_session_answered engine id r)
          (on_session_answered-Ends export (core t) idle engine id r) t here
    resume-Inv call session_read r c a =
        ends_Inv export (core t) idle (on_session_read engine r)
          (on_session_read-Ends export (core t) idle engine r) t here
    resume-Inv call (submit_exported name answer) r (keys, held, made) a =
        on_submit_exported-Inv export (core t) idle engine name answer keys r held
          (exported_value call keys.public_key r made a) t here
    resume-Inv call submit_fetched r c a =
        ends_Inv export (core t) idle (on_submit_fetched engine r)
          (on_submit_fetched-Ends export (core t) idle engine c r) t here
    resume-Inv call (submit_answered status) r c a =
        ends_Inv export (core t) idle (on_submit_answered engine status r)
          (on_submit_answered-Ends export (core t) idle engine c status r) t here
    resume-Inv call (pass_imported answered) r c a =
        on_pass_imported-Inv export (core t) idle engine answered r c t here
    resume-Inv call (pass_derived answered) r c a =
        ends_Inv export (core t) idle (on_pass_derived engine answered r)
          (on_pass_derived-Ends export (core t) idle engine (c.posted.keys, c.posted.held) answered
            r)
          t here

  settle-Inv :
      (t : Tab)
      → InvTab export t
      → {k : Awaited} (before after : List Job) (call : Call k) (task : Task k)
        (r : Result (Settled k))
      → t.jobs ≡ before ++ job call task ∷ after
      → answers k call r
      → InvTab export (run (resume engine task r) (record t { jobs = before ++ after }))
  settle-Inv t h before after call task r at a =
      let total : count before + (1 + count after) ≤ 1 =
        omega (arith, h.single, count-append before (job call task ∷ after), ap count at) in
      let rest : Tab = record t { jobs = before ++ after } in
      resume-Inv rest (empty_of_count (before ++ after) (omega (arith, count-append before after)))
        (h.live (omega (arith, count-append before (job call task ∷ after), ap count at))) h.keyed
        call task r
        (Claim-same export (core t) (core rest) call task refl refl refl (
          All-middle (JobClaim export (core t)) before after (job call task)
            (subst (λ js. All (JobClaim export (core t)) js) at h.claims)))
        a

  -- While the challenge can be seen, nothing is under way.
  challenge_idle :
      (t : Tab) → InvTab export t → visible t.page ≡ "step-bob-challenge" ∷ [] → t.jobs ≡ []
  challenge_idle t h seen = elim (zero_or_more (count t.jobs)) [
    | inl none_left ↦ empty_of_count t.jobs none_left
    | inr some_left ↦ absurd ((h.live some_left).not_challenge seen)
  ]

  step-Inv : {t u : Tab} → Step engine answers t u → IsSound t → InvTab export t → InvTab export u
  step-Inv (type_name t s) sound h = h
  step-Inv (type_answer t s) sound h = h
  step-Inv (press_submit t seen on) sound h =
      submit_answer-Inv export t h (challenge_idle t h seen) sound.one_screen.screens
  step-Inv (press_control t c) sound h = h
  step-Inv (settle t before after call task r at a) sound h =
      settle-Inv t h before after call task r at a

  reach-Inv : {id : String} {t : Tab} → Reach engine answers id t → InvTab export t
  reach-Inv {id} start = init_bob-Inv export id
  reach-Inv (next r s) = step-Inv s (reach-IsSound engine answers r) (reach-Inv r)

  module _ {id : String} {t : Tab} (r : Reach engine answers id t) where
    -- If the browser answers each request for a public key with the export of that key, then in
    -- every tab of Bob that can come about either no call is under way, or exactly one, and then
    -- the challenge cannot be seen.
    pub bob_one_call :
        (t.jobs ≡ []) ⊎ ((count t.jobs ≡ 1) × (visible t.page ≢ "step-bob-challenge" ∷ []))
    bob_one_call = elim (zero_or_more (count t.jobs)) [
      | inl none_left ↦ inl (empty_of_count t.jobs none_left)
      | inr some_left ↦
          inr (omega (arith, (reach-Inv r).single), ((reach-Inv r).live some_left).not_challenge)
    ]

    -- If the browser answers each request for a public key with the export of that key, then while
    -- the button of the answer is enabled the tab holds a key pair, so `submitAnswer` never meets
    -- missing keys.
    pub bob_enabled-HasKey : t.submit_disabled ≡ false → HasKey (core t)
    bob_enabled-HasKey = (reach-Inv r).keyed

    -- If the browser answers each request for a public key with the export of that key, then
    -- whenever the derivation of the shared key is under way in the tab of Bob, it combines Alice's
    -- key with the private half of the key pair whose public half the last request sent.
    pub bob_derive-DerivesOwn :
        (before after : List Job) (call : Call Awaited.key) (answered : Value)
        → t.jobs ≡ before ++ job call (pass_derived answered) ∷ after
        → DerivesOwn export (core t) call
    bob_derive-DerivesOwn before after call answered at =
        All-middle (JobClaim export (core t)) before after (job call (pass_derived answered))
          (subst (λ js. All (JobClaim export (core t)) js) at (reach-Inv r).claims)
