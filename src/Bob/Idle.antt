-- ===== src/Bob/Idle.antt =====
-- What each piece of code that follows an `await` of Bob's tab makes of a tab in which nothing else is
-- under way.
pub mod Handlers
use doppelganger_web.Prelude.{
  ℕ, String, Bool, true, false, List, [], ◌∷◌, ◌++◌, ◌≡◌, refl, subst, sym, ap, ◌∙◌, arith, All,
  if◌then◌else◌, str_eq,
}
use doppelganger_web.Exec.{Error, Result, throw, Exec, modify, lift, run, ◌>>=◌, ◌>>◌}
use doppelganger_web.Exec.Keeps.{Keeps, keeps_rules}
use doppelganger_web.Exec.Ends.{Ends, Ends-attempt, ends_rules, Ends-neutral, Ends-run}
use doppelganger_web.Value.{Value, Engine}
use doppelganger_web.Ui.{Page, show_step}
use doppelganger_web.Ui.Screens.{
  layout, visible-show_step, layout-show_step, screen_at, screen_at_of_layout,
}
use doppelganger_web.Panel.{Panel}
use doppelganger_web.Panel.Emitters.{Emits, emitters}
use doppelganger_web.Crypto.{
  sends, nothing_sent, Awaited, Key, Call, fetch, read_json, Request, Response, requests,
  import_public_key,
}
use doppelganger_web.Bob.{
  Task, session_answered, session_read, submit_answered, pass_imported, job, Tab, loaded, log, show,
  alert, await,
}
use doppelganger_web.Bob.Open.{
  init_failed, fetch_failed, fetch_session, on_init_exported, on_session_answered, show_challenge,
  on_session_read,
}
use doppelganger_web.Bob.Answer.{
  submit_failed, on_submit_fetched, on_gone, throw_refusal, on_pass, on_fail, on_scored,
  on_submit_answered, on_pass_derived,
}
use doppelganger_web.Bob.Phase.{
  count, Core, core, Live, HasKey, Posted, Claim, JobClaim, Inv, Posted-same,
}

-- The tab has the core `c`, a key pair if its button is enabled, and does not show the challenge.
pub record At (c d : Core) (disabled : Bool) (page : Page) : Type 0 where
  pub same : d ≡ c
  pub keyed : disabled ≡ false → HasKey c
  pub live : Live page

abbrev pub AtCore : Core → Tab → Type 0
AtCore c t = At c (core t) t.submit_disabled t.page

-- The core once a call is under way.
abbrev pub awaited : Core → {k : Awaited} → Call k → Task k → Core
awaited c call task = record c {
  jobs = c.jobs ++ job call task ∷ [];
  sent = c.sent ++ requests call;
}

pub log-AtCore : (c : Core) (m : Exec Panel Unit) → Emits m → Keeps (AtCore c) (log m)
unfolding log
log-AtCore c m h = record { after = λ t n. n }

pub alert-AtCore : (c : Core) (text : String) → Keeps (AtCore c) (alert text)
unfolding alert
alert-AtCore c text = record { after = λ t n. n }

first_is : String → List String → Bool
first_is step [] = false
first_is step (x ∷ rest) = str_eq x step

pub Live-show :
    (step : String) (page : Page)
    → screen_at step (loaded "").page ≡ true
    → str_eq step "step-bob-challenge" ≡ false
    → layout page ≡ layout (loaded "").page
    → Live (show_step step page)
unfolding first_is
Live-show step page known p screens =
    let seen =
      visible-show_step step page
      ∙ ap (λ b. if b then step ∷ [] else [])
          (screen_at_of_layout step page (loaded "").page screens ∙ known) in
    record {
      screens = layout-show_step step page ∙ screens;
      not_challenge = λ e. cc (p, ap (first_is "step-bob-challenge") (sym seen ∙ e));
    }

-- A page with its screens, and the button of a tab with a key pair.
pub enabled-AtCore :
    (c : Core) (html : String)
    → HasKey c
    → Keeps (AtCore c) (modify (λ t. record t { key_html = html; submit_disabled = false }))
unfolding modify
enabled-AtCore c html key = record {
  after = λ t n. record { same = n.same; keyed = λ e. key; live = n.live };
}

pub ruleset at_rules = (keeps_rules, ends_rules, emitters, log-AtCore, alert-AtCore)

module _ (export : Key → Value) where
  abbrev pub InvTab : Tab → Type 0
  InvTab t = Inv export (core t) t.submit_disabled t.page

  Inv-idle :
      (c : Core) (disabled : Bool) (page : Page)
      → c.jobs ≡ []
      → (disabled ≡ false → HasKey c)
      → Inv export c disabled page
  Inv-idle c disabled page h key = record {
    single = rw h (omega arith);
    claims = rw h tt;
    keyed = key;
    live = λ p. absurd (omega (arith, ap count h));
  }

  module _ (c : Core) (idle : c.jobs ≡ []) where
    At-Inv : (t : Tab) → AtCore c t → InvTab t
    At-Inv t n =
        Inv-idle (core t) t.submit_disabled t.page (ap (λ (d : Core). d.jobs) n.same ∙ idle)
          (λ e. let (keys, held) = n.keyed e in (keys, ap (λ (d : Core). d.key_pair) n.same ∙ held))

    pub ends_Inv :
        (m : Exec Tab Unit) → Ends (AtCore c) InvTab m → (t : Tab) → AtCore c t → InvTab (run m t)
    ends_Inv m h = Ends-run h At-Inv

    pub await-Inv :
        {k : Awaited} (call : Call k) (task : Task k)
        → Claim export (awaited c call task) call task
        → (t : Tab) → AtCore c t
        → InvTab (await call task t).1
    unfolding await
    await-Inv call task claim t n =
        let at : core (await call task t).1 ≡ awaited c call task =
          ap (λ d. awaited d call task) n.same in
        let one : (awaited c call task).jobs ≡ job call task ∷ [] =
          ap (λ js. js ++ job call task ∷ []) idle in
        rw at (record {
          single = rw one (omega arith);
          claims =
              subst (λ js. All (JobClaim export (awaited c call task)) js) (sym one) (claim, tt);
          keyed = n.keyed;
          live = λ p. n.live;
        })

    pub await-Ends :
        {k : Awaited} (call : Call k) (task : Task k)
        → Claim export (awaited c call task) call task
        → Ends (AtCore c) InvTab (await call task)
    unfolding await
    await-Ends call task claim = record { after = await-Inv call task claim }

    pub show-Ends : (step : String) → Ends (AtCore c) InvTab (show step)
    unfolding show
    show-Ends step = record {
      after = λ t n.
          Inv-idle (core t) t.submit_disabled _ (ap (λ (d : Core). d.jobs) n.same ∙ idle) (λ e.
            let (keys, held) = n.keyed e in (keys, ap (λ (d : Core). d.key_pair) n.same ∙ held));
    }

    -- The challenge is shown again, and the button is enabled.
    pub again-Ends :
        HasKey c
        → Ends (AtCore c) InvTab (
            show "step-bob-challenge"
            >> modify (λ t. record t { submit_disabled = false; submit_label = "Submit Answer" }))
    unfolding show ◌>>=◌
    again-Ends (keys, held) = record {
      after = λ t n.
          Inv-idle (core t) false _ (ap (λ (d : Core). d.jobs) n.same ∙ idle)
            (λ e. (keys, ap (λ (d : Core). d.key_pair) n.same ∙ held));
    }

    await_posted-Ends :
        {k : Awaited} (call : Call k) (task : Task k)
        → sends k ≡ false
        → (Posted export (awaited c call task) → Claim export (awaited c call task) call task)
        → Posted export c
        → Ends (AtCore c) InvTab (await call task)
    await_posted-Ends call task silent claim p = await-Ends call task (
        claim (
          Posted-same export c (awaited c call task) refl refl (nothing_sent call c.sent silent) p))

    pub import-Ends :
        Posted export c
        → (v answered : Value)
        → Ends (AtCore c) InvTab (await (import_public_key v) (pass_imported answered))
    import-Ends p v answered =
        await_posted-Ends (import_public_key v) (pass_imported answered) refl (λ q. q) p

    pub fetch-Ends :
        (r : Request) (session_id : String)
        → Ends (AtCore c) InvTab (await (fetch r) (session_answered session_id))
    fetch-Ends r session_id = await-Ends (fetch r) (session_answered session_id) tt

    pub read-Ends : (r : Response) → Ends (AtCore c) InvTab (await (read_json r) session_read)
    read-Ends r = await-Ends (read_json r) session_read tt

    pub read_answer-Ends :
        Posted export c
        → (r : Response) (status : ℕ)
        → Ends (AtCore c) InvTab (await (read_json r) (submit_answered status))
    read_answer-Ends p r status =
        await_posted-Ends (read_json r) (submit_answered status) refl (λ q. q) p
