-- ===== src/Alice/Idle.antt =====
-- What each piece of code that follows an `await` of Alice's tab makes of a tab in which nothing
-- else is under way.
pub mod Handlers
use doppelganger_web.Prelude.{
  ℕ, String, Bool, true, false, List, [], ◌∷◌, ◌++◌, ◌≡◌, refl, sym, ap, ◌∙◌, arith, str_eq,
  All-append, if◌then◌else◌,
}
use doppelganger_web.Exec.{Error, Result, Exec, modify, run}
use doppelganger_web.Exec.Keeps.{Keeps, keeps_rules}
use doppelganger_web.Exec.Ends.{Ends, Ends-attempt, ends_rules, Ends-neutral, Ends-run}
use doppelganger_web.Value.{Value, Engine}
use doppelganger_web.Ui.{Page, visible}
use doppelganger_web.Ui.Screens.{
  layout, visible-show_step, layout-show_step, screen_at, screen_at_of_layout,
}
use doppelganger_web.Panel.{Panel}
use doppelganger_web.Panel.Emitters.{Emits, emitters}
use doppelganger_web.Crypto.{
  sends, nothing_sent, Awaited, Key, Call, Response, requests, import_public_key, read_json,
}
use doppelganger_web.Alice.{
  Task, create_refused, create_answered, verified_imported, job, Tab, loaded, log, show, alert,
  await,
}
use doppelganger_web.Alice.Start.{init_failed, on_init_exported}
use doppelganger_web.Alice.Create.{
  enable_create, connect_alice_sse, create_failed, on_create_fetched, on_create_refused,
  show_preview, on_create_answered,
}
use doppelganger_web.Alice.Stream.{import_bob, show_failure, on_verified_derived}
use doppelganger_web.Alice.Phase.{
  is_main, main_jobs, open_sources, Core, core, weight, Live, HasKey, Posted, Claim, JobClaim, Inv,
  claims_of_idle, Inv-idle, main_jobs-append, open_sources-append,
}

-- The tab has the core `c`, and no result on the screen.
pub record At (c d : Core) (page : Page) : Type 0 where
  pub same : d ≡ c
  pub live : Live page

abbrev pub AtCore : Core → Tab → Type 0
AtCore c t = At c (core t) t.page

-- The core once a call is under way.
abbrev pub awaited : Core → {k : Awaited} → Call k → Task k → Core
awaited c call task = record c {
  jobs = c.jobs ++ job call task ∷ [];
  sent = c.sent ++ requests call;
}

pub log-AtCore : (c : Core) (m : Exec Panel Unit) → Emits m → Keeps (AtCore c) (log m)
unfolding log
log-AtCore c m h = record { after = λ t n. n }

pub alert-AtCore : (c : Core) (text : String) → Keeps (AtCore c) (alert text)
unfolding alert
alert-AtCore c text = record { after = λ t n. n }

first_is : String → List String → Bool
first_is step [] = false
first_is step (x ∷ rest) = str_eq x step

pub Live-show :
    (step : String) (page : Page)
    → screen_at step loaded.page ≡ true
    → str_eq step "step-alice-pass" ≡ false
    → str_eq step "step-alice-fail" ≡ false
    → layout page ≡ layout loaded.page
    → Live (doppelganger_web.Ui.show_step step page)
unfolding first_is
Live-show step page known p f screens =
    let seen =
      visible-show_step step page
      ∙ ap (λ b. if b then step ∷ [] else [])
          (screen_at_of_layout step page loaded.page screens ∙ known) in
    record {
      screens = layout-show_step step page ∙ screens;
      not_pass = λ e. cc (p, ap (first_is "step-alice-pass") (sym seen ∙ e));
      not_fail = λ e. cc (f, ap (first_is "step-alice-fail") (sym seen ∙ e));
    }

pub show_create-AtCore : (c : Core) → Keeps (AtCore c) (show "step-create")
unfolding show
show_create-AtCore c = record {
  after = λ t n. record {
    same = n.same;
    live = Live-show "step-create" t.page refl refl refl n.live.screens;
  };
}

pub show_waiting-AtCore : (c : Core) → Keeps (AtCore c) (show "step-waiting")
unfolding show
show_waiting-AtCore c = record {
  after = λ t n. record {
    same = n.same;
    live = Live-show "step-waiting" t.page refl refl refl n.live.screens;
  };
}

pub ruleset at_rules = (
  keeps_rules, ends_rules, emitters, log-AtCore, alert-AtCore, show_create-AtCore,
  show_waiting-AtCore,
)

module _ (export : Key → Value) where
  abbrev pub InvTab : Tab → Type 0
  InvTab t = Inv export (core t) t.page

  module _ (c : Core) (idle : weight c ≡ 0) where
    pub At-Inv : (t : Tab) → AtCore c t → InvTab t
    At-Inv t n = Inv-idle export (core t) t.page (rw (ap weight n.same) idle)

    -- Another call that sends nothing leaves what was posted.
    pub posted_later :
        (d : Core) → Posted export c → d.key_pair ≡ c.key_pair → d.sent ≡ c.sent → Posted export d
    posted_later d p k e = record {
      keys = p.keys;
      held = k ∙ p.held;
      earlier = p.earlier;
      name = p.name;
      question = p.question;
      answer = p.answer;
      last = e ∙ p.last;
    }

    -- One call under way, with its claim, is one activity.
    pub awaited-Inv :
        {k : Awaited} (call : Call k) (task : Task k) (page : Page)
        → is_main task ≡ 1
        → Claim export (awaited c call task) call task
        → Live page
        → Inv export (awaited c call task) page
    awaited-Inv call task page main claim live =
        let jobs_weight : main_jobs (c.jobs ++ job call task ∷ []) ≡ 1 =
          main_jobs-append c.jobs (job call task ∷ []) ∙ omega arith in
        record {
          single = omega arith;
          claims =
              All-append (JobClaim export (awaited c call task)) c.jobs (job call task ∷ [])
                (claims_of_idle export (awaited c call task) c.jobs (omega arith)) (claim, tt);
          keyed = λ e. absurd (ground arith);
          posted = λ p. absurd (omega arith);
          live = λ p. live;
        }

    pub await-Inv :
        {k : Awaited} (call : Call k) (task : Task k)
        → is_main task ≡ 1
        → Claim export (awaited c call task) call task
        → (t : Tab) → AtCore c t
        → InvTab (await call task t).1
    unfolding await
    await-Inv call task main claim t n =
        let at : core (await call task t).1 ≡ awaited c call task =
          ap (λ d. awaited d call task) n.same in
        rw at (awaited-Inv call task t.page main claim n.live)

    pub await-Ends :
        {k : Awaited} (call : Call k) (task : Task k)
        → is_main task ≡ 1
        → Claim export (awaited c call task) call task
        → Ends (AtCore c) InvTab (await call task)
    unfolding await
    await-Ends call task main claim = record { after = await-Inv call task main claim }

    -- The button is enabled.
    pub enable-Ends :
        (f : Tab → Tab)
        → ((t : Tab) → core (f t) ≡ record (core t) { disabled = false })
        → ((t : Tab) → (f t).page ≡ t.page)
        → HasKey export c
        → Ends (AtCore c) InvTab (modify f)
    unfolding modify
    enable-Ends f to_core to_page key = record {
      after = λ t n.
          let at : core (f t) ≡ record c { disabled = false } =
            to_core t ∙ ap (λ (d : Core). record d { disabled = false }) n.same in
          rw (at, to_page t)
            (record {
              single = omega arith;
              claims = claims_of_idle export (record c { disabled = false }) c.jobs (omega arith);
              keyed = λ e. key;
              posted = λ p. absurd (omega arith);
              live = λ p. n.live;
            });
    }

    -- An event stream is opened.
    pub open-Ends :
        (f : Tab → Tab) (url : String)
        → ((t : Tab)
            → core (f t) ≡ record (core t) {
              sources = t.sources ++ record { url = url; closed = false } ∷ [];
            })
        → ((t : Tab) → (f t).page ≡ t.page)
        → Posted export c
        → Ends (AtCore c) InvTab (modify f)
    unfolding modify
    open-Ends f url to_core to_page p = record {
      after = λ t n.
          let opened : Core = record c {
            sources = c.sources ++ record { url = url; closed = false } ∷ [];
          } in
          let at : core (f t) ≡ opened =
            to_core t
            ∙ ap
                (λ (d : Core). record d {
                  sources = d.sources ++ record { url = url; closed = false } ∷ [];
                })
                n.same in
          let count : open_sources opened.sources ≡ 1 =
            open_sources-append c.sources (record { url = url; closed = false } ∷ [])
            ∙ omega arith in
          rw (at, to_page t)
            (record {
              single = omega arith;
              claims = claims_of_idle export opened c.jobs (omega arith);
              keyed = λ e. absurd (ground arith);
              posted = λ q. record {
                keys = p.keys;
                held = p.held;
                earlier = p.earlier;
                name = p.name;
                question = p.question;
                answer = p.answer;
                last = p.last;
              };
              live = λ q. n.live;
            });
    }

    -- A result is shown.
    pub show-Ends : (step : String) → Ends (AtCore c) InvTab (show step)
    unfolding show
    show-Ends step = record {
      after = λ t n. Inv-idle export (core t) _ (rw (ap weight n.same) idle);
    }

    pub neutral-Ends : (m : Exec Tab Unit) → Keeps (AtCore c) m → Ends (AtCore c) InvTab m
    neutral-Ends m h = Ends-neutral m At-Inv h

    pub ends_Inv :
        (m : Exec Tab Unit) → Ends (AtCore c) InvTab m → (t : Tab) → AtCore c t → InvTab (run m t)
    ends_Inv m h = Ends-run h At-Inv
