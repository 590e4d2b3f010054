-- ===== src/Alice/Steps/Stream.antt =====
-- static/js/session.js: what a message of the event stream does to Alice's tab.
use doppelganger_web.Prelude.{
  ℕ, zero, suc, ◌+◌, String, Bool, true, false, List, [], ◌∷◌, ◌≡◌, refl, arith, if◌then◌else◌,
}
use doppelganger_web.Exec.{Exec, done, ◌>>=◌}
use doppelganger_web.Exec.Keeps.{Keeps, keeps_rules}
use doppelganger_web.Exec.Ends.{Leads, Leads-bind}
use doppelganger_web.Value.{Value, Engine}
use doppelganger_web.Panel.{Panel}
use doppelganger_web.Panel.Emitters.{Emits, emitters}
use doppelganger_web.Crypto.{Key}
use doppelganger_web.Alice.{Source, Tab, log, close_source, close_at}
use doppelganger_web.Alice.Stream.{
  import_bob, show_failure, on_message, dispatch, on_verified, on_failed, on_expired, is_closed,
}
use doppelganger_web.Alice.Phase.{open_sources, core, weight, Live, Posted}
use doppelganger_web.Alice.Idle.{AtCore, InvTab, ends_Inv}
use doppelganger_web.Alice.Idle.Handlers.{import_bob-Ends, show_failure-Ends}
use doppelganger_web.Alice.Steps.{start_over-Inv}

module _ (export : Key → Value) where
  -- The source that a message comes from is open.
  abbrev Receiving : ℕ → Tab → Type 0
  Receiving i t = InvTab export t × (is_closed i t.sources ≡ false)

  one_closed :
      (i : ℕ) (sources : List Source)
      → is_closed i sources ≡ false
      → open_sources (close_at i sources) + 1 ≡ open_sources sources
  one_closed i [] h = cc
  one_closed zero (es ∷ rest) h = ground arith
  one_closed (suc i) (es ∷ rest) h = omega (arith, one_closed i rest h)

  -- The tab once the only open source is closed.
  abbrev closed_tab : ℕ → Tab → Tab
  closed_tab i t = record t { sources = close_at i t.sources }

  closed-idle : (i : ℕ) (t : Tab) → Receiving i t → weight (core (closed_tab i t)) ≡ 0
  closed-idle i t (h, open_now) = omega (arith, h.single, one_closed i t.sources open_now)

  Receiving-Live : (i : ℕ) (t : Tab) → Receiving i t → Live t.page
  Receiving-Live i t (h, open_now) = h.live (omega (arith, one_closed i t.sources open_now))

  closed-At : (i : ℕ) (t : Tab) → Receiving i t → AtCore (core (closed_tab i t)) (closed_tab i t)
  closed-At i t r = record { same = refl; live = Receiving-Live i t r }

  closed-Posted : (i : ℕ) (t : Tab) → Receiving i t → Posted export (core (closed_tab i t))
  closed-Posted i t (h, open_now) =
      let p = h.posted (omega (arith, one_closed i t.sources open_now)) in
      record {
        keys = p.keys;
        held = p.held;
        earlier = p.earlier;
        name = p.name;
        question = p.question;
        answer = p.answer;
        last = p.last;
      }

  on_verified-Leads :
      (i : ℕ) (event : Value) → Leads (Receiving i) (InvTab export) (on_verified i event)
  unfolding on_verified ◌>>=◌ close_source
  on_verified-Leads i event = record {
    after = λ t r.
        ends_Inv export (core (closed_tab i t)) (closed-idle i t r) (import_bob event)
          (import_bob-Ends export (core (closed_tab i t)) (closed-idle i t r) (closed-Posted i t r)
            event)
          (closed_tab i t) (closed-At i t r);
  }

  on_failed-Leads :
      (i : ℕ) (event : Value) → Leads (Receiving i) (InvTab export) (on_failed i event)
  unfolding on_failed ◌>>=◌ close_source
  on_failed-Leads i event = record {
    after = λ t r.
        ends_Inv export (core (closed_tab i t)) (closed-idle i t r) (show_failure event)
          (show_failure-Ends export (core (closed_tab i t)) (closed-idle i t r) event)
          (closed_tab i t) (closed-At i t r);
  }

  on_expired-Leads : (i : ℕ) → Leads (Receiving i) (InvTab export) (on_expired i)
  unfolding on_expired ◌>>=◌ close_source
  on_expired-Leads i = record {
    after = λ t r.
        (start_over-Inv export) (closed_tab i t) (closed-idle i t r) (Receiving-Live i t r).screens;
  }

  Leads-if :
      (i : ℕ) (b : Bool) (m n : Exec Tab Unit)
      → Leads (Receiving i) (InvTab export) m
      → Leads (Receiving i) (InvTab export) n
      → Leads (Receiving i) (InvTab export) (if b then m else n)
  Leads-if i true m n h k = h
  Leads-if i false m n h k = k

  done-Leads : (i : ℕ) → Leads (Receiving i) (InvTab export) done
  unfolding done
  done-Leads i = record { after = λ t r. r.0 }

  dispatch-Leads :
      (i : ℕ) (kind event : Value) → Leads (Receiving i) (InvTab export) (dispatch i kind event)
  unfolding dispatch
  dispatch-Leads i kind event =
      search (Leads-if, on_verified-Leads, on_failed-Leads, on_expired-Leads, done-Leads) depth 7

  log-Receiving : (i : ℕ) (m : Exec Panel Unit) → Emits m → Keeps (Receiving i) (log m)
  unfolding log
  log-Receiving i m h = record { after = λ t r. r }

  Receiving-Inv : (i : ℕ) (t : Tab) → Receiving i t → InvTab export t
  Receiving-Inv i t r = r.0

  pub on_message-Leads :
      (engine : Engine) (i : ℕ) (text : String)
      → Leads (Receiving i) (InvTab export) (on_message engine i text)
  unfolding on_message
  on_message-Leads engine i text =
      search (keeps_rules, emitters, Leads-bind (Receiving-Inv i), log-Receiving, dispatch-Leads)
        depth 9
