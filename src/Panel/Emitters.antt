-- ===== src/Panel/Emitters.antt =====
-- What the emitters of static/js/debug.js do to the log: each one makes its arguments first, which
-- may throw, and then one entry.
use doppelganger_web.Prelude.{String, List, ◌≡◌, ◌⊎◌, inl, inr, refl, some}
use doppelganger_web.Exec.{Error, Result, ok, throw, Exec, lift, modify, ◌>>=◌}
use doppelganger_web.Exec.Keeps.{Keeps}
use doppelganger_web.Value.{Value, Fields, Engine, object}
use doppelganger_web.Panel.{Kind, Panel, emit}
use doppelganger_web.Panel.Laws.{IsValid, emit-IsValid}
use doppelganger_web.Panel.Events.{
  report, key_generated, session_created, embedding_received, similarity_scored, phase_transition,
  sse_event, ecdh_derived, session_fetched, verify_submitted,
}

abbrev pub Threw : Exec Panel Unit → Panel → Type 0
Threw m p = (e : Error) × (m p ≡ (throw e, p))

abbrev pub Added : Exec Panel Unit → Panel → Type 0
Added m p =
    (kind : Kind) × (title : String) × (details : Fields) × (m p
      ≡ (ok tt, emit kind title (some details) p))

-- From every panel: either a throw that leaves the panel as it was, or one entry more.
pub record Emits (m : Exec Panel Unit) : Type 0 where
  pub at : (p : Panel) → Threw m p ⊎ Added m p

pub Emits-report :
    (kind : Kind) (title : String) (details : List (String × Value))
    → Emits (report kind title details)
unfolding modify
Emits-report kind title details = record { at = λ p. inr (kind, title, object details, refl) }

pub Emits-lift :
    {A : Type 0} (r : Result A) (f : A → Exec Panel Unit)
    → ((a : A) → Emits (f a))
    → Emits (lift r >>= f)
unfolding ◌>>=◌
Emits-lift (ok a) f h = h a
Emits-lift (throw e) f h = record { at = λ p. inl (e, refl) }

ruleset emits_rules = (Emits-report, Emits-lift)

pub key_generated-Emits : (role : String) (v : Value) → Emits (key_generated role v)
unfolding key_generated
key_generated-Emits role v = search emits_rules

pub session_created-Emits : (v : Value) → Emits (session_created v)
unfolding session_created
session_created-Emits v = search emits_rules

pub embedding_received-Emits :
    (engine : Engine) (v w : Value) → Emits (embedding_received engine v w)
unfolding embedding_received
embedding_received-Emits engine v w = search emits_rules

pub similarity_scored-Emits : (v w : Value) → Emits (similarity_scored v w)
unfolding similarity_scored
similarity_scored-Emits v w = search emits_rules

pub phase_transition-Emits : (from to : String) → Emits (phase_transition from to)
unfolding phase_transition
phase_transition-Emits from to = search emits_rules

pub sse_event-Emits : (v : Value) → Emits (sse_event v)
unfolding sse_event
sse_event-Emits v = search emits_rules

pub ecdh_derived-Emits : (role : String) → Emits (ecdh_derived role)
unfolding ecdh_derived
ecdh_derived-Emits role = search emits_rules

pub session_fetched-Emits : (v w : Value) → Emits (session_fetched v w)
unfolding session_fetched
session_fetched-Emits v w = search emits_rules

pub verify_submitted-Emits : Emits verify_submitted
unfolding verify_submitted
verify_submitted-Emits = search emits_rules

pub ruleset emitters = (
  Emits-report, key_generated-Emits, session_created-Emits, embedding_received-Emits,
  similarity_scored-Emits, phase_transition-Emits, sse_event-Emits, ecdh_derived-Emits,
  session_fetched-Emits, verify_submitted-Emits,
)

-- What `emit` keeps, every emitter keeps.
pub Keeps-emitter :
    {P : Panel → Type 0} (m : Exec Panel Unit)
    → ((kind : Kind) (title : String) (details : Fields) (p : Panel)
        → P p
        → P (emit kind title (some details) p))
    → Emits m
    → Keeps P m
Keeps-emitter {P} m keep h = record { after = λ p v. from p (h.at p) v }
  where
    from : (p : Panel) → Threw m p ⊎ Added m p → P p → P (m p).1
    from p (inl (e, same)) v = rw same v
    from p (inr (kind, title, details, added)) v = rw added (keep kind title details p v)

pub emitter-IsValid : (m : Exec Panel Unit) → Emits m → Keeps IsValid m
emitter-IsValid m h =
    Keeps-emitter m (λ kind title details p v. emit-IsValid kind title (some details) p v) h
