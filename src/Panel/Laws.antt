-- ===== src/Panel/Laws.antt =====
-- static/js/debug.js: the parts of the protocol log that belong together.
use doppelganger_web.Prelude.{◌+◌, String, not, Option, List, [], ◌∷◌, ◌++◌, ◌≡◌, refl, arith, ◌==◌}
use doppelganger_web.Value.{Fields}
use doppelganger_web.Panel.{
  Kind, Entry, Panel, count_entries, init, open_panel, count_text, emit, Control, click, trigger,
  close_button, clear_button,
}

-- The counter counts the entries that the log shows, its text says so, the placeholder and the dot
-- tell whether there are any, and the classes and the attribute say whether the panel is open.
pub record IsValid (p : Panel) : Type 0 where
  pub counted : p.entry_count ≡ count_entries p.entries
  pub counter_text : p.counter ≡ count_text p.entry_count
  pub placeholder_iff : p.placeholder ≡ (p.entry_count == 0)
  pub live_iff : p.live ≡ not (p.entry_count == 0)
  pub panel_class : p.panel_open ≡ p.is_open
  pub trigger_class : p.trigger_open ≡ p.is_open
  pub body_class : p.body_open ≡ p.is_open
  pub aria : p.aria_hidden ≡ not p.is_open

count_entries-snoc :
    (xs : List Entry) (e : Entry) → count_entries (xs ++ e ∷ []) ≡ count_entries xs + 1
count_entries-snoc [] e = refl
count_entries-snoc (x ∷ xs) e = ground (arith, count_entries-snoc xs e)

no_entries : count_text 0 ≡ "0 events"
unfolding count_text
no_entries = refl

pub init-IsValid : IsValid init
init-IsValid = ground (arith, no_entries)

-- If the parts of the panel agree, they agree after any further entry: the count and its text, the
-- placeholder, the dot and the classes.
pub emit-IsValid :
    (kind : Kind) (title : String) (details : Option Fields) (p : Panel)
    → IsValid p
    → IsValid (emit kind title details p)
unfolding emit
emit-IsValid kind title details p v =
    ground (
      arith,
      count_entries-snoc p.entries (record { kind = kind; title = title; details = details }),
    )

-- If the parts of the panel agree, they agree after a click on any of the three buttons.
pub click-IsValid : (c : Control) (p : Panel) → IsValid p → IsValid (click c p)
unfolding click open_panel
click-IsValid trigger p v = ground arith
click-IsValid close_button p v = ground arith
click-IsValid clear_button p v = ground (arith, no_entries)
