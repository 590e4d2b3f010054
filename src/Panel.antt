-- ===== src/Panel.antt =====
-- static/js/debug.js: the protocol log, its panel and the functions that change them.
pub mod Render
pub mod Events
pub mod Laws
pub mod Emitters
pub mod Verbatim
mod Tests
use doppelganger_web.Prelude.{
  ℕ, ◌+◌, String, Bool, true, false, not, Option, List, [], ◌∷◌, ◌++◌, if◌then◌else◌, ◌==◌,
}
use doppelganger_web.Text.{concat, decimal}
use doppelganger_web.Value.{Fields}

-- The event types that the header of the file lists.
pub data Kind : Type 0 where
  key network embed score phase info : Kind

pub record Entry : Type 0 where
  pub kind : Kind
  pub title : String
  pub details : Option Fields

-- The two variables of the closure, and the parts of the page that the panel's code writes. The log's
-- children are the placeholder, if it is there, and the entries. `scrolled` is the number of
-- entries that the log held when it was last scrolled to its end.
pub record Panel : Type 0 where
  pub is_open : Bool
  pub entry_count : ℕ
  pub placeholder : Bool
  pub entries : List Entry
  pub counter : String
  pub live : Bool
  pub panel_open : Bool
  pub aria_hidden : Bool
  pub trigger_open : Bool
  pub body_open : Bool
  pub scrolled : ℕ

abbrev pub count_entries : List Entry → ℕ
count_entries [] = 0
count_entries (e ∷ rest) = count_entries rest + 1

-- The panel as `init` puts it into the page.
abbrev pub init : Panel
init = record {
  is_open = false;
  entry_count = 0;
  placeholder = true;
  entries = [];
  counter = "0 events";
  live = false;
  panel_open = false;
  aria_hidden = true;
  trigger_open = false;
  body_open = false;
  scrolled = 0;
}

unfoldable pub scroll_to_bottom : Panel → Panel
scroll_to_bottom p = record p { scrolled = count_entries p.entries }

-- `open`, a reserved word here.
unfoldable pub open_panel : Panel → Panel
unfolding scroll_to_bottom
open_panel p = scroll_to_bottom (record p {
  is_open = true;
  panel_open = true;
  aria_hidden = false;
  trigger_open = true;
  body_open = true;
})

unfoldable pub close : Panel → Panel
close p = record p {
  is_open = false;
  panel_open = false;
  aria_hidden = true;
  trigger_open = false;
  body_open = false;
}

unfoldable pub toggle : Panel → Panel
unfolding open_panel close
toggle p = if p.is_open then close p else open_panel p

unfoldable pub clear : Panel → Panel
clear p = record p {
  entry_count = 0;
  placeholder = true;
  entries = [];
  counter = "0 events";
  live = false;
}

-- `${entryCount} event${entryCount !== 1 ? "s" : ""}`
unfoldable pub count_text : ℕ → String
unfolding decimal
count_text n = concat (decimal n ∷ " event" ∷ (if n == 1 then "" else "s") ∷ [])

unfoldable pub emit : Kind → String → Option Fields → Panel → Panel
unfolding scroll_to_bottom
emit kind title details p =
    let added = record p {
      entry_count = p.entry_count + 1;
      placeholder = false;
      live = true;
      entries = p.entries ++ record { kind = kind; title = title; details = details } ∷ [];
      counter = count_text (p.entry_count + 1);
    } in
    if p.is_open then scroll_to_bottom added else added

-- The three buttons that `bindEvents` connects.
pub data Control : Type 0 where
  trigger close_button clear_button : Control

unfoldable pub click : Control → Panel → Panel
unfolding toggle close clear
click trigger p = toggle p
click close_button p = close p
click clear_button p = clear p
