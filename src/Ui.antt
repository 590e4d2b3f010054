-- ===== src/Ui.antt =====
-- static/js/ui.js, and the part of a page that it works on: the elements with an id in document
-- order, each with the classes that `showStep` reads and writes.
pub mod Screens
mod Tests
use doppelganger_web.Prelude.{
  String, Bool, true, false, List, [], ◌∷◌, not, ◌&&◌, map, if◌then◌else◌, str_eq,
}

pub record Element : Type 0 where
  pub id : String
  pub screen : Bool
  pub hidden : Bool
  pub fade_in : Bool

abbrev pub Page : Type 0
Page = List Element

-- document.querySelectorAll(".screen").forEach(…)
hide : Element → Element
hide el = if el.screen then record el { hidden = true; fade_in = false } else el

-- The element that `getElementById` gives is the first one with the id.
reveal : String → Page → Page
reveal step [] = []
reveal step (el ∷ rest) =
    if str_eq el.id step
    then record el { hidden = false; fade_in = true } ∷ rest
    else el ∷ reveal step rest

unfoldable pub show_step : String → Page → Page
unfolding hide reveal
show_step step page = reveal step (map hide page)

-- The screens of a page that can be seen, by their ids.
abbrev pub visible : Page → List String
visible [] = []
visible (el ∷ rest) =
    let more = visible rest in if el.screen && not el.hidden then el.id ∷ more else more
