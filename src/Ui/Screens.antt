-- ===== src/Ui/Screens.antt =====
-- static/js/ui.js: what `showStep` leaves on the page.
use doppelganger_web.Prelude.{
  String, Bool, false, List, [], ◌∷◌, map, ◌≡◌, refl, arith, if◌then◌else◌, str_eq, eq_iff,
}
use doppelganger_web.Ui.{Page, hide, reveal, show_step, visible}

-- Whether the element that `getElementById` gives for this id is a screen.
abbrev pub screen_at : String → Page → Bool
screen_at step [] = false
screen_at step (el ∷ rest) = if str_eq el.id step then el.screen else screen_at step rest

-- What `showStep` leaves alone: the ids, their order and which elements are screens.
abbrev pub layout : Page → List (String × Bool)
layout [] = []
layout (el ∷ rest) = (el.id, el.screen) ∷ layout rest

visible-hide : (page : Page) → visible (map hide page) ≡ []
unfolding hide
visible-hide [] = refl
visible-hide (el ∷ rest) = ground (arith, visible-hide rest)

visible-reveal :
    (step : String) (page : Page)
    → visible (reveal step (map hide page)) ≡ (if screen_at step page then step ∷ [] else [])
unfolding hide reveal
visible-reveal step [] = refl
visible-reveal step (el ∷ rest) =
    ground (arith, visible-hide rest, visible-reveal step rest, eq_iff el.id step)

-- After `showStep(id)` the screen with that id is the only one that can be seen, whatever could be
-- seen before; if no screen has the id, none can be seen.
pub visible-show_step :
    (step : String) (page : Page)
    → visible (show_step step page) ≡ (if screen_at step page then step ∷ [] else [])
unfolding show_step
visible-show_step step page = visible-reveal step page

layout-reveal : (step : String) (page : Page) → layout (reveal step (map hide page)) ≡ layout page
unfolding hide reveal
layout-reveal step [] = refl
layout-reveal step (el ∷ rest) = ground (arith, layout-reveal step rest, layout-hide rest)
  where
    layout-hide : (p : Page) → layout (map hide p) ≡ layout p
    layout-hide [] = refl
    layout-hide (el ∷ rest) = ground (arith, layout-hide rest)

pub layout-show_step : (step : String) (page : Page) → layout (show_step step page) ≡ layout page
unfolding show_step
layout-show_step step page = layout-reveal step page

screen_of : String → List (String × Bool) → Bool
screen_of step [] = false
screen_of step ((id, screen) ∷ rest) = if str_eq id step then screen else screen_of step rest

screen_at-eq : (step : String) (page : Page) → screen_at step page ≡ screen_of step (layout page)
unfolding screen_of
screen_at-eq step [] = refl
screen_at-eq step (el ∷ rest) = ground (arith, screen_at-eq step rest)

-- Pages with one layout have the same screens.
pub screen_at_of_layout :
    (step : String) (p q : Page) → layout p ≡ layout q → screen_at step p ≡ screen_at step q
screen_at_of_layout step p q h = cc (screen_at-eq step p, screen_at-eq step q)
