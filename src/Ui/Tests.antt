-- ===== src/Ui/Tests.antt =====
-- A page with two screens and an element that is none.
use doppelganger_web.Prelude.{false, true, [], ◌∷◌, ◌≡◌, if◌then◌else◌}
use doppelganger_web.Ui.{Page, show_step, visible}
use doppelganger_web.Ui.Screens.{screen_at, visible-show_step}

abbrev page : Page
page =
    record { id = "step-loading"; screen = true; hidden = false; fade_in = true }
    ∷ record { id = "key-status"; screen = false; hidden = false; fade_in = false }
    ∷ record { id = "step-expired"; screen = true; hidden = true; fade_in = false }
    ∷ []

visible-show_step_example :
    visible (show_step "step-expired" page)
    ≡ (if screen_at "step-expired" page then "step-expired" ∷ [] else [])
visible-show_step_example = visible-show_step "step-expired" page
