-- ===== src/Panel/Tests.antt =====
-- A log that is opened with one entry in it, and an entry with markup in a value.
use doppelganger_web.Prelude.{none, some, [], ◌∷◌, refl}
use doppelganger_web.Value.{Fields, str, object, to_text}
use doppelganger_web.Panel.{Entry, init, emit, info, network, click, trigger}
use doppelganger_web.Panel.Laws.{IsValid, init-IsValid, emit-IsValid, click-IsValid}
use doppelganger_web.Panel.Render.{entry_html}
use doppelganger_web.Panel.Verbatim.{Within, first, entry_html-Within}

emit-IsValid_example : IsValid (emit info "hello" none init)
emit-IsValid_example = emit-IsValid info "hello" none init init-IsValid

click-IsValid_example : IsValid (click trigger (emit info "hello" none init))
click-IsValid_example =
    click-IsValid trigger (emit info "hello" none init)
      (emit-IsValid info "hello" none init init-IsValid)

abbrev details : Fields
details = object (("alice_name", str "<img src=x onerror=alert(1)>") ∷ [])

abbrev entry : Entry
entry = record {
  kind = network;
  title = "GET /api/session → phase: WAITING_FOR_BOB";
  details = some details;
}

entry_html-Within_example :
    Within entry.title (entry_html "12:00:00.000" entry)
    × Within "<img src=x onerror=alert(1)>" (entry_html "12:00:00.000" entry)
unfolding to_text
entry_html-Within_example =
    entry_html-Within "12:00:00.000" "alice_name" (str "<img src=x onerror=alert(1)>") entry details
      refl (first _)
