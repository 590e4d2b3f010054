-- ===== src/Panel/Render.antt =====
-- static/js/debug.js: the markup that `emit` gives an entry. Titles and values go into it as they
-- are, with nothing escaped.
use doppelganger_web.Prelude.{String, Option, none, some, [], ◌∷◌}
use doppelganger_web.Text.{concat, join}
use doppelganger_web.Value.{Value, arr, Fields, end, field, to_text, item_texts}
use doppelganger_web.Panel.{Kind, key, network, embed, score, phase, info, Entry}

abbrev pub name : Kind → String
name key = "key"
name network = "network"
name embed = "embed"
name score = "score"
name phase = "phase"
name info = "info"

-- type.toUpperCase()
abbrev pub upper_name : Kind → String
upper_name key = "KEY"
upper_name network = "NETWORK"
upper_name embed = "EMBED"
upper_name score = "SCORE"
upper_name phase = "PHASE"
upper_name info = "INFO"

-- One round of the loop over `Object.entries(data)`.
unfoldable pub row : String → Value → String
row k (arr xs) =
    concat
      (k ∷ ":\n" ∷ "<code class=\"debug-array\">[" ∷ join ", " (item_texts xs) ∷ "]</code>" ∷ [])
row k v = concat (k ∷ ": <span class=\"debug-value\">" ∷ to_text v ∷ "</span>\n" ∷ [])

unfoldable pub rows : Fields → String
unfolding row
rows end = ""
rows (field k v rest) = concat (row k v ∷ rows rest ∷ [])

unfoldable pub body : Option Fields → String
unfolding rows
body none = ""
body (some fs) = concat ("<div class=\"debug-entry-body\">" ∷ rows fs ∷ "</div>" ∷ [])

-- entry.innerHTML, for the time of day that the clock shows.
unfoldable pub entry_html : String → Entry → String
unfolding body
entry_html time e = concat (
    "\n            <div class=\"debug-entry-header\">\n                <span class=\"debug-entry-type "
    ∷ name e.kind
    ∷ "\">"
    ∷ upper_name e.kind
    ∷ "</span>\n                <span class=\"debug-entry-title\">"
    ∷ e.title
    ∷ "</span>\n                <span class=\"debug-entry-time\">"
    ∷ time
    ∷ "</span>\n            </div>\n            "
    ∷ body e.details
    ∷ "\n        "
    ∷ [])
