-- ===== src/Panel/Verbatim.antt =====
-- static/js/debug.js: what `emit` makes of titles and values in the markup of an entry.
use Prim.Native.String
use text.Mathlib.TextLemmas.{nil-append, append_assoc}
use doppelganger_web.Prelude.{String, Option, some, ◌≡◌, sym, ap, ◌∙◌, subst}
use doppelganger_web.Text.{join}
use doppelganger_web.Value.{Value, arr, Fields, field, to_text, item_texts}
use doppelganger_web.Panel.{Entry}
use doppelganger_web.Panel.Render.{row, rows, body, entry_html}

-- The text `s` stands somewhere in the text `t`.
pub record Within (s t : String) : Type 0 where
  pub before : String
  pub after : String
  pub split : t ≡ String.◌++◌ before (String.◌++◌ s after)

-- One of the fields is `k` with the value `v`.
pub data Has (k : String) (v : Value) : Fields → Type 0 where
  first : (rest : Fields) → Has k v (field k v rest)
  later : (j : String) (w : Value) (rest : Fields) → Has k v rest → Has k v (field j w rest)

-- What a row shows of a value.
abbrev pub row_text : Value → String
row_text (arr xs) = join ", " (item_texts xs)
row_text v = to_text v

Within-first : (s t : String) → Within s (String.◌++◌ s t)
Within-first s t = record { before = ""; after = t; split = sym (nil-append (String.◌++◌ s t)) }

Within-right : (s t u : String) → Within s t → Within s (String.◌++◌ u t)
Within-right s t u w = record {
  before = String.◌++◌ u w.before;
  after = w.after;
  split = ap (String.◌++◌ u) w.split ∙ sym (append_assoc u w.before (String.◌++◌ s w.after));
}

Within-left : (s t u : String) → Within s t → Within s (String.◌++◌ t u)
Within-left s t u w = record {
  before = w.before;
  after = String.◌++◌ w.after u;
  split =
      ap (λ x. String.◌++◌ x u) w.split
      ∙ append_assoc w.before (String.◌++◌ s w.after) u
      ∙ ap (String.◌++◌ w.before) (append_assoc s w.after u);
}

row-Within : (k : String) (v : Value) → Within (row_text v) (row k v)
unfolding row
row-Within k (arr xs) =
    Within-right _ _ _ (Within-right _ _ _ (Within-right _ _ _ (Within-first _ _)))
row-Within k _ = Within-right _ _ _ (Within-right _ _ _ (Within-first _ _))

rows-Within : (k : String) (v : Value) (fs : Fields) → Has k v fs → Within (row_text v) (rows fs)
unfolding rows
rows-Within k v fs (first rest) = Within-left _ _ _ (row-Within k v)
rows-Within k v fs (later j w rest h) = Within-right _ _ _ (rows-Within k v rest h)

body-Within :
    (k : String) (v : Value) (o : Option Fields) (fs : Fields)
    → o ≡ some fs
    → Has k v fs
    → Within (row_text v) (body o)
unfolding body
body-Within k v o fs given h =
    subst (λ p. Within (row_text v) (body p)) (sym given)
      (Within-right _ _ _ (Within-left _ _ _ (rows-Within k v fs h)))

-- The title of an entry, and every value among its details as the row shows it, stand in the markup
-- of the entry just as they are: characters such as `<` are not replaced.
pub entry_html-Within :
    (time k : String) (v : Value) (e : Entry) (fs : Fields)
    → e.details ≡ some fs
    → Has k v fs
    → Within e.title (entry_html time e) × Within (row_text v) (entry_html time e)
unfolding entry_html
entry_html-Within time k v e fs given h = (
  Within-right _ _ _ (
      Within-right _ _ _
        (Within-right _ _ _ (Within-right _ _ _ (Within-right _ _ _ (Within-first _ _))))),
  Within-right _ _ _ (
      Within-right _ _ _ (
        Within-right _ _ _ (
          Within-right _ _ _ (
            Within-right _ _ _ (
              Within-right _ _ _ (
                Within-right _ _ _ (
                  Within-right _ _ _ (
                    Within-right _ _ _
                      (Within-left _ _ _ (body-Within k v e.details fs given h)))))))))),
)
