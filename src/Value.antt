-- ===== src/Value.antt =====
-- Values of the language, as `JSON.parse` and `response.json()` give them, and the operations on
-- them that the code uses. A number stands as the text that `String(n)` gives: the code prints
-- numbers, tests their truth and rounds them with `toFixed`, and makes no arithmetic.
use doppelganger_web.Prelude.{
  Option, none, some, String, Bool, true, false, not, ◌||◌, List, [], ◌∷◌, if◌then◌else◌, str_eq, ℕ,
  zero, suc,
}
use doppelganger_web.Exec.{Error, type_error, syntax_error, raised, Result, ok, throw}
use doppelganger_web.Text.{concat, join, slice_to}

mutual
  pub data Fields : Type 0 where
    end : Fields
    field : String → Value → Fields → Fields

  pub data Value : Type 0 where
    undefined null : Value
    bool : Bool → Value
    num : String → Value
    str : String → Value
    arr : Items → Value
    obj : Fields → Value

  pub data Items : Type 0 where
    nil : Items
    cons : Value → Items → Items

abbrev pub truthy : Value → Bool
truthy undefined = false
truthy null = false
truthy (bool b) = b
truthy (num n) = not (str_eq n "0" || str_eq n "NaN")
truthy (str s) = not (str_eq s "")
truthy _ = true

-- A missing key reads as `undefined`.
abbrev pub find : String → Fields → Value
find k end = undefined
find k (field j v rest) = if str_eq j k then v else find k rest

-- v.k, for a name k that no built-in prototype has.
abbrev pub get : String → Value → Result Value
get k undefined = throw (type_error k)
get k null = throw (type_error k)
get k (obj fs) = ok (find k fs)
get k _ = ok undefined

-- v === "s"
abbrev pub is_text : String → Value → Bool
is_text s (str t) = str_eq t s
is_text s _ = false

abbrev pub is_undefined : Value → Bool
is_undefined undefined = true
is_undefined _ = false

-- `${v}` and `join`, which leaves out `undefined` and `null`. An object with a field toString, which cannot be
-- made a text, is shown like any other: the server puts none where the code makes texts.
unfoldable mutual
  pub to_text : Value → String
  to_text undefined = "undefined"
  to_text null = "null"
  to_text (bool true) = "true"
  to_text (bool false) = "false"
  to_text (num n) = n
  to_text (str s) = s
  to_text (arr xs) = join "," (item_texts xs)
  to_text (obj fs) = "[object Object]"

  pub item_texts : Items → List String
  item_texts nil = []
  item_texts (cons v rest) = item_text v ∷ item_texts rest

  pub item_text : Value → String
  item_text undefined = ""
  item_text null = ""
  item_text (bool true) = "true"
  item_text (bool false) = "false"
  item_text (num n) = n
  item_text (str s) = s
  item_text (arr xs) = join "," (item_texts xs)
  item_text (obj fs) = "[object Object]"

-- What `node.textContent = v` shows.
unfoldable pub shown : Value → String
unfolding to_text
shown undefined = ""
shown null = ""
shown v = to_text v

abbrev pub take_items : ℕ → Items → Items
take_items zero xs = nil
take_items (suc n) nil = nil
take_items (suc n) (cons v rest) = cons v (take_items n rest)

abbrev pub count_items : Items → ℕ
count_items nil = zero
count_items (cons v rest) = suc (count_items rest)

-- v.slice(0, n) + suffix: strings and arrays have `slice`, and nothing else does.
unfoldable pub cut : ℕ → String → Value → Result String
unfolding slice_to
cut n suffix (str s) = ok (concat (slice_to n s ∷ suffix ∷ []))
cut n suffix (arr xs) = ok (concat (join "," (item_texts (take_items n xs)) ∷ suffix ∷ []))
cut n suffix _ = throw (type_error "slice")

-- v.join(", ")
unfoldable pub joined : Value → Result String
joined (arr xs) = ok (join ", " (item_texts xs))
joined _ = throw (type_error "join")

abbrev pub object : List (String × Value) → Fields
object [] = end
object ((k, v) ∷ rest) = field k v (object rest)

-- What differs between engines, or is a built-in function that is not spelled out here: the message
-- of a TypeError at a property and of a SyntaxError, `toFixed`, and `JSON.parse` (`none` where it
-- throws).
pub record Engine : Type 0 where
  pub type_message : String → String
  pub syntax_message : String
  pub to_fixed : ℕ → String → String
  pub json_parse : String → Option Value

-- err.message
abbrev pub message : Engine → Error → String
message engine (type_error k) = engine.type_message k
message engine syntax_error = engine.syntax_message
message engine (raised s) = s

-- JSON.parse(s)
abbrev pub parse_json : Engine → String → Result Value
parse_json engine s = elim (engine.json_parse s) [ none ↦ throw syntax_error | some v ↦ ok v ]

-- promise.catch(() => ({}))
abbrev pub or_empty : Result Value → Value
or_empty (ok v) = v
or_empty (throw e) = obj end

-- `${score}` with the text that follows it.
abbrev pub score_text : Value → String → String
score_text score suffix = concat (to_text score ∷ suffix ∷ [])
