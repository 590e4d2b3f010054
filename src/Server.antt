-- ===== src/Server.antt =====
-- The server under app/: what its parts share. JSON values are those of Value.antt, where Python's None is
-- `null` and a dict an object; a key that is missing reads as `undefined`, which is no JSON value.
-- A number stands as the text that `repr` gives, so a float is compared and computed with by `Python` alone.
pub mod Redis
pub mod Event
pub mod Store
pub mod Validate
pub mod Embed
pub mod Scoring
pub mod Session
pub mod Verify
pub mod Run
mod Lookup
pub mod Effects
pub mod Starts
pub mod Once
pub mod Origin
pub mod Life
pub mod Resend
pub mod Visible
pub mod Unique
pub mod Handshake
pub mod Stream
mod Tests
use doppelganger_web.Prelude.{
  ℕ, String, Bool, true, false, not, List, [], ◌∷◌, ◌||◌, if◌then◌else◌, str_eq,
}
use doppelganger_web.Exec.{Error, raised, Result, ok, throw, Exec}
use doppelganger_web.Value.{
  Value, undefined, null, bool, num, str, arr, obj, Items, nil, cons, Fields, end, field, object,
}

-- What the code calls of Python's library, of numpy and of qrcode. A function that may raise gives a
-- `Result`.
pub record Python : Type 0 where
  pub dumps : Value → String
  pub loads : String → Result Value
  pub array : Value → Result Value
  pub norm : Value → String
  pub is_zero : String → Bool
  pub dot : Value → Value → Result String
  pub quotient : String → String → String → String
  pub at_least : String → String → Bool
  pub is_finite : String → Bool
  pub percent : String → String
  pub round_to_4 : String → String
  pub round_to_6 : Value → Result Value
  pub float : String → Result String
  pub qr_code : String → Result String

-- round(score * 100), which raises on NaN and on an infinite score; the routes answer both errors alike.
abbrev pub percent_of : Python → String → Result String
percent_of py score =
    if py.is_finite score then ok (py.percent score) else throw (raised "ValueError")

-- app/config.py, as far as the routes read it.
pub record Config : Type 0 where
  pub ttl : ℕ
  pub threshold : String
  pub base_url : String

-- jsonify(body), status
pub record Reply : Type 0 where
  pub status : ℕ
  pub body : Fields

abbrev pub refusal : String → ℕ → Reply
refusal text status = record { status = status; body = object (("error", str text) ∷ []) }

-- `not v`
abbrev pub falsy : Value → Bool
falsy undefined = true
falsy null = true
falsy (bool b) = not b
falsy (num n) = str_eq n "0" || (str_eq n "0.0" || str_eq n "-0.0")
falsy (str s) = str_eq s ""
falsy (arr nil) = true
falsy (arr (cons v rest)) = false
falsy (obj end) = true
falsy (obj (field k v rest)) = false

-- v.get(…), v[…] and the methods of strings raise on a value of another type.
abbrev pub fields_of : Value → Result Fields
fields_of (obj fs) = ok fs
fields_of _ = throw (raised "AttributeError")

abbrev pub text_of : Value → Result String
text_of (str s) = ok s
text_of _ = throw (raised "AttributeError")

-- d.get(k, default)
abbrev pub or_default : Value → Value → Value
or_default default undefined = default
or_default default v = v

-- The error handlers of app/__init__.py: what a route that raises answers under /api.
unfoldable pub error_reply : Error → Reply
error_reply (raised s) =
    if str_eq s "RedisError"
    then refusal "Session store is busy. Please try again in a moment." 503
    else refusal "Internal server error. Please try again." 500
error_reply _ = refusal "Internal server error. Please try again." 500
