-- ===== src/Server/Validate.antt =====
-- app/utils/validators.py. The texts are those of Python: a length counts characters, and white space is
-- what `str.strip` removes.
pub mod Laws
use Prim.Native.Char.{Char, code}
use Prim.Native.String
use doppelganger_web.Prelude.{
  ℕ, suc, String, Bool, true, false, not, ◌&&◌, ◌||◌, Option, none, some, ltb, leb, ◌==◌,
  if◌then◌else◌,
}
use doppelganger_web.Exec.{Result, ok}
use doppelganger_web.Exec.Fallible.{◌>>=◌}
use doppelganger_web.Value.{Value, str, Fields, obj, find, is_text}
use doppelganger_web.Server.{falsy, fields_of, text_of, or_default}

abbrev pub is_py_space : Char → Bool
is_py_space c =
    let n = code c in
    leb 9 n && leb n 13
    || (leb 0x1C n && leb n 0x20
        || (n == 0x85
            || (n == 0xA0
                || (n == 0x1680
                    || (leb 0x2000 n && leb n 0x200A
                        || (n == 0x2028
                            || (n == 0x2029 || (n == 0x202F || (n == 0x205F || n == 0x3000)))))))))

-- not s.strip()
unfoldable pub is_blank : String → Bool
is_blank String.[] = true
is_blank (String.◌∷◌ c s) = let rest = is_blank s in is_py_space c && rest

-- len(s)
unfoldable pub len : String → ℕ
len String.[] = 0
len (String.◌∷◌ c s) = suc (len s)

-- `if test: return message`
abbrev pub check : Bool → String → Result (Option String) → Result (Option String)
check true message rest = ok (some message)
check false message rest = rest

-- data.get(k, ""), on which a method of strings is called
unfoldable pub text_at : String → Fields → Result String
text_at k fs = text_of (or_default (str "") (find k fs))

-- pubkey.get("kty") != "EC" or pubkey.get("crv") != "P-256"
abbrev pub is_p256 : Fields → Bool
is_p256 key = is_text "EC" (find "kty" key) && is_text "P-256" (find "crv" key)

unfoldable pub check_key : Value → String → String → Result (Option String)
check_key (obj key) no_dict no_key = check (not (is_p256 key)) no_key (ok none)
check_key _ no_dict no_key = ok (some no_dict)

-- The checks of a body that is there, from a text on.
unfoldable pub check_answer : String → Fields → Result (Option String) → Result (Option String)
unfolding is_blank len text_at
check_answer k fs rest = do
  answer ← text_at k fs
  check (is_blank answer) (String.◌++◌ k " required")
      (check (ltb 500 (len answer)) (String.◌++◌ k " must be under 500 characters") rest)

unfoldable pub check_name : String → Fields → Result (Option String) → Result (Option String)
unfolding is_blank text_at
check_name k fs rest = do
  name ← text_at k fs
  check (is_blank name) (String.◌++◌ k " required") rest

-- The checks of an object.
unfoldable pub create_checks : Fields → Result (Option String)
unfolding check_answer check_name check_key
create_checks fs = check_name "alice_name" fs (
    check_answer "memory_question" fs (
      check_answer "memory_answer" fs (
        check_key (find "alice_pubkey_jwk" fs) "alice_pubkey_jwk must be a JWK object"
          "alice_pubkey_jwk must be an EC P-256 key")))

unfoldable pub verify_checks : Fields → Result (Option String)
unfolding check_answer check_name check_key
verify_checks fs = check_name "bob_name" fs (
    check_answer "answer" fs (
      check_key (find "bob_pubkey_jwk" fs) "bob_pubkey_jwk must be a JWK object"
        "bob_pubkey_jwk must be an EC P-256 key"))

unfoldable pub validate_session_create : Value → Result (Option String)
unfolding create_checks
validate_session_create body =
    if falsy body then ok (some "Request body required") else (fields_of body >>= create_checks)

unfoldable pub validate_verify : Value → Result (Option String)
unfolding verify_checks
validate_verify body =
    if falsy body then ok (some "Request body required") else (fields_of body >>= verify_checks)
