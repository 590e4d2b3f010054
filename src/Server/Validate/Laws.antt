-- ===== src/Server/Validate/Laws.antt =====
-- app/utils/validators.py: which bodies pass.
use Prim.Native.String
use doppelganger_web.Prelude.{
  String, Bool, true, false, not, ◌&&◌, ◌≡◌, ◌↔◌, refl, sym, ap, subst, Option, none, some, ltb,
  arith, if◌then◌else◌,
}
use mathlib.Core.Bool.{false≢true}
use doppelganger_web.Exec.{Error, Result, ok, throw}
use doppelganger_web.Exec.Fallible.{◌>>=◌}
use doppelganger_web.Value.{
  Value, undefined, null, bool, num, str, arr, obj, Fields, end, field, find, is_text,
}
use doppelganger_web.Server.{fields_of, text_of, or_default, falsy}
use doppelganger_web.Server.Lookup.{str_eq-path}
use doppelganger_web.Server.Validate.{
  is_blank, len, check, text_at, is_p256, check_key, check_answer, check_name, create_checks,
  verify_checks, validate_session_create, validate_verify,
}

-- The text under a key, and what makes it a name or an answer.
pub record HasName (k : String) (fs : Fields) : Type 0 where
  pub text : String
  pub is_there : find k fs ≡ str text
  pub is_full : is_blank text ≡ false

pub record HasAnswer (k : String) (fs : Fields) : Type 0 where
  pub text : String
  pub is_there : find k fs ≡ str text
  pub is_full : is_blank text ≡ false
  pub is_short : ltb 500 (len text) ≡ false

pub record HasKey (k : String) (fs : Fields) : Type 0 where
  pub key : Fields
  pub is_there : find k fs ≡ obj key
  pub is_ec : find "kty" key ≡ str "EC"
  pub is_p256_curve : find "crv" key ≡ str "P-256"

abbrev Passes : Result (Option String) → Type 0
Passes (ok none) = Unit
Passes (ok (some message)) = ⊥
Passes (throw e) = ⊥

passes : {res : Result (Option String)} → res ≡ ok none → Passes res
passes h = subst Passes (sym h) tt

passed : (res : Result (Option String)) → Passes res → res ≡ ok none
passed (ok none) h = refl
passed (ok (some message)) h = absurd h
passed (throw e) h = absurd h

-- `if test: return message`
check_lem :
    (test : Bool) (message : String) (rest : Result (Option String))
    → Passes (check test message rest)
    → (test ≡ false) × Passes rest
check_lem true message rest h = absurd h
check_lem false message rest h = (refl, h)

module _ (k : String) (fs : Fields) (rest : Result (Option String)) where
  name_of :
      (v : Value)
      → find k fs ≡ v
      → Passes (
          text_of (or_default (str "") v) >>= λ name.
          check (is_blank name) (String.◌++◌ k " required") rest)
      → HasName k fs × Passes rest
  unfolding is_blank
  name_of (str s) there h =
      let (full, more) = check_lem (is_blank s) _ rest h in
      (record { text = s; is_there = there; is_full = full }, more)
  name_of undefined there h = absurd h
  name_of null there h = absurd h
  name_of (bool b) there h = absurd h
  name_of (num n) there h = absurd h
  name_of (arr xs) there h = absurd h
  name_of (obj gs) there h = absurd h

  check_name-HasName : Passes (check_name k fs rest) → HasName k fs × Passes rest
  unfolding check_name text_at
  check_name-HasName h = name_of _ refl h

  HasName-check_name : HasName k fs → Passes rest → Passes (check_name k fs rest)
  unfolding check_name text_at
  HasName-check_name h more = rw h.is_there (rw h.is_full more)

  answer_of :
      (v : Value)
      → find k fs ≡ v
      → Passes (
          text_of (or_default (str "") v) >>= λ answer.
          check
            (is_blank answer)
            (String.◌++◌ k " required")
            (check (ltb 500 (len answer)) (String.◌++◌ k " must be under 500 characters") rest))
      → HasAnswer k fs × Passes rest
  unfolding is_blank
  answer_of (str s) there h =
      let (full, next) = check_lem (is_blank s) _ _ h in
      let (short, more) = check_lem (ltb 500 (len s)) _ rest next in
      (record { text = s; is_there = there; is_full = full; is_short = short }, more)
  answer_of undefined there h = absurd h
  answer_of null there h = absurd h
  answer_of (bool b) there h = absurd h
  answer_of (num n) there h = absurd h
  answer_of (arr xs) there h = absurd h
  answer_of (obj gs) there h = absurd h

  check_answer-HasAnswer : Passes (check_answer k fs rest) → HasAnswer k fs × Passes rest
  unfolding check_answer text_at
  check_answer-HasAnswer h = answer_of _ refl h

  HasAnswer-check_answer : HasAnswer k fs → Passes rest → Passes (check_answer k fs rest)
  unfolding check_answer text_at
  HasAnswer-check_answer h more = rw h.is_there (rw h.is_full (rw h.is_short more))

is_text-path : (s : String) (v : Value) → is_text s v ≡ true → v ≡ str s
is_text-path s (str t) h = ap str (str_eq-path h)
is_text-path s undefined h = absurd (false≢true h)
is_text-path s null h = absurd (false≢true h)
is_text-path s (bool b) h = absurd (false≢true h)
is_text-path s (num n) h = absurd (false≢true h)
is_text-path s (arr xs) h = absurd (false≢true h)
is_text-path s (obj fs) h = absurd (false≢true h)

and_true : (a b : Bool) → not (a && b) ≡ false → (a ≡ true) × (b ≡ true)
and_true a b h = (ground arith, ground arith)

module _ (k : String) (fs : Fields) (no_dict no_key : String) where
  key_of_value : (v : Value) → find k fs ≡ v → Passes (check_key v no_dict no_key) → HasKey k fs
  unfolding check_key
  key_of_value (obj key) there h =
      let (ec, curve) = and_true _ _ (check_lem (not (is_p256 key)) _ _ h).0 in
      record {
        key = key;
        is_there = there;
        is_ec = is_text-path _ _ ec;
        is_p256_curve = is_text-path _ _ curve;
      }
  key_of_value undefined there h = absurd h
  key_of_value null there h = absurd h
  key_of_value (bool b) there h = absurd h
  key_of_value (num n) there h = absurd h
  key_of_value (arr xs) there h = absurd h
  key_of_value (str s) there h = absurd h

  HasKey-check_key : HasKey k fs → Passes (check_key (find k fs) no_dict no_key)
  unfolding check_key
  HasKey-check_key h = rw h.is_there (rw h.is_ec (rw h.is_p256_curve tt))

-- The bodies that the two routes take.
pub record IsCreateBody (fs : Fields) : Type 0 where
  pub name : HasName "alice_name" fs
  pub question : HasAnswer "memory_question" fs
  pub answer : HasAnswer "memory_answer" fs
  pub key : HasKey "alice_pubkey_jwk" fs

pub record IsVerifyBody (fs : Fields) : Type 0 where
  pub name : HasName "bob_name" fs
  pub answer : HasAnswer "answer" fs
  pub key : HasKey "bob_pubkey_jwk" fs

abbrev pub IsObject : (Fields → Type 0) → Value → Type 0
IsObject P v = (fs : Fields) × (v ≡ obj fs) × P fs

no_fields :
    (test : Bool) (message : String) (e : Error)
    → ¬ Passes (if test then ok (some message) else throw e)
no_fields true message e h = h
no_fields false message e h = h

module _ (message : String) (f : Fields → Result (Option String)) where
  object_of :
      (body : Value)
      → Passes (if falsy body then ok (some message) else (fields_of body >>= f))
      → (fs : Fields) × (body ≡ obj fs) × Passes (f fs)
  object_of (obj end) h = absurd h
  object_of (obj (field k v rest)) h = (field k v rest, refl, h)
  object_of undefined h = absurd h
  object_of null h = absurd h
  object_of (bool b) h = absurd (no_fields (falsy (bool b)) message _ h)
  object_of (num n) h = absurd (no_fields (falsy (num n)) message _ h)
  object_of (arr xs) h = absurd (no_fields (falsy (arr xs)) message _ h)
  object_of (str s) h = absurd (no_fields (falsy (str s)) message _ h)

  of_object :
      (fs : Fields) (k s : String)
      → find k fs ≡ str s
      → Passes (f fs)
      → Passes (if falsy (obj fs) then ok (some message) else (fields_of (obj fs) >>= f))
  of_object end k s there h = absurd (subst IsThere there tt)
    where
      IsThere : Value → Type 0
      IsThere undefined = Unit
      IsThere v = ⊥
  of_object (field j v rest) k s there h = h

create_fields : (fs : Fields) → Passes (create_checks fs) ↔ IsCreateBody fs
unfolding create_checks
create_fields fs = (
  λ h.
      let (name, h1) = check_name-HasName "alice_name" fs _ h in
      let (question, h2) = check_answer-HasAnswer "memory_question" fs _ h1 in
      let (answer, h3) = check_answer-HasAnswer "memory_answer" fs _ h2 in
      record {
        name = name;
        question = question;
        answer = answer;
        key = key_of_value "alice_pubkey_jwk" fs _ _ _ refl h3;
      },
  λ b. HasName-check_name "alice_name" fs _ b.name (
      HasAnswer-check_answer "memory_question" fs _ b.question (
        HasAnswer-check_answer "memory_answer" fs _ b.answer
          (HasKey-check_key "alice_pubkey_jwk" fs _ _ b.key))),
)

verify_fields : (fs : Fields) → Passes (verify_checks fs) ↔ IsVerifyBody fs
unfolding verify_checks
verify_fields fs = (
  λ h.
      let (name, h1) = check_name-HasName "bob_name" fs _ h in
      let (answer, h2) = check_answer-HasAnswer "answer" fs _ h1 in
      record { name = name; answer = answer; key = key_of_value "bob_pubkey_jwk" fs _ _ _ refl h2 },
  λ b. HasName-check_name "bob_name" fs _ b.name (
      HasAnswer-check_answer "answer" fs _ b.answer
        (HasKey-check_key "bob_pubkey_jwk" fs _ _ b.key)),
)

-- The validator of the form lets a body through exactly when it is an object with a name that is not blank, a
-- question and an answer that are not blank and have at most 500 characters, and a key of type EC on the
-- curve P-256.
pub validate_session_create-IsCreateBody :
    (body : Value) → (validate_session_create body ≡ ok none) ↔ IsObject IsCreateBody body
unfolding validate_session_create
validate_session_create-IsCreateBody body = (
  λ h.
      let (fs, is, p) = object_of _ create_checks body (passes h) in
      (fs, is, (create_fields fs).0 p),
  λ o.
      let (fs, is, b) = o in
      rw is (
        passed _ (
          of_object _ create_checks fs "alice_name" b.name.text b.name.is_there
            ((create_fields fs).1 b))),
)

-- The validator of an answer lets a body through exactly when it is an object with a name that is not blank, an
-- answer that is not blank and has at most 500 characters, and a key of type EC on the curve P-256.
pub validate_verify-IsVerifyBody :
    (body : Value) → (validate_verify body ≡ ok none) ↔ IsObject IsVerifyBody body
unfolding validate_verify
validate_verify-IsVerifyBody body = (
  λ h.
      let (fs, is, p) = object_of _ verify_checks body (passes h) in
      (fs, is, (verify_fields fs).0 p),
  λ o.
      let (fs, is, b) = o in
      rw is (
        passed _ (
          of_object _ verify_checks fs "bob_name" b.name.text b.name.is_there
            ((verify_fields fs).1 b))),
)
