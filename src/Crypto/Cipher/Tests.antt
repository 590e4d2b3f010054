-- ===== src/Crypto/Cipher/Tests.antt =====
-- A cipher that has the laws, and messages that are sent with it.
use Prim.Native.Nat.{compare, Ordering}
use Prim.Native.Char.{Char, char, code, nul, IsLt, IsScalar}
use doppelganger_web.Prelude.{
  ℕ, zero, suc, ◌+◌, String, Bool, true, false, List, [], ◌∷◌, ◌≡◌, refl, ap, sym, subst, ◌∙◌,
  arith, All, ltb, ◌==◌, ◌&&◌, if◌then◌else◌,
}
use doppelganger_web.Exec.{Result, ok, throw, raised}
use doppelganger_web.Crypto.Cipher.{
  Cipher, IsByte, has_mark, IsLawful, Message, to_base64, from_base64, encrypt, decrypt,
  from_base64-to_base64, decrypt-encrypt,
}

-- The character with a number, as IsScalar tells it.
abbrev Below : Ordering → Ordering → Type 0
Below Ordering.lt q = IsLt q
Below Ordering.eq q = ⊥
Below Ordering.gt q = ⊥

abbrev Scalar : Ordering → Ordering → Ordering → Type 0
Scalar Ordering.lt p q = Unit
Scalar Ordering.eq p q = Below p q
Scalar Ordering.gt p q = Below p q

abbrev high : (n : ℕ) (p q : Ordering) → (Below p q → IsScalar n) → Char
high n Ordering.lt Ordering.lt f = char n (f tt)
high n _ _ f = nul

abbrev built : (n : ℕ) (o p q : Ordering) → (Scalar o p q → IsScalar n) → Char
built n Ordering.lt p q f = char n (f tt)
built n Ordering.eq p q f = high n p q f
built n Ordering.gt p q f = high n p q f

high-eq :
    (n : ℕ) (p q : Ordering) (f : Below p q → IsScalar n) (s : Below p q)
    → high n p q f ≡ char n (f s)
high-eq n Ordering.lt Ordering.lt f s = refl
high-eq n Ordering.lt Ordering.eq f s = absurd s
high-eq n Ordering.lt Ordering.gt f s = absurd s
high-eq n Ordering.eq q f s = absurd s
high-eq n Ordering.gt q f s = absurd s

built-eq :
    (n : ℕ) (o p q : Ordering) (f : Scalar o p q → IsScalar n) (s : Scalar o p q)
    → built n o p q f ≡ char n (f s)
built-eq n Ordering.lt p q f s = refl
built-eq n Ordering.eq p q f s = high-eq n p q f s
built-eq n Ordering.gt p q f s = high-eq n p q f s

abbrev to_char : ℕ → Char
to_char n = built n (compare n 55296) (compare 57343 n) (compare n 1114112) (λ s. s)

to_char-code : (c : Char) → to_char (code c) ≡ c
to_char-code (char n s) =
    built-eq n (compare n 55296) (compare 57343 n) (compare n 1114112) (λ s. s) s

abbrev codes : String → List ℕ
codes String.[] = []
codes (String.◌∷◌ c s) = code c ∷ codes s

abbrev text : List ℕ → String
text [] = ""
text (n ∷ rest) = String.◌∷◌ (to_char n) (text rest)

-- A decoder that drops a byte order mark at the start.
abbrev decoded : List ℕ → String
decoded [] = ""
decoded (n ∷ rest) = if n == 65279 then text rest else text (n ∷ rest)

text-codes : (s : String) → text (codes s) ≡ s
text-codes String.[] = refl
text-codes (String.◌∷◌ c s) =
    ap (λ d. String.◌∷◌ d (text (codes s))) (to_char-code c) ∙ ap (String.◌∷◌ c) (text-codes s)

decoded-codes : (s : String) → has_mark s ≡ false → decoded (codes s) ≡ s
decoded-codes String.[] h = refl
decoded-codes (String.◌∷◌ c s) h = rw h (text-codes (String.◌∷◌ c s))

abbrev all_bytes : List ℕ → Bool
all_bytes [] = true
all_bytes (n ∷ rest) = let more = all_bytes rest in ltb n 256 && more

all_bytes_of : (ns : List ℕ) → all_bytes ns ≡ true → All IsByte ns
all_bytes_of [] h = tt
all_bytes_of (n ∷ rest) h = (ground arith, all_bytes_of rest (ground arith))

-- Bytes stay as they are, other texts are refused.
abbrev sealing : List ℕ → Result (List ℕ)
sealing ns = if all_bytes ns then ok ns else throw (raised "OperationError")

sealed_bytes :
    (b : Bool) (ns sealed : List ℕ)
    → all_bytes ns ≡ b
    → (if b then ok ns else throw (raised "OperationError")) ≡ ok sealed
    → (ns ≡ sealed) × All IsByte ns
sealed_bytes true ns sealed h e = (cc, all_bytes_of ns h)
sealed_bytes false ns sealed h e = cc

-- A number in unary.
abbrev unary : ℕ → String → String
unary zero s = String.◌∷◌ (char 46 tt) s
unary (suc n) s = String.◌∷◌ (char 49 tt) (unary n s)

abbrev written : List ℕ → String
written [] = ""
written (n ∷ rest) = unary n (written rest)

abbrev numbers : ℕ → String → List ℕ
numbers n String.[] = []
numbers n (String.◌∷◌ c s) =
    let more = numbers (suc n) s in
    let others = numbers 0 s in if code c == 49 then more else n ∷ others

numbers-unary : (n m : ℕ) (s : String) → numbers n (unary m s) ≡ (n + m) ∷ numbers 0 s
numbers-unary n zero s = ap (λ k. k ∷ numbers 0 s) (omega arith)
numbers-unary n (suc m) s = numbers-unary (suc n) m s ∙ ap (λ k. k ∷ numbers 0 s) (omega arith)

numbers-written : (ns : List ℕ) → numbers 0 (written ns) ≡ ns
numbers-written [] = refl
numbers-written (n ∷ rest) =
    numbers-unary 0 n (written rest)
    ∙ ap (λ k. k ∷ numbers 0 (written rest)) (omega arith)
    ∙ ap (λ ms. n ∷ ms) (numbers-written rest)

same_text : (a b : String) → ok a ≡ ok b → a ≡ b
same_text a b h = cc

abbrev pub plain_cipher : Cipher
plain_cipher = record {
  encrypt_bytes = λ k iv plain. sealing plain;
  decrypt_bytes = λ k iv sealed. ok sealed;
  encode = codes;
  decode = decoded;
  btoa = λ bytes. ok (written bytes);
  atob = λ s. ok (numbers 0 s);
  takes_arguments = λ n. ltb n 100000;
}

pub plain_cipher-IsLawful : IsLawful plain_cipher
plain_cipher-IsLawful = record {
  encrypted_bytes = λ k iv plain sealed e.
      subst (All IsByte) (sealed_bytes (all_bytes plain) plain sealed refl e).0
        (sealed_bytes (all_bytes plain) plain sealed refl e).1;
  decrypt-encrypt =
      λ k iv plain sealed e. ap ok (sym (sealed_bytes (all_bytes plain) plain sealed refl e).0);
  decode-encode = decoded-codes;
  btoa_total = λ bytes small. (written bytes, refl);
  atob-btoa = λ bytes s e.
      ap (λ w. ok (numbers 0 w)) (sym (same_text (written bytes) s e))
      ∙ ap ok (numbers-written bytes);
}

abbrev bytes : List ℕ
bytes = 0 ∷ 7 ∷ 255 ∷ []

from_base64-to_base64_example :
    (s : String) × (to_base64 plain_cipher bytes ≡ ok s) × (from_base64 plain_cipher s ≡ ok bytes)
from_base64-to_base64_example =
    from_base64-to_base64 plain_cipher plain_cipher-IsLawful bytes (ground arith) refl

decrypt-encrypt_example :
    (m : Message) × (encrypt plain_cipher bytes 4 "hello" ≡ ok m)
    × (decrypt plain_cipher 4 m.iv m.ciphertext ≡ ok "hello")
decrypt-encrypt_example =
    decrypt-encrypt plain_cipher plain_cipher-IsLawful bytes 4 "hello" (codes "hello")
      (ground arith) refl refl refl refl

-- A text that starts with U+FEFF comes back without it.
abbrev marked : String
marked = String.◌∷◌ (char 65279 tt) "hi"

mark_is_lost : decoded (codes marked) ≡ "hi"
mark_is_lost = refl
