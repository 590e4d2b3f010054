-- ===== src/Exec.antt =====
-- JavaScript code that changes the page and may throw. What was written before a throw stays
-- written, so the state comes back beside the error too.
pub mod Keeps
pub mod Ends
pub mod Fallible
use mathlib.Core.Path.{◌≡◌, refl}
use doppelganger_web.Prelude.{Bool, String, Option, none, some}

-- What a handler can catch: a TypeError at the property or method that is named, JSON.parse's
-- SyntaxError, and an Error with a message (thrown by the code, or the reason of a rejected promise).
pub data Error : Type 0 where
  type_error : String → Error
  syntax_error : Error
  raised : String → Error

-- A value, or a throw. A promise that is settled is one of the two as well.
pub data Result (A : Type 0) : Type 0 where
  ok : A → Result A
  throw : Error → Result A

abbrev pub Exec : Type 0 → Type 0 → Type 0
Exec S A = S → Result A × S

module _ {S A : Type 0} where
  unfoldable pub pure : A → Exec S A
  pure a s = (ok a, s)

  unfoldable pub lift : Result A → Exec S A
  lift r s = (r, s)

  unfoldable pub gets : (S → A) → Exec S A
  gets f s = (ok (f s), s)

  -- The state after the code, as an event loop sees it: an error that nothing catches is dropped.
  abbrev pub run : Exec S A → S → S
  run m s = (m s).1

module _ {S : Type 0} where
  unfoldable pub modify : (S → S) → Exec S Unit
  modify f s = (ok tt, f s)

  unfoldable pub done : Exec S Unit
  done s = (ok tt, s)

module _ {S A B : Type 0} where
  unfoldable pub and_then : Result A → (A → Exec S B) → Exec S B
  and_then (ok a) f s = f a s
  and_then (throw e) f s = (throw e, s)

  infixl 10 ◌>>=◌ ◌>>◌
  unfoldable pub ◌>>=◌ : Exec S A → (A → Exec S B) → Exec S B
  unfolding and_then pure lift gets modify done
  ◌>>=◌ m f s = and_then (m s).0 f (m s).1

  abbrev pub ◌>>◌ : Exec S A → Exec S B → Exec S B
  m >> n = m >>= λ _. n

module _ {S A : Type 0} where
  recover : Result A → (Error → Exec S A) → Exec S A
  recover (ok a) h s = (ok a, s)
  recover (throw e) h s = h e s

  -- try { m } catch (err) { h(err) }
  unfoldable pub attempt : Exec S A → (Error → Exec S A) → Exec S A
  unfolding recover
  attempt m h s = recover (m s).0 h (m s).1
