-- ===== src/Exec/Fallible.antt =====
-- Code with no state that may throw: `do` blocks of `Result`.
use doppelganger_web.Prelude.{◌≡◌, refl, subst}
use doppelganger_web.Exec.{Result, ok, throw}

infixl 10 ◌>>=◌
abbrev pub ◌>>=◌ : {A B : Type 0} → Result A → (A → Result B) → Result B
ok a >>= f = f a
throw e >>= f = throw e

-- What a chain that gives a value has gone through.
pub bind-ok :
    {A B : Type 0} (r : Result A) (f : A → Result B) (b : B)
    → (r >>= f) ≡ ok b
    → (a : A) × (r ≡ ok a) × (f a ≡ ok b)
bind-ok (ok a) f b h = (a, refl, h)
bind-ok {B = B} (throw e) f b h = absurd (subst IsThrow h tt)
  where
    IsThrow : Result B → Type 0
    IsThrow (ok b) = ⊥
    IsThrow (throw e) = Unit
