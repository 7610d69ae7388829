-- ===== src/Base/Result.antt =====
-- `Result<A, E>` with a third case: `panicked` is a call that panics (`expect`, `unwrap`).
use mathlib.Core.Path.{◌≡◌, refl}

pub data Result (E A : Type 0) : Type 0 where
  ok : A → Result E A
  err : E → Result E A
  panicked : Result E A

-- The `?` operator.
infixl 5 ◌>>=◌
abbrev pub ◌>>=◌ : {E A B : Type 0} → Result E A → (A → Result E B) → Result E B
ok a >>= f = f a
err e >>= f = err e
panicked >>= f = panicked

pub err-ne-ok : {E A : Type 0} {x : E} {a : A} → err x ≡ ok a → ⊥
err-ne-ok e = cc

pub panicked-ne-ok : {E A : Type 0} {a : A} → ◌≡◌ {A = Result E A} panicked (ok a) → ⊥
panicked-ne-ok e = cc

pub ok-eq : {E A : Type 0} {a b : A} → ◌≡◌ {A = Result E A} (ok a) (ok b) → a ≡ b
ok-eq e = cc

pub bind-ok :
    {E A B : Type 0} {b : B} (r : Result E A) (f : A → Result E B)
    → (r >>= f) ≡ ok b
    → (a : A) × (r ≡ ok a) × (f a ≡ ok b)
bind-ok (ok a) f e = (a, refl, e)
bind-ok (err x) f e = absurd (err-ne-ok e)
bind-ok panicked f e = absurd (panicked-ne-ok e)
