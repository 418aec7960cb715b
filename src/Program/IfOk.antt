-- ===== src/Program/IfOk.antt =====
-- What holds of the value of a Go call, if it has one.
use mathlib.Core.Path.{subst}
use runbooks.Prelude.{◌≡◌}
use runbooks.Program.Calls.{Go, ok, err, panic}
use runbooks.Program.Fallible.{◌>>=◌}

abbrev pub IfOk : {A : Type 0} → (A → Type 0) → Go A → Type 0
IfOk P (ok a) = P a
IfOk P g = Unit

pub IfOk-ok : {A : Type 0} (P : A → Type 0) (g : Go A) (a : A) → IfOk P g → g ≡ ok a → P a
IfOk-ok P g a holds same = subst (IfOk P) same holds

pub >>=-IfOk :
    {A B : Type 0} (P : A → Type 0) (Q : B → Type 0) (g : Go A) (f : A → Go B)
    → IfOk P g
    → ((a : A) → P a → IfOk Q (f a))
    → IfOk Q (g >>= f)
>>=-IfOk P Q (ok a) f holds each = each a holds
>>=-IfOk P Q (err e) f holds each = tt
>>=-IfOk P Q (panic e) f holds each = tt
