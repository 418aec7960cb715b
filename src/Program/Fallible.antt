-- ===== src/Program/Fallible.antt =====
-- Chains of Go calls whose errors are returned at once.
use runbooks.Prelude.{String, ◌<>◌, ◌≡◌, refl}
use runbooks.Program.Calls.{Go, ok, err, panic}

infixl 5 ◌>>=◌
abbrev pub ◌>>=◌ : {A B : Type 0} → Go A → (A → Go B) → Go B
ok a >>= f = f a
err e >>= f = err e
panic s >>= f = panic s

-- `fmt.Errorf("<what>: %w", err)` on the error, if there is one.
abbrev pub wrap : {A : Type 0} → String → Go A → Go A
wrap what (ok a) = ok a
wrap what (err e) = err (what <> ": " <> e)
wrap what (panic s) = panic s

-- A chain that succeeds did so from the value of its first part.
pub >>=-ok :
    {A B : Type 0} (m : Go A) (f : A → Go B) (b : B) → (m >>= f) ≡ ok b → (a : A) × (f a ≡ ok b)
>>=-ok (ok a) f b succeeded = (a, succeeded)
>>=-ok (err e) f b succeeded = cc
>>=-ok (panic s) f b succeeded = cc

pub >>=-parts :
    {A B : Type 0} (m : Go A) (f : A → Go B) (b : B)
    → (m >>= f) ≡ ok b
    → (a : A) × (m ≡ ok a) × (f a ≡ ok b)
>>=-parts (ok a) f b succeeded = (a, refl, succeeded)
>>=-parts (err e) f b succeeded = cc
>>=-parts (panic s) f b succeeded = cc
