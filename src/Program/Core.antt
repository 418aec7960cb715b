-- ===== src/Program/Core.antt =====
-- Programs. `ret` passes a value on; `halt` is the early return of a function whose `result` is not
-- a success, with its error, which every caller passes up (`!result.success`); `crash` is a panic.
use runbooks.Prelude.{String, ◌<>◌, Option, none, some}
use runbooks.Program.Calls.{Go, ok, err, panic, Call, Answer}

pub data Program (A : Type 0) : Type 0 where
  ret : A → Program A
  call : (c : Call) → (Answer c → Program A) → Program A
  halt : Option String → Program A
  crash : String → Program A

infixl 5 ◌>>=◌ ◌>>◌
unfoldable pub ◌>>=◌ : {A B : Type 0} → Program A → (A → Program B) → Program B
ret a >>= f = f a
call c k >>= f = call c (λ a. k a >>= f)
halt e >>= f = halt e
crash s >>= f = crash s

abbrev pub ◌>>◌ : {B : Type 0} → Program (Unit {0}) → Program B → Program B
m >> k = m >>= λ _. k

abbrev pub perform : (c : Call) → Program (Answer c)
perform c = call c ret

-- `return result{}, fmt.Errorf(...)`, `return result{}, nil`
abbrev pub fail : {A : Type 0} → String → Program A
fail e = halt (some e)

abbrev pub stop : {A : Type 0} → Program A
stop = halt none

-- `if err != nil { return result{}, fmt.Errorf("<what>: %w", err) }`
unfoldable pub or_fail : {A : Type 0} → String → Go A → Program A
or_fail what (ok a) = ret a
or_fail what (err e) = fail (what <> ": " <> e)
or_fail what (panic s) = crash s

-- `if err != nil { log.Error(err, ...); return result{}, nil }`
unfoldable pub or_stop : {A : Type 0} → Go A → Program A
or_stop (ok a) = ret a
or_stop (err e) = stop
or_stop (panic s) = crash s
