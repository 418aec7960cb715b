-- ===== src/Program/Reaches.antt =====
-- What a program comes to in one environment. `Reaches e Q h p`: after the events `h`, the run of `p`
-- against `e` ends, and `Q` holds of its events and its end.
use mathlib.Core.Path.{subst}
use runbooks.Prelude.{◌≡◌, sym, String, Bool, true, false, if◌then◌else◌, Option, ◌∷◌}
use runbooks.Program.Calls.{Go, ok, Call, Answer}
use runbooks.Program.Core.{Program, ret, call, halt, ◌>>=◌, or_stop, or_fail}
use runbooks.Program.Run.{History, Env, Outcome, finished, halted, panicked, run}

pub data Reaches {A : Type 0} (e : Env) (Q : History → Outcome A → Type 0)
    : History → Program A → Type 0 where
  ends : {h : History} {a : A} → Q h (finished a) → Reaches e Q h (ret a)
  halts : {h : History} {x : Option String} → Q h (halted x) → Reaches e Q h (halt x)
  step :
      {h : History} {c : Call} {k : Answer c → Program A} (a : Answer c)
      → e h c ≡ a
      → Reaches e Q ((c, a) ∷ h) (k a)
      → Reaches e Q h (call c k)

module _ {A : Type 0} {e : Env} {Q : History → Outcome A → Type 0} where
  pub run-Reaches : {h : History} {p : Program A} → Reaches e Q h p → Q (run e h p).0 (run e h p).1
  unfolding run
  run-Reaches (ends q) = q
  run-Reaches (halts q) = q
  run-Reaches (step {h = h} {c = c} {k = k} a answer next) =
      subst (λ x. Q (run e ((c, x) ∷ h) (k x)).0 (run e ((c, x) ∷ h) (k x)).1) (sym answer)
        (run-Reaches next)

  pub or_stop-Reaches :
      {h : History} (g : Go A) (a : A) → g ≡ ok a → Q h (finished a) → Reaches e Q h (or_stop g)
  unfolding or_stop
  or_stop-Reaches g a value q = rw (value) (ends q)

  pub or_fail-Reaches :
      {h : History} (what : String) (g : Go A) (a : A)
      → g ≡ ok a
      → Q h (finished a)
      → Reaches e Q h (or_fail what g)
  unfolding or_fail
  or_fail-Reaches what g a value q = rw (value) (ends q)

-- The branch that a test takes.
module _ {A : Type 0} {e : Env} {Q : History → Outcome A → Type 0} {h : History}
    (p q : Program A) where
  pub then-Reaches : (b : Bool) → b ≡ true → Reaches e Q h p → Reaches e Q h (if b then p else q)
  then-Reaches true holds reached = reached
  then-Reaches false holds reached = cc

  pub else-Reaches : (b : Bool) → b ≡ false → Reaches e Q h q → Reaches e Q h (if b then p else q)
  else-Reaches true fails reached = cc
  else-Reaches false fails reached = reached

-- What is left to reach after the first part of a sequence.
abbrev pub Onward :
    {A B : Type 0}
    → Env
    → (History → Outcome B → Type 0)
    → (A → Program B)
    → History
    → Outcome A
    → Type 0
Onward e Q f h (finished a) = Reaches e Q h (f a)
Onward e Q f h (halted x) = Q h (halted x)
Onward e Q f h (panicked s) = ⊥

pub >>=-Reaches :
    {A B : Type 0} {e : Env} {Q : History → Outcome B → Type 0} {f : A → Program B} {h : History}
    {m : Program A}
    → Reaches e (Onward e Q f) h m
    → Reaches e Q h (m >>= f)
unfolding ◌>>=◌
>>=-Reaches (ends q) = q
>>=-Reaches (halts q) = halts q
>>=-Reaches (step a answer next) = step a answer (>>=-Reaches next)
