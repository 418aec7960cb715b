-- ===== src/Program/Run.antt =====
-- Running a program against an environment, which answers each call from all that happened before.
use runbooks.Prelude.{◌≡◌, ap, String, Option, List, ◌∷◌}
use runbooks.Program.Calls.{Call, Answer, Event}
use runbooks.Program.Core.{Program, ret, call, halt, crash}

-- The events so far, the newest first.
abbrev pub History : Type 0
History = List Event

abbrev pub Env : Type 0
Env = History → (c : Call) → Answer c

pub data Outcome (A : Type 0) : Type 0 where
  finished : A → Outcome A
  halted : Option String → Outcome A
  panicked : String → Outcome A

unfoldable pub run : {A : Type 0} → Env → History → Program A → History × Outcome A
run e h (ret a) = (h, finished a)
run e h (call c k) = run e ((c, e h c) ∷ h) (k (e h c))
run e h (halt x) = (h, halted x)
run e h (crash s) = (h, panicked s)

-- One call, whose answer is known.
pub run-step :
    {A : Type 0} (e : Env) (h : History) {c : Call} (k : Answer c → Program A) {a : Answer c}
    → e h c ≡ a
    → run e h (call c k) ≡ run e ((c, a) ∷ h) (k a)
unfolding run
run-step e h {c} k answer = ap (λ x. run e ((c, x) ∷ h) (k x)) answer
