-- ===== src/Program/Always.antt =====
-- What holds of a program in every environment. `Always P Q h p`: after the events `h`, every call
-- that `p` makes satisfies `P` of the events before it, and `Q` holds of its end.
use mathlib.Core.Path.{subst}
use runbooks.Prelude.{
  ◌≡◌, refl, sym, String, Bool, true, false, if◌then◌else◌, Option, none, some, [], ◌∷◌,
}
use runbooks.Program.Calls.{Go, ok, err, panic, Call, Answer}
use runbooks.Program.Core.{Program, ret, call, halt, crash, ◌>>=◌, or_stop, or_fail}
use runbooks.Program.Run.{History, Env, Outcome, finished, halted, panicked, run}

pub data Always {A : Type 0} (P : History → Call → Type 0) (Q : History → Outcome A → Type 0)
    : History → Program A → Type 0 where
  done : {h : History} {a : A} → Q h (finished a) → Always P Q h (ret a)
  ask :
      {h : History} {c : Call} {k : Answer c → Program A}
      → P h c
      → ((a : Answer c) → Always P Q ((c, a) ∷ h) (k a))
      → Always P Q h (call c k)
  stops : {h : History} {e : Option String} → Q h (halted e) → Always P Q h (halt e)
  dies : {h : History} {s : String} → Q h (panicked s) → Always P Q h (crash s)

-- Every call of a history satisfies `P` of the events before it.
abbrev pub Each : (History → Call → Type 0) → History → Type 0
Each P [] = Unit
Each P ((c, a) ∷ h) = P h c × Each P h

-- What a sequence does after its first part: `f a` where that finished, else the same end.
abbrev pub Then :
    {A B : Type 0}
    → (History → Call → Type 0)
    → (History → Outcome B → Type 0)
    → (A → Program B)
    → History
    → Outcome A
    → Type 0
Then P Q f h (finished a) = Always P Q h (f a)
Then P Q f h (halted e) = Q h (halted e)
Then P Q f h (panicked s) = Q h (panicked s)

module _ {A : Type 0} {P : History → Call → Type 0} {Q : History → Outcome A → Type 0} where
  -- A program that is always right is right in each run.
  pub run-Always :
      (e : Env) {h : History} {p : Program A}
      → Always P Q h p
      → Each P h
      → Each P (run e h p).0 × Q (run e h p).0 (run e h p).1
  unfolding run
  run-Always e (done q) before = (before, q)
  run-Always e (ask {h = h} {c = c} p next) before = run-Always e (next (e h c)) (p, before)
  run-Always e (stops q) before = (before, q)
  run-Always e (dies q) before = (before, q)

  -- A run whose first answer is known.
  pub run-answered :
      (e : Env) {c : Call} (k : Answer c → Program A) {a : Answer c}
      → e [] c ≡ a
      → P [] c
      → Always P Q ((c, a) ∷ []) (k a)
      → Each P (run e [] (call c k)).0
  unfolding run
  run-answered e {c} k answer first next =
      (run-Always e (subst (λ x. Always P Q ((c, x) ∷ []) (k x)) (sym answer) next) (first, tt)).0

  pub Always-mono :
      {R : History → Outcome A → Type 0}
      → ((g : History) (o : Outcome A) → Q g o → R g o)
      → {h : History} {p : Program A} → Always P Q h p
      → Always P R h p
  Always-mono w (done q) = done (w _ _ q)
  Always-mono w (ask p next) = ask p (λ a. Always-mono w (next a))
  Always-mono w (stops q) = stops (w _ _ q)
  Always-mono w (dies q) = dies (w _ _ q)

  -- A step whose error is returned, or ends the reconciliation.
  pub or_stop-Always :
      {h : History} (g : Go A)
      → ((a : A) → g ≡ ok a → Q h (finished a))
      → Q h (halted none)
      → ((s : String) → Q h (panicked s))
      → Always P Q h (or_stop g)
  unfolding or_stop
  or_stop-Always (ok a) value ends panics = done (value a refl)
  or_stop-Always (err e) value ends panics = stops ends
  or_stop-Always (panic s) value ends panics = dies (panics s)

  pub or_fail-Always :
      {h : History} (what : String) (g : Go A)
      → ((a : A) → g ≡ ok a → Q h (finished a))
      → ((e : String) → Q h (halted (some e)))
      → ((s : String) → Q h (panicked s))
      → Always P Q h (or_fail what g)
  unfolding or_fail
  or_fail-Always what (ok a) value fails panics = done (value a refl)
  or_fail-Always what (err e) value fails panics = stops (fails _)
  or_fail-Always what (panic s) value fails panics = dies (panics s)

  pub if-Always :
      {h : History} (b : Bool) {p q : Program A}
      → (b ≡ true → Always P Q h p)
      → (b ≡ false → Always P Q h q)
      → Always P Q h (if b then p else q)
  if-Always true holds fails = holds refl
  if-Always false holds fails = fails refl

pub >>=-Always :
    {A B : Type 0} {P : History → Call → Type 0} {Q : History → Outcome B → Type 0}
    {f : A → Program B} {h : History} {m : Program A}
    → Always P (Then P Q f) h m
    → Always P Q h (m >>= f)
unfolding ◌>>=◌
>>=-Always (done q) = q
>>=-Always (ask p next) = ask p (λ a. >>=-Always (next a))
>>=-Always (stops q) = stops q
>>=-Always (dies q) = dies q
