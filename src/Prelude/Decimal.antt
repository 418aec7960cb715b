-- ===== src/Prelude/Decimal.antt =====
-- `strconv.Itoa` and `strconv.Atoi` on texts of decimal digits, for an `int` of 64 bits.
use Prim.Native.Nat.{ℕ, zero, suc, ◌+◌, ◌-◌, ◌*◌, ◌/◌, ◌%◌, ◌^◌, ◌<◌, ◌≤◌}
use Prim.Native.Char.{Char, code}
use Prim.Native.String.{String}
use mathlib.Core.Path.{◌≡◌, refl, ap, ◌∙◌}
use mathlib.Core.Logic.{inl, inr}
use mathlib.Core.Bool.{Bool, true, false, ◌&&◌}
use mathlib.Core.Option.{Option, none, some}
use native.Mathlib.Omega.{arith}
use runbooks.Prelude.Basic.{Bool-cases, leb, ltb, if◌then◌else◌}
use runbooks.Prelude.Hex.{chr, code-chr}

abbrev digit : ℕ → Char
digit d = chr (d + 48)

-- The digits of a number, the last ones in `acc`; more fuel than the number is enough.
unfoldable pub digits : ℕ → ℕ → String → String
unfolding chr
digits zero n acc = acc
digits (suc fuel) n acc =
    let more = digits fuel (n / 10) (String.◌∷◌ (digit (n % 10)) acc) in
    if ltb n 10 then String.◌∷◌ (digit n) acc else more

unfoldable pub itoa : ℕ → String
unfolding digits
itoa n = digits (suc n) n ""

abbrev pub is_digit : Char → Bool
is_digit c = leb 48 (code c) && leb (code c) 57

unfoldable pub value_from : ℕ → String → ℕ
value_from n String.[] = n
value_from n (String.◌∷◌ c s) = value_from (n * 10 + (code c - 48)) s

-- Nothing, where the number is out of range.
unfoldable pub atoi : String → Option ℕ
unfolding value_from
atoi s = if ltb (value_from 0 s) (2 ^ 63) then some (value_from 0 s) else none

itoa_runs : itoa 1_024 ≡ "1024"
unfolding itoa
itoa_runs = refl

atoi_runs : atoi "1024" ≡ some 1_024
unfolding atoi
atoi_runs = refl

code-digit : (d : ℕ) → d < 10 → code (digit d) ≡ d + 48
code-digit d small = code-chr (d + 48) (omega arith)

value_from-digit :
    (n d : ℕ) (s : String)
    → d < 10
    → value_from n (String.◌∷◌ (digit d) s) ≡ value_from (n * 10 + d) s
unfolding value_from
value_from-digit n d s small =
    ap (λ x. value_from (n * 10 + x) s) (ap (λ c. c - 48) (code-digit d small) ∙ omega arith)

at_least : (n m : ℕ) → ltb n m ≡ false → m ≤ n
at_least n m h = ground arith

below : (n m : ℕ) → ltb n m ≡ true → n < m
below n m h = ground arith

-- The digits have the number's value.
value_from-digits :
    (fuel n : ℕ) (acc : String) → n < fuel → value_from 0 (digits fuel n acc) ≡ value_from n acc
unfolding digits
value_from-digits zero n acc enough = absurd (omega arith)
value_from-digits (suc fuel) n acc enough = elim (Bool-cases (ltb n 10)) [
  | inl last ↦
      rw last
        (value_from-digit 0 n acc (below n 10 last) ∙ ap (λ x. value_from x acc) (omega arith))
  | inr more ↦ rw more (
      value_from-digits fuel (n / 10) (String.◌∷◌ (digit (n % 10)) acc)
        (omega (arith, at_least n 10 more))
      ∙ (value_from-digit (n / 10) (n % 10) acc (omega arith)
          ∙ ap (λ x. value_from x acc) (omega arith)))
]

pub atoi-itoa : (n : ℕ) → n < 2 ^ 63 → atoi (itoa n) ≡ some n
unfolding atoi itoa
atoi-itoa n small = rw (value_from-digits (suc n) n "" (omega arith)) (rw (below' n small) refl)
  where
    below' : (n : ℕ) → n < 2 ^ 63 → ltb n (2 ^ 63) ≡ true
    below' n small = ground arith

abbrev pub AreDigits : String → Type 0
AreDigits String.[] = Unit
AreDigits (String.◌∷◌ c s) = (is_digit c ≡ true) × AreDigits s

digit-is_digit : (d : ℕ) → d < 10 → is_digit (digit d) ≡ true
digit-is_digit d small = rw (code-digit d small) (ground arith)

digits-AreDigits : (fuel n : ℕ) (acc : String) → AreDigits acc → AreDigits (digits fuel n acc)
unfolding digits
digits-AreDigits zero n acc rest = rest
digits-AreDigits (suc fuel) n acc rest = elim (Bool-cases (ltb n 10)) [
  | inl last ↦ rw last (digit-is_digit n (below n 10 last), rest)
  | inr more ↦ rw more (
      digits-AreDigits fuel (n / 10) (String.◌∷◌ (digit (n % 10)) acc)
        (digit-is_digit (n % 10) (omega arith), rest))
]

pub itoa-AreDigits : (n : ℕ) → AreDigits (itoa n)
unfolding itoa
itoa-AreDigits n = digits-AreDigits (suc n) n "" tt

digits-cons :
    (fuel n : ℕ) (acc : String)
    → n < fuel
    → (c : Char) × (s : String) × (digits fuel n acc ≡ String.◌∷◌ c s)
unfolding digits
digits-cons zero n acc enough = absurd (omega arith)
digits-cons (suc fuel) n acc enough = elim (Bool-cases (ltb n 10)) [
  | inl last ↦ (digit n, acc, rw last refl)
  | inr more ↦ rw more (
      digits-cons fuel (n / 10) (String.◌∷◌ (digit (n % 10)) acc)
        (omega (arith, at_least n 10 more)))
]

pub itoa-cons : (n : ℕ) → (c : Char) × (s : String) × (itoa n ≡ String.◌∷◌ c s)
unfolding itoa
itoa-cons n = digits-cons (suc n) n "" (omega arith)

pub atoi-lt : (s : String) (v : ℕ) → atoi s ≡ some v → v < 2 ^ 63
unfolding atoi
atoi-lt s v found = ground arith
