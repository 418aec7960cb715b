-- ===== src/Tui/Fresh.antt =====
-- The next version that internal/tui/common.go chooses is not taken.
use Prim.Native.Char.{Char, code}
use mathlib.Core.Path.{subst}
use text.Mathlib.TextLemmas.{nil-append, cons-append}
use text.Mathlib.TextEquality.{eq_iff}
use runbooks.Prelude.{
  ℕ, ◌+◌, ◌%◌, ◌^◌, ◌≤◌, ◌<◌, String, ◌<>◌, ◌≡◌, refl, sym, ap, ◌∙◌, ◌==◌, eqb, Bool, Bool-cases,
  inl, inr, true, false, ◌||◌, Option, none, some, List, [], ◌∷◌, arith,
}
use runbooks.Prelude.Decimal.{atoi, atoi-lt, itoa, atoi-itoa, AreDigits, itoa-AreDigits, itoa-cons}
use runbooks.Program.{Go, ok, err, panic}
use runbooks.Program.Fallible.{>>=-parts}
use runbooks.Tui.Versions.{
  fits, after_name, leading_digits, group, version_here, find_version, version_of, number_or_error,
  raised, read_version, incremented, highest_version, next_version,
}

abbrev candidate : String → ℕ → String
candidate name v = name <> ("-" <> itoa v)

eqb_refl : (n : ℕ) → eqb n n ≡ true
eqb_refl n = ground arith

or_true : (b c : Bool) → b ≡ true → (b || c) ≡ true
or_true true c h = refl
or_true false c h = cc

fits_self : (c : Char) → fits c c ≡ true
fits_self c = or_true _ _ (eqb_refl (code c))

after_name-append : (name rest : String) → after_name name (name <> rest) ≡ some rest
unfolding after_name
after_name-append String.[] rest = rw (nil-append rest) refl
after_name-append (String.◌∷◌ c name) rest =
    rw (cons-append c name rest) (rw (fits_self c) (after_name-append name rest))

leading_digits-AreDigits : (s : String) → AreDigits s → leading_digits s ≡ s
unfolding leading_digits
leading_digits-AreDigits String.[] all = refl
leading_digits-AreDigits (String.◌∷◌ c s) (first, rest) =
    rw first (ap (λ t. String.◌∷◌ c t) (leading_digits-AreDigits s rest))

group-dash :
    (d : Char) (s : String)
    → AreDigits (String.◌∷◌ d s)
    → group (some ("-" <> String.◌∷◌ d s)) ≡ some (String.◌∷◌ d s)
group-dash d s (first, rest) =
    rw (cons-append "-" "" (String.◌∷◌ d s), nil-append (String.◌∷◌ d s), first)
      (ap some (leading_digits-AreDigits (String.◌∷◌ d s) (first, rest)))

group-itoa : (v : ℕ) → group (some ("-" <> itoa v)) ≡ some (itoa v)
group-itoa v =
    let (d, s, cons) = itoa-cons v in
    rw cons (group-dash d s (subst AreDigits cons (itoa-AreDigits v)))

find_version-here :
    (name s v : String) → version_here name s ≡ some v → find_version name s ≡ some v
unfolding find_version
find_version-here name String.[] v here = here
find_version-here name (String.◌∷◌ c s) v here = rw here refl

read_version-candidate :
    (name : String) (v : ℕ) → v < 2 ^ 63 → read_version name (candidate name v) ≡ ok (some v)
unfolding read_version version_here
read_version-candidate name v small =
    ap version_of (
      find_version-here name (candidate name v) (itoa v)
        (ap group (after_name-append name ("-" <> itoa v)) ∙ group-itoa v))
    ∙ ap number_or_error (atoi-itoa v small)

number-lt : (o : Option ℕ) (v : ℕ) → number_or_error o ≡ ok (some v) → o ≡ some v
number-lt none v read = cc
number-lt (some w) v read = cc

version_of-lt : (o : Option String) (v : ℕ) → version_of o ≡ ok (some v) → v < 2 ^ 63
version_of-lt none v read = cc
version_of-lt (some s) v read = atoi-lt s v (number-lt (atoi s) v read)

read_version-lt : (name item : String) (v : ℕ) → read_version name item ≡ ok (some v) → v < 2 ^ 63
unfolding read_version
read_version-lt name item v read = version_of-lt (find_version name item) v read

le-raised : (h : ℕ) (o : Option ℕ) → h ≤ raised h o
le-raised h none = omega arith
le-raised h (some v) = ground arith

version-le-raised : (h v : ℕ) → v ≤ raised h (some v)
version-le-raised h v = ground arith

raised-lt :
    (h : ℕ) (o : Option ℕ) → h < 2 ^ 63 → ((v : ℕ) → o ≡ some v → v < 2 ^ 63) → raised h o < 2 ^ 63
raised-lt h none small smalls = small
raised-lt h (some v) small smalls = let w = smalls v refl in ground arith

-- The loop's result is at least what it starts with, and in the range of an `int`.
highest_version-bounds :
    (name : String) (h : ℕ) (items : List String) (m : ℕ)
    → h < 2 ^ 63
    → highest_version name h items ≡ ok m
    → (h ≤ m) × (m < 2 ^ 63)
unfolding highest_version
highest_version-bounds name h [] m small found = let e : h ≡ m = cc in omega (arith, e, small)
highest_version-bounds name h (item ∷ rest) m small found =
    let (o, read, further) = >>=-parts (read_version name item) _ m found in
    let (above, below) =
      highest_version-bounds name (raised h o) rest m
        (raised-lt h o small (λ v e. read_version-lt name item v (read ∙ ap ok e))) further in
    (omega (arith, le-raised h o, above), below)

-- No name of the list is the text.
abbrev pub NotNamed : String → List String → Type 0
NotNamed text [] = Unit
NotNamed text (item ∷ rest) = ((item == text) ≡ false) × NotNamed text rest

ok_injective : {A : Type 0} (a b : A) → ok a ≡ ok b → a ≡ b
ok_injective a b same = cc

-- An item of the name would have raised the highest version to its own.
taken :
    (name : String) (w h : ℕ) (item : String) (rest : List String) (m : ℕ) (o : Option ℕ)
    → w < 2 ^ 63
    → h < 2 ^ 63
    → m < w
    → read_version name item ≡ ok o
    → highest_version name (raised h o) rest ≡ ok m
    → (item == candidate name w) ≡ true
    → ⊥
taken name w h item rest m o in_range small above read further same =
    let is_candidate = (eq_iff item (candidate name w)).0 same in
    let version : o ≡ some w =
      ok_injective o (some w) (
        sym read
        ∙ (ap (read_version name) is_candidate ∙ read_version-candidate name w in_range)) in
    let smaller = raised-lt h o small (λ v e. read_version-lt name item v (read ∙ ap ok e)) in
    let (bound, _) = highest_version-bounds name (raised h o) rest m smaller further in
    let at_most : raised h (some w) ≤ m = subst (λ x. raised h x ≤ m) version bound in
    omega (arith, at_most, version-le-raised h w, above)

candidate-NotNamed :
    (name : String) (w h : ℕ) (items : List String) (m : ℕ)
    → w < 2 ^ 63
    → h < 2 ^ 63
    → m < w
    → highest_version name h items ≡ ok m
    → NotNamed (candidate name w) items
unfolding highest_version
candidate-NotNamed name w h [] m in_range small above found = tt
candidate-NotNamed name w h (item ∷ rest) m in_range small above found =
    let (o, read, further) = >>=-parts (read_version name item) _ m found in
    let small' = raised-lt h o small (λ v e. read_version-lt name item v (read ∙ ap ok e)) in
    (
      elim (Bool-cases (item == candidate name w)) [
        | inl same ↦ absurd (taken name w h item rest m o in_range small above read further same)
        | inr other ↦ other
      ],
      candidate-NotNamed name w (raised h o) rest m in_range small' above further,
    )

-- The version is one more than the highest, which is in range.
next-highest :
    (g : Go ℕ) (v : ℕ) → incremented g ≡ ok v → (m : ℕ) × (g ≡ ok m) × ((m + 1) % 2 ^ 64 ≡ v)
next-highest (ok m) v next = (m, refl, cc)
next-highest (err e) v next = cc
next-highest (panic e) v next = cc

-- The name with the next version is none of the list's, if the version is in the range of an `int`.
pub next_version-NotNamed :
    (name : String) (items : List String) (v : ℕ)
    → v < 2 ^ 63
    → next_version name items ≡ ok v
    → NotNamed (name <> ("-" <> itoa v)) items
unfolding next_version
next_version-NotNamed name items v small next =
    let (m, found, one_more) = next-highest (highest_version name 0 items) v next in
    let (_, range) = highest_version-bounds name 0 items m (omega arith) found in
    candidate-NotNamed name v 0 items m small (omega arith) (omega (arith, one_more, range)) found
