-- ===== src/Prelude/Text.antt =====
-- `strings.ToLower`, `strings.TrimPrefix(s, "/")` and `filepath.Join` on the texts that the code
-- passes them: ASCII kinds, and slash-separated paths.
use Prim.Native.Nat.{ℕ, ◌+◌, ◌<◌, compare, Ordering}
use Prim.Native.Char.{Char, char, IsScalar, code}
use Prim.Native.String.{String}
use mathlib.Core.Path.{◌≡◌, refl}
use mathlib.Core.Logic.{dite}
use native.Mathlib.Decide.{dec_lt}
use native.Mathlib.Omega.{arith}
use runbooks.Prelude.Basic.{eqb, if◌then◌else◌}

compare_small : (n : ℕ) → n < 55296 → compare n 55296 ≡ Ordering.lt
compare_small n h = ground arith

pub small-IsScalar : (n : ℕ) → n < 55296 → IsScalar n
small-IsScalar n h = rw (compare_small n h) tt

-- `unicode.ToLower` on an ASCII character.
unfoldable pub lower : Char → Char
unfolding dec_lt
lower (char n p) =
    dite (dec_lt 64 n)
      (λ above.
        dite (dec_lt n 91) (λ below. char (n + 32) (small-IsScalar (n + 32) (omega arith)))
          (λ _. char n p))
      (λ _. char n p)

unfoldable pub to_lower : String → String
unfolding lower
to_lower String.[] = ""
to_lower (String.◌∷◌ c s) = String.◌∷◌ (lower c) (to_lower s)

-- `strings.TrimPrefix(s, "/")`
unfoldable pub trim_slash : String → String
trim_slash String.[] = ""
trim_slash (String.◌∷◌ c s) = if eqb (code c) b'/' then s else String.◌∷◌ c s

to_lower_kind : to_lower "Notebook" ≡ "notebook"
unfolding to_lower
to_lower_kind = refl
