-- ===== src/Prelude/Hex.antt =====
-- `hex.EncodeToString` and `hex.DecodeString` (encoding/hex). A byte is a number below 256.
use Prim.Native.Nat.{ℕ, ◌+◌, ◌-◌, ◌*◌, ◌/◌, ◌%◌, ◌<◌}
use Prim.Native.Char.{Char, char, code}
use Prim.Native.String.{String}
use mathlib.Core.Path.{◌≡◌, refl}
use mathlib.Core.Bool.{◌&&◌}
use mathlib.Core.Option.{Option, none, some}
use mathlib.Core.List.{List, [], ◌∷◌}
use native.Mathlib.Decide.{dec_lt}
use native.Mathlib.Omega.{arith}
use runbooks.Prelude.Basic.{leb, ltb, if◌then◌else◌}
use runbooks.Prelude.Text.{small-IsScalar}

-- The character of a code, where the code is one of the numbers below the surrogates.
abbrev chr_if : (n : ℕ) → Dec (n < 55296) → Char
chr_if n (yes p) = char n (small-IsScalar n p)
chr_if n (no _) = "?"

unfoldable pub chr : ℕ → Char
unfolding dec_lt
chr n = chr_if n (dec_lt n 55296)

code-chr_if : (n : ℕ) (d : Dec (n < 55296)) → n < 55296 → code (chr_if n d) ≡ n
code-chr_if n (yes p) small = refl
code-chr_if n (no q) small = absurd (q small)

pub code-chr : (n : ℕ) → n < 55296 → code (chr n) ≡ n
unfolding chr
code-chr n small = code-chr_if n (dec_lt n 55296) small

abbrev pub AreBytes : List ℕ → Type 0
AreBytes [] = Unit
AreBytes (b ∷ bs) = (b < 256) × AreBytes bs

abbrev pub hex_code : ℕ → ℕ
hex_code n = if ltb n 10 then n + 48 else n + 87

-- `reverseHexTable`
unfoldable pub hex_value : ℕ → Option ℕ
hex_value c =
    if leb 48 c && leb c 57
    then some (c - 48)
    else if leb 97 c && leb c 102
    then some (c - 87)
    else if leb 65 c && leb c 70
    then some (c - 55)
    else none

unfoldable pub hex_encode : List ℕ → String
unfolding chr
hex_encode [] = ""
hex_encode (b ∷ bs) =
    String.◌∷◌ (chr (hex_code (b / 16))) (String.◌∷◌ (chr (hex_code (b % 16))) (hex_encode bs))

abbrev pub both_digits : Option ℕ → Option ℕ → Option (List ℕ) → Option (List ℕ)
both_digits (some a) (some b) (some bs) = some ((a * 16 + b) ∷ bs)
both_digits _ _ _ = none

-- The bytes, or nothing where the function returns an error.
unfoldable pub hex_decode : String → Option (List ℕ)
unfolding hex_value
hex_decode String.[] = some []
hex_decode (String.◌∷◌ c String.[]) = none
hex_decode (String.◌∷◌ c (String.◌∷◌ d s)) =
    both_digits (hex_value (code c)) (hex_value (code d)) (hex_decode s)

hex_value-code : (n : ℕ) → n < 16 → hex_value (hex_code n) ≡ some n
unfolding hex_value
hex_value-code n small = ground arith

pub hex_value-chr : (n : ℕ) → n < 16 → hex_value (code (chr (hex_code n))) ≡ some n
hex_value-chr n small = rw (code-chr (hex_code n) (ground arith)) (hex_value-code n small)

join_digits : (b : ℕ) → b / 16 * 16 + b % 16 ≡ b
join_digits b = omega arith

-- Decoding what was encoded gives the bytes back.
pub hex_decode-encode : (bs : List ℕ) → AreBytes bs → hex_decode (hex_encode bs) ≡ some bs
unfolding hex_decode hex_encode
hex_decode-encode [] bytes = refl
hex_decode-encode (b ∷ bs) (byte, bytes) = rw (hex_value-chr (b / 16) (omega arith)) (
    rw (hex_value-chr (b % 16) (omega arith))
      (rw (hex_decode-encode bs bytes) (rw (join_digits b) refl)))

hex_runs : hex_encode (0 ∷ 171 ∷ 255 ∷ []) ≡ "00abff"
unfolding hex_encode
hex_runs = refl
