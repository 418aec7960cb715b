-- ===== src/Prelude/Base64.antt =====
-- `base64.StdEncoding` (encoding/base64): `EncodeToString`, and `DecodeString` on texts without line
-- breaks, as the value of a header is.
use Prim.Native.Nat.{ℕ, ◌+◌, ◌-◌, ◌*◌, ◌/◌, ◌%◌, ◌<◌}
use Prim.Native.Char.{Char, code}
use Prim.Native.String.{String}
use mathlib.Core.Path.{◌≡◌, refl}
use mathlib.Core.Bool.{Bool, true, false, ◌&&◌}
use mathlib.Core.Option.{Option, none, some}
use mathlib.Core.List.{List, [], ◌∷◌}
use native.Mathlib.Omega.{arith}
use runbooks.Prelude.Basic.{leb, ltb, eqb, if◌then◌else◌}
use runbooks.Prelude.Hex.{chr, code-chr, AreBytes}

-- `encodeStd`
abbrev pub base64_code : ℕ → ℕ
base64_code n =
    if ltb n 26
    then n + 65
    else if ltb n 52
    then n + 71
    else if ltb n 62
    then n - 4
    else if eqb n 62
    then 43
    else 47

unfoldable pub base64_value : ℕ → Option ℕ
base64_value c =
    if leb 65 c && leb c 90
    then some (c - 65)
    else if leb 97 c && leb c 122
    then some (c - 71)
    else if leb 48 c && leb c 57
    then some (c + 4)
    else if eqb c 43
    then some 62
    else if eqb c 47
    then some 63
    else none

abbrev sixth : ℕ → Char
sixth n = chr (base64_code n)

unfoldable pub base64_encode : List ℕ → String
unfolding chr
base64_encode [] = ""
base64_encode (a ∷ []) = String.◌∷◌ (sixth (a / 4)) (String.◌∷◌ (sixth (a % 4 * 16)) "==")
base64_encode (a ∷ b ∷ []) =
    String.◌∷◌ (sixth (a / 4))
      (String.◌∷◌ (sixth (a % 4 * 16 + b / 16)) (String.◌∷◌ (sixth (b % 16 * 4)) "="))
base64_encode (a ∷ b ∷ c ∷ rest) = String.◌∷◌ (sixth (a / 4)) (
    String.◌∷◌ (sixth (a % 4 * 16 + b / 16))
      (String.◌∷◌ (sixth (b % 16 * 4 + c / 64)) (String.◌∷◌ (sixth (c % 64)) (base64_encode rest))))

abbrev one_byte : Option ℕ → Option ℕ → Option (List ℕ)
one_byte (some x) (some y) = some ((x * 4 + y / 16) ∷ [])
one_byte _ _ = none

abbrev two_bytes : Option ℕ → Option ℕ → Option ℕ → Option (List ℕ)
two_bytes (some x) (some y) (some z) = some ((x * 4 + y / 16) ∷ (y % 16 * 16 + z / 4) ∷ [])
two_bytes _ _ _ = none

abbrev three_bytes : Option ℕ → Option ℕ → Option ℕ → Option ℕ → Option (List ℕ) → Option (List ℕ)
three_bytes (some x) (some y) (some z) (some w) (some rest) =
    some ((x * 4 + y / 16) ∷ (y % 16 * 16 + z / 4) ∷ (z % 4 * 64 + w) ∷ rest)
three_bytes _ _ _ _ _ = none

abbrev is_empty : String → Bool
is_empty String.[] = true
is_empty (String.◌∷◌ c s) = false

abbrev is_padding : Char → Bool
is_padding c = eqb (code c) b'='

-- Four characters at a time; padding only at the end.
unfoldable pub base64_decode : String → Option (List ℕ)
unfolding base64_value
base64_decode String.[] = some []
base64_decode (String.◌∷◌ a (String.◌∷◌ b (String.◌∷◌ c (String.◌∷◌ d s)))) =
    let rest = base64_decode s in
    if is_padding d
    then (if is_empty s
        then (if is_padding c
            then one_byte (base64_value (code a)) (base64_value (code b))
            else two_bytes (base64_value (code a)) (base64_value (code b)) (base64_value (code c)))
        else none)
    else three_bytes (base64_value (code a)) (base64_value (code b)) (base64_value (code c))
        (base64_value (code d)) rest
base64_decode _ = none

value-code : (n : ℕ) → n < 64 → base64_value (base64_code n) ≡ some n
unfolding base64_value
value-code n small = ground arith

value-chr : (n : ℕ) → n < 64 → base64_value (code (chr (base64_code n))) ≡ some n
value-chr n small = rw (code-chr (base64_code n) (ground arith)) (value-code n small)

not_padding-code : (n : ℕ) → n < 64 → eqb (base64_code n) b'=' ≡ false
not_padding-code n small = ground arith

not_padding-chr : (n : ℕ) → n < 64 → eqb (code (chr (base64_code n))) b'=' ≡ false
not_padding-chr n small = rw (code-chr (base64_code n) (ground arith)) (not_padding-code n small)

first_byte : (a b : ℕ) → b < 256 → a / 4 * 4 + (a % 4 * 16 + b / 16) / 16 ≡ a
first_byte a b byte = omega arith

second_byte :
    (a b c : ℕ)
    → b < 256
    → c < 256
    → (a % 4 * 16 + b / 16) % 16 * 16 + (b % 16 * 4 + c / 64) / 4 ≡ b
second_byte a b c byte_b byte_c = omega arith

third_byte : (b c : ℕ) → c < 256 → (b % 16 * 4 + c / 64) % 4 * 64 + c % 64 ≡ c
third_byte b c byte = omega arith

only_byte : (a : ℕ) → a / 4 * 4 + a % 4 * 16 / 16 ≡ a
only_byte a = omega arith

last_byte : (a b : ℕ) → b < 256 → (a % 4 * 16 + b / 16) % 16 * 16 + b % 16 * 4 / 4 ≡ b
last_byte a b byte = omega arith

-- Decoding what was encoded gives the bytes back.
pub base64_decode-encode : (bs : List ℕ) → AreBytes bs → base64_decode (base64_encode bs) ≡ some bs
unfolding base64_decode base64_encode
base64_decode-encode [] bytes = refl
base64_decode-encode (a ∷ []) (byte, _) =
    rw (value-chr (a / 4) (omega arith), value-chr (a % 4 * 16) (omega arith))
      (rw (only_byte a) refl)
base64_decode-encode (a ∷ b ∷ []) (byte_a, (byte_b, _)) =
    rw
      (
        not_padding-chr (b % 16 * 4) (omega arith),
        value-chr (a / 4) (omega arith),
        value-chr (a % 4 * 16 + b / 16) (omega arith),
        value-chr (b % 16 * 4) (omega arith),
      )
      (rw (first_byte a b byte_b, last_byte a b byte_b) refl)
base64_decode-encode (a ∷ b ∷ c ∷ rest) (byte_a, (byte_b, (byte_c, bytes))) =
    rw
      (
        not_padding-chr (c % 64) (omega arith),
        value-chr (a / 4) (omega arith),
        value-chr (a % 4 * 16 + b / 16) (omega arith),
        value-chr (b % 16 * 4 + c / 64) (omega arith),
        value-chr (c % 64) (omega arith),
        base64_decode-encode rest bytes,
      )
      (rw (first_byte a b byte_b, second_byte a b c byte_b byte_c, third_byte b c byte_c) refl)

abbrev IsSixth : Option ℕ → Type 0
IsSixth none = Unit
IsSixth (some v) = v < 64

abbrev pub AreDecoded : Option (List ℕ) → Type 0
AreDecoded none = Unit
AreDecoded (some bs) = AreBytes bs

value-IsSixth : (c : ℕ) → IsSixth (base64_value c)
unfolding base64_value
value-IsSixth c = ground arith

one_byte-AreDecoded : (x y : Option ℕ) → IsSixth x → IsSixth y → AreDecoded (one_byte x y)
one_byte-AreDecoded (some x) (some y) small_x small_y = (omega arith, tt)
one_byte-AreDecoded none y small_x small_y = tt
one_byte-AreDecoded (some x) none small_x small_y = tt

two_bytes-AreDecoded :
    (x y z : Option ℕ) → IsSixth x → IsSixth y → IsSixth z → AreDecoded (two_bytes x y z)
two_bytes-AreDecoded (some x) (some y) (some z) small_x small_y small_z =
    (omega arith, (omega arith, tt))
two_bytes-AreDecoded none y z small_x small_y small_z = tt
two_bytes-AreDecoded (some x) none z small_x small_y small_z = tt
two_bytes-AreDecoded (some x) (some y) none small_x small_y small_z = tt

three_bytes-AreDecoded :
    (x y z w : Option ℕ) (o : Option (List ℕ))
    → IsSixth x
    → IsSixth y
    → IsSixth z
    → IsSixth w
    → AreDecoded o
    → AreDecoded (three_bytes x y z w o)
three_bytes-AreDecoded (some x) (some y) (some z) (some w) (some rest) p q r t bytes =
    (omega arith, (omega arith, (omega arith, bytes)))
three_bytes-AreDecoded none y z w o p q r t bytes = tt
three_bytes-AreDecoded (some x) none z w o p q r t bytes = tt
three_bytes-AreDecoded (some x) (some y) none w o p q r t bytes = tt
three_bytes-AreDecoded (some x) (some y) (some z) none o p q r t bytes = tt
three_bytes-AreDecoded (some x) (some y) (some z) (some w) none p q r t bytes = tt

if-AreDecoded :
    (test : Bool) (o p : Option (List ℕ))
    → AreDecoded o
    → AreDecoded p
    → AreDecoded (if test then o else p)
if-AreDecoded true o p bytes bytes' = bytes
if-AreDecoded false o p bytes bytes' = bytes'

-- What is decoded is bytes.
pub base64_decode-AreDecoded : (s : String) → AreDecoded (base64_decode s)
unfolding base64_decode
base64_decode-AreDecoded String.[] = tt
base64_decode-AreDecoded (String.◌∷◌ a String.[]) = tt
base64_decode-AreDecoded (String.◌∷◌ a (String.◌∷◌ b String.[])) = tt
base64_decode-AreDecoded (String.◌∷◌ a (String.◌∷◌ b (String.◌∷◌ c String.[]))) = tt
base64_decode-AreDecoded (String.◌∷◌ a (String.◌∷◌ b (String.◌∷◌ c (String.◌∷◌ d s)))) =
    let x = value-IsSixth (code a) in
    let y = value-IsSixth (code b) in
    let z = value-IsSixth (code c) in
    let w = value-IsSixth (code d) in
    if-AreDecoded (is_padding d) _ _
      (if-AreDecoded (is_empty s) _ _
        (if-AreDecoded (is_padding c) _ _ (one_byte-AreDecoded _ _ x y)
          (two_bytes-AreDecoded _ _ _ x y z))
        tt)
      (three_bytes-AreDecoded _ _ _ _ _ x y z w (base64_decode-AreDecoded s))

encode_runs : base64_encode (77 ∷ 97 ∷ 110 ∷ 77 ∷ []) ≡ "TWFuTQ=="
unfolding base64_encode
encode_runs = refl

decode_runs : base64_decode "TWFuTQ==" ≡ some (77 ∷ 97 ∷ 110 ∷ 77 ∷ [])
unfolding base64_decode
decode_runs = refl

decode_bad : base64_decode "TWFuT" ≡ none
unfolding base64_decode
decode_bad = refl
