-- ===== src/Tui/Versions.antt =====
-- `nextModelVersion` and `nextDatasetVersion` of internal/tui/common.go. The name of an object is of
-- lower-case letters, digits, `-` and `.`, of which the expression `<name>-(\d+)` reads only the last
-- as a pattern, for any character but a newline.
use Prim.Native.Char.{Char, code}
use runbooks.Prelude.{
  ℕ, ◌+◌, ◌%◌, ◌^◌, String, ◌≡◌, refl, ltb, eqb, if◌then◌else◌, Bool, ◌&&◌, ◌||◌, not, Option, none,
  some, List, [], ◌∷◌,
}
use runbooks.Prelude.Decimal.{is_digit, atoi}
use runbooks.Program.{Go, ok, err, panic}
use runbooks.Program.Fallible.{◌>>=◌}

-- A character of the expression that stands for a character of the text.
abbrev pub fits : Char → Char → Bool
fits p c = eqb (code p) (code c) || eqb (code p) b'.' && not (eqb (code c) 10)

-- What follows the name.
unfoldable pub after_name : String → String → Option String
after_name String.[] s = some s
after_name (String.◌∷◌ p name) String.[] = none
after_name (String.◌∷◌ p name) (String.◌∷◌ c s) =
    let rest = after_name name s in if fits p c then rest else none

-- `\d+`, as long as it can be
unfoldable pub leading_digits : String → String
leading_digits String.[] = ""
leading_digits (String.◌∷◌ c s) =
    let rest = leading_digits s in if is_digit c then String.◌∷◌ c rest else ""

abbrev pub group : Option String → Option String
group none = none
group (some String.[]) = none
group (some (String.◌∷◌ c String.[])) = none
group (some (String.◌∷◌ c (String.◌∷◌ d s))) =
    if eqb (code c) b'-' && is_digit d then some (leading_digits (String.◌∷◌ d s)) else none

-- The expression at the beginning of the text: its group.
unfoldable pub version_here : String → String → Option String
unfolding after_name leading_digits
version_here name s = group (after_name name s)

abbrev first_of : Option String → Option String → Option String
first_of (some v) later = some v
first_of none later = later

-- `FindStringSubmatch`: the first position that matches.
unfoldable pub find_version : String → String → Option String
unfolding version_here
find_version name String.[] = version_here name ""
find_version name (String.◌∷◌ c s) =
    first_of (version_here name (String.◌∷◌ c s)) (find_version name s)

abbrev pub number_or_error : Option ℕ → Go (Option ℕ)
number_or_error none = err "version label to int: value out of range"
number_or_error (some v) = ok (some v)

-- The version of an item's name, if it has one.
abbrev pub version_of : Option String → Go (Option ℕ)
version_of none = ok none
version_of (some digits) = number_or_error (atoi digits)

abbrev pub raised : ℕ → Option ℕ → ℕ
raised highest none = highest
raised highest (some v) = if ltb highest v then v else highest

unfoldable pub read_version : String → String → Go (Option ℕ)
unfolding find_version atoi
read_version name item = version_of (find_version name item)

-- The loop over the items, of which it reads the names.
unfoldable pub highest_version : String → ℕ → List String → Go ℕ
unfolding read_version
highest_version name highest [] = ok highest
highest_version name highest (item ∷ rest) =
    read_version name item >>= λ v. highest_version name (raised highest v) rest

abbrev pub incremented : Go ℕ → Go ℕ
incremented (ok highest) = ok ((highest + 1) % 2 ^ 64)
incremented (err e) = err e
incremented (panic e) = panic e

-- The version, as the bit pattern of an `int`.
unfoldable pub next_version : String → List String → Go ℕ
unfolding highest_version
next_version name items = incremented (highest_version name 0 items)

counts_others : next_version "llm" ("llm-2" ∷ "my-llm-7" ∷ "other" ∷ []) ≡ ok 8
unfolding next_version
counts_others = refl
