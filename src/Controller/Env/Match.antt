-- ===== src/Controller/Env/Match.antt =====
-- The secret reference's expression, and `strings.TrimSpace`.
use Prim.Native.Char.{Char, code}
use runbooks.Prelude.{
  String, ◌==◌, if◌then◌else◌, Bool, true, false, ◌&&◌, ◌||◌, Option, none, some, eqb, leb,
}

-- What follows a prefix, where the text begins with it.
unfoldable pub after : String → String → Option String
after String.[] s = some s
after (String.◌∷◌ c p) String.[] = none
after (String.◌∷◌ c p) (String.◌∷◌ d s) =
    let rest = after p s in if eqb (code c) (code d) then rest else none

-- ` *`
unfoldable pub drop_spaces : String → String
drop_spaces String.[] = ""
drop_spaces (String.◌∷◌ c s) =
    let rest = drop_spaces s in if eqb (code c) 32 then rest else String.◌∷◌ c s

abbrev is_any : Option String → Bool
is_any none = false
is_any (some s) = true

-- ` *}}`
unfoldable pub closes : String → Bool
unfolding after drop_spaces
closes s = is_any (after "}}" (drop_spaces s))

-- `.`
abbrev pub is_newline : Char → Bool
is_newline c = eqb (code c) 10

-- `(.+) *}}`: the longest group.
unfoldable pub last_group : String → Option String
unfolding closes
last_group String.[] = none
last_group (String.◌∷◌ c s) = if is_newline c then none else elim (last_group s) [
  | some g ↦ some (String.◌∷◌ c g)
  | none ↦ if closes s then some (String.◌∷◌ c "") else none
]

-- `\.(.+) *}}`
unfoldable pub dot_group : String → Option String
unfolding last_group
dot_group String.[] = none
dot_group (String.◌∷◌ c s) = if eqb (code c) b'.' then last_group s else none

abbrev one_char : Char → Option String → Option (String × String)
one_char c none = none
one_char c (some g) = some (String.◌∷◌ c "", g)

-- `(.+)\.(.+) *}}`
unfoldable pub groups : String → Option (String × String)
unfolding dot_group
groups String.[] = none
groups (String.◌∷◌ c s) = if is_newline c then none else elim (groups s) [
  | some (g, rest) ↦ some (String.◌∷◌ c g, rest)
  | none ↦ one_char c (dot_group s)
]

abbrev pub then_groups : Option String → Option (String × String)
then_groups none = none
then_groups (some s) = groups s

abbrev pub then_secrets : Option String → Option String
then_secrets none = none
then_secrets (some s) = after "secrets." (drop_spaces s)

-- The expression, at the beginning of the text.
unfoldable pub match_here : String → Option (String × String)
unfolding groups after drop_spaces
match_here s = then_groups (then_secrets (after "${{" s))

-- `FindStringSubmatch`: the first position that matches.
unfoldable pub find_secret : String → Option (String × String)
unfolding match_here
find_secret String.[] = none
find_secret (String.◌∷◌ c s) =
    let rest = find_secret s in elim (match_here (String.◌∷◌ c s)) [ some g ↦ some g | none ↦ rest ]

-- `unicode.IsSpace`
unfoldable pub is_space : Char → Bool
is_space c =
    leb 9 (code c) && leb (code c) 13
    || eqb (code c) 32
    || eqb (code c) 0x85
    || eqb (code c) 0xa0
    || eqb (code c) 0x1680
    || leb 0x2000 (code c) && leb (code c) 0x200a
    || eqb (code c) 0x2028
    || eqb (code c) 0x2029
    || eqb (code c) 0x202f
    || eqb (code c) 0x205f
    || eqb (code c) 0x3000

unfoldable pub trim_left : String → String
unfolding is_space
trim_left String.[] = ""
trim_left (String.◌∷◌ c s) = let rest = trim_left s in if is_space c then rest else String.◌∷◌ c s

unfoldable pub trim_right : String → String
unfolding is_space
trim_right String.[] = ""
trim_right (String.◌∷◌ c s) =
    let rest = trim_right s in if is_space c && rest == "" then "" else String.◌∷◌ c rest

unfoldable pub trim_space : String → String
unfolding trim_left trim_right
trim_space s = trim_left (trim_right s)
