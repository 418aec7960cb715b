-- ===== src/Prelude/FilePath.antt =====
-- `strings.Split(s, "/")`, and `filepath.Join` of two elements with the cleaning that it ends in.
use Prim.Native.Char.{Char, code}
use Prim.Native.String.{String, ◌++◌ as ◌<>◌}
use mathlib.Core.Path.{◌≡◌, refl}
use mathlib.Core.Bool.{Bool, true, false, ◌||◌}
use mathlib.Core.List.{List, [], ◌∷◌, reverse}
use runbooks.Prelude.Basic.{eqb, ◌==◌, if◌then◌else◌}

prepend_char : Char → List String → List String
prepend_char c [] = String.◌∷◌ c "" ∷ []
prepend_char c (s ∷ rest) = String.◌∷◌ c s ∷ rest

-- `strings.Split(s, sep)` for a separator of one character, given by its code.
unfoldable pub split : Prim.Native.Nat.ℕ → String → List String
unfolding prepend_char
split sep String.[] = "" ∷ []
split sep (String.◌∷◌ c s) =
    let rest = split sep s in if eqb (code c) sep then "" ∷ rest else prepend_char c rest

-- `strings.Join(parts, sep)`
unfoldable pub join : String → List String → String
join sep [] = ""
join sep (s ∷ []) = s
join sep (s ∷ t ∷ rest) = s <> (sep <> join sep (t ∷ rest))

-- One element `..` of a path: it takes back the element before it.
step_up : Bool → List String → List String
step_up true [] = []
step_up false [] = ".." ∷ []
step_up rooted (s ∷ out) = if s == ".." then ".." ∷ s ∷ out else out

-- The loop of `filepath.Clean` over the elements; `out` holds the result's, the last one first.
clean_parts : Bool → List String → List String → List String
unfolding step_up
clean_parts rooted out [] = out
clean_parts rooted out (s ∷ rest) =
    clean_parts rooted
      (if s == "" || s == "." then out else if s == ".." then step_up rooted out else s ∷ out) rest

unfoldable pub is_rooted : String → Bool
is_rooted String.[] = false
is_rooted (String.◌∷◌ c s) = eqb (code c) b'/'

or_dot : String → String
or_dot s = if s == "" then "." else s

unfoldable pub clean : String → String
unfolding split join clean_parts is_rooted or_dot
clean s =
    let body = join "/" (reverse (clean_parts (is_rooted s) [] (split b'/' s))) in
    if is_rooted s then "/" <> body else or_dot body

abbrev has_slash : String → Bool
has_slash String.[] = false
has_slash (String.◌∷◌ c s) = eqb (code c) b'/' || has_slash s

-- The text up to its last slash, with the slash.
unfoldable pub up_to_slash : String → String
up_to_slash String.[] = ""
up_to_slash (String.◌∷◌ c s) =
    let rest = up_to_slash s in if eqb (code c) b'/' || has_slash s then String.◌∷◌ c rest else ""

-- `filepath.Dir`
unfoldable pub dir : String → String
unfolding clean up_to_slash
dir s = clean (up_to_slash s)

-- `filepath.Join(a, b)`: empty elements are left out.
unfoldable pub join_path : String → String → String
unfolding clean
join_path a b =
    if a == ""
    then (if b == "" then "" else clean b)
    else if b == ""
    then clean a
    else clean (a <> ("/" <> b))

join_path_cleans : join_path "/bucket//x/../" "h" ≡ "/bucket/h"
unfolding join_path
join_path_cleans = refl

join_path_empty : join_path "" "h" ≡ "h"
unfolding join_path
join_path_empty = refl

dir_of_file : dir "//bucket/x/uploads/latest.tar.gz" ≡ "/bucket/x/uploads"
unfolding dir
dir_of_file = refl

dir_of_name : dir "latest.tar.gz" ≡ "."
unfolding dir
dir_of_name = refl
