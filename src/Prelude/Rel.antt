-- ===== src/Prelude/Rel.antt =====
-- `filepath.Rel(base, target)`.
use Prim.Native.String.{String}
use mathlib.Core.Path.{◌≡◌, refl}
use mathlib.Core.Bool.{Bool, false, not, ◌&&◌, ◌||◌}
use mathlib.Core.Option.{Option, none, some}
use mathlib.Core.List.{List, [], ◌∷◌, ◌++◌, map}
use runbooks.Prelude.Basic.{◌==◌, if◌then◌else◌}
use runbooks.Prelude.FilePath.{split, join, clean, is_rooted}

-- The elements of a cleaned path.
abbrev elements : String → List String
elements s = if s == "." then [] else if s == "/" then "" ∷ [] else split b'/' s

abbrev has_parent : List String → Bool
has_parent [] = false
has_parent (s ∷ rest) = s == ".." || has_parent rest

-- What is left of the base is gone up, unless it goes up itself.
abbrev up_from : List String → List String → Option (List String)
up_from base target = if has_parent base then none else some (map (λ _. "..") base ++ target)

unfoldable pub rel_elements : List String → List String → Option (List String)
rel_elements [] target = up_from [] target
rel_elements (b ∷ base) [] = up_from (b ∷ base) []
rel_elements (b ∷ base) (t ∷ target) =
    let rest = rel_elements base target in if b == t then rest else up_from (b ∷ base) (t ∷ target)

abbrev joined : Option (List String) → Option String
joined none = none
joined (some parts) = some (join "/" parts)

-- Nothing, where the function returns an error.
unfoldable pub rel : String → String → Option String
unfolding rel_elements
rel base target =
    if clean base == clean target
    then some "."
    else if is_rooted (clean base) && is_rooted (clean target)
        || not (is_rooted (clean base)) && not (is_rooted (clean target))
    then joined (rel_elements (elements (clean base)) (elements (clean target)))
    else none

rel_below : rel "/work/app" "/work/app/src/main.go" ≡ some "src/main.go"
unfolding rel clean
rel_below = refl

rel_here : rel "." "src/main.go" ≡ some "src/main.go"
unfolding rel clean
rel_here = refl

rel_beside : rel "a/b" "a/c" ≡ some "../c"
unfolding rel clean
rel_beside = refl

rel_root : rel "/" "/a/b" ≡ some "a/b"
unfolding rel clean
rel_root = refl
