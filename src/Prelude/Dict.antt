-- ===== src/Prelude/Dict.antt =====
-- Go's `map[string]T` as a list of pairs with an insertion that replaces.
use Prim.Native.String.{String}
use mathlib.Core.Path.{◌≡◌, refl}
use mathlib.Core.Option.{Option, none, some}
use mathlib.Core.List.{List, [], ◌∷◌}
use native.Mathlib.Omega.{arith}
use text.Mathlib.TextEquality.{eq_iff}
use runbooks.Prelude.Basic.{◌==◌, if◌then◌else◌}

abbrev pub Dict : Type 0 → Type 0
Dict V = List (String × V)

module _ {A : Type 0} where
  -- `value, ok := entries[key]`
  unfoldable pub lookup : String → Dict A → Option A
  lookup key [] = none
  lookup key ((first, value) ∷ entries) = if first == key then some value else lookup key entries

  -- `entries[key] = value`
  unfoldable pub insert : String → A → Dict A → Dict A
  insert key value [] = (key, value) ∷ []
  insert key value ((first, old) ∷ entries) =
      if first == key then (key, value) ∷ entries else (first, old) ∷ insert key value entries

  -- What a key finds after an insertion.
  pub lookup-insert :
      (key wanted : String) (value : A) (entries : Dict A)
      → lookup wanted (insert key value entries)
        ≡ (if key == wanted then some value else lookup wanted entries)
  unfolding insert lookup
  lookup-insert key wanted value [] = refl
  lookup-insert key wanted value ((first, old) ∷ entries) = ground (
    arith,
    eq_iff first key,
    eq_iff first wanted,
    eq_iff key wanted,
    lookup-insert key wanted value entries,
  )

  -- `for key, value := range more { entries[key] = value }`
  unfoldable pub merge : Dict A → Dict A → Dict A
  merge entries [] = entries
  merge entries ((key, value) ∷ more) = merge (insert key value entries) more

  -- `delete(entries, key)`
  unfoldable pub erase : String → Dict A → Dict A
  erase key [] = []
  erase key ((first, value) ∷ entries) =
      if first == key then erase key entries else (first, value) ∷ erase key entries

  -- What a key finds after a removal.
  pub lookup-erase :
      (key wanted : String) (entries : Dict A)
      → lookup wanted (erase key entries) ≡ (if key == wanted then none else lookup wanted entries)
  unfolding erase lookup
  lookup-erase key wanted [] = ground (arith)
  lookup-erase key wanted ((first, old) ∷ entries) = ground (
    arith,
    eq_iff first key,
    eq_iff first wanted,
    eq_iff key wanted,
    lookup-erase key wanted entries,
  )
