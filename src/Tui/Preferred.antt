-- ===== src/Tui/Preferred.antt =====
-- The manifest that internal/tui/manifests.go selects is the one of the preferred kind.
use text.Mathlib.TextEquality.{eq_iff}
use runbooks.Prelude.{
  ℕ, ◌+◌, ◌<◌, String, ◌≡◌, refl, ap, ◌∙◌, ◌==◌, eqb, if◌then◌else◌, Bool, true, false, Bool-cases,
  inl, inr, snoc, Option, none, some, List, [], ◌∷◌, ◌++◌, arith,
}
use runbooks.Prelude.Dict.{Dict, lookup, insert, lookup-insert}
use runbooks.Client.Objects.{AnyObject, kind_of}
use runbooks.Tui.Manifests.{
  listed, group_objects_by_kind, first_item, count, select_kinds, Selection, selected, none_found,
  selection, select_manifest,
}

-- The first object of a kind.
unfoldable pub first_of_kind : String → List AnyObject → Option AnyObject
first_of_kind kind [] = none
first_of_kind kind (o ∷ rest) =
    let later = first_of_kind kind rest in if kind_of o == kind then some o else later

abbrev or_else : Option AnyObject → Option AnyObject → Option AnyObject
or_else (some o) later = some o
or_else none later = later

-- The first object of the first kind that has one.
unfoldable pub preferred : List String → List AnyObject → Option AnyObject
unfolding first_of_kind
preferred [] manifests = none
preferred (kind ∷ kinds) manifests =
    or_else (first_of_kind kind manifests) (preferred kinds manifests)

abbrev pub chosen : Option AnyObject → Selection
chosen none = none_found
chosen (some o) = selected o

of_kind : String → List AnyObject → List AnyObject
of_kind kind [] = []
of_kind kind (o ∷ rest) =
    let later = of_kind kind rest in if kind_of o == kind then o ∷ later else later

snoc-append : (xs ys : List AnyObject) (o : AnyObject) → snoc xs o ++ ys ≡ xs ++ (o ∷ ys)
snoc-append [] ys o = refl
snoc-append (x ∷ xs) ys o = ap (λ zs. x ∷ zs) (snoc-append xs ys o)

append_nil : (xs : List AnyObject) → xs ≡ xs ++ []
append_nil [] = refl
append_nil (x ∷ xs) = ap (λ zs. x ∷ zs) (append_nil xs)

-- One object's part in the list of a kind.
listed_step :
    (same : Bool) (mine rest : List AnyObject) (o : AnyObject) (found : Option (List AnyObject))
    → (same ≡ true → mine ≡ listed found)
    → listed (if same then some (snoc mine o) else found) ++ rest
      ≡ listed found ++ (if same then o ∷ rest else rest)
listed_step true mine rest o found same = rw (same refl) (snoc-append (listed found) rest o)
listed_step false mine rest o found same = refl

group-of_kind :
    (kind : String) (g : Dict (List AnyObject)) (objects : List AnyObject)
    → listed (lookup kind (group_objects_by_kind g objects))
      ≡ listed (lookup kind g) ++ of_kind kind objects
unfolding group_objects_by_kind of_kind
group-of_kind kind g [] = append_nil (listed (lookup kind g))
group-of_kind kind g (o ∷ rest) =
    group-of_kind kind (insert (kind_of o) (snoc (listed (lookup (kind_of o) g)) o) g) rest
    ∙ (ap (λ found. listed found ++ of_kind kind rest)
          (lookup-insert (kind_of o) kind (snoc (listed (lookup (kind_of o) g)) o) g)
        ∙ listed_step (kind_of o == kind) (listed (lookup (kind_of o) g)) (of_kind kind rest) o
            (lookup kind g)
            (λ same. ap (λ k. listed (lookup k g)) ((eq_iff (kind_of o) kind).0 same)))

group_nil-of_kind :
    (kind : String) (objects : List AnyObject)
    → listed (lookup kind (group_objects_by_kind [] objects)) ≡ of_kind kind objects
unfolding lookup
group_nil-of_kind kind objects = group-of_kind kind [] objects

head_of : List AnyObject → Option AnyObject
head_of [] = none
head_of (o ∷ rest) = some o

head-of_kind :
    (kind : String) (objects : List AnyObject)
    → head_of (of_kind kind objects) ≡ first_of_kind kind objects
unfolding head_of of_kind first_of_kind
head-of_kind kind [] = refl
head-of_kind kind (o ∷ rest) = elim (Bool-cases (kind_of o == kind)) [
  | inl same ↦ rw same refl
  | inr other ↦ rw other (head-of_kind kind rest)
]

selection-some :
    (o : AnyObject) (n : ℕ) (none_yet one : Bool)
    → none_yet ≡ false
    → ◌≡◌ {A = Selection}
        (if none_yet then none_found else if one then selected o else selected o)
        (selected o)
selection-some o n true one positive = cc
selection-some o n false true positive = refl
selection-some o n false false positive = refl

positive : (n : ℕ) → 0 < n → eqb n 0 ≡ false
positive n h = ground arith

-- Once there is an object, it stays the single one.
kept :
    (g : Dict (List AnyObject)) (o : AnyObject) (n : ℕ) (kinds : List String)
    → 0 < n
    → selection (select_kinds g (some o) n kinds) ≡ selected o
unfolding select_kinds
kept g o n [] more = selection-some o n (eqb n 0) (eqb n 1) (positive n more)
kept g o n (kind ∷ kinds) more =
    kept g o (n + count (listed (lookup kind g))) kinds (omega (arith, more))

module _ (objects : List AnyObject) where
  abbrev groups : Dict (List AnyObject)
  groups = group_objects_by_kind [] objects

  select_step :
      (kinds : List String) (items : List AnyObject) (first : Option AnyObject)
      → head_of items ≡ first
      → selection (select_kinds groups none 0 kinds) ≡ chosen (preferred kinds objects)
      → selection (select_kinds groups (first_item none items) (0 + count items) kinds)
        ≡ chosen (or_else first (preferred kinds objects))
  unfolding head_of
  select_step kinds [] first head later = rw (← head) later
  select_step kinds (o ∷ items) first head later =
      rw (← head) (kept groups o (0 + count (o ∷ items)) kinds (omega arith))

  select-preferred :
      (kinds : List String)
      → selection (select_kinds groups none 0 kinds) ≡ chosen (preferred kinds objects)
  unfolding select_kinds preferred
  select-preferred [] = refl
  select-preferred (kind ∷ kinds) =
      select_step kinds (listed (lookup kind groups)) (first_of_kind kind objects)
        (ap head_of (group_nil-of_kind kind objects) ∙ head-of_kind kind objects)
        (select-preferred kinds)

-- Of the manifests that were found, the first one of the first preferred kind that has any is selected,
-- and there is an error exactly if no manifest has a preferred kind.
pub select_manifest-preferred :
    (kinds : List String) (manifests : List AnyObject)
    → select_manifest kinds manifests ≡ chosen (preferred kinds manifests)
unfolding select_manifest
select_manifest-preferred kinds manifests = select-preferred manifests kinds
