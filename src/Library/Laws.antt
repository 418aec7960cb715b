-- ===== src/Library/Laws.antt =====
-- What the documentation of `meta.SetStatusCondition` says: the condition of the new one's type is
-- set to it, and conditions of other types stay.
use runbooks.Prelude.{String, ◌≡◌, ◌==◌, if◌then◌else◌, Option, none, some, List, [], ◌∷◌}
use runbooks.Kube.{Condition}

-- `meta.FindStatusCondition`
unfoldable pub find_condition : String → List Condition → Option Condition
find_condition t [] = none
find_condition t (c ∷ cs) = if c.type == t then some c else find_condition t cs

abbrev pub SetsCondition : (List Condition → Condition → List Condition) → Type 0
SetsCondition set =
    (cs : List Condition) (c : Condition) (t : String)
    → find_condition t (set cs c) ≡ (if c.type == t then some c else find_condition t cs)

-- A function that meets the description.
unfoldable pub put_condition : List Condition → Condition → List Condition
put_condition [] c = c ∷ []
put_condition (d ∷ cs) c = if d.type == c.type then c ∷ cs else d ∷ put_condition cs c
