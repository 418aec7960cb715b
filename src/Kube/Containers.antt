-- ===== src/Kube/Containers.antt =====
-- A change of the first container of a name in a list of containers.
use runbooks.Prelude.{
  String, ◌≡◌, ◌==◌, if◌then◌else◌, Bool, true, false, Option, none, some, List, [], ◌∷◌,
}
use runbooks.Kube.{Container}

-- No container has the name.
pub data Absent (name : String) : List Container → Type 0 where
  nowhere : Absent name []
  elsewhere :
      {c : Container} {cs : List Container}
      → (c.name == name) ≡ false
      → Absent name cs
      → Absent name (c ∷ cs)

-- The second list is the first one with its first container of the name changed.
pub data Changed (change : Container → Container) (name : String)
    : List Container → List Container → Type 0 where
  first :
      {c : Container} {cs : List Container}
      → (c.name == name) ≡ true
      → Changed change name (c ∷ cs) (change c ∷ cs)
  later :
      {c : Container} {cs ds : List Container}
      → (c.name == name) ≡ false
      → Changed change name cs ds
      → Changed change name (c ∷ cs) (c ∷ ds)

-- What a search for the container comes to: the changed list, or nothing where no container has the
-- name.
abbrev pub Searched :
    (Container → Container) → String → List Container → Option (List Container) → Type 0
Searched change name cs none = Absent name cs
Searched change name cs (some ds) = Changed change name cs ds

-- The search at the head of a list, from the search in the rest.
pub Searched-step :
    (change : Container → Container) (name : String) (c : Container) (cs : List Container)
    (same : Bool) (rest : Option (List Container))
    → (c.name == name) ≡ same
    → Searched change name cs rest
    → Searched change name
        (c ∷ cs)
        (if same then some (change c ∷ cs) else elim rest [ none ↦ none | some ds ↦ some (c ∷ ds) ])
Searched-step change name c cs true rest test in_rest = first test
Searched-step change name c cs false none test in_rest = elsewhere test in_rest
Searched-step change name c cs false (some ds) test in_rest = later test in_rest
