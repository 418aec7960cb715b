-- ===== src/Resources/Applied.antt =====
-- What `Apply` changes of a pod.
use runbooks.Prelude.{
  ℕ, ◌*◌, ◌^◌, ◌<◌, String, ◌≡◌, refl, ◌⊎◌, inl, inr, ◌==◌, Option, none, some, List, [], ◌∷◌,
}
use runbooks.Kube.{Container, PodSpec, Quantity, binary_si, ResourceRequirements}
use runbooks.Kube.Containers.{Absent, nowhere, Changed, Searched, Searched-step}
use runbooks.Api.{Resources}
use runbooks.Resources.{add_resources, set_first, changed, set_container_resources, gigabyte}

set_first-Searched :
    (name : String) (r : ResourceRequirements) (cs : List Container)
    → Searched (add_resources r) name cs (set_first name r cs)
unfolding set_first
set_first-Searched name r [] = nowhere
set_first-Searched name r (c ∷ cs) =
    Searched-step (add_resources r) name c cs (c.name == name) _ refl (set_first-Searched name r cs)

abbrev pub Placed : String → PodSpec → ResourceRequirements → Option PodSpec → Type 0
Placed name spec r none = Absent name spec.init_containers × Absent name spec.containers
Placed name spec r (some s) =
    (Changed (add_resources r) name spec.init_containers s.init_containers
      × (s.containers ≡ spec.containers))
    ⊎ (Absent name spec.init_containers
        × (s.init_containers ≡ spec.init_containers)
        × Changed (add_resources r) name spec.containers s.containers)

changed-Placed :
    (name : String) (spec : PodSpec) (r : ResourceRequirements)
    (inits others : Option (List Container))
    → Searched (add_resources r) name spec.init_containers inits
    → Searched (add_resources r) name spec.containers others
    → Placed name spec r (changed spec inits others)
unfolding changed
changed-Placed name spec r (some cs) others in_inits in_others = inl (in_inits, refl)
changed-Placed name spec r none (some cs) in_inits in_others = inr (in_inits, refl, in_others)
changed-Placed name spec r none none in_inits in_others = (in_inits, in_others)

-- Resources are added to the first init container of the name, else to the first container of the
-- name, and to one only; that fails exactly if neither list has a container of the name.
pub set_container_resources-Placed :
    (name : String) (spec : PodSpec) (r : ResourceRequirements)
    → Placed name spec r (set_container_resources name spec r)
unfolding set_container_resources
set_container_resources-Placed name spec r =
    changed-Placed name spec r _ _ (set_first-Searched name r spec.init_containers)
      (set_first-Searched name r spec.containers)

-- So many gigabytes are a number of bytes that an int64 holds.
abbrev pub FitsInt64 : ℕ → Type 0
FitsInt64 n = n * gigabyte < 2 ^ 63

abbrev bytes : ℕ → Quantity
bytes n = record { value = n; format = binary_si }
