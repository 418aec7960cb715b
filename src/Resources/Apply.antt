-- ===== src/Resources/Apply.antt =====
-- resources.go
use runbooks.Prelude.{
  ℕ, ◌*◌, ◌%◌, ◌^◌, String, ◌<>◌, ◌==◌, if◌then◌else◌, Option, none, some, List, [], ◌∷◌, snoc,
}
use runbooks.Prelude.Dict.{insert, merge}
use runbooks.Kube.{
  Quantity, decimal_si, binary_si, ResourceRequirements, Container, Toleration, PodSpec,
}
use runbooks.Program.{Go, ok, err}
use runbooks.Api.{Resources, GpuResources}
use runbooks.Resources.Gpu.{GpuInfo, get_gpu_info}

abbrev pub gigabyte : ℕ
gigabyte = 1073741824

-- A product of int64 values, each the bit pattern of one: what is 2 ^ 63 or more is negative.
abbrev pub mul64 : ℕ → ℕ → ℕ
mul64 a b = (a * b) % 2 ^ 64

-- `resource.NewQuantity`
abbrev pub count : ℕ → Quantity
count n = record { value = n; format = decimal_si }

abbrev pub gigabytes : ℕ → Quantity
gigabytes n = record { value = mul64 n gigabyte; format = binary_si }

-- The resources of an object that states none.
unfoldable pub default_resources : String → Resources
default_resources cloud_name =
    if cloud_name == "kind"
    then record { cpu = 0; disk = 0; memory = 0; gpu = none }
    else record { cpu = 2; disk = 100; memory = 4; gpu = none }

abbrev or_default : String → Option Resources → Resources
or_default cloud_name none = default_resources cloud_name
or_default cloud_name (some res) = res

unfoldable pub base_requirements : Resources → ResourceRequirements
unfolding insert
base_requirements res = record {
  requests =
      ("cpu", count res.cpu)
      ∷ ("memory", gigabytes res.memory)
      ∷ ("ephemeral-storage", gigabytes res.disk)
      ∷ [];
  limits = [];
}

unfoldable pub with_gpu : GpuInfo → ℕ → ResourceRequirements → ResourceRequirements
with_gpu info n r = record {
  requests = insert info.resource_name (count n) r.requests;
  limits = insert info.resource_name (count n) r.limits;
}

spot_toleration : Toleration
spot_toleration = record {
  key = "cloud.google.com/gke-spot";
  operator = "Equal";
  value = "true";
  effect = "NoSchedule";
}

unfoldable pub select_gpu_node : GpuInfo → PodSpec → PodSpec
unfolding spot_toleration
select_gpu_node info spec = record spec {
  tolerations = snoc spec.tolerations spot_toleration;
  node_selector = merge spec.node_selector info.node_selector;
}

-- `setContainerResourcesByIndex`, on the container at the index.
unfoldable pub add_resources : ResourceRequirements → Container → Container
add_resources r c = record c {
  resources = record {
    requests = merge c.resources.requests r.requests;
    limits = merge c.resources.limits r.limits;
  };
}

-- One of the two loops of `setContainerResources`.
unfoldable pub set_first : String → ResourceRequirements → List Container → Option (List Container)
set_first name r [] = none
set_first name r (c ∷ cs) =
    let rest = set_first name r cs in
    if c.name == name
    then some (add_resources r c ∷ cs)
    else elim rest [ none ↦ none | some ds ↦ some (c ∷ ds) ]

-- The pod spec with the first list that was found to change.
unfoldable pub changed :
    PodSpec → Option (List Container) → Option (List Container) → Option PodSpec
changed spec (some cs) other = some (record spec { init_containers = cs })
changed spec none (some cs) = some (record spec { containers = cs })
changed spec none none = none

-- The pod spec with the container's resources set, or `none` for `false`.
unfoldable pub set_container_resources : String → PodSpec → ResourceRequirements → Option PodSpec
unfolding changed
set_container_resources name spec r =
    changed spec (set_first name r spec.init_containers) (set_first name r spec.containers)

put : String → PodSpec → ResourceRequirements → Go PodSpec
put name spec r = elim (set_container_resources name spec r) [
  | some s ↦ ok s
  | none ↦ err ("container " <> (name <> " not found in pod"))
]

put_gpu : String → String → PodSpec → ResourceRequirements → GpuResources → Go PodSpec
unfolding put
put_gpu name cloud_name spec r g = elim (get_gpu_info cloud_name g.type) [
  | none ↦ err ("GPU " <> (g.type <> (" is not supported on cloud " <> cloud_name)))
  | some info ↦ put name (select_gpu_node info spec) (with_gpu info g.count r)
]

apply_known : PodSpec → String → String → Resources → Go PodSpec
unfolding put_gpu
apply_known spec name cloud_name res = elim (res.gpu) [
  | none ↦ put name spec (base_requirements res)
  | some g ↦ put_gpu name cloud_name spec (base_requirements res) g
]

-- `Apply`
unfoldable pub apply : PodSpec → String → String → Option Resources → Go PodSpec
unfolding apply_known
apply spec name cloud_name res = apply_known spec name cloud_name (or_default cloud_name res)

-- `ContainerBuilderResources`
unfoldable pub container_builder_resources : String → ResourceRequirements
container_builder_resources cloud_name =
    if cloud_name == "kind" then record { requests = []; limits = [] } else record {
      requests =
          ("cpu", count 2) ∷ ("memory", gigabytes 12) ∷ ("ephemeral-storage", gigabytes 100) ∷ [];
      limits = [];
    }
