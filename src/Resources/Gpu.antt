-- ===== src/Resources/Gpu.antt =====
-- gpu_info.go
use runbooks.Prelude.{String, ◌==◌, if◌then◌else◌, Option, none, some, [], ◌∷◌}
use runbooks.Prelude.Dict.{Dict, lookup}
use runbooks.Cloud.{gcp_name, kind_cloud_name}

pub record GpuInfo : Type 0 where
  pub resource_name : String
  pub node_selector : Dict String

accelerator : String → GpuInfo
accelerator model = record {
  resource_name = "nvidia.com/gpu";
  node_selector = ("cloud.google.com/gke-accelerator", model) ∷ [];
}

-- The map `cloudGPUs`.
unfoldable pub cloud_gpus : Dict (Dict GpuInfo)
unfolding accelerator
cloud_gpus =
    (
      gcp_name,
      ("nvidia-t4", accelerator "nvidia-tesla-t4")
          ∷ ("nvidia-l4", accelerator "nvidia-l4")
          ∷ ("nvidia-a100", accelerator "nvidia-tesla-a100")
          ∷ [],
    )
    ∷ []

-- A lookup in a map that is not there finds nothing.
abbrev lookup_in : String → Option (Dict GpuInfo) → Option GpuInfo
lookup_in gpu_type none = none
lookup_in gpu_type (some gpus) = lookup gpu_type gpus

unfoldable pub get_gpu_info : String → String → Option GpuInfo
unfolding cloud_gpus lookup
get_gpu_info cloud_name gpu_type =
    if cloud_name == kind_cloud_name
    then some (record { resource_name = "nvidia.com/gpu"; node_selector = [] })
    else lookup_in gpu_type (lookup cloud_name cloud_gpus)
