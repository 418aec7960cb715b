-- ===== src/Controller/Params.antt =====
-- params_reconciler.go: the ConfigMap with an object's parameters, and its mount.
use runbooks.Prelude.{String, ◌<>◌, ◌==◌, if◌then◌else◌, false, none, some, [], ◌∷◌, snoc}
use runbooks.Prelude.Dict.{Dict, insert}
use runbooks.Prelude.Text.{to_lower}
use runbooks.Kube.{
  ObjectMeta, OwnerReference, IntOrString, ConfigMap, VolumeMount, config_map, PodSpec,
}
use runbooks.Program.{
  Go, ok, err, panic, written, write_error, create_or_update_config_map, Program, ret, ◌>>=◌,
  perform, or_stop, fail,
}
use runbooks.Program.Fallible
use runbooks.Program.Fallible.{wrap}
use runbooks.Library.{Library, Reference, referenced, already_owned, reference_error}
use runbooks.Api.{Kind, Object, metadata, kind_name, get_params}
use runbooks.Cloud.{mount_in}

unfoldable pub params_config_map_name : (k : Kind) → Object k → Go String
params_config_map_name k o =
    if kind_name k o == ""
    then panic "empty kind"
    else ok ((metadata k o).name <> ("-" <> (to_lower (kind_name k o) <> "-params")))

abbrev pub owner_of : (k : Kind) → Object k → OwnerReference
owner_of k o = record { kind = kind_name k o; name = (metadata k o).name }

abbrev pub fresh_meta : String → String → ObjectMeta
fresh_meta name namespace = record {
  name = name;
  namespace = namespace;
  generation = 0;
  resource_version = "";
  annotations = [];
  labels = [];
  owners = [];
}

abbrev pub params_mount : VolumeMount
params_mount = record {
  name = "params";
  mount_path = "/content/params.json";
  sub_path = "params.json";
  read_only = false;
}

-- `mountParamsConfigMap`
unfoldable pub mount_params_config_map : PodSpec → (k : Kind) → Object k → String → Go PodSpec
unfolding params_config_map_name mount_in
mount_params_config_map spec k o container = elim (params_config_map_name k o) [
  | err e ↦ err e
  | panic s ↦ panic s
  | ok name ↦ elim (mount_in container (params_mount ∷ []) spec.containers) [
    | none ↦ err ("container not found: " <> container)
    | some cs ↦ ok (record spec {
      containers = cs;
      volumes = snoc spec.volumes (record { name = "params"; source = config_map name });
    })
  ]
]

-- The ConfigMap with new contents, as the owner reference came out.
unfoldable pub referenced_params : ConfigMap → Dict String → Reference → Go ConfigMap
referenced_params cm contents (referenced m) = ok (record { metadata = m; contents = contents })
referenced_params cm contents already_owned = ok (record cm { contents = contents })
referenced_params cm contents (reference_error e) = err ("setting controller reference: " <> e)

module _ (L : Library) where
  -- At least an empty object is passed on.
  unfoldable pub params_contents : Dict IntOrString → Go String
  params_contents [] = ok "{}"
  params_contents (p ∷ ps) = wrap "marshalling params to json" (L.marshal_params (p ∷ ps))

  unfoldable pub put_contents : OwnerReference → ConfigMap → String → Go ConfigMap
  unfolding referenced_params
  put_contents owner cm contents =
      referenced_params cm (insert "params.json" contents cm.contents)
        (L.set_controller_reference owner cm.metadata)

  -- The closure that `CreateOrUpdate` runs on the ConfigMap as it is in the cluster.
  unfoldable pub configure_params : (k : Kind) → Object k → ConfigMap → Go ConfigMap
  unfolding params_contents put_contents
  configure_params k o cm =
      Fallible.◌>>=◌ (params_contents (get_params k o)) (put_contents (owner_of k o) cm)

  -- The name is a text or a panic, never an error.
  unfoldable pub reconcile_params_config_map : (k : Kind) → Object k → Program (Unit {0})
  unfolding ◌>>=◌ params_config_map_name
  reconcile_params_config_map k o = do
    name ← or_stop (params_config_map_name k o)
    let cm : ConfigMap = record {
      metadata = fresh_meta name (metadata k o).namespace;
      contents = [];
    }
    answer ← perform (create_or_update_config_map cm (configure_params k o))
    elim answer [
      | written stored ↦ ret tt
      | write_error e ↦ fail ("failed to create or update configmap: " <> e)
    ]
