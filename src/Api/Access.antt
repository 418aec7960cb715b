-- ===== src/Api/Access.antt =====
-- The methods of the four resources, dispatched on the kind as Go dispatches on the interface
-- `BuildableObject` or `ParameterizedObject`.
use runbooks.Prelude.{String, Bool, false, Option, none, some, List}
use runbooks.Prelude.Dict.{Dict}
use runbooks.Kube.{ObjectMeta, Condition, IntOrString}
use runbooks.Api.Types.{Build, UploadStatus, ArtifactsStatus, Model, Dataset, Server, Notebook}

pub data Kind : Type 0 where
  model dataset server notebook : Kind

abbrev pub Object : Kind → Type 0
Object model = Model
Object dataset = Dataset
Object server = Server
Object notebook = Notebook

abbrev pub metadata : (k : Kind) → Object k → ObjectMeta
metadata model o = o.metadata
metadata dataset o = o.metadata
metadata server o = o.metadata
metadata notebook o = o.metadata

-- `GetObjectKind().GroupVersionKind().Kind`
abbrev pub kind_name : (k : Kind) → Object k → String
kind_name model o = o.kind
kind_name dataset o = o.kind
kind_name server o = o.kind
kind_name notebook o = o.kind

abbrev pub get_params : (k : Kind) → Object k → Dict IntOrString
get_params model o = o.spec.params
get_params dataset o = o.spec.params
get_params server o = o.spec.params
get_params notebook o = o.spec.params

abbrev pub get_build : (k : Kind) → Object k → Option Build
get_build model o = o.spec.build
get_build dataset o = o.spec.build
get_build server o = o.spec.build
get_build notebook o = o.spec.build

abbrev pub set_build : (k : Kind) → Build → Object k → Object k
set_build model b o = record o { spec = record (o.spec) { build = some b } }
set_build dataset b o = record o { spec = record (o.spec) { build = some b } }
set_build server b o = record o { spec = record (o.spec) { build = some b } }
set_build notebook b o = record o { spec = record (o.spec) { build = some b } }

abbrev pub image_or_empty : Option String → String
image_or_empty none = ""
image_or_empty (some image) = image

abbrev pub get_image : (k : Kind) → Object k → String
get_image model o = image_or_empty o.spec.image
get_image dataset o = image_or_empty o.spec.image
get_image server o = image_or_empty o.spec.image
get_image notebook o = image_or_empty o.spec.image

abbrev pub set_image : (k : Kind) → String → Object k → Object k
set_image model image o = record o { spec = record (o.spec) { image = some image } }
set_image dataset image o = record o { spec = record (o.spec) { image = some image } }
set_image server image o = record o { spec = record (o.spec) { image = some image } }
set_image notebook image o = record o { spec = record (o.spec) { image = some image } }

abbrev pub get_conditions : (k : Kind) → Object k → List Condition
get_conditions model o = o.status.conditions
get_conditions dataset o = o.status.conditions
get_conditions server o = o.status.conditions
get_conditions notebook o = o.status.conditions

-- A write through the pointer that `GetConditions` returns.
abbrev pub set_conditions : (k : Kind) → List Condition → Object k → Object k
set_conditions model cs o = record o { status = record (o.status) { conditions = cs } }
set_conditions dataset cs o = record o { status = record (o.status) { conditions = cs } }
set_conditions server cs o = record o { status = record (o.status) { conditions = cs } }
set_conditions notebook cs o = record o { status = record (o.status) { conditions = cs } }

abbrev pub get_status_ready : (k : Kind) → Object k → Bool
get_status_ready model o = o.status.ready
get_status_ready dataset o = o.status.ready
get_status_ready server o = o.status.ready
get_status_ready notebook o = o.status.ready

abbrev pub set_status_ready : (k : Kind) → Bool → Object k → Object k
set_status_ready model r o = record o { status = record (o.status) { ready = r } }
set_status_ready dataset r o = record o { status = record (o.status) { ready = r } }
set_status_ready server r o = record o { status = record (o.status) { ready = r } }
set_status_ready notebook r o = record o { status = record (o.status) { ready = r } }

abbrev pub get_status_upload : (k : Kind) → Object k → UploadStatus
get_status_upload model o = o.status.build_upload
get_status_upload dataset o = o.status.build_upload
get_status_upload server o = o.status.upload
get_status_upload notebook o = o.status.build_upload

abbrev pub set_status_upload : (k : Kind) → UploadStatus → Object k → Object k
set_status_upload model u o = record o { status = record (o.status) { build_upload = u } }
set_status_upload dataset u o = record o { status = record (o.status) { build_upload = u } }
set_status_upload server u o = record o { status = record (o.status) { upload = u } }
set_status_upload notebook u o = record o { status = record (o.status) { build_upload = u } }

-- `GetStatusArtifacts`: a Server has no artifacts of its own, and no such method.
abbrev pub get_status_artifacts : (k : Kind) → Object k → Option ArtifactsStatus
get_status_artifacts model o = some o.status.artifacts
get_status_artifacts dataset o = some o.status.artifacts
get_status_artifacts server o = none
get_status_artifacts notebook o = some o.status.artifacts

abbrev pub is_suspended : Notebook → Bool
is_suspended n = elim (n.spec.suspend) [ none ↦ false | some s ↦ s ]
