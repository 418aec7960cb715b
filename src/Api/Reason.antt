-- ===== src/Api/Reason.antt =====
-- api/v1/conditions.go
use runbooks.Prelude.{String}

abbrev pub uploaded : String
uploaded = "Uploaded"

abbrev pub built : String
built = "Built"

abbrev pub complete : String
complete = "Complete"

abbrev pub serving : String
serving = "Serving"

abbrev pub model_not_found : String
model_not_found = "ModelNotFound"

abbrev pub model_not_ready : String
model_not_ready = "ModelNotReady"

abbrev pub base_model_not_found : String
base_model_not_found = "BaseModelNotFound"

abbrev pub base_model_not_ready : String
base_model_not_ready = "BaseModelNotReady"

abbrev pub dataset_not_found : String
dataset_not_found = "DatasetNotFound"

abbrev pub dataset_not_ready : String
dataset_not_ready = "ReasonDatasetNotReady"

abbrev pub job_not_complete : String
job_not_complete = "JobNotComplete"

abbrev pub job_complete : String
job_complete = "JobComplete"

abbrev pub job_failed : String
job_failed = "JobFailed"

abbrev pub deployment_ready : String
deployment_ready = "DeploymentReady"

abbrev pub deployment_not_ready : String
deployment_not_ready = "DeploymentNotReady"

abbrev pub pod_ready : String
pod_ready = "PodReady"

abbrev pub pod_not_ready : String
pod_not_ready = "PodNotReady"

abbrev pub suspended : String
suspended = "Suspended"

abbrev pub awaiting_upload : String
awaiting_upload = "AwaitingUpload"

abbrev pub upload_found : String
upload_found = "UploadFound"
