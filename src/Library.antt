-- ===== src/Library.antt =====
-- What the code calls in other repositories and in the parts of Go's library that are not modelled:
-- a parameter of the development, with its documented behaviour as named hypotheses.
mod Laws
use runbooks.Prelude.{String, Option, List}
use runbooks.Prelude.Dict.{Dict}
use runbooks.Kube.{ObjectMeta, OwnerReference, Condition, IntOrString}
use runbooks.Program.{Go}
unfoldable pub use Laws.*

-- `url.URL`
pub record Url : Type 0 where
  pub scheme : String
  pub host : String
  pub path : String

-- `controllerutil.SetControllerReference`: the owned object's metadata, the error
-- `AlreadyOwnedError`, or another error.
pub data Reference : Type 0 where
  referenced : ObjectMeta → Reference
  already_owned : Reference
  reference_error : String → Reference

pub record Library : Type 0 where
  -- `fmt.Sprintf("%x", md5.Sum(s))`
  pub md5_hex : String → String
  -- `url.Parse`
  pub parse_url : String → Go Url
  -- `json.MarshalIndent(params, "", "  ")`
  pub marshal_params : Dict IntOrString → Go String
  -- `meta.SetStatusCondition`
  pub set_status_condition : List Condition → Condition → List Condition
  pub set_controller_reference : OwnerReference → ObjectMeta → Reference
