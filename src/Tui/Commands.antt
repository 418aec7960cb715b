-- ===== src/Tui/Commands.antt =====
-- internal/tui/common.go: the namespace of an object, and the commands that write objects.
use runbooks.Prelude.{ℕ, ◌-◌, ◌^◌, String, ◌<>◌, ◌==◌, ltb, if◌then◌else◌, Bool, true, false, List}
use runbooks.Prelude.Decimal.{itoa}
use runbooks.Program.{Go, ok, err, panic, Creation, created, exists, create_error}
use runbooks.Program.Fallible.{wrap}
use runbooks.Api.{Kind, model, dataset, server, notebook, Object, metadata}
use runbooks.Client.Objects.{AnyObject, meta_of, set_metadata, set_namespace}
use runbooks.Client.Tarball.{Tarball}
use runbooks.Client.Upload.{set_upload_container_spec, clear_image}
use runbooks.Tui.Versions.{next_version}

-- The type `status`.
pub data Progress : Type 0 where
  not_started in_progress completed : Progress

pub record Namespace : Type 0 where
  pub specified : String
  pub contextual : String

-- `Namespace.Set`
unfoldable pub set_object_namespace : Namespace → AnyObject → AnyObject
unfolding set_namespace
set_object_namespace n o =
    if n.specified == ""
    then (if (meta_of o).namespace == ""
        then set_namespace (if n.contextual == "" then "default" else n.contextual) o
        else o)
    else set_namespace n.specified o

-- `specifyUpload`, which has no error on the four kinds; the UUID is the caller's.
unfoldable pub specify_upload : (k : Kind) → Object k → Tarball → String → Object k
unfolding set_upload_container_spec clear_image
specify_upload k o tb uuid = set_upload_container_spec k (clear_image k o) tb uuid

-- `%v` of an `int`
unfoldable pub show_int : ℕ → String
show_int v = if ltb v (2 ^ 63) then itoa v else "-" <> itoa (2 ^ 64 - v)

-- The API server of the resource, whose state is `S`.
pub record Server (S : Type 0) : Type 0 where
  -- `List`: the names of the objects in a namespace
  pub list : String → S → Go (List String)
  pub create : (k : Kind) → Object k → S → S × Creation (Object k)
  pub delete : String → String → S → S × Go (Unit {0})
  -- `Apply` with force, of internal/client/upload.go
  pub apply : (k : Kind) → Object k → S → S × Go (Unit {0})

-- The list of the kind has a version only for models and datasets.
unfoldable pub version_for : Kind → String → List String → Go ℕ
version_for model name items = wrap "next model version" (next_version name items)
version_for dataset name items = wrap "next dataset version" (next_version name items)
version_for server name items = err "unrecognized list type"
version_for notebook name items = err "unrecognized list type"

abbrev pub renamed : (k : Kind) → Object k → Go ℕ → Go (Object k)
renamed k o (ok version) = ok (
    set_metadata k
      (record (metadata k o) { name = (metadata k o).name <> ("-" <> show_int version) }) o)
renamed k o (err e) = err e
renamed k o (panic e) = panic e

abbrev pub with_list : (k : Kind) → Object k → Go (List String) → Go (Object k)
with_list k o (ok items) = renamed k o (version_for k (metadata k o).name items)
with_list k o (err e) = err ("listing: " <> e)
with_list k o (panic e) = panic e

module _ {S : Type 0} (api : Server S) where
  -- The object under its new name, if `increment` is set.
  unfoldable pub incremented_object : (k : Kind) → Bool → Object k → S → Go (Object k)
  incremented_object k false o s = ok o
  incremented_object k true o s = with_list k o (api.list (metadata k o).namespace s)

  abbrev created_again : (k : Kind) → Object k → S × Creation (Object k) → S × Go (Object k)
  created_again k o (s, created p) = (s, ok o)
  created_again k o (s, exists) = (s, err "replacing: creating: already exists")
  created_again k o (s, create_error e) = (s, err ("replacing: creating: " <> e))

  abbrev after_delete : (k : Kind) → Object k → S × Go (Unit {0}) → S × Go (Object k)
  after_delete k o (s, ok _) = created_again k o (api.create k o s)
  after_delete k o (s, err e) = (s, err ("replacing: delete: " <> e))
  after_delete k o (s, panic e) = (s, panic e)

  abbrev after_create : (k : Kind) → Bool → Object k → S × Creation (Object k) → S × Go (Object k)
  after_create k replace o (s, created p) = (s, ok o)
  after_create k true o (s, exists) =
      after_delete k o (api.delete (metadata k o).namespace (metadata k o).name s)
  after_create k false o (s, exists) = (s, err "creating: already exists")
  after_create k replace o (s, create_error e) = (s, err ("creating: " <> e))

  abbrev create_named : (k : Kind) → Bool → Go (Object k) → S → S × Go (Object k)
  create_named k replace (ok o) s = after_create k replace o (api.create k o s)
  create_named k replace (err e) s = (s, err e)
  create_named k replace (panic e) s = (s, panic e)

  -- `createWithUploadCmd`: the object of the message that it answers with.
  unfoldable pub create_with_upload :
      (k : Kind) → Object k → Tarball → String → Bool → Bool → S → S × Go (Object k)
  unfolding specify_upload incremented_object
  create_with_upload k o tb uuid increment replace s =
      create_named k replace (incremented_object k increment (specify_upload k o tb uuid) s) s

  abbrev applied_object : (k : Kind) → Object k → S × Go (Unit {0}) → S × Go (Object k)
  applied_object k o (s, ok _) = (s, ok o)
  applied_object k o (s, err e) = (s, err ("applying: " <> e))
  applied_object k o (s, panic e) = (s, panic e)

  -- `applyWithUploadCmd`
  unfoldable pub apply_with_upload :
      (k : Kind) → Object k → Tarball → String → S → S × Go (Object k)
  unfolding specify_upload
  apply_with_upload k o tb uuid s =
      applied_object k (specify_upload k o tb uuid) (api.apply k (specify_upload k o tb uuid) s)
