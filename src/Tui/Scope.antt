-- ===== src/Tui/Scope.antt =====
-- The scopes of internal/tui/get.go: `models`, `models/<name>`.
use runbooks.Prelude.{String, ◌<>◌, ◌==◌, if◌then◌else◌, ◌&&◌, Option, none, some, List, [], ◌∷◌}
use runbooks.Prelude.FilePath.{split}
use runbooks.Program.{Go, ok, err}
use runbooks.Program.Fallible.{◌>>=◌}
use runbooks.Api.{Kind, model, dataset, server, notebook}

-- The object that a scope asks for: its kind, and its name, empty for all.
pub record Target : Type 0 where
  pub kind : Kind
  pub name : String

abbrev scope_parts : List String → String × String
scope_parts (resource ∷ []) = (resource, "")
scope_parts (resource ∷ name ∷ []) = (resource, name)
scope_parts _ = ("", "")

-- `splitScope`
unfoldable pub split_scope : String → String × String
unfolding split
split_scope scope = scope_parts (split b'/' scope)

abbrev resource_kind : String → Option Kind
resource_kind resource =
    if resource == "notebooks"
    then some notebook
    else if resource == "datasets"
    then some dataset
    else if resource == "models"
    then some model
    else if resource == "servers"
    then some server
    else none

abbrev target : String → String → Option Kind → Go Target
target scope name none = err ("Invalid scope: " <> scope)
target scope name (some kind) = ok (record { kind = kind; name = name })

-- `scopeToObject`
unfoldable pub scope_to_object : String → Go Target
unfolding split_scope
scope_to_object scope =
    let (resource, name) = split_scope scope in
    if resource == "" && name == ""
    then err ("Invalid scope: " <> scope)
    else target scope name (resource_kind resource)

abbrev all_of : Kind → Target
all_of kind = record { kind = kind; name = "" }

-- `scopeToObjects`
unfoldable pub scope_to_objects : String → Go (List Target)
unfolding scope_to_object
scope_to_objects scope =
    if scope == ""
    then ok (all_of notebook ∷ all_of dataset ∷ all_of model ∷ all_of server ∷ [])
    else scope_to_object scope >>= λ t. ok (t ∷ [])
