-- ===== src/Controller/Watches.antt =====
-- manager.go, and the functions of the controllers that turn a changed object into requests for the
-- objects that refer to it.
use runbooks.Prelude.{String, Option, none, some, List, [], ◌∷◌}
use runbooks.Kube.{Key}
use runbooks.Program.{Go, ok, err, panic, list, Program, ret, crash, ◌>>=◌, perform}
use runbooks.Api.{ObjectRef, Kind, model, server, notebook, Object, Model, Dataset, metadata}
use runbooks.Controller.Status.{key_of}

-- The five field indexes that `SetupIndexes` registers.
pub data Index : Type 0 where
  notebook_model notebook_dataset model_model model_dataset server_model : Index

abbrev pub indexes : List Index
indexes = notebook_model ∷ notebook_dataset ∷ model_model ∷ model_dataset ∷ server_model ∷ []

-- The objects that are indexed, and the name of the index.
abbrev pub indexed_kind : Index → Kind
indexed_kind notebook_model = notebook
indexed_kind notebook_dataset = notebook
indexed_kind model_model = model
indexed_kind model_dataset = model
indexed_kind server_model = server

abbrev pub field : Index → String
field notebook_model = "spec.model.name"
field notebook_dataset = "spec.dataset.name"
field model_model = "spec.model.name"
field model_dataset = "spec.dataset.name"
field server_model = "spec.model.name"

abbrev pub names : Option ObjectRef → List String
names none = []
names (some ref) = ref.name ∷ []

-- The function that each index is registered with: the values of an object.
unfoldable pub index_values : (i : Index) → Object (indexed_kind i) → List String
index_values notebook_model n = names n.spec.model
index_values notebook_dataset n = names n.spec.dataset
index_values model_model m = names m.spec.model
index_values model_dataset m = names m.spec.dataset
index_values server_model s = s.spec.model.name ∷ []

unfoldable pub requests : (k : Kind) → List (Object k) → List Key
requests k [] = []
requests k (o ∷ os) = key_of (metadata k o) ∷ requests k os

-- An error is logged, and nothing is requested.
unfoldable pub requests_for : (k : Kind) → Go (List (Object k)) → Program (List Key)
unfolding requests
requests_for k (ok items) = ret (requests k items)
requests_for k (err e) = ret []
requests_for k (panic s) = crash s

-- What the functions below share: a list by an index, in the namespace of the changed object.
unfoldable pub find : Index → String → String → Program (List Key)
unfolding ◌>>=◌ requests_for
find i name namespace = do
  answer ← perform (list (indexed_kind i) (field i) name namespace)
  requests_for (indexed_kind i) answer

unfoldable pub find_models_for_base_model : Model → Program (List Key)
unfolding find
find_models_for_base_model m = find model_model m.metadata.name m.metadata.namespace

unfoldable pub find_models_for_dataset : Dataset → Program (List Key)
unfolding find
find_models_for_dataset d = find model_dataset d.metadata.name d.metadata.namespace

unfoldable pub find_notebooks_for_model : Model → Program (List Key)
unfolding find
find_notebooks_for_model m = find notebook_model m.metadata.name m.metadata.namespace

unfoldable pub find_notebooks_for_dataset : Dataset → Program (List Key)
unfolding find
find_notebooks_for_dataset d = find notebook_dataset d.metadata.name d.metadata.namespace

unfoldable pub find_servers_for_model : Model → Program (List Key)
unfolding find
find_servers_for_model m = find server_model m.metadata.name m.metadata.namespace
