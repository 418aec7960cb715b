-- ===== src/Client/Notebook.antt =====
-- `PodForNotebook` and `NotebookForObject` of internal/client/notebook.go.
use runbooks.Prelude.{String, ◌<>◌, false, none, some, []}
use runbooks.Kube.{Key, ObjectMeta}
use runbooks.Program.{Go, ok, err}
use runbooks.Api.{model, dataset, server, notebook, Notebook, NotebookSpec, NotebookStatus}
use runbooks.Client.Objects.{AnyObject, known, unknown}

unfoldable pub pod_for_notebook : Notebook → Key
pod_for_notebook n = record {
  name = n.metadata.name <> "-notebook";
  namespace = n.metadata.namespace;
}

-- A new object's metadata has only a name and a namespace.
abbrev new_metadata : String → String → ObjectMeta
new_metadata name namespace = record {
  name = name;
  namespace = namespace;
  generation = 0;
  resource_version = "";
  annotations = [];
  labels = [];
  owners = [];
}

-- The zero value of the status.
abbrev no_status : NotebookStatus
no_status = record {
  ready = false;
  conditions = [];
  artifacts = record { url = "" };
  build_upload = record {
    signed_url = "";
    request_id = "";
    expiration = 0;
    stored_md5_checksum = "";
  };
}

abbrev new_notebook : String → String → NotebookSpec → Notebook
new_notebook name namespace spec = record {
  kind = "Notebook";
  metadata = new_metadata name namespace;
  spec = spec;
  status = no_status;
}

unfoldable pub notebook_for_object : AnyObject → Go Notebook
notebook_for_object (known notebook n) = ok (record n { kind = "Notebook" })
notebook_for_object (known model m) = ok (
    new_notebook (m.metadata.name <> "-model") m.metadata.namespace (record {
      command = none;
      env = m.spec.env;
      suspend = none;
      image = m.spec.image;
      build = none;
      resources = m.spec.resources;
      model = m.spec.model;
      dataset = m.spec.dataset;
      params = m.spec.params;
    }))
notebook_for_object (known server s) = ok (
    new_notebook (s.metadata.name <> "-server") s.metadata.namespace (record {
      command = none;
      env = s.spec.env;
      suspend = none;
      image = s.spec.image;
      build = none;
      resources = s.spec.resources;
      model = some s.spec.model;
      dataset = none;
      params = s.spec.params;
    }))
notebook_for_object (known dataset d) = ok (
    new_notebook (d.metadata.name <> "-dataset") d.metadata.namespace (record {
      command = none;
      env = d.spec.env;
      suspend = none;
      image = d.spec.image;
      build = none;
      resources = d.spec.resources;
      model = none;
      dataset = none;
      params = d.spec.params;
    }))
notebook_for_object (unknown kind m) = err "unknown object type"
