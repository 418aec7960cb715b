-- ===== src/Client/Objects.antt =====
-- `client.Object`: one of the four kinds, or what `Decode` of internal/client/decode_encode.go makes
-- of another kind.
use runbooks.Prelude.{String}
use runbooks.Kube.{ObjectMeta}
use runbooks.Api.{Kind, model, dataset, server, notebook, Object, metadata, kind_name}

pub data AnyObject : Type 0 where
  known : (k : Kind) → Object k → AnyObject
  unknown : String → ObjectMeta → AnyObject

-- `GetObjectKind().GroupVersionKind().Kind`
abbrev pub kind_of : AnyObject → String
kind_of (known k o) = kind_name k o
kind_of (unknown kind m) = kind

abbrev pub meta_of : AnyObject → ObjectMeta
meta_of (known k o) = metadata k o
meta_of (unknown kind m) = m

abbrev pub set_metadata : (k : Kind) → ObjectMeta → Object k → Object k
set_metadata model m o = record o { metadata = m }
set_metadata dataset m o = record o { metadata = m }
set_metadata server m o = record o { metadata = m }
set_metadata notebook m o = record o { metadata = m }

-- `SetNamespace`
unfoldable pub set_namespace : String → AnyObject → AnyObject
set_namespace namespace (known k o) =
    known k (set_metadata k (record (metadata k o) { namespace = namespace }) o)
set_namespace namespace (unknown kind m) = unknown kind (record m { namespace = namespace })
