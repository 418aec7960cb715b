-- ===== src/Net.antt =====
-- What the client and the storage of internal/sci/kind share of net/http and io.
use runbooks.Prelude.{String, Option}

-- An `io.Reader`: what it yields, and the error that it ends in, if not at the end of the file.
pub record Reader : Type 0 where
  pub contents : String
  pub ends_in : Option String

-- `http.Request`, as the client makes it.
pub record HttpRequest : Type 0 where
  pub method : String
  pub url : String
  pub content_type : String
  pub content_md5 : String
  pub body : Reader
