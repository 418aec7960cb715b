-- ===== src/Sci/Kind/Disk.antt =====
-- The file system under the server of internal/sci/kind: what `os.MkdirAll`, `os.WriteFile`,
-- `os.Create`, `io.Copy` and `os.ReadFile` do to it. A file is found under its cleaned path, as no
-- path goes through a symbolic link. What the system refuses is the environment's to say.
use runbooks.Prelude.{String, ◌<>◌, Option, none, some}
use runbooks.Prelude.Dict.{Dict, lookup, insert}
use runbooks.Prelude.FilePath.{clean}
use runbooks.Program.{Go, ok, err}

-- Files with their contents.
abbrev pub Disk : Type 0
Disk = Dict String

-- What happens to a write: the file is not opened; a part of it is written before an error; all is.
pub data Outcome : Type 0 where
  refused : String → Outcome
  broken : String → String → Outcome
  done : Outcome

pub record System : Type 0 where
  -- the error of `os.MkdirAll`
  pub mkdir_all : String → Option String
  pub writing : String → Outcome
  -- the error of `Close`
  pub closing : String → Option String

unfoldable pub put : String → String → Disk → Disk
put path contents disk = insert (clean path) contents disk

-- `os.WriteFile`
unfoldable pub write_file : System → String → String → Disk → Disk × Option String
unfolding put
write_file os path contents disk = elim (os.writing path) [
  | refused e ↦ (disk, some e)
  | broken written e ↦ (put path written disk, some e)
  | done ↦ (put path contents disk, none)
]

abbrev pub contents_at : String → Option String → Go String
contents_at path none = err ("open " <> (path <> ": no such file or directory"))
contents_at path (some contents) = ok contents

-- `os.ReadFile`
unfoldable pub read_file : String → Disk → Go String
read_file path disk = contents_at path (lookup (clean path) disk)
