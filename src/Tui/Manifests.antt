-- ===== src/Tui/Manifests.antt =====
-- internal/tui/manifests.go: manifests are found, decoded, and one of them is selected.
use Prim.Native.Char.{Char}
use runbooks.Prelude.{
  ℕ, zero, suc, ◌+◌, String, ◌<>◌, ◌==◌, eqb, if◌then◌else◌, Bool, true, false, ◌||◌, snoc, Option,
  none, some, List, [], ◌∷◌, ◌++◌, ◌≡◌, refl,
}
use runbooks.Prelude.Dict.{Dict, lookup, insert}
use runbooks.Program.{Go, ok, err}
use runbooks.Program.Fallible.{◌>>=◌, wrap}
use runbooks.Controller.Env.{after, trim_space}
use runbooks.Client.Objects.{AnyObject, known, unknown, kind_of}

prepend : Char → List String → List String
prepend c [] = String.◌∷◌ c "" ∷ []
prepend c (s ∷ rest) = String.◌∷◌ c s ∷ rest

abbrev begins : Option String → Bool
begins none = false
begins (some s) = true

-- `bytes.Split(manifest, "---\n")`; the first argument counts the characters of a separator that are
-- still to be skipped.
unfoldable pub split_documents : ℕ → String → List String
unfolding prepend
split_documents skip String.[] = "" ∷ []
split_documents (suc skip) (String.◌∷◌ c s) = split_documents skip s
split_documents zero (String.◌∷◌ c s) =
    let here = split_documents zero s in
    let behind = split_documents 3 s in
    if begins (after "---\n" (String.◌∷◌ c s)) then "" ∷ behind else prepend c here

-- What the terminal UI reads: `client.Decode` (nothing for a nil object), files and HTTP answers.
pub data PathType : Type 0 where
  path_file path_dir path_http : PathType

pub record Sources : Type 0 where
  pub decode : String → Go (Option AnyObject)
  -- `os.Stat`: whether the path is a directory
  pub is_dir : String → Go Bool
  pub read_file : String → Go String
  -- `filepath.Glob(filepath.Join(path, "*.yaml"))`
  pub yaml_files : String → Go (List String)
  -- `HTTPC.Get`: the status and the body
  pub http_get : String → Go (ℕ × Go String)

-- The value of a key that is missing is the nil slice.
abbrev pub listed : Option (List AnyObject) → List AnyObject
listed none = []
listed (some items) = items

-- `groupObjectsByKind`
unfoldable pub group_objects_by_kind :
    Dict (List AnyObject) → List AnyObject → Dict (List AnyObject)
unfolding lookup insert
group_objects_by_kind g [] = g
group_objects_by_kind g (o ∷ rest) =
    group_objects_by_kind (insert (kind_of o) (snoc (listed (lookup (kind_of o) g)) o) g) rest

abbrev pub first_item : Option AnyObject → List AnyObject → Option AnyObject
first_item (some o) items = some o
first_item none [] = none
first_item none (o ∷ items) = some o

abbrev pub count : List AnyObject → ℕ
count [] = 0
count (o ∷ items) = 1 + count items

-- The loop over the preferred kinds: the single object, and how many there are.
unfoldable pub select_kinds :
    Dict (List AnyObject) → Option AnyObject → ℕ → List String → Option AnyObject × ℕ
unfolding lookup
select_kinds g single n [] = (single, n)
select_kinds g single n (k ∷ kinds) =
    select_kinds g (first_item single (listed (lookup k g))) (n + count (listed (lookup k g))) kinds

-- A message that the update answers with.
pub data Selection : Type 0 where
  selected : AnyObject → Selection
  selected_nil : Selection
  none_found : Selection

abbrev pub selected_or_nil : Option AnyObject → Selection
selected_or_nil none = selected_nil
selected_or_nil (some o) = selected o

abbrev pub selection : Option AnyObject × ℕ → Selection
selection (single, n) =
    if eqb n 0
    then none_found
    else if eqb n 1
    then selected_or_nil single
    else selected_or_nil single

-- `Update` on `manifestsFoundMsg`
unfoldable pub select_manifest : List String → List AnyObject → Selection
unfolding group_objects_by_kind select_kinds
select_manifest kinds manifests =
    selection (select_kinds (group_objects_by_kind [] manifests) none 0 kinds)

module _ (sources : Sources) where
  -- `determinePathType`
  unfoldable pub determine_path_type : String → Go PathType
  determine_path_type path =
      if begins (after "http://" path) || begins (after "https://" path)
      then ok path_http
      else sources.is_dir path >>= λ dir. ok (if dir then path_dir else path_file)

  unfoldable pub read_all : List String → Go (List String)
  read_all [] = ok []
  read_all (p ∷ rest) = wrap "reading file" (sources.read_file p) >>= λ manifest.
      read_all rest >>= λ more. ok (manifest ∷ more)

  abbrev response : Bool → Go String → Go (List String)
  response false body = err "http: bad status"
  response true body = wrap "http: reading" body >>= λ manifest. ok (manifest ∷ [])

  abbrev read_type : String → PathType → Go (List String)
  read_type path path_http =
      wrap "http" (sources.http_get path) >>= λ answer. response (eqb answer.0 200) answer.1
  read_type path path_file =
      wrap "reading file" (sources.read_file path) >>= λ manifest. ok (manifest ∷ [])
  read_type path path_dir = sources.yaml_files path >>= λ matches. read_all matches

  -- `resolveManifests`
  unfoldable pub resolve_manifests : String → Go (List String)
  unfolding determine_path_type read_all
  resolve_manifests path =
      wrap "determining path type" (determine_path_type path) >>= read_type path

  abbrev kept : Bool → Option AnyObject → List AnyObject
  kept substratus_only none = []
  kept substratus_only (some (known k o)) = known k o ∷ []
  kept substratus_only (some (unknown kind m)) = if substratus_only then [] else unknown kind m ∷ []

  -- The loop of `manifestToObjects` over the documents.
  unfoldable pub documents_to_objects : Bool → List String → Go (List AnyObject)
  documents_to_objects substratus_only [] = ok []
  documents_to_objects substratus_only (doc ∷ rest) =
      let more = documents_to_objects substratus_only rest in
      if trim_space doc == ""
      then more
      else wrap "decoding" (sources.decode doc) >>= λ o.
          more >>= λ objects. ok (kept substratus_only o ++ objects)

  -- `manifestToObjects`
  unfoldable pub manifest_to_objects : Bool → String → Go (List AnyObject)
  unfolding split_documents documents_to_objects
  manifest_to_objects substratus_only manifest =
      documents_to_objects substratus_only (split_documents 0 manifest)

  unfoldable pub all_objects : Bool → List String → Go (List AnyObject)
  unfolding manifest_to_objects
  all_objects substratus_only [] = ok []
  all_objects substratus_only (manifest ∷ rest) =
      wrap "manifest to objects" (manifest_to_objects substratus_only manifest) >>= λ objects.
      all_objects substratus_only rest >>= λ more. ok (objects ++ more)

  abbrev some_objects : String → List AnyObject → Go (List AnyObject)
  some_objects path [] = err ("No manifests found: " <> path)
  some_objects path (o ∷ rest) = ok (o ∷ rest)

  -- `findManifests`
  unfoldable pub find_manifests : String → Bool → Go (List AnyObject)
  unfolding resolve_manifests all_objects
  find_manifests path substratus_only =
      wrap "resolving manifests" (resolve_manifests path) >>= λ manifests.
      all_objects substratus_only manifests >>= some_objects path

split_runs : split_documents 0 "a: 1\n---\nb: 2\n" ≡ "a: 1\n" ∷ "b: 2\n" ∷ []
unfolding split_documents after
split_runs = refl
