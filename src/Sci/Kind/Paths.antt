-- ===== src/Sci/Kind/Paths.antt =====
-- The paths of an upload: the one of its URL has a slash before the object's name.
use Prim.Native.String.{String}
use runbooks.Prelude.{◌<>◌, ◌≡◌, refl, ap, ◌∙◌}
use runbooks.Prelude.FilePath.{clean, dir, up_to_slash, split, join_path}
use runbooks.Cloud.Hashes.{slash, slash_append}
use runbooks.Sci.Kind.Server.{checksum_file}

-- A path that begins with two slashes has the directory of the one that begins with one.
dir_two_slashes :
    (t : String) → dir (String.◌∷◌ slash (String.◌∷◌ slash t)) ≡ dir (String.◌∷◌ slash t)
unfolding dir up_to_slash clean split
dir_two_slashes t = refl

pub checksum_file-slash :
    (t : String) → checksum_file ("/" <> String.◌∷◌ slash t) ≡ checksum_file (String.◌∷◌ slash t)
checksum_file-slash t =
    ap (λ p. join_path (dir p) "md5.txt") (slash_append (String.◌∷◌ slash t))
    ∙ ap (λ d. join_path d "md5.txt") (dir_two_slashes t)
