-- ===== src/Client/Installed.antt =====
-- When the version file of internal/client/sync.go names the version: only after a whole install.
use text.Mathlib.TextEquality.{eq_iff}
use text.Mathlib.TextPositions.{eq_refl}
use runbooks.Prelude.{
  String, ◌≡◌, refl, sym, ap, ◌∙◌, ◌==◌, if◌then◌else◌, Bool, true, false, Bool-cases, inl, inr,
  Option, none, some, List, [], ◌∷◌,
}
use runbooks.Prelude.Dict.{lookup, lookup-insert}
use runbooks.Prelude.FilePath.{clean, join_path}
use runbooks.Program.{Go, ok, err, panic}
use runbooks.Controller.Env.{trim_space}
use runbooks.Sci.Kind.Disk.{Disk, Outcome, refused, broken, done, put}
use runbooks.Client.Tools.{
  Release, Machine, Written, failed, remove_paths, version_path, names_version, is_installed,
  unless_failed, entry_written, version_written, after_stat, write_entry, write_entries,
  write_release, wrapped, install_arch, write_version, install_second, install_both, install,
  read_version, get_container_tools,
}

lookup-remove_paths :
    (removes : String → Bool) (wanted : String) (disk : Disk)
    → lookup wanted (remove_paths removes disk)
      ≡ (if removes wanted then none else lookup wanted disk)
unfolding remove_paths lookup
lookup-remove_paths removes wanted [] = elim (Bool-cases (removes wanted)) [
  | inl gone ↦ rw gone refl
  | inr kept ↦ rw kept refl
]
lookup-remove_paths removes wanted ((path, contents) ∷ rest) =
    let later = lookup-remove_paths removes wanted rest in
    elim (Bool-cases (path == wanted)) [
      | inl same ↦
          let e = ap removes ((eq_iff path wanted).0 same) in
          elim (Bool-cases (removes wanted)) [
            | inl gone ↦ rw (e, gone) (later ∙ rw gone refl)
            | inr kept ↦ rw (e, kept, same) refl
          ]
      | inr other ↦ elim (Bool-cases (removes path)) [
        | inl gone ↦ rw gone (later ∙ rw other refl)
        | inr kept ↦ rw (kept, other) later
      ]
    ]

unfoldable pub has_none : Option String → Bool
has_none none = true
has_none (some e) = false

-- No file of the archive has the version file's path.
abbrev pub EntriesApart : String → String → List (String × String) → Type 0
EntriesApart path dir [] = Unit
EntriesApart path dir ((name, contents) ∷ rest) =
    ((clean (join_path dir name) == path) ≡ false) × EntriesApart path dir rest

abbrev pub ReleaseApart : String → String → Go Release → Type 0
ReleaseApart path dir (ok release) = EntriesApart path dir release.entries
ReleaseApart path dir (err e) = Unit
ReleaseApart path dir (panic e) = Unit

module _ (host : Machine) (version dir : String) where
  -- A part of the version file does not name the version.
  abbrev pub PartDiffers : Outcome → Type 0
  PartDiffers (refused e) = Unit
  PartDiffers (broken part e) = (trim_space part == version) ≡ false
  PartDiffers done = Unit

  abbrev Clear : Written → Type 0
  Clear w = is_installed host version dir w.disk ≡ false

  -- The version file is as the error says.
  abbrev Told : Written → Type 0
  Told w = is_installed host version dir w.disk ≡ has_none w.error

  gone_or_kept :
      (gone : Bool) (o : Option String)
      → names_version host version o ≡ false
      → names_version host version (if gone then none else o) ≡ false
  gone_or_kept true o clear = refl
  gone_or_kept false o clear = clear

  put-Clear :
      (path contents : String) (disk : Disk)
      → (clean path == clean (version_path dir)) ≡ false
      → is_installed host version dir disk ≡ false
      → is_installed host version dir (put path contents disk) ≡ false
  unfolding put
  put-Clear path contents disk apart clear =
      ap (names_version host version)
        (lookup-insert (clean path) (clean (version_path dir)) contents disk ∙ rw apart refl)
      ∙ clear

  failed-Clear :
      (what : String) (o : Option String) (disk : Disk)
      → is_installed host version dir disk ≡ false
      → Clear (failed what o disk)
  failed-Clear what none disk clear = clear
  failed-Clear what (some e) disk clear = clear

  next-Clear :
      (w : Written) (next : Disk → Written) (o : Option String)
      → Clear w
      → ((disk : Disk) → is_installed host version dir disk ≡ false → Clear (next disk))
      → Clear (unless_failed host version w next o)
  next-Clear w next none clear keeps = keeps w.disk clear
  next-Clear w next (some e) clear keeps = clear

  next-Told :
      (w : Written) (next : Disk → Written) (o : Option String)
      → w.error ≡ o
      → Clear w
      → ((disk : Disk) → is_installed host version dir disk ≡ false → Told (next disk))
      → Told (unless_failed host version w next o)
  unfolding has_none
  next-Told w next none error clear tells = tells w.disk clear
  next-Told w next (some e) error clear tells = clear ∙ rw error refl

  entry-Clear :
      (dest contents : String) (o : Outcome) (closing : Option String) (disk : Disk)
      → (clean dest == clean (version_path dir)) ≡ false
      → is_installed host version dir disk ≡ false
      → Clear (entry_written host version dest contents o closing disk)
  entry-Clear dest contents (refused e) closing disk apart clear = clear
  entry-Clear dest contents (broken part e) closing disk apart clear =
      put-Clear dest part disk apart clear
  entry-Clear dest contents done closing disk apart clear =
      failed-Clear "closing file" closing (put dest contents disk)
        (put-Clear dest contents disk apart clear)

  entries-Clear :
      (sub : String) (entries : List (String × String)) (ends_in : Option String) (disk : Disk)
      → EntriesApart (clean (version_path dir)) sub entries
      → is_installed host version dir disk ≡ false
      → Clear (write_entries host version sub entries ends_in disk)
  unfolding write_entries write_entry
  entries-Clear sub [] ends_in disk apart clear = failed-Clear "reading tar" ends_in disk clear
  entries-Clear sub ((name, contents) ∷ rest) ends_in disk (first, others) clear =
      next-Clear (write_entry host version sub (name, contents) disk)
        (λ next. write_entries host version sub rest ends_in next) _
        (entry-Clear (join_path sub name) contents _ _ disk first clear)
        (λ next clear'. entries-Clear sub rest ends_in next others clear')

  release-Clear :
      (sub : String) (release : Go Release) (disk : Disk)
      → ReleaseApart (clean (version_path dir)) sub release
      → is_installed host version dir disk ≡ false
      → Clear (write_release host version sub release disk)
  release-Clear sub (ok release) disk apart clear =
      entries-Clear sub release.entries release.ends_in disk apart clear
  release-Clear sub (err e) disk apart clear = clear
  release-Clear sub (panic e) disk apart clear = clear

  arch-Clear :
      (arch : String) (disk : Disk)
      → ReleaseApart (clean (version_path dir)) (join_path dir arch) (host.download arch)
      → is_installed host version dir disk ≡ false
      → Clear (install_arch host version dir arch disk)
  unfolding install_arch
  arch-Clear arch disk apart clear =
      next-Clear _
        (λ next.
          wrapped host version "getting container-tools"
            (write_release host version (join_path dir arch) (host.download arch) next))
        _
        (failed-Clear "recreating directory" (host.system.mkdir_all (join_path dir arch)) disk
          clear)
        (λ next clear'. release-Clear (join_path dir arch) (host.download arch) next apart clear')

  found :
      (o : Option String) (contents : String)
      → (if clean (version_path dir) == clean (version_path dir) then some contents else o)
        ≡ some contents
  found o contents = rw (eq_refl (clean (version_path dir))) refl

  version-Told :
      (o : Outcome) (disk : Disk)
      → PartDiffers o
      → trim_space version ≡ version
      → is_installed host version dir disk ≡ false
      → Told (version_written host version dir o disk)
  unfolding put has_none
  version-Told (refused e) disk differs trim clear = clear
  version-Told (broken part e) disk differs trim clear =
      ap (names_version host version) (
        lookup-insert (clean (version_path dir)) (clean (version_path dir)) part disk
        ∙ found (lookup (clean (version_path dir)) disk) part)
      ∙ differs
  version-Told done disk differs trim clear =
      ap (names_version host version) (
        lookup-insert (clean (version_path dir)) (clean (version_path dir)) version disk
        ∙ found (lookup (clean (version_path dir)) disk) version)
      ∙ (ap (λ s. s == version) trim ∙ eq_refl version)

  removed-Clear :
      (disk : Disk)
      → is_installed host version dir disk ≡ false
      → is_installed host version dir (remove_paths host.removes disk) ≡ false
  removed-Clear disk clear =
      ap (names_version host version)
        (lookup-remove_paths host.removes (clean (version_path dir)) disk)
      ∙ gone_or_kept (host.removes (clean (version_path dir))) _ clear

  module _
      (apart : ReleaseApart
        (clean (version_path dir))
        (join_path dir "amd64")
        (host.download "amd64"))
      (apart' : ReleaseApart
        (clean (version_path dir))
        (join_path dir "arm64")
        (host.download "arm64"))
      (differs : PartDiffers (host.system.writing (version_path dir)))
      (trim : trim_space version ≡ version) where
    write_version-Told :
        (disk : Disk)
        → is_installed host version dir disk ≡ false
        → Told (write_version host version dir disk)
    unfolding write_version
    write_version-Told disk clear =
        version-Told (host.system.writing (version_path dir)) disk differs trim clear

    second-Told :
        (disk : Disk)
        → is_installed host version dir disk ≡ false
        → Told (install_second host version dir disk)
    unfolding install_second
    second-Told disk clear =
        next-Told (install_arch host version dir "arm64" disk) (write_version host version dir)
          (install_arch host version dir "arm64" disk).error refl
          (arch-Clear "arm64" disk apart' clear) write_version-Told

    both-Told :
        (disk : Disk)
        → is_installed host version dir disk ≡ false
        → Told (install_both host version dir disk)
    unfolding install_both
    both-Told disk clear =
        next-Told (install_arch host version dir "amd64" disk) (install_second host version dir)
          (install_arch host version dir "amd64" disk).error refl
          (arch-Clear "amd64" disk apart clear) second-Told

    install-Told :
        (disk : Disk)
        → is_installed host version dir disk ≡ false
        → Told (install host version dir disk)
    unfolding install
    install-Told disk clear =
        let cleared =
          failed "removing existing files" host.remove_error (remove_paths host.removes disk) in
        next-Told cleared (install_both host version dir) cleared.error refl
          (failed-Clear "removing existing files" host.remove_error (remove_paths host.removes disk)
            (removed-Clear disk clear))
          both-Told

    read-Told :
        (o e : Option String) (disk : Disk)
        → lookup (clean (version_path dir)) disk ≡ o
        → is_installed host version dir disk ≡ false
        → Told (read_version host version dir o e disk)
    unfolding has_none
    read-Told none e disk read clear = install-Told disk clear
    read-Told (some contents) (some e) disk read clear = clear
    read-Told (some contents) none disk read clear =
        let other : (trim_space contents == version) ≡ false =
          sym (ap (names_version host version) read) ∙ clear in
        rw other (install-Told disk clear)

    stat-Told :
        (e : Option String) (disk : Disk)
        → is_installed host version dir disk ≡ false
        → Told (after_stat host version dir e disk)
    unfolding has_none
    stat-Told (some e) disk clear = clear
    stat-Told none disk clear =
        read-Told (lookup (clean (version_path dir)) disk) host.read_error disk refl clear

-- If the version file does not name the client's version, then after getContainerTools it names it
-- exactly if there was no error, whatever else the system refuses: if no file of the two archives has
-- the version file's path, a part of the version does not pass for it, and the version has no space
-- around it.
pub get_container_tools-installed :
    (host : Machine) (version dir : String) (disk : Disk)
    → ReleaseApart (clean (version_path dir)) (join_path dir "amd64") (host.download "amd64")
    → ReleaseApart (clean (version_path dir)) (join_path dir "arm64") (host.download "arm64")
    → PartDiffers host version dir (host.system.writing (version_path dir))
    → trim_space version ≡ version
    → is_installed host version dir disk ≡ false
    → is_installed host version dir (get_container_tools host version dir disk).disk
      ≡ has_none (get_container_tools host version dir disk).error
unfolding get_container_tools
get_container_tools-installed host version dir disk apart apart' differs trim clear =
    stat-Told host version dir apart apart' differs trim host.stat_error disk clear
