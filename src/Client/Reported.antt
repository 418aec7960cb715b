-- ===== src/Client/Reported.antt =====
-- Which files of a notebook nbwatch reports the changes of.
use mathlib.Core.List.{Memᴰ}
use mathlib.Core.Path.{subst}
use text.Mathlib.TextPositions.{eq_refl}
use runbooks.Prelude.{
  String, ◌≡◌, refl, sym, ◌==◌, if◌then◌else◌, ◌||◌, ◌&&◌, ◌⊎◌, inl, inr, Bool, true, false,
  Bool-cases, List, [], ◌∷◌,
}
use runbooks.Prelude.FilePath.{dir, join_path}
use runbooks.Nbwatch.{is_hidden, DirEntry, watched, watched_name, watches}

is_in : String → List String → Bool
is_in path [] = false
is_in path (q ∷ rest) = q == path || is_in path rest

-- The file lies in a directory that nbwatch watches, and not in a directory below it.
unfoldable pub reports : List DirEntry → String → Bool
unfolding is_in
reports entries path = is_in (dir path) (watches entries)

-- A directory of /content that is not to be left out.
pub record Followed (e : DirEntry) : Type 0 where
  pub is_dir : e.is_dir ≡ true
  pub not_data : (e.name == "data") ≡ false
  pub not_model : (e.name == "model") ≡ false
  pub not_artifacts : (e.name == "artifacts") ≡ false
  pub not_hidden : is_hidden e.name ≡ false

-- A file in /content itself, or in such a directory of it.
abbrev pub InReach : List DirEntry → String → Type 0
InReach entries path =
    (dir path ≡ "/content")
    ⊎ ((e : DirEntry) × Memᴰ e entries × Followed e × (dir path ≡ join_path "/content" e.name))

is_in-first : (path : String) (rest : List String) → is_in path (path ∷ rest) ≡ true
unfolding is_in
is_in-first path rest = rw (eq_refl path) refl

is_in-kept :
    (path q : String) (kept : Bool) (rest : List String)
    → is_in path rest ≡ true
    → is_in path (if kept then q ∷ rest else rest) ≡ true
unfolding is_in
is_in-kept path q true rest there = elim (Bool-cases (q == path)) [
  | inl same ↦ rw same refl
  | inr other ↦ rw other there
]
is_in-kept path q false rest there = there

Followed-watched :
    (e : DirEntry) (entries : List DirEntry)
    → Followed e
    → is_in (join_path "/content" e.name) (watched (e ∷ entries)) ≡ true
unfolding watched
Followed-watched e entries f =
    rw (f.is_dir, f.not_data, f.not_model, f.not_artifacts, f.not_hidden)
      (is_in-first (join_path "/content" e.name) (watched entries))

is_in-watched :
    (e : DirEntry) (entries : List DirEntry)
    → Memᴰ e entries
    → Followed e
    → is_in (join_path "/content" e.name) (watched entries) ≡ true
unfolding watched
is_in-watched e [] found f = elim found [ ]
is_in-watched e (d ∷ entries) (Memᴰ.head same) f =
    subst (λ x. is_in (join_path "/content" e.name) (watched (x ∷ entries)) ≡ true) same
      (Followed-watched e entries f)
is_in-watched e (d ∷ entries) (Memᴰ.tail found) f =
    is_in-kept (join_path "/content" e.name) (join_path "/content" d.name)
      (d.is_dir && watched_name d.name) (watched entries) (is_in-watched e entries found f)

-- What is in reach is reported.
pub reports-InReach :
    (entries : List DirEntry) (path : String) → InReach entries path → reports entries path ≡ true
unfolding reports
reports-InReach entries path (inl top) =
    subst (λ d. is_in d (watches entries) ≡ true) (sym top)
      (is_in-first "/content" (watched entries))
reports-InReach entries path (inr (e, found, f, below)) =
    subst (λ d. is_in d (watches entries) ≡ true) (sym below)
      (is_in-kept (join_path "/content" e.name) "/content" true (watched entries)
        (is_in-watched e entries found f))
