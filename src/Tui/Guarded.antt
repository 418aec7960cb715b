-- ===== src/Tui/Guarded.antt =====
-- The keys that suspend or delete the notebook on the screen of internal/tui/notebook.go.
use mathlib.Core.Path.{subst, ap}
use text.Mathlib.TextEquality.{eq_iff}
use runbooks.Prelude.{
  String, ◌≡◌, refl, sym, ◌==◌, if◌then◌else◌, Bool, true, false, ◌&&◌, ◌||◌, Option, none, some,
  List, [], ◌∷◌, ◌++◌, arith,
}
use runbooks.Program.{Go, ok, err, panic}
use runbooks.Program.IfOk.{IfOk, IfOk-ok, >>=-IfOk}
use runbooks.Api.{Notebook}
use runbooks.Client.Objects.{AnyObject}
use runbooks.Client.Notebook.{notebook_for_object}
use runbooks.Tui.Commands.{Progress, set_object_namespace}
use runbooks.Tui.Process.{
  Msg, manifests_init, read_manifest, manifests_found, manifest_selected, upload_init, file_tarred,
  tarball_complete, applied_with_upload, created_with_upload, upload_progress, tarball_uploaded,
  readiness_init, object_update, object_ready, key, failed, Batch, manifests_update, UploadModel,
  upload_update, start_upload,
}
use runbooks.Tui.Notebook.{
  NotebookMsg, part, suspended_msg, deleted_msg, file_sync, port_forward_ready, local_url,
  NotebookCmd, suspend_cmd, delete_notebook_cmd, NotebookModel, NotebookStep, notebook_kinds,
  part_cmds, as_notebook, esc_key, quitting_key, on_key, with_notebook, on_uploaded, on_ready,
  own_msg, with_notebook_parts, notebook_update,
}

-- The notebook is suspended or deleted.
abbrev pub stops_it : NotebookCmd → Bool
stops_it (suspend_cmd n) = true
stops_it (delete_notebook_cmd n) = true
stops_it _ = false

unfoldable pub any_stops : List NotebookCmd → Bool
any_stops [] = false
any_stops (c ∷ cs) = stops_it c || any_stops cs

-- The screen is quitting, and one of the two keys is pressed.
unfoldable pub confirmed_key : String → Bool → Bool
confirmed_key s quitting = quitting && (s == "s" || s == "d")

abbrev pub confirmed : NotebookMsg → NotebookModel → Bool
confirmed (part (key s)) m = confirmed_key s m.quitting
confirmed _ m = false

-- A step whose commands stop the notebook exactly if it was confirmed.
abbrev Guarded : Bool → NotebookStep → Type 0
Guarded b (m, cmds) = any_stops cmds ≡ b

any_stops_append :
    (xs ys : List NotebookCmd) (b : Bool)
    → any_stops xs ≡ false
    → any_stops ys ≡ b
    → any_stops (xs ++ ys) ≡ b
unfolding any_stops
any_stops_append [] ys b none_first some_later = some_later
any_stops_append (c ∷ cs) ys b none_first some_later =
    ground (arith, any_stops_append cs ys b, none_first, some_later)

any_stops-part_cmds : (batch : Batch) → any_stops (part_cmds batch) ≡ false
unfolding any_stops
any_stops-part_cmds [] = refl
any_stops-part_cmds (cs ∷ batch) = any_stops-part_cmds batch

quitting_key_by :
    (esc suspend delete : Bool) (first m : NotebookModel) (cmds : List NotebookCmd)
    → any_stops cmds ≡ false
    → Guarded (if esc then false else (suspend || delete)) (
        if esc
        then (first, cmds)
        else if suspend
        then (m, cmds ++ (suspend_cmd m.notebook ∷ []))
        else if delete
        then (m, cmds ++ (delete_notebook_cmd m.notebook ∷ []))
        else (m, cmds))
unfolding any_stops
quitting_key_by true suspend delete first m cmds quiet = quiet
quitting_key_by false true delete first m cmds quiet = any_stops_append cmds _ true quiet refl
quitting_key_by false false true first m cmds quiet = any_stops_append cmds _ true quiet refl
quitting_key_by false false false first m cmds quiet = quiet

otherwise_same : (b c : Bool) → (b ≡ true → c ≡ false) → (if b then false else c) ≡ c
otherwise_same true c off = sym (off refl)
otherwise_same false c off = refl

other_keys :
    (s : String) → (if s == "esc" then false else (s == "s" || s == "d")) ≡ (s == "s" || s == "d")
other_keys s =
    otherwise_same (s == "esc") (s == "s" || s == "d")
      (λ h. subst (λ k. (k == "s" || k == "d") ≡ false) (sym ((eq_iff s "esc").0 h)) refl)

on_key-Guarded :
    (quitting : Bool) (s : String) (m : NotebookModel) (cmds : List NotebookCmd)
    → any_stops cmds ≡ false
    → Guarded (confirmed_key s quitting) (on_key quitting s m cmds)
unfolding confirmed_key
on_key-Guarded true s m cmds quiet =
    subst (λ b. Guarded b (quitting_key s m cmds)) (other_keys s)
      (quitting_key_by (s == "esc") (s == "s") (s == "d") (esc_key m.final_error m) m cmds quiet)
on_key-Guarded false s m cmds quiet = quiet

-- Whether it is confirmed depends on the screen only by whether it is quitting.
confirmed_shown :
    (msg : Msg) (m n : NotebookModel)
    → n.quitting ≡ m.quitting
    → confirmed (part msg) n ≡ confirmed (part msg) m
confirmed_shown manifests_init m n same = refl
confirmed_shown (read_manifest o) m n same = refl
confirmed_shown (manifests_found ms) m n same = refl
confirmed_shown (manifest_selected o) m n same = refl
confirmed_shown upload_init m n same = refl
confirmed_shown file_tarred m n same = refl
confirmed_shown (tarball_complete tb) m n same = refl
confirmed_shown (applied_with_upload o) m n same = refl
confirmed_shown (created_with_upload o) m n same = refl
confirmed_shown upload_progress m n same = refl
confirmed_shown (tarball_uploaded o) m n same = refl
confirmed_shown readiness_init m n same = refl
confirmed_shown (object_update o) m n same = refl
confirmed_shown (object_ready o) m n same = refl
confirmed_shown (key k) m n same = ap (confirmed_key k) same
confirmed_shown (failed e) m n same = refl

module _ (client : AnyObject → Option String) where
  with_notebook-Guarded :
      (found : Go Notebook) (m : NotebookModel) (cmds : List NotebookCmd)
      → any_stops cmds ≡ false
      → IfOk (Guarded false) (with_notebook client found m cmds)
  with_notebook-Guarded (ok n) m cmds quiet =
      any_stops_append cmds _ false quiet (any_stops-part_cmds start_upload)
  with_notebook-Guarded (err e) m cmds quiet = tt
  with_notebook-Guarded (panic e) m cmds quiet = tt

  on_uploaded-Guarded :
      (found : Go Notebook) (m : NotebookModel) (cmds : List NotebookCmd)
      → any_stops cmds ≡ false
      → IfOk (Guarded false) (on_uploaded found m cmds)
  unfolding any_stops
  on_uploaded-Guarded (ok n) m cmds quiet = any_stops_append cmds _ false quiet refl
  on_uploaded-Guarded (err e) m cmds quiet = tt
  on_uploaded-Guarded (panic e) m cmds quiet = tt

  on_ready-Guarded :
      (found : Go Notebook) (m : NotebookModel) (cmds : List NotebookCmd)
      → any_stops cmds ≡ false
      → IfOk (Guarded false) (on_ready found m cmds)
  unfolding any_stops
  on_ready-Guarded (ok n) m cmds quiet = any_stops_append cmds _ false quiet refl
  on_ready-Guarded (err e) m cmds quiet = tt
  on_ready-Guarded (panic e) m cmds quiet = tt

  own_msg-Guarded :
      (msg : Msg) (m : NotebookModel) (cmds : List NotebookCmd)
      → any_stops cmds ≡ false
      → IfOk (Guarded (confirmed (part msg) m)) (own_msg client msg m cmds)
  unfolding own_msg
  own_msg-Guarded manifests_init m cmds quiet = quiet
  own_msg-Guarded (read_manifest o) m cmds quiet = quiet
  own_msg-Guarded (manifests_found ms) m cmds quiet = quiet
  own_msg-Guarded (manifest_selected none) m cmds quiet = tt
  own_msg-Guarded (manifest_selected (some o)) m cmds quiet =
      with_notebook-Guarded (notebook_for_object (set_object_namespace m.namespace o)) m cmds quiet
  own_msg-Guarded upload_init m cmds quiet = quiet
  own_msg-Guarded file_tarred m cmds quiet = quiet
  own_msg-Guarded (tarball_complete tb) m cmds quiet = quiet
  own_msg-Guarded (applied_with_upload o) m cmds quiet = quiet
  own_msg-Guarded (created_with_upload o) m cmds quiet = quiet
  own_msg-Guarded upload_progress m cmds quiet = quiet
  own_msg-Guarded (tarball_uploaded o) m cmds quiet =
      on_uploaded-Guarded (as_notebook o) m cmds quiet
  own_msg-Guarded readiness_init m cmds quiet = quiet
  own_msg-Guarded (object_update o) m cmds quiet = quiet
  own_msg-Guarded (object_ready o) m cmds quiet = on_ready-Guarded (as_notebook o) m cmds quiet
  own_msg-Guarded (key k) m cmds quiet = on_key-Guarded m.quitting k m cmds quiet
  own_msg-Guarded (failed e) m cmds quiet = quiet

  with_notebook_parts-Guarded :
      (msg : Msg) (m : NotebookModel) (found : Progress × Batch) (up : UploadModel × Batch)
      → IfOk (Guarded (confirmed (part msg) m)) (with_notebook_parts client msg m found up)
  with_notebook_parts-Guarded msg m (reading, found) (upload, uploads) =
      subst
        (λ b.
          IfOk (Guarded b) (with_notebook_parts client msg m (reading, found) (upload, uploads)))
        (confirmed_shown msg m _ refl)
        (own_msg-Guarded msg _ (part_cmds found ++ part_cmds uploads) (
          any_stops_append (part_cmds found) _ false (any_stops-part_cmds found)
            (any_stops-part_cmds uploads)))

  always : {A : Type 0} (g : Go A) → IfOk (λ a. Unit) g
  always (ok a) = tt
  always (err e) = tt
  always (panic e) = tt

  notebook_update-Guarded :
      (msg : NotebookMsg) (m : NotebookModel)
      → IfOk (Guarded (confirmed msg m)) (notebook_update client msg m)
  unfolding notebook_update any_stops
  notebook_update-Guarded (part msg) m =
      >>=-IfOk (λ u. Unit) (Guarded (confirmed (part msg) m)) (upload_update msg m.upload) _
        (always (upload_update msg m.upload))
        (λ u done.
          with_notebook_parts-Guarded msg m (manifests_update notebook_kinds msg m.reading) u)
  notebook_update-Guarded (suspended_msg e) m = refl
  notebook_update-Guarded (deleted_msg e) m = refl
  notebook_update-Guarded (file_sync file complete e) m = refl
  notebook_update-Guarded port_forward_ready m = refl
  notebook_update-Guarded (local_url url) m = refl

-- Whatever message is handled, and whatever the screen shows: the commands that are returned suspend
-- or delete the notebook exactly if the message is the key s or d, and the screen is quitting.
pub notebook_update-stops :
    (client : AnyObject → Option String) (msg : NotebookMsg) (m n : NotebookModel)
    (cmds : List NotebookCmd)
    → notebook_update client msg m ≡ ok (n, cmds)
    → any_stops cmds ≡ confirmed msg m
notebook_update-stops client msg m n cmds handled =
    IfOk-ok (Guarded (confirmed msg m)) (notebook_update client msg m) (n, cmds)
      (notebook_update-Guarded client msg m) handled
