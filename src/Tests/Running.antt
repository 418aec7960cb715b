-- ===== src/Tests/Running.antt =====
-- A run of the screen of internal/tui/run.go, from its start to a model that is ready.
use runbooks.Prelude.{String, ◌≡◌, refl, true, false, Option, none, some, [], ◌∷◌, ◌++◌}
use runbooks.Program.{Go, ok, err, panic}
use runbooks.Client.Objects.{AnyObject, set_namespace}
use runbooks.Client.Tarball.{Tarball}
use runbooks.Tui.Commands.{completed, not_started, set_object_namespace}
use runbooks.Tui.Manifests.{select_manifest}
use runbooks.Tui.Process.{
  Msg, manifests_init, manifests_found, manifest_selected, upload_init, tarball_complete,
  created_with_upload, tarball_uploaded, readiness_init, object_ready, key, send,
  find_manifests_cmd, prepare_tarball_cmd, create_cmd, upload_cmd, wait_ready_cmd, Batch, one,
  create_mode, start_upload, start_waiting,
}
use runbooks.Tui.Run.{RunModel, update, start}
use runbooks.Tui.Seen.{mark, sent, found, packed, created, uploaded, ready}
use runbooks.Tui.Ran.{
  Config, answer, Reach, here, next, Opened, nothing_seen, AllSeen, ready-AllSeen,
}
use runbooks.Tui.Notebook.{NotebookModel, part, delete_notebook_cmd, notebook_update}
use runbooks.Tui.Guarded.{any_stops, confirmed, notebook_update-stops}
use runbooks.Tests.Cluster.{a_model_object}

abbrev a_tarball : Tarball
a_tarball = record { temp_dir = "/tmp/t"; path = "/tmp/t/archive.tar.gz"; md5_checksum = "abc" }

abbrev chosen : Msg
chosen = manifest_selected (some a_model_object)

abbrev no_error : AnyObject → Option String
no_error o = none

abbrev opened : Config
opened = record {
  shown = record {
    namespace = record { specified = ""; contextual = "" };
    object = none;
    reading = not_started;
    upload = record {
      mode = create_mode;
      object = none;
      applying = not_started;
      creating = not_started;
      tarring = not_started;
      uploading = not_started;
      tarred_file_count = 0;
      tarball = none;
    };
    readiness = record { object = none; waiting = not_started };
    final_error = none;
    quit = false;
  };
  running = start;
  seen = nothing_seen;
}

-- What a message leaves, beside the sequences that stay.
abbrev landed : Msg → Batch → Config → Go (RunModel × Batch) → Config
landed msg rest c (ok (m, cmds)) = record {
  shown = m;
  running = rest ++ cmds;
  seen = mark msg c.seen;
}
landed msg rest c (err e) = c
landed msg rest c (panic e) = c

abbrev handled : Msg → Batch → Config → Config
handled msg rest c = landed msg rest c (update no_error msg c.shown)

abbrev found_them : Config
found_them = handled (manifests_init) (([]) ++ ((find_manifests_cmd ∷ []) ∷ [])) opened

abbrev listed : Config
listed = handled (manifests_found (a_model_object ∷ [])) (([]) ++ (([]) ∷ [])) found_them

abbrev selected : Config
selected = handled (chosen) (([] ∷ []) ++ (([]) ∷ [])) listed

abbrev begun : Config
begun = handled (upload_init) (([] ∷ [] ∷ []) ++ ((prepare_tarball_cmd ∷ []) ∷ [])) selected

abbrev packed_it : Config
packed_it = handled (tarball_complete a_tarball) (([] ∷ [] ∷ []) ++ (([]) ∷ [])) begun

abbrev created_it : Config
created_it =
    handled (created_with_upload a_model_object) (([] ∷ [] ∷ [] ∷ []) ++ (([]) ∷ [])) packed_it

abbrev uploaded_it : Config
uploaded_it =
    handled (tarball_uploaded a_model_object) (([] ∷ [] ∷ [] ∷ [] ∷ []) ++ (([]) ∷ [])) created_it

abbrev waiting : Config
waiting =
    handled (readiness_init)
      (([] ∷ [] ∷ [] ∷ [] ∷ [] ∷ []) ++ ((wait_ready_cmd a_model_object ∷ []) ∷ [])) uploaded_it

abbrev ready_now : Config
ready_now =
    handled (object_ready a_model_object) (([] ∷ [] ∷ [] ∷ [] ∷ [] ∷ []) ++ (([]) ∷ [])) waiting

the_run : Reach no_error opened ready_now
unfolding update select_manifest set_object_namespace set_namespace
the_run =
    next
      (next
        (next
          (next
            (next
              (next
                (next
                  (next
                    (next (here) (
                      answer ([]) ([]) ([]) (send manifests_init) (find_manifests_cmd ∷ [])
                        (manifests_init) (sent manifests_init) refl refl refl refl))
                    (answer ([]) ([]) (one (send chosen)) (find_manifests_cmd) ([])
                      (manifests_found (a_model_object ∷ [])) (found (a_model_object ∷ [])) refl
                      refl refl refl))
                  (answer ([] ∷ []) ([]) (start_upload) (send chosen) ([]) (chosen) (sent chosen)
                    refl refl refl refl))
                (answer ([] ∷ [] ∷ []) ([]) ([]) (send upload_init) (prepare_tarball_cmd ∷ [])
                  (upload_init) (sent upload_init) refl refl refl refl))
              (answer ([] ∷ [] ∷ []) ([]) (one (create_cmd a_model_object a_tarball))
                (prepare_tarball_cmd) ([]) (tarball_complete a_tarball) (packed a_tarball) refl refl
                refl refl))
            (answer ([] ∷ [] ∷ [] ∷ []) ([]) (one (upload_cmd a_model_object (some a_tarball)))
              (create_cmd a_model_object a_tarball) ([]) (created_with_upload a_model_object)
              (created a_model_object a_model_object a_tarball) refl refl refl refl))
          (answer ([] ∷ [] ∷ [] ∷ [] ∷ []) ([]) (start_waiting a_model_object)
            (upload_cmd a_model_object (some a_tarball)) ([]) (tarball_uploaded a_model_object)
            (uploaded a_model_object a_model_object (some a_tarball)) refl refl refl refl))
        (answer ([] ∷ [] ∷ [] ∷ [] ∷ [] ∷ []) ([]) ([]) (send readiness_init)
          (wait_ready_cmd a_model_object ∷ []) (readiness_init) (sent readiness_init) refl refl refl
          refl))
      (answer ([] ∷ [] ∷ [] ∷ [] ∷ [] ∷ []) ([]) ([]) (wait_ready_cmd a_model_object) ([])
        (object_ready a_model_object) (ready a_model_object a_model_object) refl refl refl refl)

opened-Opened : Opened opened
opened-Opened = record { waiting = refl; running = refl; seen = refl }

ready_in_the_end : ready_now.shown.readiness.waiting ≡ completed
unfolding update select_manifest set_object_namespace set_namespace
ready_in_the_end = refl

ready-AllSeen_example : AllSeen ready_now.seen
ready-AllSeen_example =
    ready-AllSeen no_error opened ready_now opened-Opened the_run ready_in_the_end

abbrev quitting : NotebookModel
quitting = record {
  namespace = opened.shown.namespace;
  notebook = none;
  reading = not_started;
  upload = opened.shown.upload;
  readiness = opened.shown.readiness;
  syncing_files = not_started;
  current_syncing_file = "";
  last_sync_failure = none;
  local_url = "";
  quitting = true;
  goodbye = "";
  final_error = none;
}

notebook_update-stops_example :
    any_stops (delete_notebook_cmd none ∷ []) ≡ confirmed (part (key "d")) quitting
unfolding notebook_update
notebook_update-stops_example =
    notebook_update-stops no_error (part (key "d")) quitting quitting
      (delete_notebook_cmd none ∷ []) refl

deleted_on_d : any_stops (delete_notebook_cmd none ∷ []) ≡ true
unfolding any_stops
deleted_on_d = refl
