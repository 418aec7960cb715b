-- ===== src/Tests/Screens.antt =====
-- The theorems on the terminal UI, on concrete manifests and answers.
use runbooks.Prelude.{String, ◌≡◌, refl, true, false, Option, none, some, List, [], ◌∷◌, arith}
use runbooks.Api.{dataset}
use runbooks.Client.Objects.{AnyObject, known}
use runbooks.Tui.Commands.{set_object_namespace, in_progress, completed, not_started}
use runbooks.Tui.Manifests.{select_manifest}
use runbooks.Tui.Preferred.{preferred, chosen, select_manifest-preferred}
use runbooks.Tui.Delete.{DeleteModel, deletion_list, update, run_deletions}
use runbooks.Tui.Deleted.{all_deleted, run_deletions-quit}
use runbooks.Tui.Apply.{ApplyModel, ApplyInput, ApplyObject, manifests_found, get_elem, complete_at}
use runbooks.Tui.Apply
use runbooks.Tui.InTurn.{AllCompleted}
use runbooks.Tui.Applied.{Config, answer, here, next, applied-AllCompleted}
use runbooks.Tests.Cluster.{a_model_object, a_dataset}

abbrev a_dataset_object : AnyObject
a_dataset_object = known dataset (a_dataset false)

select_manifest-preferred_example :
    select_manifest ("Notebook" ∷ "Model" ∷ "Dataset" ∷ []) (a_dataset_object ∷ a_model_object ∷ [])
    ≡ chosen
        (preferred ("Notebook" ∷ "Model" ∷ "Dataset" ∷ []) (a_dataset_object ∷ a_model_object ∷ []))
select_manifest-preferred_example =
    select_manifest-preferred ("Notebook" ∷ "Model" ∷ "Dataset" ∷ [])
      (a_dataset_object ∷ a_model_object ∷ [])

selects_the_model :
    chosen
      (preferred ("Notebook" ∷ "Model" ∷ "Dataset" ∷ []) (a_dataset_object ∷ a_model_object ∷ []))
    ≡ runbooks.Tui.Manifests.selected a_model_object
unfolding preferred
selects_the_model = refl

abbrev nothing_deleted : DeleteModel
nothing_deleted = record { to_delete = []; deleted = []; final_error = none; quit = false }

abbrev answers : List (String × Option String)
answers = ("llm", none) ∷ ("data", some "forbidden") ∷ []

run_deletions-quit_example :
    (run_deletions answers (update (deletion_list ("llm" ∷ "data" ∷ [])) nothing_deleted).0).quit
    ≡ all_deleted answers
run_deletions-quit_example =
    run_deletions-quit ("llm" ∷ "data" ∷ []) answers nothing_deleted refl refl (omega arith) refl

abbrev fresh : ApplyModel
fresh = record {
  namespace = record { specified = ""; contextual = "" };
  objects = [];
  applying = not_started;
  final_error = none;
  quit = false;
}

abbrev shown_as : runbooks.Tui.Commands.Progress → ApplyObject
shown_as status = record { object = a_model_object; status = status; error = none }

abbrev one_command : List ApplyInput
one_command = record { object = a_model_object; index = 0 } ∷ []

abbrev started : Config
started = record {
  shown = record (fresh) { objects = shown_as in_progress ∷ []; applying = in_progress };
  running = one_command;
}

abbrev ended : Config
ended = record {
  shown = record (fresh) { objects = shown_as completed ∷ []; applying = completed; quit = true };
  running = [];
}

abbrev no_error : AnyObject → Option String
no_error o = none

applied-AllCompleted_example : AllCompleted (shown_as completed ∷ [])
unfolding runbooks.Tui.Apply.update get_elem complete_at set_object_namespace
applied-AllCompleted_example =
    applied-AllCompleted no_error (a_model_object ∷ []) fresh started ended refl
      (next here
        (answer [] [] [] (record { object = a_model_object; index = 0 }) none refl refl refl))
      refl
