-- ===== src/Tui/Apply.antt =====
-- `ApplyModel` of internal/tui/apply.go, and the commands that it runs.
use runbooks.Prelude.{
  ℕ, zero, suc, ◌+◌, String, ◌<>◌, ◌==◌, eqb, if◌then◌else◌, Bool, true, Option, none, some, List,
  [], ◌∷◌, ◌++◌, map,
}
use runbooks.Program.{Go, ok, panic}
use runbooks.Client.Objects.{AnyObject}
use runbooks.Tui.Commands.{Progress, in_progress, completed, Namespace, set_object_namespace}

pub record ApplyObject : Type 0 where
  pub object : AnyObject
  pub status : Progress
  pub error : Option String

pub record ApplyModel : Type 0 where
  pub namespace : Namespace
  pub objects : List ApplyObject
  pub applying : Progress
  pub final_error : Option String
  pub quit : Bool

-- `applyInput`: what a running command will answer for.
pub record ApplyInput : Type 0 where
  pub object : AnyObject
  pub index : ℕ

pub data ApplyMsg : Type 0 where
  manifests_found : List AnyObject → ApplyMsg
  applied_msg : ℕ → Option String → ApplyMsg
  key : String → ApplyMsg
  failed : String → ApplyMsg

abbrev pub Step : Type 0
Step = ApplyModel × List ApplyInput

-- The closure `apply`: a command, unless the resource client has an error.
abbrev pub with_client : AnyObject → ℕ → Option String → Step → Step
with_client o index none (m, cmds) = (m, cmds ++ (record { object = o; index = index } ∷ []))
with_client o index (some e) (m, cmds) =
    (record m { final_error = some ("resource client: " <> e) }, cmds)

-- An element of a slice; nothing where the index is out of range, which is a panic.
unfoldable pub get_elem : ℕ → List ApplyObject → Option ApplyObject
get_elem n [] = none
get_elem zero (o ∷ os) = some o
get_elem (suc n) (o ∷ os) = get_elem n os

-- `ao.status = completed; ao.error = msg.err` at an index.
unfoldable pub complete_at : ℕ → Option String → List ApplyObject → List ApplyObject
complete_at n e [] = []
complete_at zero e (o ∷ os) = record o { status = completed; error = e } ∷ os
complete_at (suc n) e (o ∷ os) = o ∷ complete_at n e os

abbrev pub count : List ApplyObject → ℕ
count [] = 0
count (o ∷ os) = count os + 1

-- `client` is the error of `m.Client.Resource`, if it has one.
module _ (client : AnyObject → Option String) where
  abbrev pub with_namespace : Namespace → AnyObject → ApplyObject
  with_namespace n o = record {
    object = set_object_namespace n o;
    status = in_progress;
    error = none;
  }

  -- Every object is applied at once, with the index 0.
  abbrev pub start_all : List ApplyObject → Step → Step
  start_all [] step = step
  start_all (o ∷ os) step = start_all os (with_client o.object 0 (client o.object) step)

  -- The object after the one that was applied.
  abbrev pub apply_next : ℕ → Option ApplyObject → ApplyModel → Go Step
  apply_next index none m = panic "index out of range"
  apply_next index (some o) m = ok (with_client o.object index (client o.object) (m, []))

  abbrev pub after_applied : ℕ → ApplyModel → Go Step
  after_applied index m =
      if eqb (index + 1) (count m.objects)
      then ok (record m { applying = completed; quit = true }, [])
      else apply_next (index + 1) (get_elem (index + 1) m.objects) m

  abbrev pub on_applied : ℕ → Option String → Option ApplyObject → ApplyModel → Go Step
  on_applied index e none m = panic "index out of range"
  on_applied index e (some o) m =
      after_applied index (record m { objects = complete_at index e m.objects })

  -- `Update`, with the commands that it returns.
  unfoldable pub update : ApplyMsg → ApplyModel → Go Step
  unfolding get_elem complete_at
  update (manifests_found manifests) m =
      let objects = map (with_namespace m.namespace) manifests in
      ok (start_all objects (record m { applying = in_progress; objects = objects }, []))
  update (applied_msg index e) m = on_applied index e (get_elem index m.objects) m
  update (key s) m = ok (record m { quit = if s == "q" then true else m.quit }, [])
  update (failed e) m = ok (record m { final_error = some e; quit = true }, [])
