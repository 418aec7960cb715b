-- ===== src/Tui/Applied.antt =====
-- Runs of the update loop of internal/tui/apply.go with its commands, which end in any order.
use mathlib.Core.Path.{subst}
use runbooks.Prelude.{
  ℕ, ◌+◌, String, ◌≡◌, refl, sym, eqb, if◌then◌else◌, Bool, true, false, Option, none, some, List,
  [], ◌∷◌, ◌++◌, map, arith,
}
use runbooks.Program.{ok}
use runbooks.Program.IfOk.{IfOk, IfOk-ok}
use runbooks.Client.Objects.{AnyObject}
use runbooks.Tui.Commands.{in_progress, completed}
use runbooks.Tui.InTurn.{
  Below, AllCompleted, InTurn, Below-zero, Below-next, Below-count, InTurn-complete, InTurn-append,
  InTurn-split, AllCompleted-complete,
}
use runbooks.Tui.Apply.{
  ApplyObject, ApplyModel, ApplyInput, manifests_found, applied_msg, key, failed, Step, with_client,
  get_elem, complete_at, count, with_namespace, start_all, apply_next, on_applied, update,
}

-- The model, and the commands that have not answered yet.
pub record Config : Type 0 where
  pub shown : ApplyModel
  pub running : List ApplyInput

-- A command that is running answers, a key is pressed, or an error comes in.
pub data Move (client : AnyObject → Option String) (c d : Config) : Type 0 where
  answer :
      (before behind cmds : List ApplyInput) (input : ApplyInput) (e : Option String)
      → c.running ≡ before ++ (input ∷ behind)
      → update client (applied_msg input.index e) c.shown ≡ ok (d.shown, cmds)
      → d.running ≡ (before ++ behind) ++ cmds
      → Move client c d
  press :
      (s : String)
      → update client (key s) c.shown ≡ ok (d.shown, [])
      → d.running ≡ c.running
      → Move client c d
  fail :
      (e : String)
      → update client (failed e) c.shown ≡ ok (d.shown, [])
      → d.running ≡ c.running
      → Move client c d

pub data Reach (client : AnyObject → Option String) (c : Config) : Config → Type 0 where
  here : Reach client c c
  next : {d e : Config} → Reach client c d → Move client d e → Reach client c e

-- Nothing is completed as a whole before all its parts are.
abbrev Finished : ApplyModel → Type 0
Finished m = m.applying ≡ completed → AllCompleted m.objects

-- A step whose objects are the given ones, and whose commands are in turn.
abbrev Sound : List ApplyObject → Step → Type 0
Sound os (m, cmds) = (m.objects ≡ os) × (InTurn os cmds) × Finished m

not_completed : in_progress ≡ completed → ⊥
not_completed all = cc

equal : (a b : ℕ) → eqb a b ≡ true → a ≡ b
equal a b h = ground arith

module _ (client : AnyObject → Option String) where
  with_client-Sound :
      (objects : List ApplyObject) (o : AnyObject) (index : ℕ) (e : Option String) (step : Step)
      → Below index objects
      → Sound objects step
      → Sound objects (with_client o index e step)
  with_client-Sound objects o index none (m, cmds) below (same, turn, finished) =
      (same, InTurn-append objects cmds _ turn (below, tt), finished)
  with_client-Sound objects o index (some e) (m, cmds) below (same, turn, finished) =
      (same, turn, finished)

  apply_next-Sound :
      (index : ℕ) (o : Option ApplyObject) (m : ApplyModel)
      → Below index m.objects
      → Finished m
      → IfOk (Sound m.objects) (apply_next client index o m)
  apply_next-Sound index none m below finished = tt
  apply_next-Sound index (some o) m below finished =
      with_client-Sound m.objects o.object index (client o.object) (m, []) below
        (refl, tt, finished)

  last_or_next-Sound :
      (last : Bool) (index : ℕ) (m : ApplyModel)
      → eqb index (count m.objects) ≡ last
      → Below index m.objects
      → Finished m
      → IfOk (Sound m.objects) (
          if last
          then ok (record m { applying = completed; quit = true }, [])
          else apply_next client index (get_elem index m.objects) m)
  last_or_next-Sound true index m whole below finished =
      (refl, tt, λ _. Below-count index m.objects (equal index (count m.objects) whole) below)
  last_or_next-Sound false index m whole below finished =
      apply_next-Sound index (get_elem index m.objects) m below finished

  on_applied-Sound :
      (index : ℕ) (e : Option String) (o : Option ApplyObject) (m : ApplyModel)
      → Below index m.objects
      → Finished m
      → IfOk (Sound (complete_at index e m.objects)) (on_applied client index e o m)
  on_applied-Sound index e none m below finished = tt
  on_applied-Sound index e (some o) m below finished =
      last_or_next-Sound _ (index + 1) (record m { objects = complete_at index e m.objects }) refl
        (subst (λ n. Below n (complete_at index e m.objects)) (omega arith)
          (Below-next index e m.objects below))
        (λ all. AllCompleted-complete index e m.objects (finished all))

  start_all-Sound :
      (objects os : List ApplyObject) (step : Step)
      → Sound objects step
      → Sound objects (start_all client os step)
  start_all-Sound objects [] step sound = sound
  start_all-Sound objects (o ∷ os) step sound =
      start_all-Sound objects os (with_client o.object 0 (client o.object) step)
        (with_client-Sound objects o.object 0 (client o.object) step (Below-zero objects) sound)

  -- The invariant of the program.
  abbrev Ordered : Config → Type 0
  Ordered c = InTurn c.shown.objects c.running × Finished c.shown

  Move-Ordered : {c d : Config} → Move client c d → Ordered c → Ordered d
  unfolding update
  Move-Ordered {c} {d} (answer before behind cmds i e running updated left) (turn, finished) =
      let (below, others) =
        InTurn-split c.shown.objects before i behind
          (subst (InTurn c.shown.objects) running turn) in
      let (same, more, done) =
        IfOk-ok (Sound (complete_at i.index e c.shown.objects)) _ (d.shown, cmds)
          (on_applied-Sound i.index e (get_elem i.index c.shown.objects) c.shown below finished)
          updated in
      (
        subst (InTurn d.shown.objects) (sym left) (
            subst (λ os. InTurn os ((before ++ behind) ++ cmds)) (sym same)
              (InTurn-append _ (before ++ behind) cmds
                (InTurn-complete i.index e c.shown.objects (before ++ behind) others) more)),
        done,
      )
  Move-Ordered {c} {d} (press s updated left) (turn, finished) =
      let (same, _, done) =
        IfOk-ok (Sound c.shown.objects) (update client (key s) c.shown) (d.shown, [])
          (refl, tt, finished) updated in
      (
        subst (InTurn d.shown.objects) (sym left)
            (subst (λ os. InTurn os c.running) (sym same) turn),
        done,
      )
  Move-Ordered {c} {d} (fail e updated left) (turn, finished) =
      let (same, _, done) =
        IfOk-ok (Sound c.shown.objects) (update client (failed e) c.shown) (d.shown, [])
          (refl, tt, finished) updated in
      (
        subst (InTurn d.shown.objects) (sym left)
            (subst (λ os. InTurn os c.running) (sym same) turn),
        done,
      )

  Reach-Ordered : {c d : Config} → Ordered c → Reach client c d → Ordered d
  Reach-Ordered start here = start
  Reach-Ordered start (next reach move) = Move-Ordered move (Reach-Ordered start reach)

  start-Ordered :
      (manifests : List AnyObject) (m : ApplyModel) (c : Config)
      → update client (manifests_found manifests) m ≡ ok (c.shown, c.running)
      → Ordered c
  unfolding update
  start-Ordered manifests m c started =
      let objects = map (with_namespace client m.namespace) manifests in
      let (same, turn, finished) =
        IfOk-ok (Sound objects) _ (c.shown, c.running)
          (start_all-Sound objects objects
            (record m { applying = in_progress; objects = objects }, [])
            (refl, tt, λ all. absurd (not_completed all)))
          started in
      (subst (λ os. InTurn os c.running) (sym same) turn, finished)

-- From the manifests that were found, in whatever order the commands answer, keys are pressed and
-- errors come in: when the program shows that applying is completed, every object is.
pub applied-AllCompleted :
    (client : AnyObject → Option String) (manifests : List AnyObject) (m : ApplyModel)
    (c d : Config)
    → update client (manifests_found manifests) m ≡ ok (c.shown, c.running)
    → Reach client c d
    → d.shown.applying ≡ completed
    → AllCompleted d.shown.objects
applied-AllCompleted client manifests m c d started reach all =
    (Reach-Ordered client (start-Ordered client manifests m c started) reach).1 all
