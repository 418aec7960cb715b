-- ===== src/Tui/Ran.antt =====
-- Runs of the update loop of internal/tui/run.go with its commands, which answer in any order.
use mathlib.Core.Path.{subst}
use runbooks.Prelude.{String, ◌≡◌, sym, true, false, Option, List, ◌∷◌, ◌++◌}
use runbooks.Program.{ok}
use runbooks.Program.IfOk.{IfOk-ok}
use runbooks.Client.Objects.{AnyObject}
use runbooks.Tui.Commands.{Progress, not_started, completed}
use runbooks.Tui.Process.{Msg, Cmd, Batch}
use runbooks.Tui.Run.{RunModel, update, start}
use runbooks.Tui.Seen.{
  Seen, mark, Permitted, BatchAllowed, InOrder, Answer, Noise, Answer-Permitted, Noise-Permitted,
  InOrder-mark, BatchAllowed-mark, BatchAllowed-append, BatchAllowed-split,
}
use runbooks.Tui.Sound.{Truthful, Sound, not_begun, update-Sound}

-- The model, the sequences of commands that are running, and what has been answered.
pub record Config : Type 0 where
  pub shown : RunModel
  pub running : Batch
  pub seen : Seen

-- The first command of a sequence that is running answers, or something else comes in.
pub data Move (client : AnyObject → Option String) (c d : Config) : Type 0 where
  answer :
      (before behind cmds : Batch) (cmd : Cmd) (cs : List Cmd) (msg : Msg)
      → Answer cmd msg
      → c.running ≡ before ++ ((cmd ∷ cs) ∷ behind)
      → update client msg c.shown ≡ ok (d.shown, cmds)
      → d.running ≡ (before ++ (cs ∷ behind)) ++ cmds
      → d.seen ≡ mark msg c.seen
      → Move client c d
  noise :
      (cmds : Batch) (msg : Msg)
      → Noise msg
      → update client msg c.shown ≡ ok (d.shown, cmds)
      → d.running ≡ c.running ++ cmds
      → d.seen ≡ mark msg c.seen
      → Move client c d

pub data Reach (client : AnyObject → Option String) (c : Config) : Config → Type 0 where
  here : Reach client c c
  next : {d e : Config} → Reach client c d → Move client d e → Reach client c e

module _ (client : AnyObject → Option String) where
  -- The invariant of the program.
  abbrev Ordered : Config → Type 0
  Ordered c = InOrder c.seen × Truthful c.seen c.shown.readiness × BatchAllowed c.seen c.running

  -- What a message that is permitted leaves, beside the commands that stay.
  handled-Ordered :
      (c d : Config) (msg : Msg) (rest cmds : Batch)
      → InOrder c.seen
      → Truthful c.seen c.shown.readiness
      → Permitted c.seen msg
      → BatchAllowed c.seen rest
      → update client msg c.shown ≡ ok (d.shown, cmds)
      → d.running ≡ rest ++ cmds
      → d.seen ≡ mark msg c.seen
      → Ordered d
  handled-Ordered c d msg rest cmds ordered truthful permitted allowed updated left marked =
      let (honest, more) =
        IfOk-ok (Sound (mark msg c.seen)) _ (d.shown, cmds)
          (update-Sound client c.seen msg c.shown truthful) updated in
      subst (λ (s : Seen). InOrder s × Truthful s d.shown.readiness × BatchAllowed s d.running)
        (sym marked)
        (
          InOrder-mark c.seen msg permitted ordered,
          honest,
          subst (BatchAllowed (mark msg c.seen)) (sym left) (
              BatchAllowed-append (mark msg c.seen) rest cmds
                (BatchAllowed-mark c.seen msg rest allowed) more),
        )

  Move-Ordered : {c d : Config} → Move client c d → Ordered c → Ordered d
  Move-Ordered {c} {d} (answer before behind cmds cmd cs msg a running updated left marked)
        (ordered, truthful, allowed) =
      let (first, rest) =
        BatchAllowed-split c.seen before cmd cs behind
          (subst (BatchAllowed c.seen) running allowed) in
      handled-Ordered c d msg (before ++ (cs ∷ behind)) cmds ordered truthful
        (Answer-Permitted c.seen a first) rest updated left marked
  Move-Ordered {c} {d} (noise cmds msg n updated left marked) (ordered, truthful, allowed) =
      handled-Ordered c d msg c.running cmds ordered truthful (Noise-Permitted c.seen n) allowed
        updated left marked

  Reach-Ordered : {c d : Config} → Ordered c → Reach client c d → Ordered d
  Reach-Ordered start here = start
  Reach-Ordered start (next reach move) = Move-Ordered move (Reach-Ordered start reach)

abbrev pub nothing_seen : Seen
nothing_seen = record { packed = false; written = false; uploaded = false; ready = false }

-- Before anything is answered.
pub record Opened (c : Config) : Type 0 where
  pub waiting : c.shown.readiness.waiting ≡ not_started
  pub running : c.running ≡ start
  pub seen : c.seen ≡ nothing_seen

-- The object was made ready, after its upload, after it was written, after its tarball was packed.
abbrev pub AllSeen : Seen → Type 0
AllSeen s = (s.packed ≡ true) × (s.written ≡ true) × (s.uploaded ≡ true) × (s.ready ≡ true)

false_is_not_true : false ≡ true → ⊥
false_is_not_true h = cc

Opened-Ordered : (client : AnyObject → Option String) (c : Config) → Opened c → Ordered client c
Opened-Ordered client c opened =
    subst (λ (s : Seen). InOrder s × Truthful s c.shown.readiness × BatchAllowed s c.running)
      (sym opened.seen)
      (
        (
          (λ h. absurd (false_is_not_true h)),
          (λ h. absurd (false_is_not_true h)),
          λ h. absurd (false_is_not_true h),
        ),
        (λ all. absurd (not_begun (subst (λ (p : Progress). p ≡ completed) opened.waiting all))),
        subst (BatchAllowed nothing_seen) (sym opened.running) ((tt, (tt, tt)), tt),
      )

-- From a run screen that was just opened, in whatever order its commands answer, keys are pressed and
-- progress and errors come in: when it shows the object as ready, the tarball was packed, the object
-- written, the tarball uploaded and the object seen ready.
pub ready-AllSeen :
    (client : AnyObject → Option String) (c d : Config)
    → Opened c
    → Reach client c d
    → d.shown.readiness.waiting ≡ completed
    → AllSeen d.seen
ready-AllSeen client c d opened reach all =
    let ((first, second, third), truthful, _) =
      Reach-Ordered client (Opened-Ordered client c opened) reach in
    let ready = truthful all in
    let uploaded = first ready in
    let written = second uploaded in (third written, written, uploaded, ready)
