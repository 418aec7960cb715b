-- ===== src/Tui/Seen.antt =====
-- What has been answered so far on a screen of internal/tui that uploads an object and waits for it, and
-- what each of its commands waits for.
use runbooks.Prelude.{String, ◌≡◌, refl, Bool, true, Option, List, [], ◌∷◌, ◌++◌}
use runbooks.Client.Objects.{AnyObject}
use runbooks.Client.Tarball.{Tarball}
use runbooks.Tui.Process.{
  Msg, manifests_init, read_manifest, manifests_found, manifest_selected, upload_init, file_tarred,
  tarball_complete, applied_with_upload, created_with_upload, upload_progress, tarball_uploaded,
  readiness_init, object_update, object_ready, key, failed, Cmd, send, find_manifests_cmd,
  prepare_tarball_cmd, apply_cmd, create_cmd, upload_cmd, wait_ready_cmd, Batch,
}

-- The messages that were handled: a tarball, a written object, an upload, an object that is ready.
pub record Seen : Type 0 where
  pub packed : Bool
  pub written : Bool
  pub uploaded : Bool
  pub ready : Bool

abbrev pub mark : Msg → Seen → Seen
mark (tarball_complete tb) s = record s { packed = true }
mark (applied_with_upload o) s = record s { written = true }
mark (created_with_upload o) s = record s { written = true }
mark (tarball_uploaded o) s = record s { uploaded = true }
mark (object_ready o) s = record s { ready = true }
mark _ s = s

-- What has to be seen before a message.
abbrev pub Permitted : Seen → Msg → Type 0
Permitted s (applied_with_upload o) = s.packed ≡ true
Permitted s (created_with_upload o) = s.packed ≡ true
Permitted s (tarball_uploaded o) = s.written ≡ true
Permitted s (object_ready o) = s.uploaded ≡ true
Permitted s _ = Unit

-- A message that a screen sends to itself.
abbrev pub Plain : Msg → Type 0
Plain (tarball_complete tb) = ⊥
Plain (applied_with_upload o) = ⊥
Plain (created_with_upload o) = ⊥
Plain (tarball_uploaded o) = ⊥
Plain (object_ready o) = ⊥
Plain _ = Unit

-- What has to be seen before a command runs.
abbrev pub Allowed : Seen → Cmd → Type 0
Allowed s (send msg) = Plain msg
Allowed s find_manifests_cmd = Unit
Allowed s prepare_tarball_cmd = Unit
Allowed s (apply_cmd o tb) = s.packed ≡ true
Allowed s (create_cmd o tb) = s.packed ≡ true
Allowed s (upload_cmd o tb) = s.written ≡ true
Allowed s (wait_ready_cmd o) = s.uploaded ≡ true

abbrev pub SequenceAllowed : Seen → List Cmd → Type 0
SequenceAllowed s [] = Unit
SequenceAllowed s (c ∷ cs) = Allowed s c × SequenceAllowed s cs

abbrev pub BatchAllowed : Seen → Batch → Type 0
BatchAllowed s [] = Unit
BatchAllowed s (cs ∷ batch) = SequenceAllowed s cs × BatchAllowed s batch

-- An object is ready after the upload, which is after the write, which is after the tarball.
abbrev pub InOrder : Seen → Type 0
InOrder s =
    (s.ready ≡ true → s.uploaded ≡ true)
    × (s.uploaded ≡ true → s.written ≡ true)
    × (s.written ≡ true → s.packed ≡ true)

-- What a command answers with.
pub data Answer : Cmd → Msg → Type 0 where
  sent : (msg : Msg) → Answer (send msg) msg
  found : (ms : List AnyObject) → Answer find_manifests_cmd (manifests_found ms)
  packed : (tb : Tarball) → Answer prepare_tarball_cmd (tarball_complete tb)
  applied : (o p : AnyObject) (tb : Tarball) → Answer (apply_cmd o tb) (applied_with_upload p)
  created : (o p : AnyObject) (tb : Tarball) → Answer (create_cmd o tb) (created_with_upload p)
  uploaded : (o p : AnyObject) (tb : Option Tarball) → Answer (upload_cmd o tb) (tarball_uploaded p)
  ready : (o p : AnyObject) → Answer (wait_ready_cmd o) (object_ready p)
  fails : (c : Cmd) (e : String) → Answer c (failed e)

-- What comes in beside the answers.
pub data Noise : Msg → Type 0 where
  tarring : Noise file_tarred
  progress : Noise upload_progress
  update : (o : AnyObject) → Noise (object_update o)
  pressed : (k : String) → Noise (key k)
  error : (e : String) → Noise (failed e)

Plain-Permitted : (s : Seen) (msg : Msg) → Plain msg → Permitted s msg
Plain-Permitted s manifests_init plain = tt
Plain-Permitted s (read_manifest o) plain = tt
Plain-Permitted s (manifests_found ms) plain = tt
Plain-Permitted s (manifest_selected o) plain = tt
Plain-Permitted s upload_init plain = tt
Plain-Permitted s file_tarred plain = tt
Plain-Permitted s (tarball_complete tb) plain = tt
Plain-Permitted s (applied_with_upload o) plain = absurd plain
Plain-Permitted s (created_with_upload o) plain = absurd plain
Plain-Permitted s upload_progress plain = tt
Plain-Permitted s (tarball_uploaded o) plain = absurd plain
Plain-Permitted s readiness_init plain = tt
Plain-Permitted s (object_update o) plain = tt
Plain-Permitted s (object_ready o) plain = absurd plain
Plain-Permitted s (key k) plain = tt
Plain-Permitted s (failed e) plain = tt

pub Answer-Permitted :
    {c : Cmd} {msg : Msg} (s : Seen) → Answer c msg → Allowed s c → Permitted s msg
Answer-Permitted s (sent msg) allowed = Plain-Permitted s msg allowed
Answer-Permitted s (found ms) allowed = tt
Answer-Permitted s (packed tb) allowed = tt
Answer-Permitted s (applied o p tb) allowed = allowed
Answer-Permitted s (created o p tb) allowed = allowed
Answer-Permitted s (uploaded o p tb) allowed = allowed
Answer-Permitted s (ready o p) allowed = allowed
Answer-Permitted s (fails c e) allowed = tt

pub Noise-Permitted : {msg : Msg} (s : Seen) → Noise msg → Permitted s msg
Noise-Permitted s tarring = tt
Noise-Permitted s progress = tt
Noise-Permitted s (update o) = tt
Noise-Permitted s (pressed k) = tt
Noise-Permitted s (error e) = tt

pub InOrder-mark : (s : Seen) (msg : Msg) → Permitted s msg → InOrder s → InOrder (mark msg s)
InOrder-mark s manifests_init permitted (first, second, third) = (first, second, third)
InOrder-mark s (read_manifest o) permitted (first, second, third) = (first, second, third)
InOrder-mark s (manifests_found ms) permitted (first, second, third) = (first, second, third)
InOrder-mark s (manifest_selected o) permitted (first, second, third) = (first, second, third)
InOrder-mark s upload_init permitted (first, second, third) = (first, second, third)
InOrder-mark s file_tarred permitted (first, second, third) = (first, second, third)
InOrder-mark s (tarball_complete tb) permitted (first, second, third) = (first, second, λ _. refl)
InOrder-mark s (applied_with_upload o) permitted (first, second, third) =
    (first, (λ _. refl), λ _. permitted)
InOrder-mark s (created_with_upload o) permitted (first, second, third) =
    (first, (λ _. refl), λ _. permitted)
InOrder-mark s upload_progress permitted (first, second, third) = (first, second, third)
InOrder-mark s (tarball_uploaded o) permitted (first, second, third) =
    ((λ _. refl), (λ _. permitted), third)
InOrder-mark s readiness_init permitted (first, second, third) = (first, second, third)
InOrder-mark s (object_update o) permitted (first, second, third) = (first, second, third)
InOrder-mark s (object_ready o) permitted (first, second, third) = ((λ _. permitted), second, third)
InOrder-mark s (key k) permitted (first, second, third) = (first, second, third)
InOrder-mark s (failed e) permitted (first, second, third) = (first, second, third)

packed_stays : (s : Seen) (msg : Msg) → s.packed ≡ true → (mark msg s).packed ≡ true
packed_stays s manifests_init seen = seen
packed_stays s (read_manifest o) seen = seen
packed_stays s (manifests_found ms) seen = seen
packed_stays s (manifest_selected o) seen = seen
packed_stays s upload_init seen = seen
packed_stays s file_tarred seen = seen
packed_stays s (tarball_complete tb) seen = refl
packed_stays s (applied_with_upload o) seen = seen
packed_stays s (created_with_upload o) seen = seen
packed_stays s upload_progress seen = seen
packed_stays s (tarball_uploaded o) seen = seen
packed_stays s readiness_init seen = seen
packed_stays s (object_update o) seen = seen
packed_stays s (object_ready o) seen = seen
packed_stays s (key k) seen = seen
packed_stays s (failed e) seen = seen

written_stays : (s : Seen) (msg : Msg) → s.written ≡ true → (mark msg s).written ≡ true
written_stays s manifests_init seen = seen
written_stays s (read_manifest o) seen = seen
written_stays s (manifests_found ms) seen = seen
written_stays s (manifest_selected o) seen = seen
written_stays s upload_init seen = seen
written_stays s file_tarred seen = seen
written_stays s (tarball_complete tb) seen = seen
written_stays s (applied_with_upload o) seen = refl
written_stays s (created_with_upload o) seen = refl
written_stays s upload_progress seen = seen
written_stays s (tarball_uploaded o) seen = seen
written_stays s readiness_init seen = seen
written_stays s (object_update o) seen = seen
written_stays s (object_ready o) seen = seen
written_stays s (key k) seen = seen
written_stays s (failed e) seen = seen

uploaded_stays : (s : Seen) (msg : Msg) → s.uploaded ≡ true → (mark msg s).uploaded ≡ true
uploaded_stays s manifests_init seen = seen
uploaded_stays s (read_manifest o) seen = seen
uploaded_stays s (manifests_found ms) seen = seen
uploaded_stays s (manifest_selected o) seen = seen
uploaded_stays s upload_init seen = seen
uploaded_stays s file_tarred seen = seen
uploaded_stays s (tarball_complete tb) seen = seen
uploaded_stays s (applied_with_upload o) seen = seen
uploaded_stays s (created_with_upload o) seen = seen
uploaded_stays s upload_progress seen = seen
uploaded_stays s (tarball_uploaded o) seen = refl
uploaded_stays s readiness_init seen = seen
uploaded_stays s (object_update o) seen = seen
uploaded_stays s (object_ready o) seen = seen
uploaded_stays s (key k) seen = seen
uploaded_stays s (failed e) seen = seen

Allowed-mark : (s : Seen) (msg : Msg) (c : Cmd) → Allowed s c → Allowed (mark msg s) c
Allowed-mark s msg (send other) allowed = allowed
Allowed-mark s msg find_manifests_cmd allowed = tt
Allowed-mark s msg prepare_tarball_cmd allowed = tt
Allowed-mark s msg (apply_cmd o tb) allowed = packed_stays s msg allowed
Allowed-mark s msg (create_cmd o tb) allowed = packed_stays s msg allowed
Allowed-mark s msg (upload_cmd o tb) allowed = written_stays s msg allowed
Allowed-mark s msg (wait_ready_cmd o) allowed = uploaded_stays s msg allowed

SequenceAllowed-mark :
    (s : Seen) (msg : Msg) (cs : List Cmd) → SequenceAllowed s cs → SequenceAllowed (mark msg s) cs
SequenceAllowed-mark s msg [] allowed = tt
SequenceAllowed-mark s msg (c ∷ cs) (first, rest) =
    (Allowed-mark s msg c first, SequenceAllowed-mark s msg cs rest)

pub BatchAllowed-mark :
    (s : Seen) (msg : Msg) (batch : Batch) → BatchAllowed s batch → BatchAllowed (mark msg s) batch
BatchAllowed-mark s msg [] allowed = tt
BatchAllowed-mark s msg (cs ∷ batch) (first, rest) =
    (SequenceAllowed-mark s msg cs first, BatchAllowed-mark s msg batch rest)

pub BatchAllowed-append :
    (s : Seen) (xs ys : Batch) → BatchAllowed s xs → BatchAllowed s ys → BatchAllowed s (xs ++ ys)
BatchAllowed-append s [] ys allowed more = more
BatchAllowed-append s (x ∷ xs) ys (first, rest) more =
    (first, BatchAllowed-append s xs ys rest more)

-- The first command of a sequence that is running, and what is left without it.
pub BatchAllowed-split :
    (s : Seen) (before : Batch) (c : Cmd) (cs : List Cmd) (behind : Batch)
    → BatchAllowed s (before ++ ((c ∷ cs) ∷ behind))
    → Allowed s c × BatchAllowed s (before ++ (cs ∷ behind))
BatchAllowed-split s [] c cs behind ((first, rest), others) = (first, (rest, others))
BatchAllowed-split s (x ∷ xs) c cs behind (here, others) =
    let (first, left) = BatchAllowed-split s xs c cs behind others in (first, (here, left))
