-- ===== src/Controller/Needs.antt =====
-- The objects that an object refers to, in what has been read.
use runbooks.Prelude.{String, ◌≡◌, ◌==◌, true, false, Option, none, some, ◌∷◌}
use mathlib.Core.List.{Memᴰ}
use runbooks.Program.{get, found, Call, Answer, History}
use runbooks.Program.Latest.{Happened}
use runbooks.Api.{ObjectRef, Kind, Object, get_status_ready}

-- The object of the name was read in these events, and was ready.
abbrev pub ReadyNamed : Kind → String → String → History → Type 0
ReadyNamed k namespace name h =
    (o : Object k) × Happened (get k (record { namespace = namespace; name = name })) (found o) h
    × (get_status_ready k o ≡ true)

-- Nothing is referred to, or what is was ready.
abbrev pub ReadyRef : Kind → String → Option ObjectRef → History → Type 0
ReadyRef k namespace none h = Unit
ReadyRef k namespace (some ref) h = ReadyNamed k namespace ref.name h

pub ReadyNamed-later :
    (k : Kind) (namespace name : String) (c : Call) (a : Answer c) (h : History)
    → ReadyNamed k namespace name h
    → ReadyNamed k namespace name ((c, a) ∷ h)
ReadyNamed-later k namespace name c a h (o, seen, ready) = (o, Memᴰ.tail seen, ready)

pub ReadyRef-later :
    (k : Kind) (namespace : String) (ref : Option ObjectRef) (c : Call) (a : Answer c) (h : History)
    → ReadyRef k namespace ref h
    → ReadyRef k namespace ref ((c, a) ∷ h)
ReadyRef-later k namespace none c a h ready = tt
ReadyRef-later k namespace (some ref) c a h ready =
    ReadyNamed-later k namespace ref.name c a h ready

-- The same for a reference whose empty name is none.
abbrev pub ReadyIfNamed : Kind → String → Option ObjectRef → History → Type 0
ReadyIfNamed k namespace none h = Unit
ReadyIfNamed k namespace (some ref) h = (ref.name == "") ≡ false → ReadyNamed k namespace ref.name h

pub ReadyIfNamed-later :
    (k : Kind) (namespace : String) (ref : Option ObjectRef) (c : Call) (a : Answer c) (h : History)
    → ReadyIfNamed k namespace ref h
    → ReadyIfNamed k namespace ref ((c, a) ∷ h)
ReadyIfNamed-later k namespace none c a h ready = tt
ReadyIfNamed-later k namespace (some ref) c a h ready =
    λ named. ReadyNamed-later k namespace ref.name c a h (ready named)
