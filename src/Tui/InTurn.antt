-- ===== src/Tui/InTurn.antt =====
-- Objects that are applied in turn, internal/tui/apply.go: which of a list are completed.
use runbooks.Prelude.{ℕ, zero, suc, String, ◌≡◌, refl, Option, List, [], ◌∷◌, ◌++◌, arith}
use runbooks.Tui.Commands.{completed}
use runbooks.Tui.Apply.{ApplyObject, ApplyInput, complete_at, count}

-- The first objects, as many as the number, are completed.
abbrev pub Below : ℕ → List ApplyObject → Type 0
Below n [] = Unit
Below zero (o ∷ os) = Unit
Below (suc n) (o ∷ os) = (o.status ≡ completed) × Below n os

abbrev pub AllCompleted : List ApplyObject → Type 0
AllCompleted [] = Unit
AllCompleted (o ∷ os) = (o.status ≡ completed) × AllCompleted os

-- Each command is for an object behind completed ones.
abbrev pub InTurn : List ApplyObject → List ApplyInput → Type 0
InTurn os [] = Unit
InTurn os (i ∷ inputs) = Below i.index os × InTurn os inputs

pub Below-zero : (os : List ApplyObject) → Below 0 os
Below-zero [] = tt
Below-zero (o ∷ os) = tt

pub Below-complete :
    (j i : ℕ) (e : Option String) (os : List ApplyObject)
    → Below j os
    → Below j (complete_at i e os)
unfolding complete_at
Below-complete j i e [] done = tt
Below-complete zero zero e (o ∷ os) done = tt
Below-complete zero (suc i) e (o ∷ os) done = tt
Below-complete (suc j) zero e (o ∷ os) (first, rest) = (refl, rest)
Below-complete (suc j) (suc i) e (o ∷ os) (first, rest) = (first, Below-complete j i e os rest)

pub Below-next :
    (i : ℕ) (e : Option String) (os : List ApplyObject)
    → Below i os
    → Below (suc i) (complete_at i e os)
unfolding complete_at
Below-next i e [] done = tt
Below-next zero e (o ∷ os) done = (refl, Below-zero os)
Below-next (suc i) e (o ∷ os) (first, rest) = (first, Below-next i e os rest)

pub Below-count : (n : ℕ) (os : List ApplyObject) → n ≡ count os → Below n os → AllCompleted os
Below-count n [] whole done = tt
Below-count zero (o ∷ os) whole done = absurd (omega (arith, whole))
Below-count (suc n) (o ∷ os) whole (first, rest) =
    (first, Below-count n os (omega (arith, whole)) rest)

pub InTurn-complete :
    (i : ℕ) (e : Option String) (os : List ApplyObject) (inputs : List ApplyInput)
    → InTurn os inputs
    → InTurn (complete_at i e os) inputs
InTurn-complete i e os [] turn = tt
InTurn-complete i e os (j ∷ inputs) (first, rest) =
    (Below-complete j.index i e os first, InTurn-complete i e os inputs rest)

pub InTurn-append :
    (os : List ApplyObject) (xs ys : List ApplyInput)
    → InTurn os xs
    → InTurn os ys
    → InTurn os (xs ++ ys)
InTurn-append os [] ys turn more = more
InTurn-append os (x ∷ xs) ys (first, rest) more = (first, InTurn-append os xs ys rest more)

pub InTurn-split :
    (os : List ApplyObject) (before : List ApplyInput) (i : ApplyInput) (behind : List ApplyInput)
    → InTurn os (before ++ (i ∷ behind))
    → Below i.index os × InTurn os (before ++ behind)
InTurn-split os [] i behind turn = turn
InTurn-split os (x ∷ xs) i behind (first, rest) =
    let (mine, others) = InTurn-split os xs i behind rest in (mine, (first, others))

pub AllCompleted-complete :
    (i : ℕ) (e : Option String) (os : List ApplyObject)
    → AllCompleted os
    → AllCompleted (complete_at i e os)
unfolding complete_at
AllCompleted-complete i e [] done = tt
AllCompleted-complete zero e (o ∷ os) (first, rest) = (refl, rest)
AllCompleted-complete (suc i) e (o ∷ os) (first, rest) = (first, AllCompleted-complete i e os rest)
