-- ===== src/Controller/Reports.antt =====
-- What the conditions of a Job amount to, and how often a Job is retried.
use runbooks.Prelude.{
  ℕ, String, ◌<◌, ◌≤◌, ◌^◌, ◌⊎◌, ap, ◌++◌, if◌then◌else◌, ◌≡◌, refl, Bool, true, false, ◌&&◌, ◌||◌,
  Option, none, some, List, [], ◌∷◌,
}
use runbooks.Kube.{StatusCondition}
use runbooks.Api.{Resources, GpuResources}
use runbooks.Controller.Status.{holds, job_result}

-- A condition that ends a Job holds.
pub ended : List StatusCondition → Bool
ended [] = false
ended (c ∷ cs) = holds "Complete" c || holds "Failed" c || ended cs

-- The first condition that ends the Job has the type.
abbrev pub EndsWith : String → List StatusCondition → Type 0
EndsWith type cs =
    (before : List StatusCondition) × (c : StatusCondition) × (behind : List StatusCondition) × (cs
      ≡ before ++ (c ∷ behind))
    × (ended before ≡ false)
    × (holds type c ≡ true)

-- What a Job is reported as: complete, failed, both or neither.
abbrev pub Decides : List StatusCondition → Bool × Bool → Type 0
Decides cs r =
    (r.0 ≡ true → EndsWith "Complete" cs)
    × (r.1 ≡ true → EndsWith "Failed" cs)
    × ((r.0 && r.1) ≡ false)
    × ((r.0 || r.1) ≡ ended cs)

EndsWith-first :
    (type : String) (c : StatusCondition) (cs : List StatusCondition)
    → holds type c ≡ true
    → EndsWith type (c ∷ cs)
unfolding ended
EndsWith-first type c cs held = ([], c, cs, refl, refl, held)

EndsWith-later :
    (type : String) (c : StatusCondition) (cs : List StatusCondition)
    → holds "Complete" c ≡ false
    → holds "Failed" c ≡ false
    → EndsWith type cs
    → EndsWith type (c ∷ cs)
unfolding ended
EndsWith-later type c cs complete failed (before, d, behind, same, quiet, held) =
    (c ∷ before, d, behind, ap (λ ds. c ∷ ds) same, rw (complete, failed) quiet, held)

Decides-step :
    (complete failed : Bool) (c : StatusCondition) (cs : List StatusCondition) (rest : Bool × Bool)
    → holds "Complete" c ≡ complete
    → holds "Failed" c ≡ failed
    → Decides cs rest
    → Decides (c ∷ cs) (if complete then (true, false) else if failed then (false, true) else rest)
unfolding ended
Decides-step true failed c cs rest complete fails in_rest =
    ((λ h. EndsWith-first "Complete" c cs complete), (λ h. absurd cc), refl, rw complete refl)
Decides-step false true c cs rest complete fails in_rest =
    ((λ h. absurd cc), (λ h. EndsWith-first "Failed" c cs fails), refl, rw (complete, fails) refl)
Decides-step false false c cs rest complete fails (as_complete, as_failed, alone, decided) = (
  (λ h. EndsWith-later "Complete" c cs complete fails (as_complete h)),
  (λ h. EndsWith-later "Failed" c cs complete fails (as_failed h)),
  alone,
  rw (complete, fails) decided,
)

-- A Job counts as complete only if, of its conditions that say that it is complete or that it failed,
-- the first says that it is complete, and as failed only if the first says that it failed; it never
-- counts as both, and counts as one of them exactly if there is such a condition.
pub job_result-Decides : (cs : List StatusCondition) → Decides cs (job_result cs)
unfolding job_result ended
job_result-Decides [] = ((λ h. absurd cc), (λ h. absurd cc), refl, refl)
job_result-Decides (c ∷ cs) =
    Decides-step (holds "Complete" c) (holds "Failed" c) c cs _ refl refl (job_result-Decides cs)

-- At most three, as an int64.
abbrev pub FewCpus : ℕ → Type 0
FewCpus n = (n ≤ 3) ⊎ (2 ^ 63 ≤ n)

-- There is an entry for GPUs, of which there are none.
abbrev pub StatesNoGpus : Option GpuResources → Type 0
StatesNoGpus none = ⊥
StatesNoGpus (some g) = g.count ≡ 0

abbrev pub Cheap : Option Resources → Type 0
Cheap none = ⊥
Cheap (some res) = StatesNoGpus res.gpu × FewCpus res.cpu

abbrev pub IsInt64 : Option Resources → Type 0
IsInt64 none = Unit
IsInt64 (some res) = res.cpu < 2 ^ 64
