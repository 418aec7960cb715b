-- ===== src/Program/Only.antt =====
-- Programs that make calls of one sort only, whatever the answers.
use runbooks.Prelude.{◌≡◌, ◌∷◌, String, Bool, true, false, if◌then◌else◌, Option}
use runbooks.Program.Calls.{
  Go, ok, err, panic, Call, Answer, update, update_status, bind_identity,
  create_or_update_config_map, create_or_update_service_account, get_object_md5, create_signed_url,
  now,
}
use runbooks.Program.Core.{Program, ret, call, halt, crash, ◌>>=◌, or_stop}
use runbooks.Program.Run.{History, Outcome}
use runbooks.Program.Always.{Always}

pub data Only (S : Call → Bool) {A : Type 0} : Program A → Type 0 where
  done : {a : A} → Only S (ret a)
  ask :
      {c : Call} {k : Answer c → Program A}
      → S c ≡ true
      → ((a : Answer c) → Only S (k a))
      → Only S (call c k)
  stops : {e : Option String} → Only S (halt e)
  dies : {s : String} → Only S (crash s)

module _ {S : Call → Bool} where
  pub >>=-Only :
      {A B : Type 0} {m : Program A} {f : A → Program B}
      → Only S m
      → ((a : A) → Only S (f a))
      → Only S (m >>= f)
  unfolding ◌>>=◌
  >>=-Only done next = next _
  >>=-Only (ask p more) next = ask p (λ a. >>=-Only (more a) next)
  >>=-Only stops next = stops
  >>=-Only dies next = dies

  pub or_stop-Only : {A : Type 0} (g : Go A) → Only S (or_stop g)
  unfolding or_stop
  or_stop-Only (ok a) = done
  or_stop-Only (err e) = stops
  or_stop-Only (panic s) = dies

  pub if-Only :
      {A : Type 0} (b : Bool) {p q : Program A} → Only S p → Only S q → Only S (if b then p else q)
  if-Only true one other = one
  if-Only false one other = other

  -- Where every call of the sort may be made at any time, such a program is always right.
  pub Only-Always :
      {A : Type 0} {P : History → Call → Type 0} {Q : History → Outcome A → Type 0}
      → ((g : History) (c : Call) → S c ≡ true → P g c)
      → ((g : History) (o : Outcome A) → Q g o)
      → {h : History} {p : Program A} → Only S p
      → Always P Q h p
  Only-Always may ends done = Always.done (ends _ _)
  Only-Always may ends (ask p more) = Always.ask (may _ _ p) (λ a. Only-Always may ends (more a))
  Only-Always may ends stops = Always.stops (ends _ _)
  Only-Always may ends dies = Always.dies (ends _ _)

  -- What has happened has happened: a fact that later events leave holds at the end.
  pub Only-keeps :
      {A : Type 0} {P : History → Call → Type 0} {Q : History → Outcome A → Type 0}
      (I : History → Type 0)
      → ((g : History) (c : Call) (a : Answer c) → I g → I ((c, a) ∷ g))
      → ((g : History) (c : Call) → S c ≡ true → P g c)
      → ((g : History) (o : Outcome A) → I g → Q g o)
      → {h : History} {p : Program A} → I h
      → Only S p
      → Always P Q h p
  Only-keeps I later may ends held done = Always.done (ends _ _ held)
  Only-keeps I later may ends {h} held (ask {c = c} p more) =
      Always.ask (may _ _ p) (λ a. Only-keeps I later may ends (later h c a held) (more a))
  Only-keeps I later may ends held stops = Always.stops (ends _ _ held)
  Only-keeps I later may ends held dies = Always.dies (ends _ _ held)

-- Calls that prepare a workload: identities, service accounts, parameters.
abbrev pub prepares : Call → Bool
prepares (bind_identity r) = true
prepares (create_or_update_config_map c f) = true
prepares (create_or_update_service_account s f) = true
prepares _ = false

-- The calls of the upload handshake.
abbrev pub hands_over : Call → Bool
hands_over (get_object_md5 r) = true
hands_over (create_signed_url r) = true
hands_over now = true
hands_over (update_status k o) = true
hands_over _ = false

abbrev pub saves_status : Call → Bool
saves_status (update_status k o) = true
saves_status _ = false

-- The calls that report on a build.
abbrev pub publishes : Call → Bool
publishes (update k o) = true
publishes (update_status k o) = true
publishes _ = false
