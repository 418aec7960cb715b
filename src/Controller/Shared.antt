-- ===== src/Controller/Shared.antt =====
-- Small steps that the reconcilers share: a condition is set, a status is saved, an owner is set, a
-- bucket is mounted.
use runbooks.Prelude.{String, ◌<>◌, Bool}
use runbooks.Kube.{ObjectMeta, OwnerReference}
use runbooks.Program.{
  Go, ok, err, written, write_error, update_status, Program, ret, ◌>>=◌, perform, fail,
}
use runbooks.Library.{Library, referenced, already_owned, reference_error}
use runbooks.Api.{Kind, Object, metadata, get_conditions, set_conditions, set_status_ready}

-- `if err := r.Status().Update(ctx, obj); err != nil { return result{}, fmt.Errorf(...) }`
unfoldable pub save_status : String → (k : Kind) → Object k → Program (Object k)
unfolding ◌>>=◌
save_status what k o = do
  answer ← perform (update_status k o)
  elim answer [ written stored ↦ ret stored | write_error e ↦ fail (what <> ": " <> e) ]

module _ (L : Library) where
  -- `meta.SetStatusCondition(obj.GetConditions(), ...)`
  abbrev pub set_condition : (k : Kind) → String → Bool → String → String → Object k → Object k
  set_condition k type status reason message o =
      set_conditions k
        (L.set_status_condition (get_conditions k o) (record {
          type = type;
          status = status;
          reason = reason;
          observed_generation = (metadata k o).generation;
          message = message;
        }))
        o

  -- The status's `Ready` and a condition, set together.
  abbrev pub report : (k : Kind) → Bool → String → Bool → String → String → Object k → Object k
  report k ready type status reason message o =
      set_condition k type status reason message (set_status_ready k ready o)

  -- `SetControllerReference`, whose errors are returned.
  unfoldable pub own : String → OwnerReference → ObjectMeta → Go ObjectMeta
  own what owner m = elim (L.set_controller_reference owner m) [
    | referenced n ↦ ok n
    | already_owned ↦ err (what <> ": already owned")
    | reference_error e ↦ err (what <> ": " <> e)
  ]
