-- ===== src/Pi/Subagent/Accounting.antt =====
-- src/pi/subagent-spawn.ts: which failures and recoveries of children the parent has counted. The
-- registry and the archive are made on first use, empty, which `new_ledger` is; the counters that are
-- incremented are the result.
pub mod Known
pub mod Steps
pub mod Once
use observ_me.Prelude.{
  ℕ, ◌*◌, Bool, true, false, not, ◌&&◌, ◌||◌, Option, none, some, List, [], ◌∷◌, ◌++◌, Str, lit,
  str_equality, max, if◌then◌else◌, or_default,
}
use observ_me.Prelude.JsNumber.{whole}
use observ_me.Util.JsMap.{JsMap, get}
use observ_me.Util.BoundedMap
use observ_me.Util.BoundedMap.{Observer, Eviction}
use observ_me.Util.MembershipFilter.{Digest, Filter, new_filter, add, has_member}

pub record ChildFailureAccountingState : Type 0 where
  pub failure_recorded : Bool
  pub recovery_recorded : Bool

pub record Ledger : Type 0 where
  pub registry : JsMap Str ChildFailureAccountingState
  pub archive : Filter

-- What one call adds to the counters of child failures and of recoveries from them.
pub record Counted : Type 0 where
  pub failure : Bool
  pub recovery : Bool

abbrev pub empty_filter : Filter
empty_filter = record { byte_length = 128; bits = λ i. false }

-- The archive's size is at least 2, which the filter's constructor takes.
unfoldable pub new_archive : (max_spawns : ℕ) → Filter
new_archive max_spawns = or_default (new_filter (whole (max 2 (max_spawns * 2)))) empty_filter

unfoldable pub new_ledger : (max_spawns : ℕ) → Ledger
unfolding new_archive
new_ledger max_spawns = record { registry = []; archive = new_archive max_spawns }

-- `childFailureAccountingToken` for its two transitions
abbrev pub failure_token : Str → Str
failure_token child = lit "failure:" ++ child

abbrev pub recovery_token : Str → Str
recovery_token child = lit "recovery:" ++ child

module _ (sha256 : Str → Digest) where
  abbrev pub add_if : Bool → Str → Filter → Filter
  add_if b token archive = if b then add sha256 token archive else archive

  unfoldable pub archive_child_failure_accounting : Observer Str ChildFailureAccountingState Filter
  archive_child_failure_accounting eviction archive registry = (
    add_if eviction.value.recovery_recorded (recovery_token eviction.key)
        (add sha256 (failure_token eviction.key) archive),
    registry,
  )

  -- None where the archive knows nothing of the child.
  unfoldable pub record_archived_child_failure_accounting :
      Str → Bool → Filter → Option (Counted × Filter)
  record_archived_child_failure_accounting child recovery_confirmed archive =
      let failure_recorded = has_member sha256 archive (failure_token child) in
      let recovery_recorded = has_member sha256 archive (recovery_token child) in
      let counts_failure = not failure_recorded in
      let counts_recovery = recovery_confirmed && not recovery_recorded in
      if not failure_recorded && not recovery_recorded
      then none
      else some (
        record { failure = counts_failure; recovery = counts_recovery },
        add_if counts_recovery (recovery_token child)
            (add_if counts_failure (failure_token child) archive),
      )

  abbrev pub failure_recorded_of : Option ChildFailureAccountingState → Bool
  failure_recorded_of none = false
  failure_recorded_of (some s) = s.failure_recorded

  abbrev pub recovery_recorded_of : Option ChildFailureAccountingState → Bool
  recovery_recorded_of none = false
  recovery_recorded_of (some s) = s.recovery_recorded

  -- The call past its early return.
  unfoldable pub record_in_registry :
      ℕ → Str → Bool → Option ChildFailureAccountingState → Ledger → Counted × Ledger
  unfolding archive_child_failure_accounting
  record_in_registry max_spawns child recovery_confirmed current l =
      let next : ChildFailureAccountingState = record {
        failure_recorded = true;
        recovery_recorded = recovery_recorded_of current || recovery_confirmed;
      } in
      let (archive, registry) =
        BoundedMap.set (max 1 max_spawns) archive_child_failure_accounting child next l.archive
          l.registry in
      (
        record {
          failure = not (failure_recorded_of current);
          recovery = recovery_confirmed && not (recovery_recorded_of current);
        },
        record { registry = registry; archive = archive },
      )

  abbrev pub record_missing : ℕ → Str → Bool → Option (Counted × Filter) → Ledger → Counted × Ledger
  unfolding record_in_registry
  record_missing max_spawns child confirmed none l =
      record_in_registry max_spawns child confirmed none l
  record_missing max_spawns child confirmed (some (counted, archive)) l =
      (counted, record { registry = l.registry; archive = archive })

  abbrev pub record_found :
      ℕ → Str → Bool → Option ChildFailureAccountingState → Ledger → Counted × Ledger
  unfolding record_in_registry record_archived_child_failure_accounting
  record_found max_spawns child confirmed none l =
      record_missing max_spawns child confirmed
        (record_archived_child_failure_accounting child confirmed l.archive) l
  record_found max_spawns child confirmed (some s) l =
      record_in_registry max_spawns child confirmed (some s) l

  unfoldable pub record_child_failure_accounting : ℕ → Str → Bool → Ledger → Counted × Ledger
  unfolding record_found
  record_child_failure_accounting max_spawns child confirmed l =
      record_found max_spawns child confirmed (get child l.registry) l
