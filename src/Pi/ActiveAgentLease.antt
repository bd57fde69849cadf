-- ===== src/Pi/ActiveAgentLease.antt =====
-- src/pi/active-agent-lease.ts: the lease that a session renews in an observable gauge while its agent
-- is active. What the code sees of OpenTelemetry is the gauge's set of callbacks, and the result that
-- a collection hands to a callback: the model's gauge is whether this lease's callback is registered.
mod Examples
pub mod Lifetime
use observ_me.Prelude.{
  ℕ, ◌≡◌, refl, Bool, true, false, not, ◌&&◌, ◌||◌, Option, none, some, List, [], ◌∷◌,
  if◌then◌else◌,
}
use observ_me.Prelude.JsNumber.{JsNumber, is_finite}

pub record Lease : Type 0 where
  pub lease_duration_millis : JsNumber
  pub active : Bool
  pub disposed : Bool
  pub callback_registered : Bool

pub data Command : Type 0 where
  activate deactivate dispose : Command

-- `createActiveAgentLease`: nothing where the lease is not enabled.
unfoldable pub create_active_agent_lease : (enabled : Bool) → JsNumber → Option Lease
create_active_agent_lease false duration = none
create_active_agent_lease true duration = some (record {
  lease_duration_millis = duration;
  active = false;
  disposed = false;
  callback_registered = true;
})

abbrev pub with_state : Lease → (active disposed callback_registered : Bool) → Lease
with_state l a d r = record {
  lease_duration_millis = l.lease_duration_millis;
  active = a;
  disposed = d;
  callback_registered = r;
}

unfoldable pub run_command : Command → Lease → Lease
run_command activate l =
    if l.disposed then l else with_state l true l.disposed l.callback_registered
run_command deactivate l = with_state l false l.disposed l.callback_registered
run_command dispose l = if l.disposed then l else with_state l false true false

abbrev pub run_commands : List Command → Lease → Lease
run_commands [] l = l
run_commands (c ∷ cs) l = run_commands cs (run_command c l)

-- Addition and division of doubles round: the two operations are parameters.
module _ (sum : JsNumber → JsNumber → JsNumber) (thousandth : JsNumber → JsNumber) where
  unfoldable pub compute_active_agent_lease_expiry_unix_seconds :
      JsNumber → JsNumber → Option JsNumber
  compute_active_agent_lease_expiry_unix_seconds wall_clock duration =
      let expiry_millis = sum wall_clock duration in
      let expiry_unix_seconds = thousandth expiry_millis in
      if not (is_finite wall_clock) || not (is_finite duration)
      then none
      else if not (is_finite expiry_millis)
      then none
      else if is_finite expiry_unix_seconds
      then some expiry_unix_seconds
      else none

  -- The value that a collection observes, where it observes one.
  unfoldable pub observe_active_agent_lease : Lease → JsNumber → Option JsNumber
  unfolding compute_active_agent_lease_expiry_unix_seconds
  observe_active_agent_lease l wall_clock =
      if not l.active || l.disposed
      then none
      else compute_active_agent_lease_expiry_unix_seconds wall_clock l.lease_duration_millis
