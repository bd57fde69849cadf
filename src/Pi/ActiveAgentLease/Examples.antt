-- ===== src/Pi/ActiveAgentLease/Examples.antt =====
-- The lease at a run of commands, with sums and quotients that are exact on whole numbers.
use observ_me.Prelude.{◌≡◌, refl, true, false, [], ◌∷◌, ◌+◌, ◌/◌, ◌*◌, ◌≤◌, ℕ, ap, arith, some}
use observ_me.Prelude.JsNumber.{JsNumber, finite, whole}
use observ_me.Pi.ActiveAgentLease.{
  Lease, activate, deactivate, dispose, run_commands, create_active_agent_lease,
  observe_active_agent_lease,
}
use observ_me.Pi.ActiveAgentLease.Lifetime.{
  run_commands-active, observe_active_agent_lease-expiry, max_exact,
}

abbrev idle : Lease
idle = record {
  lease_duration_millis = whole 60000;
  active = false;
  disposed = false;
  callback_registered = true;
}

run_commands-active_example :
    (run_commands (activate ∷ dispose ∷ activate ∷ []) idle).active ≡ false
run_commands-active_example = run_commands-active (activate ∷ dispose ∷ activate ∷ []) idle refl

abbrev whole_sum : JsNumber → JsNumber → JsNumber
whole_sum (finite s a f) (finite t b g) = whole (a + b)
whole_sum a b = a

abbrev whole_thousandth : JsNumber → JsNumber
whole_thousandth (finite s a f) = whole (a / 1000)
whole_thousandth a = a

whole_thousandth-exact :
    (q : ℕ) → 1000 * q ≤ max_exact → whole_thousandth (whole (1000 * q)) ≡ whole q
whole_thousandth-exact q fits = let divides : 1000 * q / 1000 ≡ q = omega arith in ap whole divides

observe_active_agent_lease-expiry_example :
    observe_active_agent_lease whole_sum whole_thousandth
      (run_commands (deactivate ∷ activate ∷ []) idle)
      (whole 1000)
    ≡ some (whole 61)
unfolding create_active_agent_lease
observe_active_agent_lease-expiry_example =
    observe_active_agent_lease-expiry whole_sum whole_thousandth (λ a b fits. refl)
      whole_thousandth-exact (deactivate ∷ activate ∷ []) idle 1000 60000 61 refl refl (omega arith)
