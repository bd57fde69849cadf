-- ===== src/Pi/ActiveAgentLease/Lifetime.antt =====
-- What a lease observes over its lifetime.
use observ_me.Prelude.{
  ℕ, ◌+◌, ◌*◌, ◌^◌, ◌≤◌, none, ap, sym, ◌∙◌, inl, inr, Bool-cases, if◌then◌else◌, if_elim, ◌≡◌,
  refl, Bool, true, false, not, ◌&&◌, some, List, [], ◌∷◌, arith,
}
use observ_me.Prelude.JsNumber.{JsNumber, whole}
use observ_me.Pi.ActiveAgentLease.{
  Lease, Command, activate, deactivate, dispose, run_command, run_commands,
  observe_active_agent_lease, compute_active_agent_lease_expiry_unix_seconds, with_state,
  create_active_agent_lease,
}

-- A disposed lease is inactive, and its callback is registered exactly while it is not disposed.
abbrev pub IsLeaseState : Lease → Type 0
IsLeaseState l = (l.callback_registered ≡ not l.disposed) × ((l.disposed && l.active) ≡ false)

run_command-IsLeaseState :
    (c : Command) (l : Lease) → IsLeaseState l → IsLeaseState (run_command c l)
unfolding run_command
run_command-IsLeaseState activate l h = ground arith
run_command-IsLeaseState deactivate l h = ground arith
run_command-IsLeaseState dispose l h = ground arith

-- The last of `activate` and `deactivate` decides, until a `dispose`.
abbrev pub is_active_after : Bool → List Command → Bool
is_active_after b [] = b
is_active_after b (activate ∷ cs) = is_active_after true cs
is_active_after b (deactivate ∷ cs) = is_active_after false cs
is_active_after b (dispose ∷ cs) = false

run_command-disposed :
    (c : Command) (l : Lease)
    → l.disposed ≡ true
    → l.active ≡ false
    → ((run_command c l).disposed ≡ true) × ((run_command c l).active ≡ false)
unfolding run_command
run_command-disposed activate l d a = ground arith
run_command-disposed deactivate l d a = ground arith
run_command-disposed dispose l d a = ground arith

stays_disposed :
    (cs : List Command) (l : Lease)
    → l.disposed ≡ true
    → l.active ≡ false
    → (run_commands cs l).active ≡ false
stays_disposed [] l d a = a
stays_disposed (c ∷ cs) l d a =
    let (e, b) = run_command-disposed c l d a in stays_disposed cs (run_command c l) e b

-- Whatever commands it is given, a lease is active exactly when the last of them that counts says
-- so, and a disposed lease never becomes active again.
pub run_commands-active :
    (cs : List Command) (l : Lease)
    → l.disposed ≡ false
    → (run_commands cs l).active ≡ is_active_after l.active cs
unfolding run_command
run_commands-active [] l h = refl
run_commands-active (activate ∷ cs) l h =
    rw h (run_commands-active cs (with_state l true false l.callback_registered) refl)
run_commands-active (deactivate ∷ cs) l h =
    run_commands-active cs (with_state l false l.disposed l.callback_registered) h
run_commands-active (dispose ∷ cs) l h =
    rw h (stays_disposed cs (with_state l false true false) refl refl)

run_commands-IsLeaseState :
    (cs : List Command) (l : Lease) → IsLeaseState l → IsLeaseState (run_commands cs l)
run_commands-IsLeaseState [] l h = h
run_commands-IsLeaseState (c ∷ cs) l h =
    run_commands-IsLeaseState cs (run_command c l) (run_command-IsLeaseState c l h)

run_command-duration :
    (c : Command) (l : Lease) → (run_command c l).lease_duration_millis ≡ l.lease_duration_millis
unfolding run_command
run_command-duration activate l =
    if_elim l.disposed (λ (x : Lease). x.lease_duration_millis ≡ l.lease_duration_millis) refl refl
run_command-duration deactivate l = refl
run_command-duration dispose l =
    if_elim l.disposed (λ (x : Lease). x.lease_duration_millis ≡ l.lease_duration_millis) refl refl

run_commands-duration :
    (cs : List Command) (l : Lease)
    → (run_commands cs l).lease_duration_millis ≡ l.lease_duration_millis
run_commands-duration [] l = refl
run_commands-duration (c ∷ cs) l =
    run_commands-duration cs (run_command c l) ∙ run_command-duration c l

active-not_disposed : (l : Lease) → IsLeaseState l → l.active ≡ true → l.disposed ≡ false
active-not_disposed l s h = ground (arith, s.1)

some_inj : {k l : Lease} → some k ≡ some l → k ≡ l
some_inj h = cc h

-- The greatest number up to which doubles count.
abbrev pub max_exact : ℕ
max_exact = 2 ^ 53

module _ (sum : JsNumber → JsNumber → JsNumber) (thousandth : JsNumber → JsNumber)
    (exact_sum : (a b : ℕ) → a + b ≤ max_exact → sum (whole a) (whole b) ≡ whole (a + b))
    (exact_thousandth : (q : ℕ)
      → 1000 * q ≤ max_exact
      → thousandth (whole (1000 * q)) ≡ whole q) where
  expiry-whole :
      (now duration q : ℕ)
      → now + duration ≡ 1000 * q
      → 1000 * q ≤ max_exact
      → compute_active_agent_lease_expiry_unix_seconds sum thousandth (whole now) (whole duration)
        ≡ some (whole q)
  unfolding compute_active_agent_lease_expiry_unix_seconds
  expiry-whole now duration q total fits =
      let added : sum (whole now) (whole duration) ≡ whole (1000 * q) =
        exact_sum now duration (omega (arith, total, fits)) ∙ ap whole total in
      let seconds = ap thousandth added ∙ exact_thousandth q fits in
      rw (added, exact_thousandth q fits) refl

  observe-state :
      (l : Lease) (now duration q : ℕ)
      → IsLeaseState l
      → l.lease_duration_millis ≡ whole duration
      → now + duration ≡ 1000 * q
      → 1000 * q ≤ max_exact
      → observe_active_agent_lease sum thousandth l (whole now)
        ≡ (if l.active then some (whole q) else none)
  unfolding observe_active_agent_lease
  observe-state l now duration q s lasts total fits = elim (Bool-cases l.active) [
    | inl e ↦
        rw (observe_active_agent_lease, e, active-not_disposed l s e, lasts)
          (expiry-whole now duration q total fits)
    | inr e ↦ rw (observe_active_agent_lease, e) refl
  ]

  -- Where the sums and quotients of doubles are exact on whole numbers up to 2^53, and a clock of whole
  -- milliseconds plus the duration of a new lease is a whole number of seconds within that bound:
  -- after any commands the lease observes a value exactly when the last command that counts leaves
  -- it active, and the value is that number of seconds.
  pub observe_active_agent_lease-expiry :
      (cs : List Command) (l : Lease) (now duration q : ℕ)
      → create_active_agent_lease true (whole duration) ≡ some l
      → now + duration ≡ 1000 * q
      → 1000 * q ≤ max_exact
      → observe_active_agent_lease sum thousandth (run_commands cs l) (whole now)
        ≡ (if is_active_after false cs then some (whole q) else none)
  unfolding create_active_agent_lease
  observe_active_agent_lease-expiry cs l now duration q made total fits =
      let fresh = some_inj (sym made) in
      let lasts : (run_commands cs l).lease_duration_millis ≡ whole duration =
        run_commands-duration cs l ∙ ap (λ x. x.lease_duration_millis) fresh in
      let enabled : l.disposed ≡ false = ap (λ x. x.disposed) fresh in
      let idle : l.active ≡ false = ap (λ x. x.active) fresh in
      let registered : l.callback_registered ≡ true = ap (λ x. x.callback_registered) fresh in
      let state : IsLeaseState l = ground (arith, enabled, idle, registered) in
      let active : (run_commands cs l).active ≡ is_active_after false cs =
        run_commands-active cs l enabled ∙ ap (λ b. is_active_after b cs) idle in
      observe-state (run_commands cs l) now duration q (run_commands-IsLeaseState cs l state) lasts
        total fits
      ∙ ap (λ b. if b then some (whole q) else none) active
