-- ===== src/Config/Limits/Ranges.antt =====
-- The ranges of the normalised numbers.
use observ_me.Prelude.{ℕ, ◌≤◌, ◌≡◌, refl, true, false, arith, inl, inr, Bool-cases, ltb}
use observ_me.Prelude.JsNumber.{JsNumber, finite, nan, infinity, whole, below, above}
use observ_me.Config.Limits.{
  node_timer_max_milliseconds, normalize_node_timer_milliseconds, at_most, at_least,
}

-- A whole number of a range.
abbrev pub IsWholeWithin : (low high : ℕ) → JsNumber → Type 0
IsWholeWithin low high value = (n : ℕ) × (value ≡ whole n) × (low ≤ n) × (n ≤ high)

bounded-IsWholeWithin :
    (minimum maximum w : ℕ)
    → minimum ≤ maximum
    → IsWholeWithin minimum maximum (at_least minimum (at_most maximum (whole w)))
bounded-IsWholeWithin minimum maximum w h = elim (Bool-cases (above (whole w) maximum)) [
  | inl over ↦
      let room : ltb maximum minimum ≡ false = ground arith in
      rw (over, room) (maximum, refl, h, omega arith)
  | inr within ↦ elim (Bool-cases (ltb w minimum)) [
    | inl low ↦ rw (within, low) (minimum, refl, omega arith, h)
    | inr enough ↦ rw (within, enough) (w, refl, ground arith, ground arith)
  ]
]

timer_of_minimum :
    (minimum : ℕ)
    → minimum ≤ node_timer_max_milliseconds
    → IsWholeWithin minimum node_timer_max_milliseconds (whole minimum)
timer_of_minimum minimum h = (minimum, refl, omega arith, h)

-- For every number, NaN and the infinities included, the timer's delay is a whole number between the
-- minimum and what Node accepts, if the minimum is at most that.
pub normalize_node_timer_milliseconds_bounds :
    (value : JsNumber) (minimum : ℕ)
    → minimum ≤ node_timer_max_milliseconds
    → (n : ℕ) × (normalize_node_timer_milliseconds value minimum ≡ whole n)
      × (minimum ≤ n)
      × (n ≤ node_timer_max_milliseconds)
unfolding normalize_node_timer_milliseconds
normalize_node_timer_milliseconds_bounds nan minimum h = timer_of_minimum minimum h
normalize_node_timer_milliseconds_bounds (infinity s) minimum h = timer_of_minimum minimum h
normalize_node_timer_milliseconds_bounds (finite true w f) minimum h =
    elim (Bool-cases (below (finite true w f) minimum)) [
      | inl low ↦ rw low (timer_of_minimum minimum h)
      | inr enough ↦ rw enough (timer_of_minimum minimum h)
    ]
normalize_node_timer_milliseconds_bounds (finite false w f) minimum h =
    elim (Bool-cases (ltb w minimum)) [
      | inl low ↦ rw low (timer_of_minimum minimum h)
      | inr enough ↦ rw enough (bounded-IsWholeWithin minimum node_timer_max_milliseconds w h)
    ]
