-- ===== src/Config/Limits/Examples.antt =====
-- The limits at a delay that is no number.
use observ_me.Prelude.{ℕ, ◌≤◌, ◌≡◌, arith}
use observ_me.Prelude.JsNumber.{nan, whole}
use observ_me.Config.Limits.{node_timer_max_milliseconds, normalize_node_timer_milliseconds}
use observ_me.Config.Limits.Ranges.{normalize_node_timer_milliseconds_bounds}

normalize_node_timer_milliseconds_bounds_example :
    (n : ℕ) × (normalize_node_timer_milliseconds nan 1 ≡ whole n)
    × (1 ≤ n)
    × (n ≤ node_timer_max_milliseconds)
normalize_node_timer_milliseconds_bounds_example =
    normalize_node_timer_milliseconds_bounds nan 1 (omega arith)
