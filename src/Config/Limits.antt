-- ===== src/Config/Limits.antt =====
-- src/config/timer-limits.ts and src/config/query-limits.ts: the numbers of the configuration that are
-- brought into a range. The minimum of a timer is a natural number wherever the program gives one.
mod Examples
pub mod Ranges
use observ_me.Prelude.{ℕ, Bool, true, false, not, ◌||◌, Option, none, some, if◌then◌else◌, ltb}
use observ_me.Prelude.JsNumber.{JsNumber, nan, infinity, finite, whole, is_finite, below, above}

abbrev pub node_timer_max_milliseconds : ℕ
node_timer_max_milliseconds = 2147483647

abbrev pub query_result_count_minimum : ℕ
query_result_count_minimum = 1

abbrev pub query_result_count_maximum : ℕ
query_result_count_maximum = 100

-- Math.trunc
abbrev pub trunc : JsNumber → JsNumber
trunc (finite s w f) = finite s w 0
trunc n = n

-- Math.min(n, k), for a natural number k
abbrev pub at_most : ℕ → JsNumber → JsNumber
at_most k n = if above n k then whole k else n

-- Math.max(k, n), for a natural number k; of 0 and -0 the greater one is 0.
abbrev pub at_least : ℕ → JsNumber → JsNumber
at_least k nan = nan
at_least k (infinity true) = whole k
at_least k (infinity false) = infinity false
at_least k (finite true w f) = whole k
at_least k (finite false w f) = if ltb w k then whole k else finite false w f

unfoldable pub normalize_node_timer_milliseconds : JsNumber → (minimum : ℕ) → JsNumber
normalize_node_timer_milliseconds value minimum =
    if not (is_finite value) || below value minimum
    then whole minimum
    else at_least minimum (at_most node_timer_max_milliseconds (trunc value))

-- `undefined` is none.
unfoldable pub normalize_query_result_count : Option JsNumber → JsNumber
normalize_query_result_count none = whole query_result_count_minimum
normalize_query_result_count (some value) =
    if not (is_finite value) || below value query_result_count_minimum
    then whole query_result_count_minimum
    else at_most query_result_count_maximum (trunc value)
