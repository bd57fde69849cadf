-- ===== src/Util.antt =====
-- src/util: the bounded containers that the telemetry session keeps its state in.
pub mod JsMap
pub mod BoundedMap
pub mod MembershipFilter
