-- ===== src/Pi/AgentTree/Status.antt =====
-- src/pi/agent-tree-tracker.ts: the states of a child agent and the moves between them.
use observ_me.Prelude.{
  ℕ, ◌+◌, ◌≡◌, refl, ◌↔◌, ◌==◌, Eq, nat_eq, Bool, true, false, not, arith, if◌then◌else◌,
}
use observ_me.Prelude.Equality.{same_refl}

pub data AgentChildStatus : Type 0 where
  starting active completed failed cancelled orphaned : AgentChildStatus

abbrev status_index : AgentChildStatus → ℕ
status_index starting = 0
status_index active = 1
status_index completed = 2
status_index failed = 3
status_index cancelled = 4
status_index orphaned = 5

abbrev pub status_same : AgentChildStatus → AgentChildStatus → Bool
status_same a b = status_index a == status_index b

pub status_same_iff : (a b : AgentChildStatus) → (status_same a b ≡ true) ↔ (a ≡ b)
status_same_iff starting b = ground arith
status_same_iff active b = ground arith
status_same_iff completed b = ground arith
status_same_iff failed b = ground arith
status_same_iff cancelled b = ground arith
status_same_iff orphaned b = ground arith

instance abbrev pub status_eq : Eq AgentChildStatus
status_eq = record { same = status_same; same_iff = status_same_iff }

-- `activeChildStatuses`
abbrev pub is_active_status : AgentChildStatus → Bool
is_active_status starting = true
is_active_status active = true
is_active_status _ = false

-- `terminalChildStatuses`
abbrev pub is_terminal_status : AgentChildStatus → Bool
is_terminal_status starting = false
is_terminal_status active = false
is_terminal_status _ = true

unfoldable pub is_agent_status_transition_allowed : AgentChildStatus → AgentChildStatus → Bool
is_agent_status_transition_allowed current next =
    if current == next
    then true
    else if is_terminal_status current
    then false
    else if current == starting
    then true
    else not (next == starting)

-- `Record<AgentChildStatus, number>`
pub record StatusCounts : Type 0 where
  pub starting_count : ℕ
  pub active_count : ℕ
  pub completed_count : ℕ
  pub failed_count : ℕ
  pub cancelled_count : ℕ
  pub orphaned_count : ℕ

-- `createEmptyStatusCounts`
abbrev pub no_statuses : StatusCounts
no_statuses = record {
  starting_count = 0;
  active_count = 0;
  completed_count = 0;
  failed_count = 0;
  cancelled_count = 0;
  orphaned_count = 0;
}

-- `childStatuses[status] += 1`
abbrev pub count_status : AgentChildStatus → StatusCounts → StatusCounts
count_status starting c = record c { starting_count = c.starting_count + 1 }
count_status active c = record c { active_count = c.active_count + 1 }
count_status completed c = record c { completed_count = c.completed_count + 1 }
count_status failed c = record c { failed_count = c.failed_count + 1 }
count_status cancelled c = record c { cancelled_count = c.cancelled_count + 1 }
count_status orphaned c = record c { orphaned_count = c.orphaned_count + 1 }

-- The life of a child, written as a relation.
pub data Lifecycle : AgentChildStatus → AgentChildStatus → Type 0 where
  stay : (s : AgentChildStatus) → Lifecycle s s
  launch : (s : AgentChildStatus) → Lifecycle starting s
  finish : (s : AgentChildStatus) → is_terminal_status s ≡ true → Lifecycle active s

Lifecycle-allowed :
    (a b : AgentChildStatus) → Lifecycle a b → is_agent_status_transition_allowed a b ≡ true
unfolding is_agent_status_transition_allowed
Lifecycle-allowed a b (stay s) = rw (same_refl s)
Lifecycle-allowed a b (launch s) = ground arith
Lifecycle-allowed a b (finish s h) = ground arith

allowed-Lifecycle :
    (a b : AgentChildStatus) → is_agent_status_transition_allowed a b ≡ true → Lifecycle a b
unfolding is_agent_status_transition_allowed
allowed-Lifecycle starting b h = launch b
allowed-Lifecycle active starting h = cc
allowed-Lifecycle active active h = stay active
allowed-Lifecycle active b h = finish b refl
allowed-Lifecycle completed completed h = stay completed
allowed-Lifecycle completed _ h = cc
allowed-Lifecycle failed failed h = stay failed
allowed-Lifecycle failed _ h = cc
allowed-Lifecycle cancelled cancelled h = stay cancelled
allowed-Lifecycle cancelled _ h = cc
allowed-Lifecycle orphaned orphaned h = stay orphaned
allowed-Lifecycle orphaned _ h = cc

-- The transition test accepts exactly these moves: a status to itself, `starting` to anything, and
-- `active` to a terminal status.
pub is_agent_status_transition_allowed_iff :
    (a b : AgentChildStatus) → (is_agent_status_transition_allowed a b ≡ true) ↔ Lifecycle a b
is_agent_status_transition_allowed_iff a b = (allowed-Lifecycle a b, Lifecycle-allowed a b)

-- A terminal status is left for no other.
pub is_terminal-not_allowed :
    (a b : AgentChildStatus)
    → is_terminal_status a ≡ true
    → is_agent_status_transition_allowed a b ≡ true
    → b ≡ a
unfolding is_agent_status_transition_allowed
is_terminal-not_allowed a b t h = ground (arith, status_same_iff a b)
