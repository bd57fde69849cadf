-- ===== src/Pi/AgentTree/Examples.antt =====
-- A registry of two agents in which a root agent starts a worker.
use observ_me.Prelude.{
  ℕ, ◌≡◌, refl, ◌↔◌, ◌+◌, true, false, Option, none, some, [], ◌∷◌, Str, lit, str_equality, arith,
  map, or_default, nat_eq,
}
use observ_me.Util.JsMap.{get}
use observ_me.Pi.Lineage.{AgentLineageContext, AgentRole, root, child, worker}
use observ_me.Pi.AgentTree.{
  Node, AgentTree, register_agent, update_status, summarize, nodes_for_summary, get_children,
  contains, get_agent,
}
use observ_me.Pi.AgentTree.Status.{
  starting, active, completed, is_agent_status_transition_allowed,
  is_agent_status_transition_allowed_iff, Lifecycle,
}
use observ_me.Pi.AgentTree.Invariant.{IsWellFormed}
use observ_me.Pi.AgentTree.Preserved.{register_agent-IsWellFormed, update_status-IsWellFormed}
use observ_me.Pi.AgentTree.Retention.{register_agent-links_parent}
use observ_me.Pi.AgentTree.Counts.{summarize_exact, get_children-agents}

abbrev lineage_of : Str → Option Str → ℕ → AgentRole → AgentLineageContext
lineage_of id parent depth role = record {
  workflow_id = lit "w";
  workflow_root_agent_id = lit "a";
  agent_id = id;
  parent_agent_id = parent;
  root_agent_id = lit "a";
  depth = depth;
  role = role;
  display_name = none;
  capability = none;
  parent_session_id = none;
  parent_trace_id = none;
  parent_span_id = none;
  spawn_id = none;
  propagated_trace_context = none;
  propagation_failure = none;
  orphaned = false;
}

abbrev root_lineage : AgentLineageContext
root_lineage = lineage_of (lit "a") none 0 root

abbrev worker_lineage : AgentLineageContext
worker_lineage = lineage_of (lit "b") (some (lit "a")) 1 (child worker)

abbrev root_node : Node
root_node = record {
  agent_id = lit "a";
  workflow_id = lit "w";
  root_agent_id = lit "a";
  parent_agent_id = none;
  depth = 0;
  role = root;
  display_name = none;
  capability = none;
  child_descriptor = none;
  is_orphaned = false;
  child_ids = [];
  fanout_count = 0;
  status = active;
}

abbrev one_agent : AgentTree
one_agent = record { max_agents = 2; nodes = (lit "a", root_node) ∷ [] }

one_agent-IsWellFormed : IsWellFormed 2 one_agent.nodes
one_agent-IsWellFormed = record {
  bounded = omega arith;
  unique = (refl, tt);
  sound = (record { keyed = refl; counted = omega arith; marked = λ h. ground arith }, tt);
  closed = (tt, tt);
}

register_agent-IsWellFormed_example :
    IsWellFormed 2 (register_agent one_agent worker_lineage active none).tree.nodes
register_agent-IsWellFormed_example =
    register_agent-IsWellFormed one_agent worker_lineage active none (omega arith)
      one_agent-IsWellFormed

update_status-IsWellFormed_example :
    IsWellFormed 2 (update_status one_agent (lit "a") completed).0.nodes
update_status-IsWellFormed_example =
    update_status-IsWellFormed one_agent (lit "a") completed one_agent-IsWellFormed

register_agent-links_parent_example :
    (linked : Node) × (get
        (lit "a")
        (register_agent one_agent worker_lineage active none).tree.nodes
      ≡ some linked)
    × (contains (lit "b") linked.child_ids ≡ true)
    × (linked.fanout_count ≡ 0 + 1)
register_agent-links_parent_example =
    register_agent-links_parent one_agent worker_lineage active none (lit "a") root_node
      (omega arith) one_agent-IsWellFormed refl refl refl

abbrev two_agents : AgentTree
two_agents = (register_agent one_agent worker_lineage active none).tree

-- The root agent, once it has started the worker.
abbrev root_of_worker : Node
root_of_worker = record root_node { child_ids = lit "b" ∷ []; fanout_count = 1 }

summarize_exact_example :
    ((summarize two_agents none).active_children ≡ 1)
    × ((summarize two_agents none).fanout_count ≡ 1)
    × ((summarize two_agents none).orphan_count ≡ 0)
    × ((summarize two_agents none).child_statuses.active_count ≡ 2)
    × (or_default (get 1 (summarize two_agents none).width_by_depth) 0 ≡ 1)
unfolding register_agent nodes_for_summary
summarize_exact_example = summarize_exact two_agents none active 1

get_children-agents_example :
    (map (λ s. s.node.agent_id) (get_children two_agents (lit "a")) ≡ lit "b" ∷ [])
    × (map some (get_children two_agents (lit "a")) ≡ get_agent two_agents (lit "b") ∷ [])
unfolding register_agent
get_children-agents_example =
    get_children-agents two_agents (lit "a") root_of_worker
      (register_agent-IsWellFormed one_agent worker_lineage active none (omega arith)
        one_agent-IsWellFormed)
      refl

is_agent_status_transition_allowed_iff_example :
    (is_agent_status_transition_allowed starting completed ≡ true) ↔ Lifecycle starting completed
is_agent_status_transition_allowed_iff_example =
    is_agent_status_transition_allowed_iff starting completed
