-- ===== src/Pi/AgentTree.antt =====
-- src/pi/agent-tree-tracker.ts: the bounded registry of the agents of a workflow.
-- A node object that the code mutates in the map is written back under its key.
mod Examples
pub mod Status
pub mod Nodes
pub mod Invariant
pub mod Preserved
pub mod Retention
pub mod Counts
use observ_me.Prelude.{
  ℕ, ◌+◌, max, ◌==◌, Bool, true, false, ◌&&◌, ◌||◌, not, Option, none, some, List, [], ◌∷◌, ◌++◌,
  Str, str_equality, nat_eq, if◌then◌else◌, length, filter, or_default, or_else, any,
}
use observ_me.Util.JsMap
use observ_me.Util.JsMap.{JsMap, get, has, put, delete}
use observ_me.Util.BoundedMap
use observ_me.Util.BoundedMap.{Eviction, Observer}
use observ_me.Pi.Lineage.{ChildDescriptor, AgentRole, child, AgentLineageContext, truthy}
use Status.{
  status_eq, AgentChildStatus, active, orphaned, is_agent_status_transition_allowed,
  is_active_status, StatusCounts, no_statuses, count_status,
}

pub record Node : Type 0 where
  pub agent_id : Str
  pub workflow_id : Str
  pub root_agent_id : Str
  pub parent_agent_id : Option Str
  pub depth : ℕ
  pub role : AgentRole
  pub display_name : Option Str
  pub capability : Option Str
  pub child_descriptor : Option ChildDescriptor
  pub is_orphaned : Bool
  pub child_ids : List Str
  pub fanout_count : ℕ
  pub status : AgentChildStatus

abbrev pub Nodes : Type 0
Nodes = JsMap Str Node

-- `AgentTreeNode`: the node's own fields, with the two that are computed from the registry.
pub record Snapshot : Type 0 where
  pub node : Node
  pub retained_child_ids : List Str
  pub active_children : ℕ

pub record AgentTree : Type 0 where
  pub max_agents : ℕ
  pub nodes : Nodes

unfoldable pub is_active_child : Str → Nodes → Bool
is_active_child id nodes = elim (get id nodes) [ none ↦ false | some n ↦ is_active_status n.status ]

unfoldable pub retained_child_ids : Node → Nodes → List Str
retained_child_ids node nodes = filter (λ id. has id nodes) node.child_ids

unfoldable pub count_active_children : List Str → Nodes → ℕ
unfolding is_active_child
count_active_children ids nodes = length (filter (λ id. is_active_child id nodes) ids)

unfoldable pub snapshot_node : Node → Nodes → Snapshot
unfolding retained_child_ids count_active_children
snapshot_node node nodes = record {
  node = node;
  retained_child_ids = retained_child_ids node nodes;
  active_children = count_active_children (retained_child_ids node nodes) nodes;
}

abbrev identity_role : Option ChildDescriptor → AgentRole → AgentRole
identity_role none role = role
identity_role (some d) role = child d.role

abbrev identity_name : Option ChildDescriptor → Option Str → Option Str
identity_name none name = name
identity_name (some d) name = some d.display_name

abbrev identity_capability : Option ChildDescriptor → Option Str → Option Str
identity_capability none capability = capability
identity_capability (some d) capability = some d.capability

unfoldable pub create_mutable_node :
    AgentLineageContext → AgentChildStatus → Bool → Option ChildDescriptor → Node
create_mutable_node lineage status is_orphan descriptor = record {
  agent_id = lineage.agent_id;
  workflow_id = lineage.workflow_id;
  root_agent_id = lineage.root_agent_id;
  parent_agent_id = lineage.parent_agent_id;
  depth = lineage.depth;
  role = identity_role descriptor lineage.role;
  display_name = identity_name descriptor lineage.display_name;
  capability = identity_capability descriptor lineage.capability;
  child_descriptor = descriptor;
  is_orphaned = is_orphan;
  child_ids = [];
  fanout_count = 0;
  status = if is_orphan then orphaned else status;
}

abbrev pub drop_child : Str → Node → Node
drop_child id node = record node { child_ids = filter (λ c. not (c == id)) node.child_ids }

unfoldable pub detach_child_reference : Str → Nodes → Nodes
detach_child_reference id [] = []
detach_child_reference id ((k, n) ∷ nodes) = (k, drop_child id n) ∷ detach_child_reference id nodes

-- The map's `onEvict`. The state is the list of the snapshots that the tracker's own `onEvict` got.
unfoldable pub on_evict : Observer Str Node (List Snapshot)
unfolding detach_child_reference
on_evict eviction seen nodes =
    let rest = detach_child_reference eviction.key nodes in
    (seen ++ snapshot_node eviction.value rest ∷ [], rest)

unfoldable pub is_orphan : AgentLineageContext → Nodes → Bool
is_orphan lineage nodes = if lineage.orphaned then true else elim (truthy lineage.parent_agent_id) [
  | none ↦ false
  | some parent ↦ not (has parent nodes)
]

unfoldable pub retain_parent : ℕ → Str → Node → List Snapshot → Nodes → List Snapshot × Nodes
unfolding on_evict BoundedMap.set
retain_parent max_agents id parent seen nodes =
    BoundedMap.set max_agents on_evict id parent seen (delete id nodes)

unfoldable pub retain_parent_for_insertion :
    ℕ → Option Str → List Snapshot → Nodes → List Snapshot × Nodes
unfolding retain_parent
retain_parent_for_insertion max_agents parent_id seen nodes = elim (truthy parent_id) [
  | none ↦ (seen, nodes)
  | some id ↦ elim (get id nodes) [
    | none ↦ (seen, nodes)
    | some parent ↦ retain_parent max_agents id parent seen nodes
  ]
]

abbrev pub contains : Str → List Str → Bool
contains id ids = any (λ c. c == id) ids

abbrev pub add_child : Str → Node → Node
add_child id parent = if contains id parent.child_ids then parent else record parent {
  child_ids = parent.child_ids ++ id ∷ [];
  fanout_count = parent.fanout_count + 1;
}

unfoldable pub link_parent_to_child : Node → Nodes → Nodes
link_parent_to_child node nodes = elim (truthy node.parent_agent_id) [
  | none ↦ nodes
  | some id ↦ elim (get id nodes) [
    | none ↦ nodes
    | some parent ↦ put id (add_child node.agent_id parent) nodes
  ]
]

abbrev pub descriptor_of : Option Node → Option ChildDescriptor
descriptor_of none = none
descriptor_of (some n) = n.child_descriptor

abbrev pub is_refused : Option Node → AgentChildStatus → Bool
is_refused none status = false
is_refused (some n) status = not (is_agent_status_transition_allowed n.status status)

-- `registerAgent` past its guard: the registry with the node in it, and the evicted snapshots.
unfoldable pub insert_agent :
    ℕ
    → AgentLineageContext
    → AgentChildStatus
    → Option ChildDescriptor
    → Nodes
    → List Snapshot × Nodes
unfolding retain_parent_for_insertion link_parent_to_child create_mutable_node is_orphan
insert_agent max_agents lineage status descriptor nodes =
    let retained = or_else descriptor (descriptor_of (get lineage.agent_id nodes)) in
    let node = create_mutable_node lineage status (is_orphan lineage nodes) retained in
    let (seen1, nodes1) = retain_parent_for_insertion max_agents node.parent_agent_id [] nodes in
    let (seen2, nodes2) = BoundedMap.set max_agents on_evict lineage.agent_id node seen1 nodes1 in
    (seen2, link_parent_to_child node nodes2)

pub record Registered : Type 0 where
  pub tree : AgentTree
  pub evicted : List Snapshot
  -- The snapshot of the registered agent.
  pub result : Option Snapshot

abbrev pub snapshot_of : Str → Nodes → Option Snapshot
snapshot_of id nodes = elim (get id nodes) [ none ↦ none | some n ↦ some (snapshot_node n nodes) ]

unfoldable pub register_agent :
    AgentTree → AgentLineageContext → AgentChildStatus → Option ChildDescriptor → Registered
unfolding insert_agent
register_agent t lineage status descriptor =
    let done = insert_agent t.max_agents lineage status descriptor t.nodes in
    if is_refused (get lineage.agent_id t.nodes) status
    then record { tree = t; evicted = []; result = snapshot_of lineage.agent_id t.nodes }
    else record {
      tree = record t { nodes = done.1 };
      evicted = done.0;
      result = snapshot_of lineage.agent_id done.1;
    }

abbrev pub with_status : AgentChildStatus → Node → Node
with_status next n = record n {
  status = next;
  is_orphaned = if next == orphaned then true else n.is_orphaned;
}

unfoldable pub update_status : AgentTree → Str → AgentChildStatus → AgentTree × Option Snapshot
update_status t id next = elim (get id t.nodes) [
  | none ↦ (t, none)
  | some n ↦
      let nodes = put id (with_status next n) t.nodes in
      if is_agent_status_transition_allowed n.status next
      then (record t { nodes = nodes }, snapshot_of id nodes)
      else (t, none)
]

unfoldable pub get_agent : AgentTree → Str → Option Snapshot
get_agent t id = snapshot_of id t.nodes

unfoldable pub existing_children : List Str → Nodes → List Snapshot
existing_children [] nodes = []
existing_children (id ∷ ids) nodes =
    let rest = existing_children ids nodes in
    elim (snapshot_of id nodes) [ none ↦ rest | some s ↦ s ∷ rest ]

unfoldable pub get_children : AgentTree → Str → List Snapshot
unfolding existing_children
get_children t parent_id = elim (get parent_id t.nodes) [
  | none ↦ []
  | some parent ↦ existing_children parent.child_ids t.nodes
]

pub record Summary : Type 0 where
  pub active_children : ℕ
  pub fanout_count : ℕ
  pub tree_depth : ℕ
  pub width_by_depth : JsMap ℕ ℕ
  pub orphan_count : ℕ
  pub child_statuses : StatusCounts

abbrev pub empty_summary : Summary
empty_summary = record {
  active_children = 0;
  fanout_count = 0;
  tree_depth = 0;
  width_by_depth = [];
  orphan_count = 0;
  child_statuses = no_statuses;
}

-- One round of the loop of `summarize`.
unfoldable pub summarize_node : Nodes → Node → Summary → Summary
summarize_node nodes node s = record {
  active_children = s.active_children + count_active_children (retained_child_ids node nodes) nodes;
  fanout_count = s.fanout_count + node.fanout_count;
  tree_depth = max s.tree_depth node.depth;
  width_by_depth =
      put node.depth (or_default (get node.depth s.width_by_depth) 0 + 1) s.width_by_depth;
  orphan_count = s.orphan_count + (if node.is_orphaned then 1 else 0);
  child_statuses = count_status node.status s.child_statuses;
}

unfoldable pub summarize_from : Nodes → Nodes → Summary → Summary
unfolding summarize_node
summarize_from nodes [] s = s
summarize_from nodes ((k, n) ∷ rest) s = summarize_from nodes rest (summarize_node nodes n s)

unfoldable pub nodes_for_summary : Option Str → Nodes → Nodes
nodes_for_summary root_agent_id nodes = elim (truthy root_agent_id) [
  | none ↦ nodes
  | some root_id ↦ filter (λ e. e.1.root_agent_id == root_id || e.1.agent_id == root_id) nodes
]

unfoldable pub summarize : AgentTree → Option Str → Summary
unfolding summarize_from nodes_for_summary
summarize t root_agent_id =
    summarize_from t.nodes (nodes_for_summary root_agent_id t.nodes) empty_summary

unfoldable pub max_map_value : JsMap ℕ ℕ → ℕ
max_map_value [] = 0
max_map_value ((k, v) ∷ m) = max v (max_map_value m)

-- `treeWidth` of the summary.
unfoldable pub tree_width : Summary → ℕ
unfolding max_map_value
tree_width s = max_map_value s.width_by_depth
