-- ===== src/Pi/AgentTree/Preserved.antt =====
-- Every operation of the tracker keeps the registry well-formed.
use observ_me.Prelude.{
  ℕ, ◌<◌, ◌≡◌, refl, ◌∙◌, inl, inr, Bool, true, Option, some, List, [], ◌∷◌, ◌++◌, Str,
  str_equality, str_eq_iff, arith, All, Bool-cases, Option-cases, or_else,
}
use observ_me.Util.JsMap.{
  get, has, put, is_some-get, has-put, has-append, has-of_keys, length-put, put-IsUnique,
}
use observ_me.Util.BoundedMap
use observ_me.Util.BoundedMap.Order.{set-cases}
use observ_me.Pi.Lineage.{AgentLineageContext, ChildDescriptor, truthy}
use observ_me.Pi.AgentTree.Status.{AgentChildStatus, is_agent_status_transition_allowed}
use observ_me.Pi.AgentTree.{
  Node, Nodes, AgentTree, Snapshot, detach_child_reference, on_evict, create_mutable_node,
  add_child, contains, link_parent_to_child, insert_agent, register_agent, update_status,
  with_status, is_refused, is_orphan, descriptor_of, retain_parent_for_insertion,
}
use observ_me.Util.JsMap.Entries.{Entries-put, Entries-get}
use observ_me.Pi.AgentTree.Nodes.{on_evict-KeepsKeys, keys-detach}
use observ_me.Pi.AgentTree.Invariant.{
  IsSound, IsWellFormed, ListsOnly, All-mono, create_mutable_node-IsSound, add_child-IsSound,
  with_status-IsSound, put-closed, set-IsWellFormed, retain_parent_for_insertion-IsWellFormed,
}

All-snoc : (P : Str → Type 0) (ids : List Str) (c : Str) → All P ids → P c → All P (ids ++ c ∷ [])
All-snoc P [] c h p = (p, tt)
All-snoc P (x ∷ ids) c h p = (h.0, All-snoc P ids c h.1 p)

-- Writing a node back under a key that is there.
put-IsWellFormed :
    (max_agents : ℕ) (id : Str) (old n : Node) (nodes : Nodes)
    → get id nodes ≡ some old
    → IsSound id n
    → ListsOnly nodes id n
    → IsWellFormed max_agents nodes
    → IsWellFormed max_agents (put id n nodes)
put-IsWellFormed max_agents id old n nodes found s l w = record {
  bounded = ground (arith, length-put id n nodes, is_some-get id nodes, w.bounded);
  unique = put-IsUnique id n nodes w.unique;
  sound = Entries-put IsSound id n nodes s w.sound;
  closed =
      put-closed id n nodes
        (All-mono n.child_ids (λ c hc. ground (arith, has-put id c n nodes, hc)) l) w.closed;
}

add_child-ListsOnly :
    (nodes : Nodes) (id p : Str) (parent : Node)
    → has id nodes ≡ true
    → ListsOnly nodes p parent
    → ListsOnly nodes p (add_child id parent)
add_child-ListsOnly nodes id p parent there l = elim (Bool-cases (contains id parent.child_ids)) [
  | inl old ↦ rw old l
  | inr new ↦ rw new (All-snoc (λ c. has c nodes ≡ true) parent.child_ids id l there)
]

link_parent_to_child-IsWellFormed :
    (max_agents : ℕ) (node : Node) (nodes : Nodes)
    → has node.agent_id nodes ≡ true
    → IsWellFormed max_agents nodes
    → IsWellFormed max_agents (link_parent_to_child node nodes)
unfolding link_parent_to_child
link_parent_to_child-IsWellFormed max_agents node nodes there w =
    elim (Option-cases (truthy node.parent_agent_id)) [
      | inl top ↦ rw (top, link_parent_to_child) w
      | inr (id, known) ↦ elim (Option-cases (get id nodes)) [
        | inl missing ↦ rw (known, link_parent_to_child, missing) w
        | inr (parent, found) ↦
            rw (known, link_parent_to_child, found)
              (put-IsWellFormed max_agents id parent (add_child node.agent_id parent) nodes found
                (add_child-IsSound node.agent_id id parent
                  (Entries-get IsSound id parent nodes w.sound found))
                (add_child-ListsOnly nodes node.agent_id id parent there
                  (Entries-get (ListsOnly nodes) id parent nodes w.closed found))
                w)
      ]
    ]

-- The node that was just set is in the registry.
pub has-set_self :
    (max_agents : ℕ) (id : Str) (n : Node) (seen : List Snapshot) (nodes : Nodes)
    → 0 < max_agents
    → IsWellFormed max_agents nodes
    → has id (BoundedMap.set max_agents on_evict id n seen nodes).1 ≡ true
unfolding on_evict
has-set_self max_agents id n seen nodes pos w =
    elim (set-cases max_agents on_evict on_evict-KeepsKeys id n seen nodes w.unique pos w.bounded) [
      | inl fit ↦ rw fit (ground (arith, has-put id id n nodes, str_eq_iff id id))
      | inr (k0, v0, rest, here, new, at_limit, full) ↦ rw full (
          has-of_keys id (detach_child_reference k0 (rest ++ (id, n) ∷ [])) (rest ++ (id, n) ∷ [])
            (keys-detach k0 (rest ++ (id, n) ∷ []))
          ∙ has-append id rest ((id, n) ∷ [])
          ∙ ground (arith, str_eq_iff id id))
    ]

ListsOnly-created :
    (lineage : AgentLineageContext) (status : AgentChildStatus) (o : Bool)
    (d : Option ChildDescriptor) (nodes : Nodes)
    → ListsOnly nodes lineage.agent_id (create_mutable_node lineage status o d)
unfolding create_mutable_node
ListsOnly-created lineage status o d nodes = tt

agent_id-created :
    (lineage : AgentLineageContext) (status : AgentChildStatus) (o : Bool)
    (d : Option ChildDescriptor)
    → (create_mutable_node lineage status o d).agent_id ≡ lineage.agent_id
unfolding create_mutable_node
agent_id-created lineage status o d = refl

pub insert_agent-IsWellFormed :
    (max_agents : ℕ) (lineage : AgentLineageContext) (status : AgentChildStatus)
    (d : Option ChildDescriptor) (nodes : Nodes)
    → 0 < max_agents
    → IsWellFormed max_agents nodes
    → IsWellFormed max_agents (insert_agent max_agents lineage status d nodes).1
unfolding insert_agent
insert_agent-IsWellFormed max_agents lineage status d nodes pos w =
    let id = lineage.agent_id in
    let o = is_orphan lineage nodes in
    let kept = or_else d (descriptor_of (get id nodes)) in
    let node = create_mutable_node lineage status o kept in
    let moved = retain_parent_for_insertion max_agents lineage.parent_agent_id [] nodes in
    let w1 =
      retain_parent_for_insertion-IsWellFormed max_agents pos lineage.parent_agent_id [] nodes w in
    let w2 =
      set-IsWellFormed max_agents pos id node moved.0 moved.1 w1
        (create_mutable_node-IsSound lineage status o kept)
        (ListsOnly-created lineage status o kept (put id node moved.1)) in
    let there : has node.agent_id (BoundedMap.set max_agents on_evict id node moved.0 moved.1).1
        ≡ true =
      rw (agent_id-created lineage status o kept)
        (has-set_self max_agents id node moved.0 moved.1 pos w1) in
    link_parent_to_child-IsWellFormed max_agents node
      (BoundedMap.set max_agents on_evict id node moved.0 moved.1).1 there w2

-- From a well-formed registry `registerAgent` leaves a well-formed one, whether it refuses, replaces
-- a node, evicts the oldest or makes an orphan.
pub register_agent-IsWellFormed :
    (t : AgentTree) (lineage : AgentLineageContext) (status : AgentChildStatus)
    (d : Option ChildDescriptor)
    → 0 < t.max_agents
    → IsWellFormed t.max_agents t.nodes
    → IsWellFormed t.max_agents (register_agent t lineage status d).tree.nodes
unfolding register_agent
register_agent-IsWellFormed t lineage status d pos w =
    elim (Bool-cases (is_refused (get lineage.agent_id t.nodes) status)) [
      | inl refused ↦ rw refused w
      | inr accepted ↦
          rw accepted (insert_agent-IsWellFormed t.max_agents lineage status d t.nodes pos w)
    ]

-- From a well-formed registry `updateStatus` leaves a well-formed one, whether it finds the agent and
-- accepts the move or not.
pub update_status-IsWellFormed :
    (t : AgentTree) (id : Str) (next : AgentChildStatus)
    → IsWellFormed t.max_agents t.nodes
    → IsWellFormed t.max_agents (update_status t id next).0.nodes
unfolding update_status
update_status-IsWellFormed t id next w = elim (Option-cases (get id t.nodes)) [
  | inl missing ↦ rw (missing, update_status) w
  | inr (n, found) ↦ elim (Bool-cases (is_agent_status_transition_allowed n.status next)) [
    | inl allowed ↦
        rw (found, update_status, allowed)
          (put-IsWellFormed t.max_agents id n (with_status next n) t.nodes found
            (with_status-IsSound id n next allowed (Entries-get IsSound id n t.nodes w.sound found))
            (Entries-get (ListsOnly t.nodes) id n t.nodes w.closed found) w)
    | inr refused ↦ rw (found, update_status, refused) w
  ]
]
