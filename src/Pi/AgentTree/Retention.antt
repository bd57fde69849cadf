-- ===== src/Pi/AgentTree/Retention.antt =====
-- Registering a child never evicts the parent that it is registered under.
use mathlib.Core.Path.{subst}
use observ_me.Prelude.{
  ℕ, ◌<◌, ◌+◌, ◌≡◌, refl, ap, sym, ◌∙◌, inl, inr, ◌==◌, Bool, true, false, not, Option, none, some,
  List, [], ◌∷◌, ◌++◌, Str, str_equality, str_eq_iff, arith, All, length, filter, or_else,
}
use observ_me.Util.JsMap.{get, has, put, delete, is_some-get, has-delete, get-put, get-append}
use observ_me.Util.BoundedMap
use observ_me.Util.BoundedMap.Order.{set-cases}
use observ_me.Pi.Lineage.{AgentLineageContext, ChildDescriptor, truthy}
use observ_me.Pi.AgentTree.Status.{AgentChildStatus}
use observ_me.Pi.AgentTree.{
  Node, Nodes, AgentTree, Snapshot, drop_child, detach_child_reference, on_evict,
  create_mutable_node, add_child, contains, link_parent_to_child, insert_agent, register_agent,
  is_refused, is_orphan, descriptor_of, retain_parent_for_insertion,
}
use observ_me.Util.JsMap.Entries.{Entries-get}
use observ_me.Pi.AgentTree.Nodes.{on_evict-KeepsKeys, get-detach, detached}
use observ_me.Pi.AgentTree.Invariant.{
  IsWellFormed, ListsOnly, retain_parent_lem, retain_parent_for_insertion-IsWellFormed,
}

-- The entry that goes is not the one that was just moved to the end.
head-ne :
    (p : Str) (parent : Node) (m : Nodes) (k0 : Str) (v0 : Node) (rest : Nodes)
    → has p m ≡ false
    → put p parent m ≡ (k0, v0) ∷ rest
    → 1 < length (put p parent m)
    → (k0 == p) ≡ false
head-ne p parent [] k0 v0 rest h e l = absurd (omega arith)
head-ne p parent ((a, b) ∷ m) k0 v0 rest h e l = ground arith

contains-of_closed :
    (id : Str) (nodes : Nodes) (ids : List Str)
    → All (λ c. has c nodes ≡ true) ids
    → has id nodes ≡ false
    → contains id ids ≡ false
contains-of_closed id nodes [] h f = refl
contains-of_closed id nodes (c ∷ ids) h f =
    ground (arith, contains-of_closed id nodes ids h.1 f, str_eq_iff c id)

contains-filter :
    (id k0 : Str) (ids : List Str)
    → contains id ids ≡ false
    → contains id (filter (λ c. not (c == k0)) ids) ≡ false
contains-filter id k0 [] h = refl
contains-filter id k0 (c ∷ ids) h = ground (arith, contains-filter id k0 ids)

contains-snoc : (id : Str) (ids : List Str) → contains id (ids ++ id ∷ []) ≡ true
contains-snoc id [] = ground (arith, str_eq_iff id id)
contains-snoc id (c ∷ ids) = ground (arith, contains-snoc id ids)

parent-created :
    (lineage : AgentLineageContext) (status : AgentChildStatus) (o : Bool)
    (d : Option ChildDescriptor)
    → (create_mutable_node lineage status o d).parent_agent_id ≡ lineage.parent_agent_id
unfolding create_mutable_node
parent-created lineage status o d = refl

agent_id-created :
    (lineage : AgentLineageContext) (status : AgentChildStatus) (o : Bool)
    (d : Option ChildDescriptor)
    → (create_mutable_node lineage status o d).agent_id ≡ lineage.agent_id
unfolding create_mutable_node
agent_id-created lineage status o d = refl

get-remaining :
    (k0 p id : Str) (v0 n parent : Node) (rest : Nodes)
    → get p ((k0, v0) ∷ rest) ≡ some parent
    → (k0 == p) ≡ false
    → get p (detach_child_reference k0 (rest ++ (id, n) ∷ [])) ≡ some (drop_child k0 parent)
get-remaining k0 p id v0 n parent rest found apart =
    let there : get p rest ≡ some parent = rw apart at found in
    let later : get p (rest ++ (id, n) ∷ []) ≡ some parent =
      get-append p rest ((id, n) ∷ []) ∙ ap (λ o. or_else o (get p ((id, n) ∷ []))) there in
    get-detach k0 p (rest ++ (id, n) ∷ []) ∙ ap (detached k0) later

-- A parent as it was, but for children that may have been evicted.
record Kept (id : Str) (parent kept : Node) : Type 0 where
  fanout : kept.fanout_count ≡ parent.fanout_count
  fresh : contains id kept.child_ids ≡ false

get-link :
    (node kept : Node) (nodes : Nodes) (p : Str)
    → truthy node.parent_agent_id ≡ some p
    → get p nodes ≡ some kept
    → get p (link_parent_to_child node nodes) ≡ some (add_child node.agent_id kept)
unfolding link_parent_to_child
get-link node kept nodes p named found =
    rw (named, link_parent_to_child, found)
      (ground (arith, get-put p p (add_child node.agent_id kept) nodes, str_eq_iff p p))

add_child_lem :
    (id : Str) (parent kept : Node)
    → Kept id parent kept
    → (contains id (add_child id kept).child_ids ≡ true)
      × ((add_child id kept).fanout_count ≡ parent.fanout_count + 1)
add_child_lem id parent kept k =
    rw (k.fresh) (contains-snoc id kept.child_ids, ap (λ (n : ℕ). n + 1) k.fanout)

module _ (max_agents : ℕ) (two : 1 < max_agents) where
  set-keeps_parent :
      (id p : Str) (n parent : Node) (seen : List Snapshot) (nodes : Nodes)
      → IsWellFormed max_agents nodes
      → get p nodes ≡ some parent
      → get id nodes ≡ none
      → IsWellFormed max_agents (put p parent (delete p nodes))
      → (kept : Node) × (get p
            (BoundedMap.set max_agents on_evict id n seen (put p parent (delete p nodes))).1
          ≡ some kept)
        × Kept id parent kept
  unfolding on_evict
  set-keeps_parent id p n parent seen nodes w found new w1 =
      let moved = put p parent (delete p nodes) in
      let gone : has p (delete p nodes) ≡ false =
        ground (arith, has-delete p p nodes, str_eq_iff p p) in
      let missing : has id nodes ≡ false = ground (arith, is_some-get id nodes) in
      let unlisted : contains id parent.child_ids ≡ false =
        contains-of_closed id nodes parent.child_ids
          (Entries-get (ListsOnly nodes) p parent nodes w.closed found) missing in
      let at_end : get p moved ≡ some parent =
        ground (arith, get-put p p parent (delete p nodes), str_eq_iff p p) in
      let other : (id == p) ≡ false = ground (arith, str_eq_iff id p) in
      elim (set-cases max_agents on_evict on_evict-KeepsKeys id n seen moved w1.unique (omega arith)
        w1.bounded) [
          | inl fit ↦ (
            parent,
            (rw fit (ground (arith, get-put id p n moved))),
            record { fanout = refl; fresh = unlisted },
          )
          | inr (k0, v0, rest, here, new1, at_limit, full) ↦
              let apart : (k0 == p) ≡ false =
                head-ne p parent (delete p nodes) k0 v0 rest gone here (omega (arith, at_limit)) in
              (
                drop_child k0 parent,
                (rw full (
                    get-remaining k0 p id v0 n parent rest
                      (subst (λ m. get p m ≡ some parent) here at_end) apart)),
                record { fanout = refl; fresh = contains-filter id k0 parent.child_ids unlisted },
              )
        ]

  moved_lem :
      (parent_id : Option Str) (p : Str) (parent : Node) (nodes : Nodes)
      → IsWellFormed max_agents nodes
      → truthy parent_id ≡ some p
      → get p nodes ≡ some parent
      → retain_parent_for_insertion max_agents parent_id [] nodes
        ≡ ([], put p parent (delete p nodes))
  unfolding retain_parent_for_insertion
  moved_lem parent_id p parent nodes w named found =
      rw (named, retain_parent_for_insertion, found)
        (retain_parent_lem max_agents (omega arith) p parent [] nodes found w)

  pub insert_agent-links_parent :
      (lineage : AgentLineageContext) (status : AgentChildStatus) (d : Option ChildDescriptor)
      (nodes : Nodes) (p : Str) (parent : Node)
      → IsWellFormed max_agents nodes
      → truthy lineage.parent_agent_id ≡ some p
      → get p nodes ≡ some parent
      → get lineage.agent_id nodes ≡ none
      → (linked : Node) × (get p (insert_agent max_agents lineage status d nodes).1 ≡ some linked)
        × (contains lineage.agent_id linked.child_ids ≡ true)
        × (linked.fanout_count ≡ parent.fanout_count + 1)
  unfolding insert_agent
  insert_agent-links_parent lineage status d nodes p parent w named found new =
      let id = lineage.agent_id in
      let o = is_orphan lineage nodes in
      let kept_descriptor = or_else d (descriptor_of (get id nodes)) in
      let node = create_mutable_node lineage status o kept_descriptor in
      let moved = moved_lem lineage.parent_agent_id p parent nodes w named found in
      let w1 =
        retain_parent_for_insertion-IsWellFormed max_agents (omega arith) lineage.parent_agent_id []
          nodes w in
      let (kept, there, unchanged) =
        set-keeps_parent id p node parent [] nodes w found new
          (subst (λ r. IsWellFormed max_agents r.1) moved w1) in
      let (listed, counted) = add_child_lem id parent kept unchanged in
      (
        add_child id kept,
        subst
            (λ r.
              get p
                (link_parent_to_child node (BoundedMap.set max_agents on_evict id node r.0 r.1).1)
              ≡ some (add_child id kept))
            (sym moved)
            (subst
              (λ a.
                get p (
                  link_parent_to_child node
                    (BoundedMap.set max_agents on_evict id node []
                      (put p parent (delete p nodes))).1)
                ≡ some (add_child a kept))
              (agent_id-created lineage status o kept_descriptor)
              (get-link node kept
                (BoundedMap.set max_agents on_evict id node [] (put p parent (delete p nodes))).1 p
                (ap truthy (parent-created lineage status o kept_descriptor) ∙ named) there)),
        listed,
        counted,
      )

-- With room for two agents, registering a new agent under a retained parent makes it that parent's
-- child, also when the registry is full: the parent is still there, lists the agent, and has had one
-- child more.
pub register_agent-links_parent :
    (t : AgentTree) (lineage : AgentLineageContext) (status : AgentChildStatus)
    (d : Option ChildDescriptor) (p : Str) (parent : Node)
    → 1 < t.max_agents
    → IsWellFormed t.max_agents t.nodes
    → truthy lineage.parent_agent_id ≡ some p
    → get p t.nodes ≡ some parent
    → get lineage.agent_id t.nodes ≡ none
    → (linked : Node) × (get p (register_agent t lineage status d).tree.nodes ≡ some linked)
      × (contains lineage.agent_id linked.child_ids ≡ true)
      × (linked.fanout_count ≡ parent.fanout_count + 1)
unfolding register_agent
register_agent-links_parent t lineage status d p parent two w named found new =
    let accepted : is_refused (get lineage.agent_id t.nodes) status ≡ false = rw new in
    rw accepted (
      insert_agent-links_parent t.max_agents two lineage status d t.nodes p parent w named found
        new)
