-- ===== src/Pi/AgentTree/Invariant.antt =====
-- The well-formedness of the agent registry, which every operation keeps.
use mathlib.Core.Path.{subst}
use observ_me.Prelude.{
  ℕ, ◌≤◌, ◌<◌, ◌≡◌, refl, ap, sym, ◌∙◌, inl, inr, ◌==◌, Bool, true, false, not, Option, some, List,
  [], ◌∷◌, ◌++◌, Str, str_equality, str_eq_iff, arith, filter, All, Bool-cases, Option-cases,
  length, length-append, length-filter-le,
}
use observ_me.Util.JsMap.{
  get, has, put, delete, IsUnique, IsUnique-of_keys, put-IsUnique, delete-IsUnique, has-of_keys,
  has-put, has-delete, length-put, length-delete, put-of_missing, is_some-get,
}
use observ_me.Util.BoundedMap
use observ_me.Util.BoundedMap.Order.{set-cases, set-of_fit}
use observ_me.Util.BoundedMap.Newest.{length-set}
use observ_me.Pi.Lineage.{AgentLineageContext, ChildDescriptor, truthy}
use observ_me.Pi.AgentTree.Status.{
  AgentChildStatus, orphaned, status_eq, status_same_iff, is_terminal_status,
  is_terminal-not_allowed, is_agent_status_transition_allowed,
}
use observ_me.Pi.AgentTree.{
  Node, Nodes, Snapshot, drop_child, detach_child_reference, on_evict, create_mutable_node,
  add_child, contains, retain_parent_for_insertion, retain_parent, with_status,
}
use observ_me.Util.JsMap.Entries.{
  Entries, Entries-put, Entries-delete, Entries-snoc, Entries-get, Entries-map,
}
use observ_me.Pi.AgentTree.Nodes.{Entries-detach, on_evict-KeepsKeys, keys-detach}

-- What holds of each node on its own: it stands under its own id, it has had as many children as it
-- still lists, and it is marked an orphan only with the status of one.
pub record IsSound (id : Str) (n : Node) : Type 0 where
  pub keyed : id ≡ n.agent_id
  pub counted : length n.child_ids ≤ n.fanout_count
  pub marked : n.is_orphaned ≡ true → n.status ≡ orphaned

-- Every child that a node lists is in the registry.
abbrev pub ListsOnly : Nodes → Str → Node → Type 0
ListsOnly nodes id n = All (λ c. has c nodes ≡ true) n.child_ids

pub record IsWellFormed (max_agents : ℕ) (nodes : Nodes) : Type 0 where
  pub bounded : length nodes ≤ max_agents
  pub unique : IsUnique nodes
  pub sound : Entries IsSound nodes
  pub closed : Entries (ListsOnly nodes) nodes

pub All-mono :
    {P Q : Str → Type 0} (ids : List Str) → ((c : Str) → P c → Q c) → All P ids → All Q ids
All-mono [] f h = tt
All-mono (c ∷ ids) f h = (f c h.0, All-mono ids f h.1)

All-remove :
    (P Q : Str → Type 0) (id : Str) (ids : List Str)
    → ((c : Str) → (c == id) ≡ false → P c → Q c)
    → All P ids
    → All Q (filter (λ c. not (c == id)) ids)
All-remove P Q id [] f h = tt
All-remove P Q id (c ∷ ids) f h = elim (Bool-cases (c == id)) [
  | inl same ↦ rw same (All-remove P Q id ids f h.1)
  | inr other ↦ rw other (f c other h.0, All-remove P Q id ids f h.1)
]

drop_child-IsSound : (id k : Str) (n : Node) → IsSound k n → IsSound k (drop_child id n)
drop_child-IsSound id k n h = record {
  keyed = h.keyed;
  counted = omega (arith, length-filter-le (λ c. not (c == id)) n.child_ids, h.counted);
  marked = h.marked;
}

pub create_mutable_node-IsSound :
    (lineage : AgentLineageContext) (status : AgentChildStatus) (o : Bool)
    (d : Option ChildDescriptor)
    → IsSound lineage.agent_id (create_mutable_node lineage status o d)
unfolding create_mutable_node
create_mutable_node-IsSound lineage status o d = record {
  keyed = refl;
  counted = omega arith;
  marked = λ h. rw h;
}

pub add_child-IsSound : (id k : Str) (n : Node) → IsSound k n → IsSound k (add_child id n)
add_child-IsSound id k n h = elim (Bool-cases (contains id n.child_ids)) [
  | inl old ↦ rw old h
  | inr new ↦ rw new (record {
    keyed = h.keyed;
    counted = omega (arith, length-append n.child_ids (id ∷ []), h.counted);
    marked = h.marked;
  })
]

pub with_status-IsSound :
    (k : Str) (n : Node) (next : AgentChildStatus)
    → is_agent_status_transition_allowed n.status next ≡ true
    → IsSound k n
    → IsSound k (with_status next n)
with_status-IsSound k n next a h = record {
  keyed = h.keyed;
  counted = h.counted;
  marked = λ o. elim (Bool-cases (next == orphaned)) [
    | inl e ↦ (status_same_iff next orphaned).0 e
    | inr ne ↦
        let old : n.status ≡ orphaned = h.marked (rw ne at o) in
        is_terminal-not_allowed n.status next (ap is_terminal_status old) a ∙ old
  ];
}

has-put_of_has :
    (c id : Str) (n : Node) (nodes : Nodes) → has c nodes ≡ true → has c (put id n nodes) ≡ true
has-put_of_has c id n nodes h = ground (arith, has-put id c n nodes)

pub put-closed :
    (id : Str) (n : Node) (nodes : Nodes)
    → ListsOnly (put id n nodes) id n
    → Entries (ListsOnly nodes) nodes
    → Entries (ListsOnly (put id n nodes)) (put id n nodes)
put-closed id n nodes l h =
    let P = ListsOnly (put id n nodes) in
    Entries-put P id n nodes l (
      Entries-map (ListsOnly nodes) P nodes
        (λ k v lists. All-mono v.child_ids (λ c hc. has-put_of_has c id n nodes hc) lists) h)

has-of_remaining :
    (c k0 id : Str) (v0 n : Node) (rest : Nodes)
    → put id n ((k0, v0) ∷ rest) ≡ (k0, v0) ∷ (rest ++ (id, n) ∷ [])
    → (c == k0) ≡ false
    → has c (put id n ((k0, v0) ∷ rest)) ≡ true
    → has c (detach_child_reference k0 (rest ++ (id, n) ∷ [])) ≡ true
has-of_remaining c k0 id v0 n rest grown ne h =
    let there : has c ((k0, v0) ∷ (rest ++ (id, n) ∷ [])) ≡ true =
      subst (λ m. has c m ≡ true) grown h in
    let same =
      has-of_keys c (detach_child_reference k0 (rest ++ (id, n) ∷ [])) (rest ++ (id, n) ∷ [])
        (keys-detach k0 (rest ++ (id, n) ∷ [])) in
    ground (arith, same, there, str_eq_iff c k0, str_eq_iff k0 c)

module _ (id : Str) (n : Node) (k0 : Str) (v0 : Node) (rest : Nodes) where
  full-IsUnique :
      IsUnique ((k0, v0) ∷ rest)
      → has id ((k0, v0) ∷ rest) ≡ false
      → IsUnique (detach_child_reference k0 (rest ++ (id, n) ∷ []))
  full-IsUnique u new =
      let grown = put-of_missing id n ((k0, v0) ∷ rest) new in
      let both : IsUnique ((k0, v0) ∷ (rest ++ (id, n) ∷ [])) =
        subst IsUnique grown (put-IsUnique id n ((k0, v0) ∷ rest) u) in
      IsUnique-of_keys (rest ++ (id, n) ∷ []) (detach_child_reference k0 (rest ++ (id, n) ∷ []))
        (sym (keys-detach k0 (rest ++ (id, n) ∷ []))) both.1

  full-closed :
      has id ((k0, v0) ∷ rest) ≡ false
      → ListsOnly (put id n ((k0, v0) ∷ rest)) id n
      → Entries (ListsOnly ((k0, v0) ∷ rest)) ((k0, v0) ∷ rest)
      → Entries
          (ListsOnly (detach_child_reference k0 (rest ++ (id, n) ∷ [])))
          (detach_child_reference k0 (rest ++ (id, n) ∷ []))
  full-closed new l h =
      let P = ListsOnly (put id n ((k0, v0) ∷ rest)) in
      let Q = ListsOnly (detach_child_reference k0 (rest ++ (id, n) ∷ [])) in
      let grown = put-of_missing id n ((k0, v0) ∷ rest) new in
      let wider : Entries P rest =
        Entries-map (ListsOnly ((k0, v0) ∷ rest)) P rest
          (λ k v lists.
            All-mono v.child_ids (λ c hc. has-put_of_has c id n ((k0, v0) ∷ rest) hc) lists)
          h.1 in
      Entries-detach P Q k0 (rest ++ (id, n) ∷ [])
        (λ k v lists.
          All-remove (λ c. has c (put id n ((k0, v0) ∷ rest)) ≡ true)
            (λ c. has c (detach_child_reference k0 (rest ++ (id, n) ∷ [])) ≡ true) k0 v.child_ids
            (λ c ne hc. has-of_remaining c k0 id v0 n rest grown ne hc) lists)
        (Entries-snoc P id n rest l wider)

pub has-moved :
    (c id : Str) (parent : Node) (nodes : Nodes)
    → has c nodes ≡ true
    → has c (put id parent (delete id nodes)) ≡ true
has-moved c id parent nodes h =
    ground (arith, has-put id c parent (delete id nodes), has-delete id c nodes)

moved-le :
    (id : Str) (parent : Node) (nodes : Nodes) {b : ℕ}
    → get id nodes ≡ some parent
    → IsUnique nodes
    → length nodes ≤ b
    → length (put id parent (delete id nodes)) ≤ b
moved-le id parent nodes found u h = ground (
  arith,
  length-put id parent (delete id nodes),
  length-delete id nodes u,
  is_some-get id nodes,
  has-delete id id nodes,
  str_eq_iff id id,
)

module _ (max_agents : ℕ) where
  set_full :
      (id : Str) (n : Node) (seen : List Snapshot) (nodes : Nodes)
      → IsWellFormed max_agents nodes
      → IsSound id n
      → ListsOnly (put id n nodes) id n
      → length (BoundedMap.set max_agents on_evict id n seen nodes).1 ≤ max_agents
      → (k0 : Str) (v0 : Node) (rest : Nodes) → nodes ≡ (k0, v0) ∷ rest
      → has id nodes ≡ false
      → BoundedMap.set max_agents on_evict id n seen nodes
        ≡ on_evict (record { key = k0; value = v0 }) seen (rest ++ (id, n) ∷ [])
      → IsWellFormed max_agents (BoundedMap.set max_agents on_evict id n seen nodes).1
  unfolding on_evict
  set_full id n seen nodes w s l size k0 v0 rest here new full =
      let u : IsUnique ((k0, v0) ∷ rest) = subst IsUnique here w.unique in
      let fresh : has id ((k0, v0) ∷ rest) ≡ false = subst (λ m. has id m ≡ false) here new in
      let lists : ListsOnly (put id n ((k0, v0) ∷ rest)) id n =
        subst (λ m. ListsOnly (put id n m) id n) here l in
      let old : Entries (ListsOnly ((k0, v0) ∷ rest)) ((k0, v0) ∷ rest) =
        subst (λ m. Entries (ListsOnly m) m) here w.closed in
      let good : Entries IsSound ((k0, v0) ∷ rest) = subst (Entries IsSound) here w.sound in
      subst (λ r. length r.1 ≤ max_agents → IsWellFormed max_agents r.1) (sym full)
        (λ b. record {
          bounded = b;
          unique = full-IsUnique id n k0 v0 rest u fresh;
          sound =
              Entries-detach IsSound IsSound k0 (rest ++ (id, n) ∷ []) (drop_child-IsSound k0)
                (Entries-snoc IsSound id n rest s good.1);
          closed = full-closed id n k0 v0 rest fresh lists old;
        })
        size

module _ (max_agents : ℕ) (pos : 0 < max_agents) where
  -- `#nodes.set` of a sound node whose children are registered keeps the invariant.
  pub set-IsWellFormed :
      (id : Str) (n : Node) (seen : List Snapshot) (nodes : Nodes)
      → IsWellFormed max_agents nodes
      → IsSound id n
      → ListsOnly (put id n nodes) id n
      → IsWellFormed max_agents (BoundedMap.set max_agents on_evict id n seen nodes).1
  set-IsWellFormed id n seen nodes w s l =
      let size = length-set max_agents on_evict on_evict-KeepsKeys id n seen nodes w.unique in
      elim (set-cases max_agents on_evict on_evict-KeepsKeys id n seen nodes w.unique pos
        w.bounded) [
          | inl fit ↦
              subst (λ r. length r.1 ≤ max_agents → IsWellFormed max_agents r.1) (sym fit)
                (λ b. record {
                  bounded = b;
                  unique = put-IsUnique id n nodes w.unique;
                  sound = Entries-put IsSound id n nodes s w.sound;
                  closed = put-closed id n nodes l w.closed;
                })
                size
          | inr (k0, v0, rest, here, new, at_limit, full) ↦
              set_full max_agents id n seen nodes w s l size k0 v0 rest here new full
        ]

  -- Moving the parent to the end evicts nothing.
  pub retain_parent_lem :
      (id : Str) (parent : Node) (seen : List Snapshot) (nodes : Nodes)
      → get id nodes ≡ some parent
      → IsWellFormed max_agents nodes
      → retain_parent max_agents id parent seen nodes ≡ (seen, put id parent (delete id nodes))
  unfolding retain_parent
  retain_parent_lem id parent seen nodes found w =
      set-of_fit max_agents on_evict on_evict-KeepsKeys id parent seen (delete id nodes)
        (moved-le id parent nodes found w.unique w.bounded)

  retain_parent-IsWellFormed :
      (id : Str) (parent : Node) (seen : List Snapshot) (nodes : Nodes)
      → get id nodes ≡ some parent
      → IsWellFormed max_agents nodes
      → IsWellFormed max_agents (retain_parent max_agents id parent seen nodes).1
  retain_parent-IsWellFormed id parent seen nodes found w =
      let Q = ListsOnly (put id parent (delete id nodes)) in
      let wider : Entries Q nodes =
        Entries-map (ListsOnly nodes) Q nodes
          (λ k v lists. All-mono v.child_ids (λ c hc. has-moved c id parent nodes hc) lists)
          w.closed in
      rw (retain_parent_lem id parent seen nodes found w) (record {
        bounded = moved-le id parent nodes found w.unique w.bounded;
        unique = put-IsUnique id parent (delete id nodes) (delete-IsUnique id nodes w.unique);
        sound =
            Entries-put IsSound id parent (delete id nodes)
              (Entries-get IsSound id parent nodes w.sound found)
              (Entries-delete IsSound id nodes w.sound);
        closed =
            Entries-put Q id parent (delete id nodes) (Entries-get Q id parent nodes wider found)
              (Entries-delete Q id nodes wider);
      })

  pub retain_parent_for_insertion-IsWellFormed :
      (parent_id : Option Str) (seen : List Snapshot) (nodes : Nodes)
      → IsWellFormed max_agents nodes
      → IsWellFormed max_agents (retain_parent_for_insertion max_agents parent_id seen nodes).1
  unfolding retain_parent_for_insertion
  retain_parent_for_insertion-IsWellFormed parent_id seen nodes w =
      elim (Option-cases (truthy parent_id)) [
        | inl top ↦ rw (top, retain_parent_for_insertion) w
        | inr (id, known) ↦ elim (Option-cases (get id nodes)) [
          | inl missing ↦ rw (known, retain_parent_for_insertion, missing) w
          | inr (parent, found) ↦
              rw (known, retain_parent_for_insertion, found)
                (retain_parent-IsWellFormed id parent seen nodes found w)
        ]
      ]
