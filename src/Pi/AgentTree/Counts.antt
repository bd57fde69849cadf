-- ===== src/Pi/AgentTree/Counts.antt =====
-- What `summarize` and `getChildren` give, against counts written down by themselves.
use Prim.Native.Nat.{suc}
use mathlib.Core.Path.{ap₂}
use observ_me.Prelude.{
  ℕ, ◌+◌, ◌≡◌, refl, sym, ap, ◌∙◌, inl, inr, ◌==◌, nat_eq, Bool, true, false, ◌||◌, Option, none,
  some, List, [], ◌∷◌, Str, str_equality, arith, if◌then◌else◌, All, Bool-cases, Option-cases,
  length, filter, map, or_default, is_some,
}
use observ_me.Util.JsMap.{JsMap, get, has, put, is_some-get, get-put}
use observ_me.Pi.AgentTree.Status.{
  AgentChildStatus, is_active_status, starting, active, completed, failed, cancelled, orphaned,
  StatusCounts, count_status, status_eq, no_statuses,
}
use observ_me.Pi.AgentTree.{
  Node, Nodes, AgentTree, Summary, snapshot_node, snapshot_of, existing_children, get_children,
  get_agent, count_active_children, retained_child_ids, empty_summary, is_active_child,
  summarize_node, summarize_from, nodes_for_summary, summarize,
}
use observ_me.Util.JsMap.Entries.{Entries, Entries-get}
use observ_me.Pi.AgentTree.Invariant.{IsSound, IsWellFormed, ListsOnly}

-- How often a test holds of the nodes, and the sum of a number over them.
abbrev pub how_many : (Node → Bool) → Nodes → ℕ
how_many p [] = 0
how_many p ((k, n) ∷ nodes) = (if p n then 1 else 0) + how_many p nodes

abbrev pub total : (Node → ℕ) → Nodes → ℕ
total f [] = 0
total f ((k, n) ∷ nodes) = f n + total f nodes

abbrev pub count_of : AgentChildStatus → StatusCounts → ℕ
count_of starting c = c.starting_count
count_of active c = c.active_count
count_of completed c = c.completed_count
count_of failed c = c.failed_count
count_of cancelled c = c.cancelled_count
count_of orphaned c = c.orphaned_count

-- A registered agent whose status is `starting` or `active`.
abbrev pub is_running : Nodes → Str → Bool
is_running nodes id = elim (get id nodes) [
  | none ↦ false
  | some n ↦ n.status == starting || n.status == active
]

abbrev pub running_children : Nodes → Node → ℕ
running_children nodes n = length (filter (is_running nodes) n.child_ids)

is_active_status-equal :
    (s : AgentChildStatus) → is_active_status s ≡ (s == starting || s == active)
is_active_status-equal starting = refl
is_active_status-equal active = refl
is_active_status-equal completed = refl
is_active_status-equal failed = refl
is_active_status-equal cancelled = refl
is_active_status-equal orphaned = refl

is_active_child-running :
    (id : Str) (nodes : Nodes) → is_active_child id nodes ≡ is_running nodes id
unfolding is_active_child
is_active_child-running id nodes = elim (Option-cases (get id nodes)) [
  | inl e ↦ rw (is_active_child, is_running, e) refl
  | inr (n, e) ↦ rw (is_active_child, is_running, e) (is_active_status-equal n.status)
]

has-running : (id : Str) (nodes : Nodes) → has id nodes ≡ false → is_running nodes id ≡ false
has-running id nodes h = elim (Option-cases (get id nodes)) [
  | inl e ↦ rw (is_running, e) refl
  | inr (n, e) ↦
      let there : has id nodes ≡ true = sym (is_some-get id nodes) ∙ ap is_some e in cc (there, h)
]

running-of_retained :
    (ids : List Str) (nodes : Nodes)
    → count_active_children (filter (λ id. has id nodes) ids) nodes
      ≡ length (filter (is_running nodes) ids)
unfolding count_active_children
running-of_retained [] nodes = refl
running-of_retained (id ∷ ids) nodes = elim (Bool-cases (has id nodes)) [
  | inl e ↦ elim (Bool-cases (is_running nodes id)) [
    | inl r ↦ rw (e, is_active_child-running id nodes, r) (ap suc (running-of_retained ids nodes))
    | inr r ↦ rw (e, is_active_child-running id nodes, r) (running-of_retained ids nodes)
  ]
  | inr e ↦ rw (e, has-running id nodes e) (running-of_retained ids nodes)
]

count_of-count_status :
    (s t : AgentChildStatus) (c : StatusCounts)
    → count_of s (count_status t c) ≡ count_of s c + (if t == s then 1 else 0)
count_of-count_status starting t c = ground arith
count_of-count_status active t c = ground arith
count_of-count_status completed t c = ground arith
count_of-count_status failed t c = ground arith
count_of-count_status cancelled t c = ground arith
count_of-count_status orphaned t c = ground arith

count_of-none : (s : AgentChildStatus) → count_of s no_statuses ≡ 0
count_of-none starting = refl
count_of-none active = refl
count_of-none completed = refl
count_of-none failed = refl
count_of-none cancelled = refl
count_of-none orphaned = refl

-- What the loop over the rest of the nodes adds to a summary.
record Adds (nodes rest : Nodes) (status : AgentChildStatus) (depth : ℕ) (s t : Summary)
    : Type 0 where
  running : t.active_children ≡ s.active_children + total (running_children nodes) rest
  fanout : t.fanout_count ≡ s.fanout_count + total (λ n. n.fanout_count) rest
  orphans : t.orphan_count ≡ s.orphan_count + how_many (λ n. n.is_orphaned) rest
  statuses :
      count_of status t.child_statuses
      ≡ count_of status s.child_statuses + how_many (λ n. n.status == status) rest
  width :
      or_default (get depth t.width_by_depth) 0
      ≡ or_default (get depth s.width_by_depth) 0 + how_many (λ n. n.depth == depth) rest

get-put_width :
    (d depth : ℕ) (m : JsMap ℕ ℕ)
    → or_default (get depth (put d (or_default (get d m) 0 + 1) m)) 0
      ≡ or_default (get depth m) 0 + (if d == depth then 1 else 0)
get-put_width d depth m = elim (Bool-cases (d == depth)) [
  | inl e ↦
      rw (get-put d depth (or_default (get d m) 0 + 1) m, e)
        (ap (λ k. or_default (get k m) 0 + 1) ((nat_eq.same_iff d depth).0 e))
  | inr e ↦ rw (get-put d depth (or_default (get d m) 0 + 1) m, e) (omega arith)
]

summarize_from-Adds :
    (nodes rest : Nodes) (status : AgentChildStatus) (depth : ℕ) (s : Summary)
    → Adds nodes rest status depth s (summarize_from nodes rest s)
unfolding summarize_from summarize_node retained_child_ids
summarize_from-Adds nodes [] status depth s = record {
  running = omega arith;
  fanout = omega arith;
  orphans = omega arith;
  statuses = omega arith;
  width = omega arith;
}
summarize_from-Adds nodes ((k, n) ∷ rest) status depth s =
    let later = summarize_from-Adds nodes rest status depth (summarize_node nodes n s) in
    record {
      running = omega (arith, later.running, running-of_retained n.child_ids nodes);
      fanout = omega (arith, later.fanout);
      orphans = omega (arith, later.orphans);
      statuses =
          omega (arith, later.statuses, count_of-count_status status n.status s.child_statuses);
      width = omega (arith, later.width, get-put_width n.depth depth s.width_by_depth);
    }

-- The totals of the summary of any registry are counts over the nodes that it is about, which are
-- all, or those of one root: `activeChildren` sums, over these nodes, the listed children that are
-- registered and `starting` or `active`, `fanoutCount` sums their fan-outs, `orphanCount` is the
-- number that carries the orphan mark, and for each status and each depth the summary has the
-- number of nodes with that status and at that depth.
pub summarize_exact :
    (t : AgentTree) (root : Option Str) (status : AgentChildStatus) (depth : ℕ)
    → let nodes = nodes_for_summary root t.nodes in
      let s = summarize t root in
      (s.active_children ≡ total (running_children t.nodes) nodes)
      × (s.fanout_count ≡ total (λ n. n.fanout_count) nodes)
      × (s.orphan_count ≡ how_many (λ n. n.is_orphaned) nodes)
      × (count_of status s.child_statuses ≡ how_many (λ n. n.status == status) nodes)
      × (or_default (get depth s.width_by_depth) 0 ≡ how_many (λ n. n.depth == depth) nodes)
unfolding summarize
summarize_exact t root status depth =
    let nodes = nodes_for_summary root t.nodes in
    let all = summarize_from-Adds t.nodes nodes status depth empty_summary in
    (
      omega (arith, all.running),
      omega (arith, all.fanout),
      omega (arith, all.orphans),
      omega (arith, all.statuses, count_of-none status),
      omega (arith, all.width),
    )

existing_children-cons :
    (c : Str) (ids : List Str) (nodes : Nodes) (n : Node)
    → get c nodes ≡ some n
    → existing_children (c ∷ ids) nodes ≡ snapshot_node n nodes ∷ existing_children ids nodes
unfolding existing_children
existing_children-cons c ids nodes n e = rw (existing_children, snapshot_of, e) refl

snapshot_of-known :
    (c : Str) (nodes : Nodes) (n : Node)
    → get c nodes ≡ some n
    → snapshot_of c nodes ≡ some (snapshot_node n nodes)
snapshot_of-known c nodes n e = rw (snapshot_of, e) refl

agents-of_existing :
    (ids : List Str) (nodes : Nodes)
    → Entries IsSound nodes
    → All (λ c. has c nodes ≡ true) ids
    → (map (λ s. s.node.agent_id) (existing_children ids nodes) ≡ ids)
      × (map some (existing_children ids nodes) ≡ map (λ c. snapshot_of c nodes) ids)
unfolding existing_children snapshot_node
agents-of_existing [] nodes sound h = (refl, refl)
agents-of_existing (c ∷ ids) nodes sound h = elim (Option-cases (get c nodes)) [
  | inl e ↦
      let missing : has c nodes ≡ false = sym (is_some-get c nodes) ∙ ap is_some e in
      cc (missing, h.0)
  | inr (n, e) ↦
      let (same, all) = agents-of_existing ids nodes sound h.1 in
      let here = (Entries-get IsSound c n nodes sound e).keyed in
      let step = existing_children-cons c ids nodes n e in
      (
        rw step (ap₂ (λ a b. a ∷ b) (sym here) same),
        rw step (ap₂ (λ a b. a ∷ b) (sym (snapshot_of-known c nodes n e)) all),
      )
]

-- In a well-formed registry the children that `getChildren` gives for a registered agent are those
-- that its node lists, in this order, and each comes with the snapshot that `getAgent` gives for it.
pub get_children-agents :
    (t : AgentTree) (id : Str) (parent : Node)
    → IsWellFormed t.max_agents t.nodes
    → get id t.nodes ≡ some parent
    → (map (λ s. s.node.agent_id) (get_children t id) ≡ parent.child_ids)
      × (map some (get_children t id) ≡ map (get_agent t) parent.child_ids)
unfolding get_children get_agent
get_children-agents t id parent w g =
    rw (get_children, g)
      (agents-of_existing parent.child_ids t.nodes w.sound
        (Entries-get (ListsOnly t.nodes) id parent t.nodes w.closed g))
