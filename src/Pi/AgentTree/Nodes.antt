-- ===== src/Pi/AgentTree/Nodes.antt =====
-- How the registry of nodes changes under the tracker's steps, entry by entry.
use observ_me.Prelude.{◌≡◌, refl, Option, none, some, [], ◌∷◌, Str, str_equality, arith}
use observ_me.Util.JsMap.{get, keys}
use observ_me.Util.JsMap.Entries.{Entries}
use observ_me.Util.BoundedMap.{KeepsKeys}
use observ_me.Pi.AgentTree.{Node, Nodes, drop_child, detach_child_reference, on_evict}

pub keys-detach : (id : Str) (m : Nodes) → keys (detach_child_reference id m) ≡ keys m
unfolding detach_child_reference
keys-detach id [] = refl
keys-detach id ((k, n) ∷ m) = rw (keys-detach id m)

-- Evicting an agent only cuts it out of the child sets: the registry keeps its keys.
pub on_evict-KeepsKeys : KeepsKeys on_evict
unfolding on_evict
on_evict-KeepsKeys v s m = keys-detach v.key m

abbrev pub detached : Str → Option Node → Option Node
detached id none = none
detached id (some n) = some (drop_child id n)

pub get-detach :
    (id j : Str) (m : Nodes) → get j (detach_child_reference id m) ≡ detached id (get j m)
unfolding detach_child_reference
get-detach id j [] = refl
get-detach id j ((k, n) ∷ m) = ground (arith, get-detach id j m)

pub Entries-detach :
    (P Q : Str → Node → Type 0) (id : Str) (m : Nodes)
    → ((k : Str) (n : Node) → P k n → Q k (drop_child id n))
    → Entries P m
    → Entries Q (detach_child_reference id m)
unfolding detach_child_reference
Entries-detach P Q id [] f h = tt
Entries-detach P Q id ((k, n) ∷ m) f h = (f k n h.0, Entries-detach P Q id m f h.1)
