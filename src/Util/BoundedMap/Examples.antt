-- ===== src/Util/BoundedMap/Examples.antt =====
-- The theorems on bounded maps, at maps of at most two entries.
use observ_me.Prelude.{ℕ, ◌≡◌, refl, ◌≤◌, List, [], ◌∷◌, arith, nat_eq, length}
use observ_me.Util.JsMap.{JsMap, keys}
use observ_me.Util.BoundedMap.{Observer, KeepsKeys, set, set_many}
use observ_me.Util.BoundedMap.Order.{set-of_full}
use observ_me.Util.BoundedMap.Newest.{length-set, keys-set_many}

-- It records what is evicted.
abbrev record_key : Observer ℕ ℕ (List ℕ)
record_key v s m = (v.key ∷ s, m)

record_key-KeepsKeys : KeepsKeys record_key
record_key-KeepsKeys v s m = refl

abbrev two_entries : JsMap ℕ ℕ
two_entries = (1, 10) ∷ (2, 20) ∷ []

set-of_full_example : set 2 record_key 3 30 [] two_entries ≡ (1 ∷ [], (2, 20) ∷ (3, 30) ∷ [])
set-of_full_example =
    set-of_full 2 record_key record_key-KeepsKeys 3 30 [] 1 10 ((2, 20) ∷ []) (refl, (refl, tt))
      refl refl

length-set_example : length (set 2 record_key 3 30 [] two_entries).1 ≤ 2
length-set_example =
    length-set 2 record_key record_key-KeepsKeys 3 30 [] two_entries (refl, (refl, tt))

keys-set_many_example :
    keys (set_many 2 record_key ((3, 30) ∷ (4, 40) ∷ []) [] ((1, 10) ∷ [])).1 ≡ 3 ∷ 4 ∷ []
keys-set_many_example =
    keys-set_many 2 record_key record_key-KeepsKeys ((3, 30) ∷ (4, 40) ∷ []) [] ((1, 10) ∷ [])
      (refl, (refl, (refl, tt))) (omega arith)
