-- ===== src/Util/BoundedMap/Newest.antt =====
-- The bound of the map, and what it holds after many entries were set.
use mathlib.Core.List.{append_assoc, append-nil}
use mathlib.Core.Path.{ap₂}
use observ_me.Prelude.{
  ℕ, suc, ◌+◌, ◌-◌, ◌≤◌, ◌≡◌, ap, ◌∙◌, sym, List, [], ◌∷◌, ◌++◌, arith, Eq, length, drop,
  length-drop, length-append, drop-append, drop-drop,
}
use observ_me.Util.JsMap.{
  JsMap, put, keys, IsUnique, length-keys, keys-put, length-put, keys-append, keys-drop,
  IsUnique-of_keys, IsUnique-append_left, IsUnique-drop, has-of_before,
}
use observ_me.Util.BoundedMap.{Observer, KeepsKeys, set, set_many}
use observ_me.Util.BoundedMap.Order.{keys-set}

keys-of_rest {ℓ κ} :
    {K : Type ℓ} {V : Type κ} (k : K) (v : V) (m m1 entries : JsMap K V) (d : ℕ)
    → keys m1 ≡ drop d (keys m ++ k ∷ [])
    → d ≤ length m + 1
    → keys (m1 ++ entries) ≡ drop d (keys (m ++ (k, v) ∷ entries))
keys-of_rest k v m m1 entries d h le =
    keys-append m1 entries
    ∙ ap (λ l. l ++ keys entries) h
    ∙ drop-append d (keys m ++ k ∷ []) (keys entries)
        (omega (arith, length-append (keys m) (k ∷ []), length-keys m))
    ∙ ap (drop d)
        (append_assoc (keys m) (k ∷ []) (keys entries) ∙ sym (keys-append m ((k, v) ∷ entries)))

module _ {ℓ κ} {K : Type ℓ} {V : Type κ} {S : Type 0} ⦃e : Eq K⦄ (max_size : ℕ)
    (on_evict : Observer K V S) (keeps : KeepsKeys on_evict) where
  -- Where the callback leaves the keys of the map alone, a map with distinct keys holds at most
  -- `max_size` entries after `set`, however many it held before.
  pub length-set :
      (k : K) (v : V) (s : S) (m : JsMap K V)
      → IsUnique m
      → length (set max_size on_evict k v s m).1 ≤ max_size
  length-set k v s m u = omega (
    arith,
    length-keys (set max_size on_evict k v s m).1,
    length-keys (put k v m),
    ap length (keys-set max_size on_evict keeps k v s m u),
    length-drop (length (put k v m) - max_size) (keys (put k v m)),
  )

  keys-set_new :
      (k : K) (v : V) (s : S) (m entries : JsMap K V)
      → IsUnique (m ++ (k, v) ∷ entries)
      → keys (set max_size on_evict k v s m).1 ≡ drop (length m + 1 - max_size) (keys m ++ k ∷ [])
  keys-set_new k v s m entries u =
      let fresh = has-of_before k v m entries u in
      let size : length (put k v m) ≡ length m + 1 = length-put k v m ∙ (rw fresh) in
      let names : keys (put k v m) ≡ keys m ++ k ∷ [] = keys-put k v m ∙ (rw fresh) in
      keys-set max_size on_evict keeps k v s m (IsUnique-append_left m ((k, v) ∷ entries) u)
      ∙ ap₂ (λ n l. drop (n - max_size) l) size names

  -- Where the callback leaves the keys of the map alone, and a map with distinct keys is within the
  -- limit: after entries with new and distinct keys were set, the map has the keys of the newest
  -- `max_size` of all of them, the oldest first.
  pub keys-set_many :
      (entries : List (K × V)) (s : S) (m : JsMap K V)
      → IsUnique (m ++ entries)
      → length m ≤ max_size
      → keys (set_many max_size on_evict entries s m).1
        ≡ drop (length m + length entries - max_size) (keys m ++ keys entries)
  unfolding set_many
  keys-set_many [] s m u h =
      let z : length m + 0 - max_size ≡ 0 = omega arith in rw z (sym (append-nil (keys m)))
  keys-set_many ((k, v) ∷ entries) s m u h =
      let m1 = (set max_size on_evict k v s m).1 in
      let d = length m + 1 - max_size in
      let first : keys m1 ≡ drop d (keys m ++ k ∷ []) = keys-set_new k v s m entries u in
      let long = length-append (keys m) (k ∷ []) in
      let size : length m1 ≡ length m + 1 - d = omega (
        arith,
        length-keys m1,
        ap length first,
        length-drop d (keys m ++ k ∷ []),
        long,
        length-keys m,
      ) in
      let all_keys : keys (m1 ++ entries) ≡ drop d (keys (m ++ (k, v) ∷ entries)) =
        keys-of_rest k v m m1 entries d first (omega arith) in
      let unique : IsUnique (m1 ++ entries) =
        IsUnique-of_keys (drop d (m ++ (k, v) ∷ entries)) (m1 ++ entries)
          (keys-drop d (m ++ (k, v) ∷ entries) ∙ sym all_keys)
          (IsUnique-drop d (m ++ (k, v) ∷ entries) u) in
      let ih =
        keys-set_many entries (set max_size on_evict k v s m).0 m1 unique (omega (arith, size)) in
      let count : d + (length m1 + length entries - max_size)
          ≡ length m + suc (length entries) - max_size =
        omega (arith, size) in
      ih
      ∙ ap (drop (length m1 + length entries - max_size)) (sym (keys-append m1 entries) ∙ all_keys)
      ∙ drop-drop (length m1 + length entries - max_size) d (keys (m ++ (k, v) ∷ entries))
      ∙ ap₂ drop count (keys-append m ((k, v) ∷ entries))
