-- ===== src/Util/BoundedMap/Order.antt =====
-- Which entries a bounded map keeps: the newest, in the order in which their keys came.
use mathlib.Core.Path.{subst}
use observ_me.Prelude.{
  length-append, ℕ, zero, suc, ◌-◌, ◌≤◌, ◌<◌, ◌≡◌, refl, ap, ◌∙◌, sym, true, false, List, [], ◌∷◌,
  ◌++◌, arith, Eq, ◌⊎◌, ltb, length, drop, Bool-cases, inl, inr, ltb→lt,
}
use observ_me.Util.JsMap.{
  JsMap, has, put, keys, IsUnique, delete-head, length-keys, IsUnique-of_keys, put-IsUnique,
  put-of_missing, length-put,
}
use observ_me.Util.BoundedMap.{
  Observer, KeepsKeys, evict_oldest_entry, evict_oldest_entries_over_limit, set,
}

drop-zero_of_le {ℓ} : {A : Type ℓ} (n b : ℕ) (xs : List A) → n ≤ b → drop (n - b) xs ≡ xs
drop-zero_of_le n b xs h = let z : n - b ≡ 0 = omega arith in rw z

leb_of_not_ltb : (a b : ℕ) → ltb a b ≡ false → b ≤ a
leb_of_not_ltb a b h = ground arith

full_length : (a b : ℕ) → a ≤ b → ltb a b ≡ false → a ≡ b
full_length a b h f = ground arith

module _ {ℓ κ} {K : Type ℓ} {V : Type κ} ⦃e : Eq K⦄ where
  length-put-le_of_has :
      (k : K) (v : V) (m : JsMap K V) {b : ℕ}
      → has k m ≡ true
      → length m ≤ b
      → length (put k v m) ≤ b
  length-put-le_of_has k v m h le = ground (arith, length-put k v m)

  length-put-le_of_room :
      (k : K) (v : V) (m : JsMap K V) {b : ℕ} → length m < b → length (put k v m) ≤ b
  length-put-le_of_room k v m h = ground (arith, length-put k v m)

drop-suc_sub {ℓ} :
    {A : Type ℓ} (n b : ℕ) (x : A) (xs : List A)
    → b < suc n
    → drop (suc n - b) (x ∷ xs) ≡ drop (n - b) xs
drop-suc_sub n b x xs h = let z : suc n - b ≡ suc (n - b) = omega arith in rw z

module _ {ℓ κ} {K : Type ℓ} {V : Type κ} {S : Type 0} ⦃e : Eq K⦄ (max_size : ℕ)
    (on_evict : Observer K V S) (keeps : KeepsKeys on_evict) where
  evict_oldest_entry-cons :
      (s : S) (k : K) (v : V) (m : JsMap K V)
      → IsUnique ((k, v) ∷ m)
      → evict_oldest_entry max_size on_evict s ((k, v) ∷ m)
        ≡ on_evict (record { key = k; value = v }) s m
  unfolding evict_oldest_entry
  evict_oldest_entry-cons s k v m u =
      ap (on_evict (record { key = k; value = v }) s) (delete-head k v m u)

  evict_oldest_entry-keys :
      (s : S) (k : K) (v : V) (m : JsMap K V)
      → IsUnique ((k, v) ∷ m)
      → keys (evict_oldest_entry max_size on_evict s ((k, v) ∷ m)).1 ≡ keys m
  evict_oldest_entry-keys s k v m u =
      rw (evict_oldest_entry-cons s k v m u) (keeps (record { key = k; value = v }) s m)

  pub loop-keys :
      (fuel : ℕ) (s : S) (m : JsMap K V)
      → length m ≤ fuel
      → IsUnique m
      → keys (evict_oldest_entries_over_limit max_size on_evict fuel s m).1
        ≡ drop (length m - max_size) (keys m)
  unfolding evict_oldest_entries_over_limit
  loop-keys zero s [] h u = sym (drop-zero_of_le 0 max_size [] (omega arith))
  loop-keys zero s (x ∷ m) h u = absurd (omega arith)
  loop-keys (suc fuel) s [] h u =
      let small : ltb max_size 0 ≡ false = ground arith in
      rw small (sym (drop-zero_of_le 0 max_size [] (omega arith)))
  loop-keys (suc fuel) s ((k, v) ∷ m) h u = elim (Bool-cases (ltb max_size (suc (length m)))) [
    | inl over ↦
        let s' = (evict_oldest_entry max_size on_evict s ((k, v) ∷ m)).0 in
        let m' = (evict_oldest_entry max_size on_evict s ((k, v) ∷ m)).1 in
        let same : keys m' ≡ keys m = evict_oldest_entry-keys s k v m u in
        let shorter : length m' ≡ length m =
          sym (length-keys m') ∙ ap length same ∙ length-keys m in
        let ih =
          loop-keys fuel s' m' (omega (arith, shorter)) (IsUnique-of_keys m m' (sym same) u.1) in
        rw over (
          ih
          ∙ ap (λ n. drop (n - max_size) (keys m')) shorter
          ∙ ap (drop (length m - max_size)) same
          ∙ sym (drop-suc_sub (length m) max_size k (keys m) (ltb→lt _ _ over)))
    | inr fits ↦
        rw fits
          (sym (drop-zero_of_le (suc (length m)) max_size (k ∷ keys m) (leb_of_not_ltb _ _ fits)))
  ]

  -- The keys of the map after `set`: those of an unbounded map, less the oldest ones over the limit.
  pub keys-set :
      (k : K) (v : V) (s : S) (m : JsMap K V)
      → IsUnique m
      → keys (set max_size on_evict k v s m).1
        ≡ drop (length (put k v m) - max_size) (keys (put k v m))
  unfolding set
  keys-set k v s m u =
      loop-keys (length (put k v m)) s (put k v m) (omega arith) (put-IsUnique k v m u)

  -- While the limit holds nothing is evicted.
  pub loop-of_fit :
      (fuel : ℕ) (s : S) (m : JsMap K V)
      → length m ≤ max_size
      → evict_oldest_entries_over_limit max_size on_evict fuel s m ≡ (s, m)
  unfolding evict_oldest_entries_over_limit
  loop-of_fit zero s m h = refl
  loop-of_fit (suc fuel) s m h =
      let small : ltb max_size (length m) ≡ false = ground arith in rw small

  -- `set` of a key that is there, or of a new one below the limit, evicts nothing.
  pub set-of_fit :
      (k : K) (v : V) (s : S) (m : JsMap K V)
      → length (put k v m) ≤ max_size
      → set max_size on_evict k v s m ≡ (s, put k v m)
  unfolding set
  set-of_fit k v s m h = loop-of_fit (length (put k v m)) s (put k v m) h

  first_round :
      (k : K) (v : V) (s : S) (k0 : K) (v0 : V) (m : JsMap K V)
      → put k v ((k0, v0) ∷ m) ≡ (k0, v0) ∷ (m ++ (k, v) ∷ [])
      → length ((k0, v0) ∷ m) ≡ max_size
      → IsUnique ((k0, v0) ∷ (m ++ (k, v) ∷ []))
      → set max_size on_evict k v s ((k0, v0) ∷ m)
        ≡ on_evict (record { key = k0; value = v0 }) s (m ++ (k, v) ∷ [])
  unfolding set evict_oldest_entries_over_limit
  first_round k v s k0 v0 m grown full u =
      let rest = m ++ (k, v) ∷ [] in
      let st = on_evict (record { key = k0; value = v0 }) s rest in
      let long : length rest ≡ max_size = omega (arith, length-append m ((k, v) ∷ []), full) in
      let over : ltb max_size (suc (length rest)) ≡ true = ground arith in
      let short : length st.1 ≤ max_size = omega (
        arith,
        length-keys st.1,
        length-keys rest,
        ap length (keeps (record { key = k0; value = v0 }) s rest),
      ) in
      rw (grown, over, evict_oldest_entry-cons s k0 v0 rest u)
        (loop-of_fit (length rest) st.0 st.1 short)

  -- Where the callback leaves the keys of the map alone, and the keys are distinct: `set` of a new key
  -- at the limit drops the first entry, adds the new one at the end, and calls the observer once, with
  -- the entry that went.
  pub set-of_full :
      (k : K) (v : V) (s : S) (k0 : K) (v0 : V) (m : JsMap K V)
      → IsUnique ((k0, v0) ∷ m)
      → has k ((k0, v0) ∷ m) ≡ false
      → length ((k0, v0) ∷ m) ≡ max_size
      → set max_size on_evict k v s ((k0, v0) ∷ m)
        ≡ on_evict (record { key = k0; value = v0 }) s (m ++ (k, v) ∷ [])
  set-of_full k v s k0 v0 m u fresh full =
      let unique = put-IsUnique k v ((k0, v0) ∷ m) u in
      let grown = put-of_missing k v ((k0, v0) ∷ m) fresh in
      let tail_unique : IsUnique ((k0, v0) ∷ (m ++ (k, v) ∷ [])) = subst IsUnique grown unique in
      first_round k v s k0 v0 m grown full tail_unique

  -- Within the limit, one `set` does one of two things: nothing is evicted, or the key is new, the
  -- map is full, and the first entry goes.
  pub set-cases :
      (k : K) (v : V) (s : S) (m : JsMap K V)
      → IsUnique m
      → 0 < max_size
      → length m ≤ max_size
      → (set max_size on_evict k v s m ≡ (s, put k v m))
        ⊎ ((k0 : K) × (v0 : V) × (rest : JsMap K V) × (m ≡ (k0, v0) ∷ rest)
            × (has k m ≡ false)
            × (length m ≡ max_size)
            × (set max_size on_evict k v s m
                ≡ on_evict (record { key = k0; value = v0 }) s (rest ++ (k, v) ∷ [])))
  set-cases k v s [] u pos h = inl (set-of_fit k v s [] (omega (arith, length-put k v [])))
  set-cases k v s ((k0, v0) ∷ rest) u pos h = elim (Bool-cases (has k ((k0, v0) ∷ rest))) [
    | inl old ↦
        inl (set-of_fit k v s ((k0, v0) ∷ rest) (length-put-le_of_has k v ((k0, v0) ∷ rest) old h))
    | inr new ↦ elim (Bool-cases (ltb (length ((k0, v0) ∷ rest)) max_size)) [
      | inl room ↦ inl (
          set-of_fit k v s ((k0, v0) ∷ rest)
            (length-put-le_of_room k v ((k0, v0) ∷ rest) (ltb→lt _ _ room)))
      | inr full ↦
          let at_limit = full_length (length ((k0, v0) ∷ rest)) max_size h full in
          inr (k0, v0, rest, refl, new, at_limit, set-of_full k v s k0 v0 rest u new at_limit)
    ]
  ]
