-- ===== src/Util/JsMap.antt =====
-- The `Map` of JavaScript as the code uses it: entries in insertion order, one for each key.
pub mod Entries
use observ_me.Prelude.{
  ℕ, zero, suc, ◌+◌, ◌≡◌, refl, Bool, false, ◌||◌, Option, none, some, List, [], ◌∷◌, ◌++◌, arith,
  Eq, ◌==◌, if◌then◌else◌, length, is_some, drop, or_else,
}
use observ_me.Prelude.Equality.{same_refl}

abbrev pub JsMap {ℓ κ} : Type ℓ → Type κ → Type (ℓ ⊔ κ)
JsMap K V = List (K × V)

module _ {ℓ κ} {K : Type ℓ} {V : Type κ} ⦃e : Eq K⦄ where
  abbrev pub get : K → JsMap K V → Option V
  get k [] = none
  get k ((j, v) ∷ m) = if j == k then some v else get k m

  abbrev pub has : K → JsMap K V → Bool
  has k [] = false
  has k ((j, v) ∷ m) = j == k || has k m

  -- An entry with the key is overwritten where it stands, else one is added at the end.
  abbrev pub put : K → V → JsMap K V → JsMap K V
  put k v [] = (k, v) ∷ []
  put k v ((j, w) ∷ m) = if j == k then (j, v) ∷ m else (j, w) ∷ put k v m

  -- { ...m, ...n }
  abbrev pub put_all : JsMap K V → JsMap K V → JsMap K V
  put_all [] m = m
  put_all ((k, v) ∷ n) m = put_all n (put k v m)

  abbrev pub delete : K → JsMap K V → JsMap K V
  delete k [] = []
  delete k ((j, v) ∷ m) = let rest = delete k m in if j == k then rest else (j, v) ∷ rest

  -- No two entries have the same key.
  abbrev pub IsUnique : JsMap K V → Type 0
  IsUnique [] = Unit
  IsUnique ((k, v) ∷ m) = (has k m ≡ false) × IsUnique m

  pub is_some-get : (k : K) (m : JsMap K V) → is_some (get k m) ≡ has k m
  is_some-get k [] = refl
  is_some-get k ((j, v) ∷ m) = ground (arith, is_some-get k m)

  pub get-put :
      (k j : K) (v : V) (m : JsMap K V) → get j (put k v m) ≡ (if k == j then some v else get j m)
  get-put k j v [] = refl
  get-put k j v ((i, w) ∷ m) =
      ground (arith, get-put k j v m, e.same_iff i k, e.same_iff i j, e.same_iff k j)

  pub has-put : (k j : K) (v : V) (m : JsMap K V) → has j (put k v m) ≡ (k == j || has j m)
  has-put k j v [] = refl
  has-put k j v ((i, w) ∷ m) =
      ground (arith, has-put k j v m, e.same_iff i k, e.same_iff i j, e.same_iff k j)

  pub get-delete :
      (k j : K) (m : JsMap K V) → get j (delete k m) ≡ (if k == j then none else get j m)
  get-delete k j [] = ground arith
  get-delete k j ((i, w) ∷ m) =
      ground (arith, get-delete k j m, e.same_iff i k, e.same_iff i j, e.same_iff k j)

  pub has-delete :
      (k j : K) (m : JsMap K V) → has j (delete k m) ≡ (if k == j then false else has j m)
  has-delete k j [] = ground arith
  has-delete k j ((i, w) ∷ m) =
      ground (arith, has-delete k j m, e.same_iff i k, e.same_iff i j, e.same_iff k j)

  pub put-IsUnique : (k : K) (v : V) (m : JsMap K V) → IsUnique m → IsUnique (put k v m)
  put-IsUnique k v [] u = (refl, tt)
  put-IsUnique k v ((i, w) ∷ m) u =
      ground (arith, put-IsUnique k v m u.1, has-put k i v m, e.same_iff i k, e.same_iff k i)

  pub delete-IsUnique : (k : K) (m : JsMap K V) → IsUnique m → IsUnique (delete k m)
  delete-IsUnique k [] u = tt
  delete-IsUnique k ((i, w) ∷ m) u = ground (arith, delete-IsUnique k m u.1, has-delete k i m)

  pub length-put :
      (k : K) (v : V) (m : JsMap K V)
      → length (put k v m) ≡ (if has k m then length m else length m + 1)
  length-put k v [] = omega arith
  length-put k v ((i, w) ∷ m) = ground (arith, length-put k v m)

  -- What is not there cannot be deleted.
  pub delete-of_missing : (k : K) (m : JsMap K V) → has k m ≡ false → delete k m ≡ m
  delete-of_missing k [] h = refl
  delete-of_missing k ((i, w) ∷ m) h = ground (arith, delete-of_missing k m)

  pub put-of_missing :
      (k : K) (v : V) (m : JsMap K V) → has k m ≡ false → put k v m ≡ m ++ (k, v) ∷ []
  put-of_missing k v [] h = refl
  put-of_missing k v ((i, w) ∷ m) h = ground (arith, put-of_missing k v m)

  -- The first entry alone goes when its key is deleted.
  pub delete-head :
      (k : K) (v : V) (m : JsMap K V) → IsUnique ((k, v) ∷ m) → delete k ((k, v) ∷ m) ≡ m
  delete-head k v m u = ground (arith, same_refl k, delete-of_missing k m u.0)

  pub length-delete :
      (k : K) (m : JsMap K V)
      → IsUnique m
      → length (delete k m) + (if has k m then 1 else 0) ≡ length m
  length-delete k [] u = omega arith
  length-delete k ((i, w) ∷ m) u =
      ground (arith, length-delete k m u.1, delete-of_missing k m, e.same_iff i k)

-- [...map.keys()]
module _ {ℓ κ} {K : Type ℓ} {V : Type κ} where
  abbrev pub keys : JsMap K V → List K
  keys [] = []
  keys ((k, v) ∷ m) = k ∷ keys m

  pub length-keys : (m : JsMap K V) → length (keys m) ≡ length m
  length-keys [] = refl
  length-keys ((k, v) ∷ m) = omega (arith, length-keys m)

module _ {ℓ κ} {K : Type ℓ} {V : Type κ} ⦃e : Eq K⦄ where
  -- Maps with the same keys are unique together.
  pub has-of_keys : (k : K) (m n : JsMap K V) → keys m ≡ keys n → has k m ≡ has k n
  has-of_keys k [] [] h = refl
  has-of_keys k [] (y ∷ n) h = cc
  has-of_keys k (x ∷ m) [] h = cc
  has-of_keys k ((i, v) ∷ m) ((j, w) ∷ n) h = ground (arith, has-of_keys k m n)

  pub IsUnique-of_keys : (m n : JsMap K V) → keys m ≡ keys n → IsUnique m → IsUnique n
  IsUnique-of_keys [] [] h u = tt
  IsUnique-of_keys [] (y ∷ n) h u = cc
  IsUnique-of_keys (x ∷ m) [] h u = cc
  IsUnique-of_keys ((i, v) ∷ m) ((j, w) ∷ n) h u =
      ground (arith, has-of_keys i m n, IsUnique-of_keys m n)

  pub keys-put :
      (k : K) (v : V) (m : JsMap K V)
      → keys (put k v m) ≡ (if has k m then keys m else keys m ++ k ∷ [])
  keys-put k v [] = refl
  keys-put k v ((i, w) ∷ m) = ground (arith, keys-put k v m)

module _ {ℓ κ} {K : Type ℓ} {V : Type κ} where
  pub keys-append : (m n : JsMap K V) → keys (m ++ n) ≡ keys m ++ keys n
  keys-append [] n = refl
  keys-append ((k, v) ∷ m) n = rw (keys-append m n)

  pub keys-drop : (d : ℕ) (m : JsMap K V) → keys (drop d m) ≡ drop d (keys m)
  keys-drop zero m = refl
  keys-drop (suc d) [] = refl
  keys-drop (suc d) ((k, v) ∷ m) = keys-drop d m

module _ {ℓ κ} {K : Type ℓ} {V : Type κ} ⦃e : Eq K⦄ where
  pub has-append : (k : K) (m n : JsMap K V) → has k (m ++ n) ≡ (has k m || has k n)
  has-append k [] n = refl
  has-append k ((i, w) ∷ m) n = ground (arith, has-append k m n)

  pub IsUnique-append_left : (m n : JsMap K V) → IsUnique (m ++ n) → IsUnique m
  IsUnique-append_left [] n u = tt
  IsUnique-append_left ((i, w) ∷ m) n u =
      ground (arith, has-append i m n, IsUnique-append_left m n u.1)

  pub IsUnique-drop : (d : ℕ) (m : JsMap K V) → IsUnique m → IsUnique (drop d m)
  IsUnique-drop zero m u = u
  IsUnique-drop (suc d) [] u = u
  IsUnique-drop (suc d) ((i, w) ∷ m) u = IsUnique-drop d m u.1

  -- In a map with distinct keys an entry's key does not stand before it.
  pub has-of_before :
      (k : K) (v : V) (m n : JsMap K V) → IsUnique (m ++ (k, v) ∷ n) → has k m ≡ false
  has-of_before k v [] n u = refl
  has-of_before k v ((i, w) ∷ m) n u = ground (
    arith,
    has-of_before k v m n u.1,
    has-append i m ((k, v) ∷ n),
    e.same_iff i k,
    e.same_iff k i,
  )

  pub get-append : (k : K) (m n : JsMap K V) → get k (m ++ n) ≡ or_else (get k m) (get k n)
  get-append k [] n = refl
  get-append k ((i, w) ∷ m) n = ground (arith, get-append k m n)
