-- ===== src/Util/JsMap/Entries.antt =====
-- An invariant that every entry of a map satisfies.
use mathlib.Core.Path.{subst}
use observ_me.Prelude.{◌≡◌, sym, inl, inr, ◌==◌, Eq, some, [], ◌∷◌, ◌++◌, Bool-cases}
use observ_me.Util.JsMap.{JsMap, get, put, delete}

module _ {ℓ κ} {K : Type ℓ} {V : Type κ} ⦃e : Eq K⦄ (P : K → V → Type 0) where
  abbrev pub Entries : JsMap K V → Type 0
  Entries [] = Unit
  Entries ((k, v) ∷ m) = P k v × Entries m

  pub Entries-put : (k : K) (v : V) (m : JsMap K V) → P k v → Entries m → Entries (put k v m)
  Entries-put k v [] p h = (p, tt)
  Entries-put k v ((j, w) ∷ m) p h = elim (Bool-cases (j == k)) [
    | inl same ↦ rw same (subst (λ i. P i v) (sym ((e.same_iff j k).0 same)) p, h.1)
    | inr other ↦ rw other (h.0, Entries-put k v m p h.1)
  ]

  pub Entries-delete : (k : K) (m : JsMap K V) → Entries m → Entries (delete k m)
  Entries-delete k [] h = tt
  Entries-delete k ((j, w) ∷ m) h = elim (Bool-cases (j == k)) [
    | inl same ↦ rw same (Entries-delete k m h.1)
    | inr other ↦ rw other (h.0, Entries-delete k m h.1)
  ]

  pub Entries-snoc :
      (k : K) (v : V) (m : JsMap K V) → P k v → Entries m → Entries (m ++ (k, v) ∷ [])
  Entries-snoc k v [] p h = (p, tt)
  Entries-snoc k v ((j, w) ∷ m) p h = (h.0, Entries-snoc k v m p h.1)

  pub Entries-get : (k : K) (v : V) (m : JsMap K V) → Entries m → get k m ≡ some v → P k v
  Entries-get k v [] h g = cc
  Entries-get k v ((j, w) ∷ m) h g = elim (Bool-cases (j == k)) [
    | inl same ↦
        let here : some w ≡ some v = rw same at g in
        let value : w ≡ v = cc here in
        subst (λ i. P i v) ((e.same_iff j k).0 same) (subst (P j) value h.0)
    | inr other ↦ Entries-get k v m h.1 (rw other at g)
  ]

pub Entries-map {ℓ κ} :
    {K : Type ℓ} {V : Type κ} ⦃e : Eq K⦄ (P Q : K → V → Type 0) (m : JsMap K V)
    → ((k : K) (v : V) → P k v → Q k v)
    → Entries P m
    → Entries Q m
Entries-map P Q [] f h = tt
Entries-map P Q ((k, v) ∷ m) f h = (f k v h.0, Entries-map P Q m f h.1)
