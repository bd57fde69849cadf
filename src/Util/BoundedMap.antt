-- ===== src/Util/BoundedMap.antt =====
-- src/util/bounded-map.ts: a map of at most `max_size` entries, which evicts the oldest one.
-- `on_evict` is the caller's callback. It is a parameter that acts on a state `S` of the caller and
-- on the map itself, since callbacks in the program write to the map while it evicts.
mod Examples
pub mod Order
pub mod Newest
use observ_me.Prelude.{
  ℕ, zero, suc, ◌≡◌, Bool, true, false, ◌||◌, not, Option, none, some, List, [], ◌∷◌, Eq, ltb,
  if◌then◌else◌, length,
}
use observ_me.Prelude.JsNumber.{JsNumber, finite, is_integer, below}
use observ_me.Util.JsMap.{JsMap, put, delete, keys}

pub record Eviction {ℓ κ} (K : Type ℓ) (V : Type κ) : Type (ℓ ⊔ κ) where
  pub key : K
  pub value : V

-- False stands for the error that is thrown.
unfoldable pub assert_valid_max_size : JsNumber → Bool
assert_valid_max_size n = if not (is_integer n) || below n 1 then false else true

-- `#maxSize` of the map that the constructor makes, if it does not throw.
unfoldable pub constructed_max_size : JsNumber → Option ℕ
unfolding assert_valid_max_size
constructed_max_size (finite sign w f) =
    if assert_valid_max_size (finite sign w f) then some w else none
constructed_max_size n = none

abbrev pub Observer {ℓ κ} : Type ℓ → Type κ → Type 0 → Type (ℓ ⊔ κ)
Observer K V S = Eviction K V → S → JsMap K V → S × JsMap K V

-- A callback that leaves the keys of the map alone.
abbrev pub KeepsKeys {ℓ κ} : {K : Type ℓ} {V : Type κ} {S : Type 0} → Observer K V S → Type (ℓ ⊔ κ)
KeepsKeys {K} {V} {S} on_evict =
    (v : Eviction K V) (s : S) (m : JsMap K V) → keys (on_evict v s m).1 ≡ keys m

-- `clear`: the observer is not called.
unfoldable pub clear_entries {ℓ κ} : {K : Type ℓ} {V : Type κ} → JsMap K V → JsMap K V
clear_entries m = []

module _ {ℓ κ} {K : Type ℓ} {V : Type κ} {S : Type 0} ⦃e : Eq K⦄ (max_size : ℕ)
    (on_evict : Observer K V S) where
  unfoldable pub evict_oldest_entry : S → JsMap K V → S × JsMap K V
  evict_oldest_entry s [] = (s, [])
  evict_oldest_entry s ((k, v) ∷ m) =
      on_evict (record { key = k; value = v }) s (delete k ((k, v) ∷ m))

  -- `while (this.#entries.size > this.#maxSize)`, on fuel.
  unfoldable pub evict_oldest_entries_over_limit : ℕ → S → JsMap K V → S × JsMap K V
  evict_oldest_entries_over_limit zero s m = (s, m)
  evict_oldest_entries_over_limit (suc fuel) s m =
      let (s', m') = evict_oldest_entry s m in
      let rest = evict_oldest_entries_over_limit fuel s' m' in
      if ltb max_size (length m) then rest else (s, m)

  unfoldable pub set : K → V → S → JsMap K V → S × JsMap K V
  unfolding evict_oldest_entries_over_limit evict_oldest_entry
  set k v s m = let m' = put k v m in evict_oldest_entries_over_limit (length m') s m'

  unfoldable pub set_many : List (K × V) → S → JsMap K V → S × JsMap K V
  unfolding set
  set_many [] s m = (s, m)
  set_many ((k, v) ∷ entries) s m = let (s', m') = set k v s m in set_many entries s' m'
