-- ===== src/Pi/Subagent/Accounting/Known.antt =====
-- What the ledger of failures and recoveries still knows after an entry was set and another evicted.
use mathlib.Core.Path.{subst, sym}
use observ_me.Prelude.{
  ℕ, ◌≡◌, refl, ◌⊎◌, inl, inr, ◌≤◌, ◌==◌, Bool, true, false, some, [], ◌∷◌, ◌++◌, Str, str_equality,
  str_eq_iff, max, length, Bool-cases, arith,
}
use observ_me.Prelude.Equality.{same_refl}
use observ_me.Util.JsMap.{
  JsMap, get, has, put, IsUnique, is_some-get, get-put, has-put, has-append, get-append,
  put-IsUnique, put-of_missing,
}
use observ_me.Util.JsMap.Entries.{Entries, Entries-put, Entries-snoc}
use observ_me.Util.BoundedMap
use observ_me.Util.BoundedMap.{Observer, Eviction, KeepsKeys}
use observ_me.Util.BoundedMap.Order.{set-cases}
use observ_me.Util.BoundedMap.Newest.{length-set}
use observ_me.Util.MembershipFilter.{Digest, Filter, add, has_member}
use observ_me.Util.MembershipFilter.NoFalseNegatives.{has_member-add_self, has_member-add}
use observ_me.Pi.Subagent.Accounting.{
  ChildFailureAccountingState, Ledger, failure_token, recovery_token, add_if,
  archive_child_failure_accounting,
}

has-after_first :
    (c k0 : Str) (v0 : ChildFailureAccountingState) (rest : JsMap Str ChildFailureAccountingState)
    (k : Str) (v : ChildFailureAccountingState)
    → (k0 == c) ≡ false
    → has c ((k0, v0) ∷ rest) ≡ true
    → has c (rest ++ (k, v) ∷ []) ≡ true
has-after_first c k0 v0 rest k v other here =
    ground (arith, has-append c rest ((k, v) ∷ []), other, here)

has-tail :
    (k k0 : Str) (v0 : ChildFailureAccountingState) (rest : JsMap Str ChildFailureAccountingState)
    → has k ((k0, v0) ∷ rest) ≡ false
    → has k rest ≡ false
has-tail k k0 v0 rest h = ground (arith, h)

get-snoc_self :
    (k : Str) (v : ChildFailureAccountingState) (m : JsMap Str ChildFailureAccountingState)
    → has k m ≡ false
    → get k (m ++ (k, v) ∷ []) ≡ some v
get-snoc_self k v m absent =
    ground (arith, get-append k m ((k, v) ∷ []), is_some-get k m, absent, same_refl k)

get-snoc_found :
    (c : Str) (s : ChildFailureAccountingState) (k : Str) (v : ChildFailureAccountingState)
    (m : JsMap Str ChildFailureAccountingState)
    → get c m ≡ some s
    → get c (m ++ (k, v) ∷ []) ≡ some s
get-snoc_found c s k v m found = rw (get-append c m ((k, v) ∷ []), found) refl

get-after_first :
    (c k0 : Str) (v0 s : ChildFailureAccountingState) (rest : JsMap Str ChildFailureAccountingState)
    → (k0 == c) ≡ false
    → get c ((k0, v0) ∷ rest) ≡ some s
    → get c rest ≡ some s
get-after_first c k0 v0 s rest other found = rw other at found

value_of_first :
    (c k0 : Str) (v0 s : ChildFailureAccountingState) (rest : JsMap Str ChildFailureAccountingState)
    → (k0 == c) ≡ true
    → get c ((k0, v0) ∷ rest) ≡ some s
    → v0 ≡ s
value_of_first c k0 v0 s rest same found = let here : some v0 ≡ some s = rw same at found in cc here

has-snoc_other :
    (c k : Str) (v : ChildFailureAccountingState) (m : JsMap Str ChildFailureAccountingState)
    → (k == c) ≡ false
    → has c m ≡ false
    → has c (m ++ (k, v) ∷ []) ≡ false
has-snoc_other c k v m apart absent = ground (arith, has-append c m ((k, v) ∷ []), apart, absent)

IsUnique-snoc :
    (k : Str) (v : ChildFailureAccountingState) (m : JsMap Str ChildFailureAccountingState)
    → has k m ≡ false
    → IsUnique m
    → IsUnique (m ++ (k, v) ∷ [])
IsUnique-snoc k v m absent u = subst IsUnique (put-of_missing k v m absent) (put-IsUnique k v m u)

module _ (sha256 : Str → Digest) (max_spawns : ℕ) where
  abbrev pub on_evict : Observer Str ChildFailureAccountingState Filter
  unfolding archive_child_failure_accounting
  on_evict = archive_child_failure_accounting sha256

  on_evict-KeepsKeys : KeepsKeys on_evict
  unfolding archive_child_failure_accounting
  on_evict-KeepsKeys v s m = refl

  pub record IsSoundLedger (l : Ledger) : Type 0 where
    pub unique : IsUnique l.registry
    pub bounded : length l.registry ≤ max 1 max_spawns
    pub recorded : Entries (λ k s. s.failure_recorded ≡ true) l.registry

  -- The ledger knows the failure of a child: it has an entry, or the archive has its token.
  abbrev pub KnowsFailure : Str → Ledger → Type 0
  KnowsFailure c l =
      (has c l.registry ≡ true) ⊎ (has_member sha256 l.archive (failure_token c) ≡ true)

  -- The ledger knows the recovery from it.
  abbrev pub KnowsRecovery : Str → Ledger → Type 0
  KnowsRecovery c l =
      ((s : ChildFailureAccountingState) × (get c l.registry ≡ some s)
        × (s.recovery_recorded ≡ true))
      ⊎ ((has c l.registry ≡ false) × (has_member sha256 l.archive (recovery_token c) ≡ true))

  -- What `set` makes of registry and archive.
  set_lem :
      (k : Str) (v : ChildFailureAccountingState) (l : Ledger)
      → IsSoundLedger l
      → (BoundedMap.set (max 1 max_spawns) on_evict k v l.archive l.registry
          ≡ (l.archive, put k v l.registry))
        ⊎ ((k0 : Str) × (v0 : ChildFailureAccountingState) × (rest : JsMap Str
              ChildFailureAccountingState)
            × (l.registry ≡ (k0, v0) ∷ rest)
            × (has k l.registry ≡ false)
            × (length l.registry ≡ max 1 max_spawns)
            × (BoundedMap.set (max 1 max_spawns) on_evict k v l.archive l.registry
                ≡ on_evict (record { key = k0; value = v0 }) l.archive (rest ++ (k, v) ∷ [])))
  set_lem k v l h =
      set-cases (max 1 max_spawns) on_evict on_evict-KeepsKeys k v l.archive l.registry h.unique
        (omega arith) h.bounded

  pub add_if-keeps :
      (b : Bool) (u v : Str) (f : Filter)
      → has_member sha256 f v ≡ true
      → has_member sha256 (add_if sha256 b u f) v ≡ true
  add_if-keeps true u v f h = has_member-add sha256 f u v h
  add_if-keeps false u v f h = h

  archived-failure :
      (k0 : Str) (v0 : ChildFailureAccountingState) (f : Filter)
      (m : JsMap Str ChildFailureAccountingState)
      → has_member sha256 (on_evict (record { key = k0; value = v0 }) f m).0 (failure_token k0)
        ≡ true
  unfolding archive_child_failure_accounting
  archived-failure k0 v0 f m =
      add_if-keeps v0.recovery_recorded (recovery_token k0) (failure_token k0)
        (add sha256 (failure_token k0) f) (has_member-add_self sha256 f (failure_token k0))

  archived-keeps :
      (e : Eviction Str ChildFailureAccountingState) (v : Str) (f : Filter)
      (m : JsMap Str ChildFailureAccountingState)
      → has_member sha256 f v ≡ true
      → has_member sha256 (on_evict e f m).0 v ≡ true
  unfolding archive_child_failure_accounting
  archived-keeps e v f m h =
      add_if-keeps e.value.recovery_recorded (recovery_token e.key) v
        (add sha256 (failure_token e.key) f) (has_member-add sha256 f (failure_token e.key) v h)

  archived-recovery :
      (k0 : Str) (v0 : ChildFailureAccountingState) (f : Filter)
      (m : JsMap Str ChildFailureAccountingState)
      → v0.recovery_recorded ≡ true
      → has_member sha256 (on_evict (record { key = k0; value = v0 }) f m).0 (recovery_token k0)
        ≡ true
  unfolding archive_child_failure_accounting
  archived-recovery k0 v0 f m r =
      rw r (has_member-add_self sha256 (add sha256 (failure_token k0) f) (recovery_token k0))

  archived-registry :
      (e : Eviction Str ChildFailureAccountingState) (f : Filter)
      (m : JsMap Str ChildFailureAccountingState)
      → (on_evict e f m).1 ≡ m
  unfolding archive_child_failure_accounting
  archived-registry e f m = refl

  -- Setting an entry keeps what is known of the failures of all children.
  abbrev pub after_set : Str → ChildFailureAccountingState → Ledger → Ledger
  after_set k v l =
      let r = BoundedMap.set (max 1 max_spawns) on_evict k v l.archive l.registry in
      record { registry = r.1; archive = r.0 }

  pub set-KnowsFailure :
      (c k : Str) (v : ChildFailureAccountingState) (l : Ledger)
      → IsSoundLedger l
      → KnowsFailure c l
      → KnowsFailure c (after_set k v l)
  set-KnowsFailure c k v l h known = elim (set_lem k v l h) [
    | inl fit ↦ rw fit (elim known [
      | inl here ↦ inl (ground (arith, has-put k c v l.registry, here))
      | inr archived ↦ inr archived
    ])
    | inr (k0, v0, rest, top, new, full, evicted) ↦ rw evicted (elim known [
      | inr archived ↦ inr (
          archived-keeps (record { key = k0; value = v0 }) (failure_token c) l.archive
            (rest ++ (k, v) ∷ []) archived)
      | inl here ↦ elim (Bool-cases (k0 == c)) [
        | inl same ↦ inr (
            subst
              (λ x.
                has_member sha256
                  (on_evict (record { key = k0; value = v0 }) l.archive (rest ++ (k, v) ∷ [])).0
                  (failure_token x)
                ≡ true)
              ((str_eq_iff k0 c).0 same) (archived-failure k0 v0 l.archive (rest ++ (k, v) ∷ [])))
        | inr other ↦ inl (
            rw (archived-registry (record { key = k0; value = v0 }) l.archive (rest ++ (k, v) ∷ []))
              (has-after_first c k0 v0 rest k v other (subst (λ m. has c m ≡ true) top here)))
      ]
    ])
  ]

  pub get-set_self :
      (k : Str) (v : ChildFailureAccountingState) (l : Ledger)
      → IsSoundLedger l
      → get k (after_set k v l).registry ≡ some v
  get-set_self k v l h = elim (set_lem k v l h) [
    | inl fit ↦ rw fit (ground (arith, get-put k k v l.registry, same_refl k))
    | inr (k0, v0, rest, top, new, full, evicted) ↦
        rw
          (
            evicted,
            archived-registry (record { key = k0; value = v0 }) l.archive (rest ++ (k, v) ∷ []),
          )
          (get-snoc_self k v rest (has-tail k k0 v0 rest (subst (λ m. has k m ≡ false) top new)))
  ]

  pub set-KnowsRecovery_self :
      (k : Str) (v : ChildFailureAccountingState) (l : Ledger)
      → IsSoundLedger l
      → v.recovery_recorded ≡ true
      → KnowsRecovery k (after_set k v l)
  set-KnowsRecovery_self k v l h r = inl (v, get-set_self k v l h, r)

  pub set-KnowsRecovery_other :
      (c k : Str) (v : ChildFailureAccountingState) (l : Ledger)
      → IsSoundLedger l
      → (k == c) ≡ false
      → KnowsRecovery c l
      → KnowsRecovery c (after_set k v l)
  set-KnowsRecovery_other c k v l h apart known = elim (set_lem k v l h) [
    | inl fit ↦ rw fit (elim known [
      | inl (s, found, marked) ↦
          inl (s, ground (arith, get-put k c v l.registry, apart, found), marked)
      | inr (absent, archived) ↦
          inr (ground (arith, has-put k c v l.registry, apart, absent), archived)
    ])
    | inr (k0, v0, rest, top, new, full, evicted) ↦
        let e : Eviction Str ChildFailureAccountingState = record { key = k0; value = v0 } in
        let grown = rest ++ (k, v) ∷ [] in
        let unique : IsUnique ((k0, v0) ∷ rest) = subst IsUnique top h.unique in
        rw (evicted, archived-registry e l.archive grown)
          (elim known [
            | inl (s, found, marked) ↦
                let found' : get c ((k0, v0) ∷ rest) ≡ some s =
                  subst (λ m. get c m ≡ some s) top found in
                elim (Bool-cases (k0 == c)) [
                  | inl same ↦
                      let value : v0 ≡ s = value_of_first c k0 v0 s rest same found' in
                      inr (
                        has-snoc_other c k v rest apart
                            (subst (λ x. has x rest ≡ false) ((str_eq_iff k0 c).0 same) unique.0),
                        subst
                            (λ x.
                              has_member sha256 (on_evict e l.archive grown).0 (recovery_token x)
                              ≡ true)
                            ((str_eq_iff k0 c).0 same)
                            (archived-recovery k0 v0 l.archive grown
                              (subst (λ x. x.recovery_recorded ≡ true) (sym value) marked)),
                      )
                  | inr other ↦ inl (
                    s,
                    get-snoc_found c s k v rest (get-after_first c k0 v0 s rest other found'),
                    marked,
                  )
                ]
            | inr (absent, archived) ↦ inr (
              has-snoc_other c k v rest apart
                  (has-tail c k0 v0 rest (subst (λ m. has c m ≡ false) top absent)),
              archived-keeps e (recovery_token c) l.archive grown archived,
            )
          ])
  ]

  pub set-IsSoundLedger :
      (k : Str) (v : ChildFailureAccountingState) (l : Ledger)
      → v.failure_recorded ≡ true
      → IsSoundLedger l
      → IsSoundLedger (after_set k v l)
  set-IsSoundLedger k v l marked h = elim (set_lem k v l h) [
    | inl fit ↦ record {
      unique = rw fit (put-IsUnique k v l.registry h.unique);
      bounded =
          length-set (max 1 max_spawns) on_evict on_evict-KeepsKeys k v l.archive l.registry
            h.unique;
      recorded =
          rw fit (Entries-put (λ k s. s.failure_recorded ≡ true) k v l.registry marked h.recorded);
    }
    | inr (k0, v0, rest, top, new, full, evicted) ↦
        (let before : IsUnique ((k0, v0) ∷ rest) = subst IsUnique top h.unique in
          let entries : Entries (λ k s. s.failure_recorded ≡ true) ((k0, v0) ∷ rest) =
            subst (Entries (λ k s. s.failure_recorded ≡ true)) top h.recorded in
          let absent : has k rest ≡ false =
            has-tail k k0 v0 rest (subst (λ m. has k m ≡ false) top new) in
          record {
            unique =
                rw
                  (
                    evicted,
                    archived-registry (record { key = k0; value = v0 }) l.archive
                        (rest ++ (k, v) ∷ []),
                  )
                  (IsUnique-snoc k v rest absent before.1);
            bounded =
                length-set (max 1 max_spawns) on_evict on_evict-KeepsKeys k v l.archive l.registry
                  h.unique;
            recorded =
                rw
                  (
                    evicted,
                    archived-registry (record { key = k0; value = v0 }) l.archive
                        (rest ++ (k, v) ∷ []),
                  )
                  (Entries-snoc (λ k s. s.failure_recorded ≡ true) k v rest marked entries.1);
          })
  ]
