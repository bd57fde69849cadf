-- ===== src/Pi/Subagent/Accounting/Steps.antt =====
-- What one call does to the ledger: what it keeps, what it knows afterwards, and what it counts.
use mathlib.Core.Path.{subst}
use observ_me.Prelude.{
  ℕ, zero, ◌≡◌, refl, sym, ◌∙◌, ◌⊎◌, inl, inr, ◌==◌, Bool, true, false, not, ◌&&◌, ◌||◌, Option,
  none, some, Str, str_equality, str_eq_iff, Bool-cases, Option-cases, arith,
}
use observ_me.Util.JsMap.{get, has, is_some-get}
use observ_me.Util.JsMap.Entries.{Entries-get}
use observ_me.Util.MembershipFilter.{Digest, Filter, has_member}
use observ_me.Util.MembershipFilter.NoFalseNegatives.{has_member-add_self}
use observ_me.Pi.Subagent.Accounting.{
  ChildFailureAccountingState, Ledger, Counted, failure_token, recovery_token, add_if,
  record_archived_child_failure_accounting, record_in_registry, record_child_failure_accounting,
  failure_recorded_of, recovery_recorded_of,
}
use observ_me.Pi.Subagent.Accounting.Known.{
  IsSoundLedger, KnowsFailure, KnowsRecovery, after_set, set-KnowsFailure, set-KnowsRecovery_self,
  set-KnowsRecovery_other, set-IsSoundLedger, get-set_self, add_if-keeps,
}

or-true_right : (a b : Bool) → b ≡ true → (a || b) ≡ true
or-true_right true b h = refl
or-true_right false b h = h

module _ (sha256 : Str → Digest) where
  -- What the archive's part of a call does where it knows the child.
  record Archived (k : Str) (confirmed : Bool) (f : Filter) (r : Counted × Filter) : Type 0 where
    keeps : (v : Str) → has_member sha256 f v ≡ true → has_member sha256 r.1 v ≡ true
    knows : has_member sha256 r.1 (failure_token k) ≡ true
    fresh_failure : has_member sha256 f (failure_token k) ≡ true → r.0.failure ≡ false
    fresh_recovery : has_member sha256 f (recovery_token k) ≡ true → r.0.recovery ≡ false
    knows_recovery : r.0.recovery ≡ true → has_member sha256 r.1 (recovery_token k) ≡ true

  abbrev archived_of : Str → Bool → Bool → Bool → Filter → Counted × Filter
  archived_of k confirmed known recovered f = (
    record { failure = not known; recovery = confirmed && not recovered },
    add_if sha256 (confirmed && not recovered) (recovery_token k)
        (add_if sha256 (not known) (failure_token k) f),
  )

  add_if-adds :
      (b : Bool) (v : Str) (f : Filter)
      → b ≡ true
      → has_member sha256 (add_if sha256 b v f) v ≡ true
  add_if-adds true v f h = has_member-add_self sha256 f v
  add_if-adds false v f h = ground arith

  add_if-knows :
      (known : Bool) (v : Str) (f : Filter)
      → has_member sha256 f v ≡ known
      → has_member sha256 (add_if sha256 (not known) v f) v ≡ true
  add_if-knows true v f h = h
  add_if-knows false v f h = has_member-add_self sha256 f v

  archived_of-Archived :
      (k : Str) (confirmed known recovered : Bool) (f : Filter)
      → has_member sha256 f (failure_token k) ≡ known
      → has_member sha256 f (recovery_token k) ≡ recovered
      → Archived k confirmed f (archived_of k confirmed known recovered f)
  archived_of-Archived k confirmed known recovered f hk hr =
      let b = confirmed && not recovered in
      let f1 = add_if sha256 (not known) (failure_token k) f in
      record {
        keeps = λ v h.
            add_if-keeps sha256 zero b (recovery_token k) v f1
              (add_if-keeps sha256 zero (not known) (failure_token k) v f h);
        knows =
            add_if-keeps sha256 zero b (recovery_token k) (failure_token k) f1
              (add_if-knows known (failure_token k) f hk);
        fresh_failure = λ h. ground (arith, hk, h);
        fresh_recovery = λ h. ground (arith, hr, h);
        knows_recovery = λ h. add_if-adds b (recovery_token k) f1 h;
      }

  -- The archive knows the child, or it knows neither token of it.
  Archived-cases :
      (k : Str) (confirmed : Bool) (f : Filter)
      → ((r : Counted × Filter) × (record_archived_child_failure_accounting sha256 k confirmed f
            ≡ some r)
          × Archived k confirmed f r)
        ⊎ ((record_archived_child_failure_accounting sha256 k confirmed f ≡ none)
            × (has_member sha256 f (failure_token k) ≡ false)
            × (has_member sha256 f (recovery_token k) ≡ false))
  unfolding record_archived_child_failure_accounting
  Archived-cases k confirmed f = elim (Bool-cases (has_member sha256 f (failure_token k))) [
    | inl known ↦
        let recovered = has_member sha256 f (recovery_token k) in
        inl (
          archived_of k confirmed true recovered f,
          rw known,
          archived_of-Archived k confirmed true recovered f known refl,
        )
    | inr unknown ↦ elim (Bool-cases (has_member sha256 f (recovery_token k))) [
      | inl recovered ↦ inl (
        archived_of k confirmed false true f,
        rw (unknown, recovered),
        archived_of-Archived k confirmed false true f unknown recovered,
      )
      | inr missing ↦ inr (rw (unknown, missing), unknown, missing)
    ]
  ]

  module _ (max_spawns : ℕ) where
    abbrev next_state : Bool → Option ChildFailureAccountingState → ChildFailureAccountingState
    next_state confirmed current = record {
      failure_recorded = true;
      recovery_recorded = recovery_recorded_of sha256 current || confirmed;
    }

    abbrev counted_of : Bool → Option ChildFailureAccountingState → Counted
    counted_of confirmed current = record {
      failure = not (failure_recorded_of sha256 current);
      recovery = confirmed && not (recovery_recorded_of sha256 current);
    }

    abbrev pub step : Str → Bool → Ledger → Counted × Ledger
    step k confirmed l = record_child_failure_accounting sha256 max_spawns k confirmed l

    -- A call sets an entry, in which case the child had one or the archive does not know it, or it
    -- leaves the registry alone and the archive knows the child.
    step-cases :
        (k : Str) (confirmed : Bool) (l : Ledger)
        → ((current : Option ChildFailureAccountingState) × (get k l.registry ≡ current)
            × (step k confirmed l ≡ (
              counted_of confirmed current,
              after_set sha256 max_spawns k (next_state confirmed current) l,
            ))
            × (current ≡ none
                → (has_member sha256 l.archive (failure_token k) ≡ false)
                  × (has_member sha256 l.archive (recovery_token k) ≡ false)))
          ⊎ ((r : Counted × Filter) × (get k l.registry ≡ none)
              × (step k confirmed l ≡ (r.0, record { registry = l.registry; archive = r.1 }))
              × Archived k confirmed l.archive r)
    unfolding record_child_failure_accounting record_in_registry
    step-cases k confirmed l = elim (Option-cases (get k l.registry)) [
      | inr (s, found) ↦ inl (some s, found, rw found, λ e. absurd (cc e))
      | inl missing ↦ elim (Archived-cases k confirmed l.archive) [
        | inl (r, known, a) ↦ inr (r, missing, rw (missing, known), a)
        | inr (unknown, nf, nr) ↦ inl (none, missing, rw (missing, unknown), λ e. (nf, nr))
      ]
    ]

    abbrev pub Sound : Ledger → Type 0
    Sound l = IsSoundLedger sha256 max_spawns l

    abbrev pub Failed : Str → Ledger → Type 0
    Failed c l = KnowsFailure sha256 max_spawns c l

    abbrev pub Recovered : Str → Ledger → Type 0
    Recovered c l = KnowsRecovery sha256 max_spawns c l

    pub step-IsSoundLedger :
        (k : Str) (confirmed : Bool) (l : Ledger) → Sound l → Sound (step k confirmed l).1
    step-IsSoundLedger k confirmed l h = elim (step-cases k confirmed l) [
      | inl (current, found, made, fresh) ↦
          rw made (set-IsSoundLedger sha256 max_spawns k (next_state confirmed current) l refl h)
      | inr (r, missing, made, a) ↦
          rw made (record { unique = h.unique; bounded = h.bounded; recorded = h.recorded })
    ]

    pub step-keeps_failure :
        (c k : Str) (confirmed : Bool) (l : Ledger)
        → Sound l
        → Failed c l
        → Failed c (step k confirmed l).1
    step-keeps_failure c k confirmed l h known = elim (step-cases k confirmed l) [
      | inl (current, found, made, fresh) ↦
          rw made (set-KnowsFailure sha256 max_spawns c k (next_state confirmed current) l h known)
      | inr (r, missing, made, a) ↦ rw made (elim known [
        | inl here ↦ inl here
        | inr archived ↦ inr (a.keeps (failure_token c) archived)
      ])
    ]

    pub step-knows_failure :
        (k : Str) (confirmed : Bool) (l : Ledger) → Sound l → Failed k (step k confirmed l).1
    step-knows_failure k confirmed l h = elim (step-cases k confirmed l) [
      | inl (current, found, made, fresh) ↦
          let after = after_set sha256 max_spawns k (next_state confirmed current) l in
          let set_entry = get-set_self sha256 max_spawns k (next_state confirmed current) l h in
          rw made (inl (ground (arith, is_some-get k after.registry, set_entry)))
      | inr (r, missing, made, a) ↦ rw made (inr a.knows)
    ]

    absent_of : (k : Str) (l : Ledger) → get k l.registry ≡ none → has k l.registry ≡ false
    absent_of k l missing = ground (arith, is_some-get k l.registry, missing)

    missing_of : (k : Str) (l : Ledger) → has k l.registry ≡ false → get k l.registry ≡ none
    missing_of k l absent = elim (Option-cases (get k l.registry)) [
      | inl missing ↦ missing
      | inr (s, found) ↦
          absurd (let there = is_some-get k l.registry in ground (arith, there, found, absent))
    ]

    -- A failure that the ledger knows is not counted again.
    pub step-counts_no_failure :
        (k : Str) (confirmed : Bool) (l : Ledger)
        → Sound l
        → Failed k l
        → (step k confirmed l).0.failure ≡ false
    step-counts_no_failure k confirmed l h known = elim (step-cases k confirmed l) [
      | inl (some s, found, made, fresh) ↦
          let marked : s.failure_recorded ≡ true =
            Entries-get (λ c x. x.failure_recorded ≡ true) k s l.registry h.recorded found in
          rw (made, marked)
      | inl (none, missing, made, fresh) ↦ rw made (elim known [
        | inl here ↦ absurd (let gone = absent_of k l missing in cc)
        | inr archived ↦ absurd (let unknown = (fresh refl).0 in cc)
      ])
      | inr (r, missing, made, a) ↦ rw made (elim known [
        | inl here ↦ absurd (let gone = absent_of k l missing in cc)
        | inr archived ↦ a.fresh_failure archived
      ])
    ]

    Recovered-current :
        (k : Str) (current : Option ChildFailureAccountingState) (l : Ledger)
        → get k l.registry ≡ current
        → (current ≡ none
            → (has_member sha256 l.archive (failure_token k) ≡ false)
              × (has_member sha256 l.archive (recovery_token k) ≡ false))
        → Recovered k l
        → recovery_recorded_of sha256 current ≡ true
    Recovered-current k current l found fresh known = elim known [
      | inl (s, here, marked) ↦
          let same : current ≡ some s = sym found ∙ here in ground (arith, same, marked)
      | inr (absent, archived) ↦
          let unknown = (fresh (sym found ∙ missing_of k l absent)).1 in
          absurd (cc (unknown, archived))
    ]

    pub step-counts_no_recovery :
        (k : Str) (confirmed : Bool) (l : Ledger)
        → Recovered k l
        → (step k confirmed l).0.recovery ≡ false
    step-counts_no_recovery k confirmed l known = elim (step-cases k confirmed l) [
      | inl (current, found, made, fresh) ↦
          let kept = Recovered-current k current l found fresh known in
          rw made (ground (arith, kept))
      | inr (r, missing, made, a) ↦ rw made (elim known [
        | inl (s, here, marked) ↦ absurd (cc (missing, here))
        | inr (absent, archived) ↦ a.fresh_recovery archived
      ])
    ]

    pub step-keeps_recovery :
        (c k : Str) (confirmed : Bool) (l : Ledger)
        → Sound l
        → Recovered c l
        → Recovered c (step k confirmed l).1
    step-keeps_recovery c k confirmed l h known = elim (step-cases k confirmed l) [
      | inl (current, found, made, fresh) ↦ elim (Bool-cases (k == c)) [
        | inr apart ↦ rw made (
            set-KnowsRecovery_other sha256 max_spawns c k (next_state confirmed current) l h apart
              known)
        | inl same ↦
            let k_is_c = (str_eq_iff k c).0 same in
            let known_k : Recovered k l = subst (λ x. Recovered x l) (sym k_is_c) known in
            let kept = Recovered-current k current l found fresh known_k in
            let marked : (next_state confirmed current).recovery_recorded ≡ true =
              ground (arith, kept) in
            rw made (
              subst
                (λ x. Recovered x (after_set sha256 max_spawns k (next_state confirmed current) l))
                k_is_c
                (set-KnowsRecovery_self sha256 max_spawns k (next_state confirmed current) l h
                  marked))
      ]
      | inr (r, missing, made, a) ↦ rw made (elim known [
        | inl here ↦ inl here
        | inr (absent, archived) ↦ inr (absent, a.keeps (recovery_token c) archived)
      ])
    ]

    pub step-knows_recovery :
        (k : Str) (confirmed : Bool) (l : Ledger)
        → Sound l
        → (step k confirmed l).0.recovery ≡ true
        → Recovered k (step k confirmed l).1
    step-knows_recovery k confirmed l h counted = elim (step-cases k confirmed l) [
      | inl (current, found, made, fresh) ↦
          let was : (counted_of confirmed current).recovery ≡ true = rw made at counted in
          let marked : (next_state confirmed current).recovery_recorded ≡ true =
            ground (arith, was) in
          rw made
            (set-KnowsRecovery_self sha256 max_spawns k (next_state confirmed current) l h marked)
      | inr (r, missing, made, a) ↦
          let was : r.0.recovery ≡ true = rw made at counted in
          rw made (inr (absent_of k l missing, a.knows_recovery was))
    ]
