-- ===== src/Util/MembershipFilter/NoFalseNegatives.antt =====
-- What was added is found, whatever was added after it, and the array keeps the length it was made with.
use observ_me.Prelude.{
  ℕ, ◌==◌, nat_eq, same_refl, ◌≡◌, refl, Bool, true, false, ◌&&◌, ◌||◌, List, [], ◌∷◌, Str,
  str_equality, str_eq_iff, arith, any, Bool-cases, inl, inr,
}
use observ_me.Util.MembershipFilter.{
  Digest, Filter, set_digest_bit, has_digest_bit, digest_bit_index, add, has_member, add_many,
}
use mathlib.Core.Path.{subst}

has_digest_bit-set_self : (f : Filter) (w : ℕ) → has_digest_bit (set_digest_bit w f) w ≡ true
unfolding has_digest_bit set_digest_bit
has_digest_bit-set_self f w = rw (same_refl (digest_bit_index f w))

or_right : (a b : Bool) → b ≡ true → (a || b) ≡ true
or_right true b h = refl
or_right false b h = h

has_digest_bit-set_other :
    (f : Filter) (w u : ℕ)
    → has_digest_bit f w ≡ true
    → has_digest_bit (set_digest_bit u f) w ≡ true
unfolding has_digest_bit set_digest_bit
has_digest_bit-set_other f w u h = or_right _ _ h

and4 : (a b c d : Bool) → a ≡ true → b ≡ true → c ≡ true → d ≡ true → (a && b && c && d) ≡ true
and4 a b c d p q r s = rw (p, q, r) s

and4_parts :
    (a b c d : Bool) → (a && b && c && d) ≡ true → (a ≡ true) × (b ≡ true) × (c ≡ true) × (d ≡ true)
and4_parts true true true d h = (refl, refl, refl, h)
and4_parts false b c d h = ground arith
and4_parts true false c d h = ground arith
and4_parts true true false d h = ground arith

module _ (sha256 : Str → Digest) where
  keeps_bit :
      (f : Filter) (v : Str) (w : ℕ)
      → has_digest_bit f w ≡ true
      → has_digest_bit (add sha256 v f) w ≡ true
  unfolding add
  keeps_bit f v w h = has_digest_bit-set_other _ w _ (
      has_digest_bit-set_other _ w _
        (has_digest_bit-set_other _ w _ (has_digest_bit-set_other f w _ h)))

  pub has_member-add_self : (f : Filter) (v : Str) → has_member sha256 (add sha256 v f) v ≡ true
  unfolding has_member add
  has_member-add_self f v =
      let d = sha256 v in
      let f1 = set_digest_bit d.word_0 f in
      let f2 = set_digest_bit d.word_1 f1 in
      let f3 = set_digest_bit d.word_2 f2 in
      and4 _ _ _ _
        (has_digest_bit-set_other f3 d.word_0 d.word_3 (
          has_digest_bit-set_other f2 d.word_0 d.word_2
            (has_digest_bit-set_other f1 d.word_0 d.word_1 (has_digest_bit-set_self f d.word_0))))
        (has_digest_bit-set_other f3 d.word_1 d.word_3
          (has_digest_bit-set_other f2 d.word_1 d.word_2 (has_digest_bit-set_self f1 d.word_1)))
        (has_digest_bit-set_other f3 d.word_2 d.word_3 (has_digest_bit-set_self f2 d.word_2))
        (has_digest_bit-set_self f3 d.word_3)

  pub has_member-add :
      (f : Filter) (u v : Str)
      → has_member sha256 f v ≡ true
      → has_member sha256 (add sha256 u f) v ≡ true
  unfolding has_member
  has_member-add f u v h =
      let (a, b, c, d) = and4_parts _ _ _ _ h in
      and4 _ _ _ _ (keeps_bit f u _ a) (keeps_bit f u _ b) (keeps_bit f u _ c) (keeps_bit f u _ d)

  has_member-add_many_after :
      (us : List Str) (f : Filter) (v : Str)
      → has_member sha256 f v ≡ true
      → has_member sha256 (add_many sha256 us f) v ≡ true
  has_member-add_many_after [] f v h = h
  has_member-add_many_after (u ∷ us) f v h =
      has_member-add_many_after us (add sha256 u f) v (has_member-add f u v h)

  -- A filter never denies a value that is among those added to it, in whatever state it was before,
  -- whatever else was added, and for every digest function.
  pub has_member-add_many :
      (vs : List Str) (f : Filter) (v : Str)
      → any (λ u. u == v) vs ≡ true
      → has_member sha256 (add_many sha256 vs f) v ≡ true
  has_member-add_many [] f v h = ground arith
  has_member-add_many (u ∷ vs) f v h = elim (Bool-cases (u == v)) [
    | inl same ↦ has_member-add_many_after vs (add sha256 u f) v (
        subst (λ x. has_member sha256 (add sha256 u f) x ≡ true) ((str_eq_iff u v).0 same)
          (has_member-add_self f u))
    | inr other ↦
        (let rest : (false || any (λ u. u == v) vs) ≡ true = rw other at h in
          has_member-add_many vs (add sha256 u f) v rest)
  ]
