-- ===== src/Util/MembershipFilter/Examples.antt =====
-- The membership filter at a digest that is the length of the value.
use observ_me.Prelude.{◌≡◌, refl, true, false, [], ◌∷◌, Str, lit, length}
use observ_me.Util.MembershipFilter.{Digest, Filter, has_member, add_many}
use observ_me.Util.MembershipFilter.NoFalseNegatives.{has_member-add_many}

abbrev length_digest : Str → Digest
length_digest s = record { word_0 = length s; word_1 = 7; word_2 = length s; word_3 = 9 }

abbrev empty_filter : Filter
empty_filter = record { byte_length = 128; bits = λ i. false }

has_member-add_many_example :
    has_member length_digest
      (add_many length_digest (lit "a" ∷ lit "bc" ∷ []) empty_filter)
      (lit "bc")
    ≡ true
has_member-add_many_example =
    has_member-add_many length_digest (lit "a" ∷ lit "bc" ∷ []) empty_filter (lit "bc") refl
