-- ===== src/Util/MembershipFilter.antt =====
-- src/util/bounded-membership-filter.ts: a Bloom filter on four words of a SHA-256 digest. The byte
-- array is the function from a bit's index to the bit: byte `index / 8`, place `index % 8`. The digest
-- is not of this repository: it is a parameter, read as the four words that `readUInt32BE` gives.
mod Examples
pub mod NoFalseNegatives
use observ_me.Prelude.{
  ℕ, ◌==◌, nat_eq, same_refl, ◌≡◌, refl, Bool, true, false, not, ◌&&◌, ◌||◌, Option, none, some,
  List, [], ◌∷◌, Str, ltb, if◌then◌else◌, max, ◌+◌, ◌*◌, ◌/◌, ◌%◌, ◌<◌, ◌≤◌, arith, all, Bool-cases,
  inl, inr,
}
use observ_me.Prelude.JsNumber.{JsNumber, finite, whole, is_integer, below}

abbrev pub bits_per_expected_entry : ℕ
bits_per_expected_entry = 16

abbrev pub minimum_byte_length : ℕ
minimum_byte_length = 128

-- The words of the digest that the four hash functions read.
pub record Digest : Type 0 where
  pub word_0 : ℕ
  pub word_1 : ℕ
  pub word_2 : ℕ
  pub word_3 : ℕ

pub record Filter : Type 0 where
  pub byte_length : ℕ
  pub bits : ℕ → Bool

unfoldable pub is_valid_expected_entries : JsNumber → Bool
is_valid_expected_entries n = is_integer n && not (below n 1)

abbrev pub expected_count : JsNumber → ℕ
expected_count (finite s w f) = w
expected_count n = 0

-- Math.ceil of a quotient by 8
abbrev pub ceil_eighth : ℕ → ℕ
ceil_eighth n = (n + 7) / 8

-- The constructor; none where it throws.
unfoldable pub new_filter : JsNumber → Option Filter
unfolding is_valid_expected_entries
new_filter n =
    if is_valid_expected_entries n
    then some (record {
      byte_length =
          max minimum_byte_length (ceil_eighth (expected_count n * bits_per_expected_entry));
      bits = λ i. false;
    })
    else none

unfoldable pub digest_bit_index : Filter → ℕ → ℕ
digest_bit_index f word = word % (f.byte_length * 8)

unfoldable pub set_digest_bit : ℕ → Filter → Filter
unfolding digest_bit_index
set_digest_bit word f =
    let bit_index = digest_bit_index f word in
    record { byte_length = f.byte_length; bits = λ i. i == bit_index || f.bits i }

unfoldable pub has_digest_bit : Filter → ℕ → Bool
unfolding digest_bit_index
has_digest_bit f word = f.bits (digest_bit_index f word)

unfoldable pub clear : Filter → Filter
clear f = record { byte_length = f.byte_length; bits = λ i. false }

module _ (sha256 : Str → Digest) where
  unfoldable pub add : Str → Filter → Filter
  unfolding set_digest_bit
  add value f =
      let digest = sha256 value in
      set_digest_bit digest.word_3 (
        set_digest_bit digest.word_2
          (set_digest_bit digest.word_1 (set_digest_bit digest.word_0 f)))

  unfoldable pub has_member : Filter → Str → Bool
  unfolding has_digest_bit
  has_member f value =
      let digest = sha256 value in
      has_digest_bit f digest.word_0
      && has_digest_bit f digest.word_1
      && has_digest_bit f digest.word_2
      && has_digest_bit f digest.word_3

  abbrev pub add_many : List Str → Filter → Filter
  add_many [] f = f
  add_many (v ∷ vs) f = add_many vs (add v f)
