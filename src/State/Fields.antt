-- ===== src/State/Fields.antt =====
-- crates/juncture-core/src/state/trait_.rs: which fields an update changed, and what the engine
-- asks of a state type.
use juncture.Prelude.{
  ℕ, zero, suc, ◌^◌, String, ◌≡◌, refl, Bool, false, not, ◌||◌, List, arith, ◌==◌,
}
use Prim.Native.Nat.{bit_and, bit_or}
use juncture.Prelude.Result.{Result}
use juncture.Prelude.Bits.{bit, bit_and-pow_zero, bit-bit_or, bit-pow, bit-lt}

-- The mask is a 64-bit word, and an index is below 64.
pub record FieldsChanged : Type 0 where
  pub mask : ℕ

abbrev pub no_fields : FieldsChanged
no_fields = record { mask = 0 }

unfoldable pub is_empty_mask : FieldsChanged → Bool
is_empty_mask c = c.mask == 0

unfoldable pub has_field : FieldsChanged → ℕ → Bool
has_field c index = not (bit_and c.mask (2 ^ index) == 0)

unfoldable pub set_field : FieldsChanged → ℕ → FieldsChanged
set_field c index = record { mask = bit_or c.mask (2 ^ index) }

unfoldable pub merge : FieldsChanged → FieldsChanged → FieldsChanged
merge a b = record { mask = bit_or a.mask b.mask }

has_field-bit : (c : FieldsChanged) (i : ℕ) → has_field c i ≡ not (bit i c.mask == 0)
unfolding has_field
has_field-bit c i = ground (arith, bit_and-pow_zero i c.mask)

-- A merged set has exactly the fields that one of the two has.
pub has_field-merge :
    (a b : FieldsChanged) (i : ℕ) → has_field (merge a b) i ≡ (has_field a i || has_field b i)
unfolding merge
has_field-merge a b i = ground (
  arith,
  has_field-bit (merge a b) i,
  has_field-bit a i,
  has_field-bit b i,
  bit-bit_or i a.mask b.mask,
)

-- Marking a field adds that field and no other.
pub has_field-set_field :
    (c : FieldsChanged) (i j : ℕ) → has_field (set_field c i) j ≡ ((i == j) || has_field c j)
unfolding set_field
has_field-set_field c i j = ground (
  arith,
  has_field-bit (set_field c i) j,
  has_field-bit c j,
  bit-bit_or j c.mask (2 ^ i),
  bit-pow i j,
  bit-lt j c.mask,
)

pub no_fields-has_field : (i : ℕ) → has_field no_fields i ≡ false
no_fields-has_field i = ground (arith, has_field-bit no_fields i, zero_bit i)
  where
    zero_bit : (i : ℕ) → bit i 0 ≡ 0
    zero_bit zero = refl
    zero_bit (suc i) = zero_bit i

-- The trait `State`, as far as the engine calls it: the user's type, or the derive macro, provides
-- these. `try_apply` mutates the state before it reports an error, so the state comes back beside it.
pub record State (S U : Type 0) : Type 0 where
  pub try_apply : S → U → S × Result String FieldsChanged
  pub field_is_set : U → ℕ → Bool
  pub replace_field_indices : List ℕ
  pub finish_field : S → ℕ → S
  pub replace_after_finish_field_indices : List ℕ
  pub consume_field : S → ℕ → S
  pub field_count : ℕ
  pub reset_ephemeral : S → S
