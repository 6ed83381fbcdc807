-- ===== src/Espresso/Descriptor.antt =====
-- lib/espresso_storage/espresso_types.h and espresso_state.h: the name of a chunk on one node. The ids
-- that the Barista gives out are never negative.
use deca_fs.Prelude.{ℕ, ◌≡◌, Bool, true, false, ltb, ◌==◌, not, if◌then◌else◌, arith, ℕ_discrete}
use deca_fs.OrdMap.{IsStrictOrder}

-- A data_descriptor.
pub record Descriptor : Type 0 where
  pub file_id : ℕ
  pub stripe_id : ℕ
  pub chunk_num : ℕ

-- operator< of data_descriptor
unfoldable pub descriptor_lt : Descriptor → Descriptor → Bool
descriptor_lt a b =
    if not (a.file_id == b.file_id)
    then ltb a.file_id b.file_id
    else if not (a.stripe_id == b.stripe_id)
    then ltb a.stripe_id b.stripe_id
    else ltb a.chunk_num b.chunk_num

descriptor_lt_irrefl : (a : Descriptor) → descriptor_lt a a ≡ false
unfolding descriptor_lt
descriptor_lt_irrefl a = ground arith

descriptor_lt_trans :
    (a b c : Descriptor)
    → descriptor_lt a b ≡ true
    → descriptor_lt b c ≡ true
    → descriptor_lt a c ≡ true
unfolding descriptor_lt
descriptor_lt_trans a b c h k = ground arith

descriptor_lt_connected :
    (a b : Descriptor) → descriptor_lt a b ≡ false → descriptor_lt b a ≡ false → a ≡ b
unfolding descriptor_lt
descriptor_lt_connected a b h k = ground arith

-- The chunks of a node are ordered by file, then by stripe, then by chunk, with no two alike.
pub descriptor_lt-IsStrictOrder : IsStrictOrder descriptor_lt
descriptor_lt-IsStrictOrder = record {
  irrefl = descriptor_lt_irrefl;
  lt_trans = descriptor_lt_trans;
  connected = descriptor_lt_connected;
}

pub Descriptor-discrete : Discrete Descriptor
Descriptor-discrete = hlevel ℕ_discrete
