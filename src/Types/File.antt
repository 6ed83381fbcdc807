-- ===== src/Types/File.antt =====
-- lib/decafs_types/file_types.h and limits.h: open files, chunks of files, and the limits.
use deca_fs.Prelude.{
  ℕ, ◌≤◌, ◌<◌, ◌≡◌, ◌≢◌, [], Bool, true, false, not, ◌&&◌, ltb, ◌==◌, if◌then◌else◌, arith,
}
use deca_fs.OrdMap.{IsStrictOrder, IsIrreflexive, equiv}
use deca_fs.Types.Client.{Client}

abbrev pub min_stripe : ℕ
min_stripe = 256

abbrev pub max_stripe : ℕ
max_stripe = 65536

abbrev pub min_chunk : ℕ
min_chunk = 128

abbrev pub max_chunk : ℕ
max_chunk = 65536

abbrev pub max_filename_length : ℕ
max_filename_length = 100

-- file_instance
pub record FileInstance : Type 0 where
  pub client_id : Client
  pub file_id : ℕ
  pub offset : ℕ

-- client()
abbrev pub null_client : Client
null_client = record { ip = []; user_id = 0; ctc = 0 }

-- file_instance()
abbrev pub null_instance : FileInstance
null_instance = record { client_id = null_client; file_id = 0; offset = 0 }

-- file_chunk
pub record FileChunk : Type 0 where
  pub file_id : ℕ
  pub stripe_id : ℕ
  pub chunk_num : ℕ

-- operator== of file_chunk
unfoldable pub same_chunk : FileChunk → FileChunk → Bool
same_chunk a b = a.file_id == b.file_id && a.stripe_id == b.stripe_id && a.chunk_num == b.chunk_num

-- operator< of file_chunk. Where the stripes differ it compares a file id with a stripe id.
unfoldable pub file_chunk_lt : FileChunk → FileChunk → Bool
file_chunk_lt a b =
    if not (a.file_id == b.file_id)
    then ltb a.file_id b.file_id
    else if not (a.stripe_id == b.stripe_id)
    then ltb a.file_id b.stripe_id
    else ltb a.chunk_num b.chunk_num

pub file_chunk_lt-IsIrreflexive : IsIrreflexive file_chunk_lt
unfolding file_chunk_lt
file_chunk_lt-IsIrreflexive a = ground arith

-- Two chunks that are one key to operator< are of one file.
pub same_file_of_equiv : (a b : FileChunk) → equiv file_chunk_lt a b ≡ true → a.file_id ≡ b.file_id
unfolding file_chunk_lt equiv
same_file_of_equiv a b h = ground (arith, h)

-- Chunks of one file in two stripes whose numbers do not exceed the file's id are one key to
-- operator<, though operator== tells them apart.
pub file_chunk_lt_collides :
    (a b : FileChunk)
    → a.file_id ≡ b.file_id
    → a.stripe_id ≢ b.stripe_id
    → a.stripe_id ≤ a.file_id
    → b.stripe_id ≤ b.file_id
    → (same_chunk a b ≡ false) × (equiv file_chunk_lt a b ≡ true)
unfolding same_chunk file_chunk_lt equiv
file_chunk_lt_collides a b f s h k = (ground arith, ground arith)

-- Where both stripe numbers exceed the file's id, each of the two chunks is before the other.
pub file_chunk_lt_cycles :
    (a b : FileChunk)
    → a.file_id ≡ b.file_id
    → a.stripe_id ≢ b.stripe_id
    → a.file_id < a.stripe_id
    → b.file_id < b.stripe_id
    → (file_chunk_lt a b ≡ true) × (file_chunk_lt b a ≡ true)
unfolding file_chunk_lt
file_chunk_lt_cycles a b f s h k = (ground arith, ground arith)

-- Chunks by file, stripe and number: an order to read operator< against
unfoldable pub by_number : FileChunk → FileChunk → Bool
by_number a b =
    if not (a.file_id == b.file_id)
    then ltb a.file_id b.file_id
    else if not (a.stripe_id == b.stripe_id)
    then ltb a.stripe_id b.stripe_id
    else ltb a.chunk_num b.chunk_num

by_number_irrefl : (a : FileChunk) → by_number a a ≡ false
unfolding by_number
by_number_irrefl a = ground arith

by_number_trans :
    (a b c : FileChunk) → by_number a b ≡ true → by_number b c ≡ true → by_number a c ≡ true
unfolding by_number
by_number_trans a b c h k = ground arith

by_number_connected : (a b : FileChunk) → by_number a b ≡ false → by_number b a ≡ false → a ≡ b
unfolding by_number
by_number_connected a b h k = ground arith

pub by_number-IsStrictOrder : IsStrictOrder by_number
by_number-IsStrictOrder = record {
  irrefl = by_number_irrefl;
  lt_trans = by_number_trans;
  connected = by_number_connected;
}
