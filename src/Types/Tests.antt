-- ===== src/Types/Tests.antt =====
-- Chunks of one file that the order of file_chunk takes for one, and chunks that it puts in a circle.
use deca_fs.Prelude.{ℕ, ◌≡◌, true, false, arith, refl}
use deca_fs.OrdMap.{equiv}
use deca_fs.Types.File.{
  FileChunk, same_chunk, file_chunk_lt, file_chunk_lt_collides, file_chunk_lt_cycles,
}

abbrev chunk : ℕ → ℕ → FileChunk
chunk file_id stripe_id = record { file_id = file_id; stripe_id = stripe_id; chunk_num = 1 }

file_chunk_lt_collides_example :
    (same_chunk (chunk 5 1) (chunk 5 2) ≡ false)
    × (equiv file_chunk_lt (chunk 5 1) (chunk 5 2) ≡ true)
file_chunk_lt_collides_example =
    file_chunk_lt_collides (chunk 5 1) (chunk 5 2) refl (λ h. omega arith) (omega arith)
      (omega arith)

file_chunk_lt_cycles_example :
    (file_chunk_lt (chunk 1 2) (chunk 1 3) ≡ true) × (file_chunk_lt (chunk 1 3) (chunk 1 2) ≡ true)
file_chunk_lt_cycles_example =
    file_chunk_lt_cycles (chunk 1 2) (chunk 1 3) refl (λ h. omega arith) (omega arith) (omega arith)
