-- ===== src/Espresso/Storage.antt =====
-- lib/espresso_storage/espresso_data.cc and espresso_storage.cc: the chunks of one node in its data
-- file. -1 is `none`. Offsets within a chunk are not negative; counts may be. write_chunk is undefined
-- where the sum of offset and count overflows an int; read_data takes that sum as exact, and is
-- called only where it is below 2^31: by write_chunk from 0 on, and by Node, which tests it.
pub mod Invariant
pub mod Cases
pub mod Steps
pub mod Contents
pub mod Growth
use deca_fs.Prelude.{
  ℕ, zero, suc, ◌+◌, ◌-◌, ◌%◌, ◌^◌, List, [], ◌∷◌, Option, none, some, Bool, true, false, ltb,
  if◌then◌else◌, take,
}
use deca_fs.Prelude.Int.{ℤ, pos, negsuc}
use deca_fs.OrdMap.{find, assign, erase}
use deca_fs.Espresso.Extents.{Extent}
use deca_fs.Espresso.Descriptor.{Descriptor, descriptor_lt}
use deca_fs.Espresso.Allocator.{
  allocate_chunk, deallocate_chunk, reallocate_chunk, moved, refused, aborted, undefined,
}

-- lseek(2) followed by read(2) or write(2) on the data file. `none` is the error of either call.
pub record DataFile : Type 1 where
  pub File : Type 0
  pub read_at : File → ℕ → ℕ → Option (List ℕ)
  pub write_at : File → ℕ → List ℕ → Option ℕ × File

-- espresso_global_data_t
pub record Store (F : Type 0) : Type 0 where
  pub file : F
  pub metadata : List (Descriptor × Extent)
  pub free_extents : List Extent

-- What write_chunk does: it returns, an assertion of reallocate_chunk fails, or the behaviour is
-- undefined.
pub data Outcome (F : Type 0) : Type 0 where
  returned : Option ℕ → Store F → Outcome F
  assert_failed : Outcome F
  not_defined : Outcome F

-- (size_t) of an int that may be negative, a - b
abbrev pub size_t_sub : ℕ → ℕ → ℕ
size_t_sub a b = (a + 2 ^ 64 - b) % 2 ^ 64

-- The bytes that read_data asks for: up to the end of the chunk.
unfoldable pub read_count : Extent → ℕ → ℕ → ℕ
read_count a offset n = if ltb a.size (n + offset) then size_t_sub a.size offset else n

-- `n` bytes of memory from a buffer on; behind its end lie bytes that it does not own.
unfoldable pub buffer : ℕ → List ℕ → (ℕ → ℕ) → List ℕ
buffer zero bs stray = []
buffer (suc n) [] stray = stray 0 ∷ buffer n [] (λ i. stray (suc i))
buffer (suc n) (b ∷ bs) stray = b ∷ buffer n bs stray

-- espresso_global_data_init, on a node with no free extent on record
unfoldable pub init_free_extents : ℕ → List Extent → List Extent
init_free_extents max_size [] = record { offset = 0; size = max_size } ∷ []
init_free_extents max_size (e ∷ es) = e ∷ es

module _ (d : DataFile) where
  open d use {File, read_at, write_at}

  -- read_data, and so read_chunk
  unfoldable pub read_data : Store File → Descriptor → ℕ → ℤ → Option (List ℕ)
  read_data s c offset (negsuc _) = none
  read_data s c offset (pos n) = elim (find descriptor_lt c s.metadata) [
    | none ↦ none
    | some a ↦ read_at s.file (a.offset + offset) (read_count a offset n)
  ]

  write_file_at : Store File → ℕ → List ℕ → Option ℕ × Store File
  write_file_at s p bs = let (r, f) = write_at s.file p bs in (r, record s { file = f })

  unfoldable pub write_data : Store File → Descriptor → ℕ → ℤ → List ℕ → Option ℕ × Store File
  unfolding write_file_at
  write_data s c offset (negsuc _) buf = (none, s)
  write_data s c offset (pos n) buf = elim (find descriptor_lt c s.metadata) [
    | none ↦ (none, s)
    | some a ↦
        if ltb a.size (n + offset)
        then (none, s)
        else write_file_at s (a.offset + offset) (take n buf)
  ]

  -- Both results of a function that cannot abort.
  abbrev pub returns : Option ℕ × Store File → Outcome File
  returns (r, s) = returned r s

  -- The chunk at its new address: its old bytes are written there, then the new ones. `old` holds the
  -- bytes that were read; write_data is given the new size with it.
  unfoldable pub write_moved :
      Store File → Descriptor → ℕ → ℕ → List ℕ → (ℕ → ℕ) → List ℕ → Extent → Outcome File
  write_moved s c offset n buf stray old b =
      let (r, s') = write_data s c 0 (pos b.size) (buffer b.size old stray) in
      elim r [ none ↦ returned none s' | some _ ↦ returns (write_data s' c offset (pos n) buf) ]

  unfoldable pub write_grown :
      Store File → Descriptor → ℕ → ℕ → List ℕ → (ℕ → ℕ) → Extent → Outcome File
  write_grown s c offset n buf stray a = elim (read_data s c 0 (pos a.size)) [
    | none ↦ returned none s
    | some old ↦ elim (reallocate_chunk a (offset + n) s.free_extents) [
      | moved b free ↦
          write_moved
            (record s { metadata = assign descriptor_lt c b s.metadata; free_extents = free }) c
            offset n buf stray old b
      | refused free ↦ returned none (record s { free_extents = free })
      | aborted ↦ assert_failed
      | undefined ↦ not_defined
    ]
  ]

  unfoldable pub write_new : Store File → Descriptor → ℕ → ℕ → List ℕ → Outcome File
  write_new s c offset n buf = elim (allocate_chunk (offset + n) s.free_extents) [
    | none ↦ returned none s
    | some (a, free) ↦ returns (
        write_data
          (record s { metadata = assign descriptor_lt c a s.metadata; free_extents = free }) c
          offset (pos n) buf)
  ]

  -- write_chunk. The sum of the ints offset and count overflows from 2^31 on, which is undefined.
  unfoldable pub write_chunk : Store File → Descriptor → ℕ → ℤ → List ℕ → (ℕ → ℕ) → Outcome File
  write_chunk s c offset (negsuc _) buf stray = returned none s
  write_chunk s c offset (pos n) buf stray =
      if ltb (offset + n) (2 ^ 31)
      then elim (find descriptor_lt c s.metadata) [
        | none ↦ write_new s c offset n buf
        | some a ↦
            if ltb a.size (offset + n)
            then write_grown s c offset n buf stray a
            else returns (write_data s c offset (pos n) buf)
      ]
      else not_defined

-- delete_chunk: true for 0, false for -1, and `none` where deallocate_chunk is undefined
unfoldable pub delete_chunk : {F : Type 0} → Store F → Descriptor → Option (Bool × Store F)
delete_chunk s c = elim (find descriptor_lt c s.metadata) [
  | none ↦ some (false, s)
  | some a ↦ elim (deallocate_chunk a s.free_extents) [
    | none ↦ none
    | some free ↦
        some (true, record s { metadata = erase descriptor_lt c s.metadata; free_extents = free })
  ]
]
