-- ===== src/Espresso/Tests.antt =====
-- A data file in memory and a node with two chunks: the results on them.
use deca_fs.Prelude.{ℕ, ◌<◌, ◌≡◌, none, false, if◌then◌else◌, ◌≢◌, refl, ap, [], ◌∷◌, some, arith}
use deca_fs.Prelude.Int.{pos}
use deca_fs.OrdMap.{equiv, find}
use deca_fs.Espresso.Extents.{Extent, lower_bound, extent_lt}
use deca_fs.Espresso.Descriptor.{Descriptor, descriptor_lt}
use deca_fs.Espresso.Allocator.{allocate_chunk, deallocate_chunk, reallocate_chunk, joins_after}
use deca_fs.Espresso.Allocator.Release.{release, deallocate_chunk-release}
use deca_fs.Espresso.Allocator.Allocate.{Allocates, allocate_chunk-Allocates}
use deca_fs.Espresso.Allocator.Reallocate.{Reallocates, reallocate_chunk-Reallocates}
use deca_fs.Espresso.Storage.{write_chunk, read_data, read_count}
use deca_fs.Espresso.Storage.Steps.{Keeps, write_chunk-Keeps}
use deca_fs.Espresso.Storage.Contents.{
  Reads, WritesOrRefuses, write_chunk-Reads, write_chunk-WritesOrRefuses,
}
use deca_fs.Espresso.Storage.Growth.{write_chunk-Reads_front}
use deca_fs.Espresso.Memory.{
  memory, memory-IsReliable, first, second, at_0, at_10, rest, node, node-HasLayout,
}

first≢second : first ≢ second
first≢second h = absurd (omega (arith, ap (λ (c : Descriptor). c.chunk_num) h))

find-first : find descriptor_lt first node.metadata ≡ some at_0
unfolding find equiv descriptor_lt
find-first = refl

find-second : find descriptor_lt second node.metadata ≡ some at_10
unfolding find equiv descriptor_lt
find-second = refl

read_first : read_data memory node first 0 (pos 2) ≡ some (0 ∷ 1 ∷ [])
unfolding read_data find equiv descriptor_lt read_count
read_first = refl

read_second : read_data memory node second 1 (pos 2) ≡ some (11 ∷ 12 ∷ [])
unfolding read_data find equiv descriptor_lt read_count
read_second = refl

-- Behind the first chunk lies the second, and no free extent.
first_grows :
    (size : ℕ) (a : Extent)
    → find descriptor_lt first node.metadata ≡ some a
    → a.size < size
    → joins_after a node.free_extents ≡ false
unfolding find equiv descriptor_lt joins_after lower_bound extent_lt
first_grows size a e h = ground (arith, e)

stray : ℕ → ℕ
stray i = 255

-- The first chunk grows from 10 to 12 bytes.
write_chunk-Keeps_example : Keeps 100 (write_chunk memory node first 10 (pos 2) (7 ∷ 8 ∷ []) stray)
write_chunk-Keeps_example =
    write_chunk-Keeps memory 100 node first 10 (pos 2) (7 ∷ 8 ∷ []) stray node-HasLayout
      (omega arith, omega arith, first_grows 12)

write_chunk-Reads_example :
    Reads memory memory-IsReliable 100 second 1 2
      (11 ∷ 12 ∷ [])
      (write_chunk memory node first 10 (pos 2) (7 ∷ 8 ∷ []) stray)
write_chunk-Reads_example =
    write_chunk-Reads memory memory-IsReliable 100 node first second at_10 10 2 1 2 (7 ∷ 8 ∷ [])
      (11 ∷ 12 ∷ []) stray node-HasLayout (omega arith) (omega arith) (first_grows 12) first≢second
      find-second (omega arith) refl read_second

write_chunk-WritesOrRefuses_example :
    WritesOrRefuses memory memory-IsReliable 100 node first 10 2
      (7 ∷ 8 ∷ [])
      (write_chunk memory node first 10 (pos 2) (7 ∷ 8 ∷ []) stray)
write_chunk-WritesOrRefuses_example =
    write_chunk-WritesOrRefuses memory memory-IsReliable 100 node first 10 2 (7 ∷ 8 ∷ []) stray
      node-HasLayout (omega arith) (omega arith) (first_grows 12) refl

write_chunk-Reads_front_example :
    Reads memory memory-IsReliable 100 first 0 2
      (0 ∷ 1 ∷ [])
      (write_chunk memory node first 2 (pos 12) (9 ∷ 9 ∷ []) stray)
write_chunk-Reads_front_example =
    write_chunk-Reads_front memory memory-IsReliable 100 node first at_0 2 12 (9 ∷ 9 ∷ [])
      (0 ∷ 1 ∷ []) stray node-HasLayout (omega arith) (omega arith) (first_grows 14) find-first
      (omega arith) refl read_first

reallocate_chunk-Reallocates_example :
    Reallocates at_10 15 (at_0 ∷ []) (reallocate_chunk at_10 15 (at_0 ∷ []))
reallocate_chunk-Reallocates_example =
    reallocate_chunk-Reallocates at_10 15 (at_0 ∷ []) (omega arith) (omega arith) (omega arith)
      (omega arith)

deallocate_chunk-release_example :
    deallocate_chunk at_10 (at_0 ∷ [])
    ≡ (if joins_after at_10 (at_0 ∷ []) then none else some (release at_10 (at_0 ∷ [])))
deallocate_chunk-release_example =
    deallocate_chunk-release at_10 0 (at_0 ∷ []) (omega arith) (omega arith) (omega arith)

allocate_chunk-Allocates_example : Allocates 5 0 (rest ∷ []) (allocate_chunk 5 (rest ∷ []))
allocate_chunk-Allocates_example =
    allocate_chunk-Allocates 5 (rest ∷ []) (omega arith) (omega arith)
