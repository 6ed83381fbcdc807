-- ===== src/Node/Tests.antt =====
-- A write request to a node in memory.
use deca_fs.Prelude.{ℕ, refl, ◌≡◌, some, false, [], ◌∷◌, arith}
use deca_fs.Prelude.Int.{pos}
use deca_fs.Packets.{FileFields, chunk_fields, write_chunk_request}
use deca_fs.Packets.RoundTrip.{AreWords}
use deca_fs.Espresso.Memory.{memory, memory-IsReliable, node, node-HasLayout}
use deca_fs.Node.{handle_message, chunk_of}
use deca_fs.OrdMap.{equiv, find}
use deca_fs.Espresso.Extents.{Extent, lower_bound, extent_lt}
use deca_fs.Espresso.Descriptor.{descriptor_lt}
use deca_fs.Espresso.Allocator.{joins_after}
use deca_fs.Node.Requests.{WrittenOrRefused, handle_message-WrittenOrRefused}

-- Three bytes from offset 9 of the first chunk on, which has 10.
abbrev fields : FileFields
fields = chunk_fields 0 1 1 1 9 (pos 3)

fields-AreWords : AreWords fields
fields-AreWords = record {
  fd_word = omega arith;
  file_word = omega arith;
  stripe_word = omega arith;
  chunk_word = omega arith;
  offset_word = omega arith;
  count_int = omega arith;
}

stray : ℕ → ℕ
stray i = 255

none_behind :
    (a : Extent)
    → find descriptor_lt (chunk_of fields) node.metadata ≡ some a
    → joins_after a node.free_extents ≡ false
unfolding find equiv descriptor_lt joins_after lower_bound extent_lt
none_behind a e = ground (arith, e)

handle_message-WrittenOrRefused_example :
    WrittenOrRefused memory stray 7 fields
      (1 ∷ 2 ∷ 3 ∷ [])
      node
      (handle_message memory stray (write_chunk_request 7 fields (1 ∷ 2 ∷ 3 ∷ [])) node)
handle_message-WrittenOrRefused_example =
    handle_message-WrittenOrRefused memory stray memory-IsReliable 100 7 3 fields (1 ∷ 2 ∷ 3 ∷ [])
      node node-HasLayout fields-AreWords (omega arith) refl refl (omega arith) (omega arith)
      (omega arith) (omega arith) (omega arith) (omega arith) (λ a e h. none_behind a e)
