-- ===== src/Node.antt =====
-- lib/network_core/espresso_client.cpp and espresso_packet_processor.cpp: what an Espresso node does with
-- a packet from the Barista. The calls convert the ids and the offset of a packet, uint32_t, to int. The
-- model has what happens where the conversion leaves them alone; for a value from 2^31 on, which
-- would be a negative int, it has no result.
pub mod Requests
mod Tests
use deca_fs.Prelude.{
  ℕ, suc, ◌>>=◌, ◌+◌, ◌^◌, ◌&&◌, List, [], ◌∷◌, Option, none, some, Bool, true, false, ltb, ◌==◌,
  if◌then◌else◌, length,
}
use deca_fs.Prelude.Int.{ℤ, pos, negsuc}
use deca_fs.Packets.{
  Header, FileFields, parse_packet, parse_file_packet, parse_file_data_packet, write_chunk_response,
  read_chunk_response, delete_chunk_response, flag_read_chunk, flag_write_chunk, flag_delete_chunk,
}
use deca_fs.Espresso.Descriptor.{Descriptor}
use deca_fs.Espresso.Storage.{
  DataFile, Store, Outcome, returned, assert_failed, not_defined, read_data, write_chunk,
  delete_chunk,
}

abbrev pub chunk_of : FileFields → Descriptor
chunk_of f = record { file_id = f.file_id; stripe_id = f.stripe_id; chunk_num = f.chunk_num }

-- The ids and the offset are what they are as ints.
abbrev pub are_ints : FileFields → Bool
are_ints f =
    ltb f.file_id (2 ^ 31)
    && ltb f.stripe_id (2 ^ 31)
    && ltb f.chunk_num (2 ^ 31)
    && ltb f.offset (2 ^ 31)

-- offset + count is an int.
abbrev pub ends_at_int : ℕ → ℤ → Bool
ends_at_int offset (pos n) = ltb (offset + n) (2 ^ 31)
ends_at_int offset (negsuc n) = true

-- The size of `buffer` in process_read_packet.
abbrev pub buffer_size : ℕ
buffer_size = 65536

-- The result of a call as an int32_t.
abbrev pub result_of : Option ℕ → ℤ
result_of none = negsuc 0
result_of (some n) = pos n

-- The bytes that a packet carries, or none at NULL.
abbrev pub bytes_of : Option (List ℕ) → List ℕ
bytes_of none = []
bytes_of (some bs) = bs

-- process_read_packet, or `none` where the bytes do not fit the buffer or a field or the end of the range is
-- no int
unfoldable pub read_reply : ℕ → FileFields → Option (List ℕ) → Option (List ℕ)
read_reply id f none = some (read_chunk_response id (record f { count = negsuc 0 }) [])
read_reply id f (some bs) =
    if ltb buffer_size (length bs)
    then none
    else some (read_chunk_response id (record f { count = pos (length bs) }) bs)

module _ (d : DataFile) (stray : ℕ → ℕ) where
  open d use {File}

  unfoldable pub process_read_packet :
      ℕ → FileFields → Store File → Option (Option (List ℕ) × Store File)
  unfolding read_reply
  process_read_packet id f s =
      if are_ints f && ends_at_int f.offset f.count
      then (do
        reply ← read_reply id f (read_data d s (chunk_of f) f.offset f.count)
        some (some reply, s))
      else none

  -- The response to a write, or `none` where an assertion failed or the behaviour is undefined.
  unfoldable pub write_reply : ℕ → FileFields → Outcome File → Option (Option (List ℕ) × Store File)
  write_reply id f (returned r s) =
      some (some (write_chunk_response id (record f { count = result_of r })), s)
  write_reply id f assert_failed = none
  write_reply id f not_defined = none

  unfoldable pub process_write_packet :
      ℕ → FileFields → List ℕ → Store File → Option (Option (List ℕ) × Store File)
  unfolding write_reply
  process_write_packet id f bs s =
      if are_ints f
      then write_reply id f (write_chunk d s (chunk_of f) f.offset f.count bs stray)
      else none

  -- The response does not say whether there was such a chunk.
  unfoldable pub process_delete_packet :
      ℕ → FileFields → Store File → Option (Option (List ℕ) × Store File)
  process_delete_packet id f s =
      if are_ints (record f { offset = 0 })
      then elim (delete_chunk s (chunk_of f)) [
        | none ↦ none
        | some (r, s') ↦
            some (some (delete_chunk_response (stray 0) id f.file_id f.stripe_id f.chunk_num), s')
      ]
      else none

  -- The switch of handleMessageFromServer.
  unfoldable pub dispatch : ℕ → List ℕ → Store File → Option (Option (List ℕ) × Store File)
  unfolding process_read_packet process_write_packet process_delete_packet
  dispatch flag buf s =
      if flag == flag_read_chunk
      then (parse_file_packet buf >>= (λ (h, f). process_read_packet h.id f s))
      else if flag == flag_write_chunk
      then (parse_file_data_packet buf
          >>= (λ (h, f, bs). process_write_packet h.id f (bytes_of bs) s))
      else if flag == flag_delete_chunk
      then (parse_file_packet buf >>= (λ (h, f). process_delete_packet h.id f s))
      else some (none, s)

  -- handleMessageFromServer: the reply, if any, and the store; `none` where the node fails
  unfoldable pub handle_message : List ℕ → Store File → Option (Option (List ℕ) × Store File)
  unfolding dispatch
  handle_message buf s = parse_packet buf >>= (λ header. dispatch header.flag buf s)
