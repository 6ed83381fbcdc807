-- ===== src/Packets.antt =====
-- lib/network_core/network_packets.cpp and the packets of clients that have its layout: the bytes of a
-- packet. A word of memory is four bytes, the low one first. A read behind the buffer is `none`.
pub mod Words
pub mod RoundTrip
mod Tests
use deca_fs.Prelude.{
  ℕ, zero, suc, ◌+◌, ◌-◌, ◌>>=◌, ◌%◌, ◌^◌, ◌*◌, List, [], ◌∷◌, ◌++◌, Option, none, some, Bool, true,
  false, ltb, if◌then◌else◌, take, length,
}
use deca_fs.Prelude.Int.{ℤ, pos, negsuc, to_int}
use deca_fs.Packets.Words.{word, word_at, to_word, skip}

-- packet_flags
abbrev pub flag_espresso_init : ℕ
flag_espresso_init = 0

abbrev pub flag_decafs_client_init : ℕ
flag_decafs_client_init = 1

abbrev pub flag_read : ℕ
flag_read = 3

abbrev pub flag_write : ℕ
flag_write = 4

abbrev pub flag_close : ℕ
flag_close = 5

abbrev pub flag_read_response : ℕ
flag_read_response = 15

abbrev pub flag_write_response : ℕ
flag_write_response = 16

abbrev pub flag_read_chunk : ℕ
flag_read_chunk = 26

abbrev pub flag_write_chunk : ℕ
flag_write_chunk = 27

abbrev pub flag_delete_chunk : ℕ
flag_delete_chunk = 28

abbrev pub flag_read_chunk_response : ℕ
flag_read_chunk_response = 29

abbrev pub flag_write_chunk_response : ℕ
flag_write_chunk_response = 30

abbrev pub flag_delete_chunk_response : ℕ
flag_delete_chunk_response = 31

-- The fields of Packet.
pub record Header : Type 0 where
  pub packet_size : ℕ
  pub id : ℕ
  pub flag : ℕ

-- The fields that FilePacket adds.
pub record FileFields : Type 0 where
  pub fd : ℕ
  pub file_id : ℕ
  pub stripe_id : ℕ
  pub chunk_num : ℕ
  pub offset : ℕ
  pub count : ℤ

-- Packet (id, flag, derived_size): the header of the buffer; the derived class fills the rest.
unfoldable pub packet : ℕ → ℕ → ℕ → List ℕ → List ℕ
packet id flag derived_size rest = word ((derived_size + 12) % 2 ^ 32) (word id (word flag rest))

-- Packet (buf, size)
unfoldable pub parse_packet : List ℕ → Option Header
parse_packet buf = do
  packet_size ← word_at 0 buf
  id ← word_at 1 buf
  flag ← word_at 2 buf
  some (record { packet_size = packet_size; id = id; flag = flag })

-- EspressoInit (node_id), DecafsClientInit (user_id) and ClosePacket (fd)
unfoldable pub one_word_packet : ℕ → ℤ → List ℕ
unfolding packet
one_word_packet flag w = packet 0 flag 4 (word (to_word w) [])

-- EspressoInit (buf, size), DecafsClientInit (buf, size) and ClosePacket (buf, size)
unfoldable pub parse_one_word : List ℕ → Option (Header × ℕ)
unfolding parse_packet
parse_one_word buf = do header ← parse_packet buf; w ← word_at 3 buf; some (header, w)

-- FilePacket (id, flag, derived_size, ...)
unfoldable pub file_packet : ℕ → ℕ → ℕ → FileFields → List ℕ → List ℕ
unfolding packet
file_packet id flag derived_size f rest = packet id flag (derived_size + 24) (
    word f.fd (
      word f.file_id
        (word f.stripe_id (word f.chunk_num (word f.offset (word (to_word f.count) rest))))))

-- FilePacket (buf, size)
unfoldable pub parse_file_packet : List ℕ → Option (Header × FileFields)
unfolding parse_packet
parse_file_packet buf = do
  header ← parse_packet buf
  fd ← word_at 3 buf
  file_id ← word_at 4 buf
  stripe_id ← word_at 5 buf
  chunk_num ← word_at 6 buf
  offset ← word_at 7 buf
  count ← word_at 8 buf
  some (
    header,
    record {
      fd = fd;
      file_id = file_id;
      stripe_id = stripe_id;
      chunk_num = chunk_num;
      offset = offset;
      count = to_int count;
    },
  )

-- The bytes that memcpy puts into the packet: `count` of them, or none if it is not above 0.
abbrev pub data_of : ℤ → List ℕ → List ℕ
data_of (pos n) buf = take n buf
data_of (negsuc n) buf = []

-- max (0, count)
abbrev pub data_size : ℤ → ℕ
data_size (pos n) = n
data_size (negsuc n) = 0

-- FileDataPacket (id, flag, derived_size, ..., buf)
unfoldable pub file_data_packet : ℕ → ℕ → FileFields → List ℕ → List ℕ
unfolding file_packet
file_data_packet id flag f buf = file_packet id flag (data_size f.count) f (data_of f.count buf)

-- `data_buffer`: the bytes behind the fields, or `none` for NULL
abbrev pub data_buffer : ℤ → List ℕ → Option (List ℕ)
data_buffer (pos zero) buf = none
data_buffer (pos (suc n)) buf = some (take (suc n) (skip 36 buf))
data_buffer (negsuc n) buf = none

-- FileDataPacket (buf, size)
unfoldable pub parse_file_data_packet : List ℕ → Option (Header × FileFields × Option (List ℕ))
unfolding parse_file_packet
parse_file_data_packet buf = do
  (header, f) ← parse_file_packet buf
  some (header, f, data_buffer f.count buf)

-- The fields with which the packets of chunks and of clients are made.
abbrev pub chunk_fields : ℕ → ℕ → ℕ → ℕ → ℕ → ℤ → FileFields
chunk_fields fd file_id stripe_id chunk_num offset count = record {
  fd = fd;
  file_id = file_id;
  stripe_id = stripe_id;
  chunk_num = chunk_num;
  offset = offset;
  count = count;
}

unfoldable pub read_chunk_request : ℕ → FileFields → List ℕ
read_chunk_request id f = file_packet id flag_read_chunk 0 f []

unfoldable pub write_chunk_response : ℕ → FileFields → List ℕ
write_chunk_response id f = file_packet id flag_write_chunk_response 0 f []

unfoldable pub write_chunk_request : ℕ → FileFields → List ℕ → List ℕ
write_chunk_request id f buf = file_data_packet id flag_write_chunk f buf

unfoldable pub read_chunk_response : ℕ → FileFields → List ℕ → List ℕ
read_chunk_response id f buf = file_data_packet id flag_read_chunk_response f buf

-- The constructors of DeleteChunkRequest and DeleteChunkResponse hand on their own field `fd` before it
-- is set: `stray` is what stands there.
unfoldable pub delete_chunk_request : ℕ → ℕ → ℕ → ℕ → ℕ → List ℕ
delete_chunk_request stray id file_id stripe_id chunk_num =
    file_packet id flag_delete_chunk 0
      (chunk_fields stray file_id stripe_id chunk_num (2 ^ 32 - 1) (negsuc 0)) []

unfoldable pub delete_chunk_response : ℕ → ℕ → ℕ → ℕ → ℕ → List ℕ
delete_chunk_response stray id file_id stripe_id chunk_num =
    file_packet id flag_delete_chunk_response 0
      (chunk_fields stray file_id stripe_id chunk_num (2 ^ 32 - 1) (negsuc 0)) []

-- ReadRequest (fd, count): the uint32_t becomes the int32_t count.
unfoldable pub read_request : ℕ → ℕ → List ℕ
read_request fd count = file_packet 0 flag_read 0 (chunk_fields fd 0 0 0 0 (to_int count)) []

unfoldable pub write_packet : ℕ → ℕ → List ℕ → List ℕ
write_packet fd count buf =
    file_data_packet 0 flag_write (chunk_fields fd 0 0 0 0 (to_int count)) buf

unfoldable pub write_response_packet : ℕ → ℕ → List ℕ
write_response_packet fd count =
    file_packet 0 flag_write_response 0 (chunk_fields fd 0 0 0 0 (to_int count)) []

unfoldable pub read_response_packet : ℕ → ℕ → List ℕ → List ℕ
read_response_packet fd count buf =
    file_data_packet 0 flag_read_response (chunk_fields fd 0 0 0 0 (to_int count)) buf
