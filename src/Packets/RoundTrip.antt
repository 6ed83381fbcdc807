-- ===== src/Packets/RoundTrip.antt =====
-- What is read out of a packet is what it was made of, and its first word is its length.
use deca_fs.Prelude.{
  ℕ, zero, suc, ◌+◌, ◌%◌, ◌^◌, ◌≤◌, ◌<◌, ◌≡◌, ◌∙◌, refl, ap, List, [], ◌∷◌, Option, none, some,
  arith, take, length,
}
use deca_fs.Prelude.Int.{ℤ, pos, negsuc}
use deca_fs.Packets.Words.{value-bytes, word_at, to_word, IsInt, to_int-to_word, to_word_small}
use deca_fs.Packets.{
  FileFields, packet, parse_packet, file_packet, parse_file_packet, data_of, data_size, data_buffer,
  file_data_packet, parse_file_data_packet, one_word_packet, parse_one_word,
}

-- The fields are in the ranges of their C types.
pub record AreWords (f : FileFields) : Type 0 where
  pub fd_word : f.fd < 2 ^ 32
  pub file_word : f.file_id < 2 ^ 32
  pub stripe_word : f.stripe_id < 2 ^ 32
  pub chunk_word : f.chunk_num < 2 ^ 32
  pub offset_word : f.offset < 2 ^ 32
  pub count_int : IsInt f.count

module _ (id flag derived_size : ℕ) (f : FileFields) (rest : List ℕ) (h : AreWords f)
    (i : id < 2 ^ 32) (k : flag < 2 ^ 32) (room : derived_size + 36 < 2 ^ 32) where
  -- The header and the fields of a packet are read as they were written, whatever follows them.
  pub parse-file_packet :
      parse_file_packet (file_packet id flag derived_size f rest)
      ≡ some (record { packet_size = derived_size + 36; id = id; flag = flag }, f)
  unfolding file_packet packet parse_file_packet parse_packet
  parse-file_packet = ground (
    arith,
    value-bytes ((derived_size + 24 + 12) % 2 ^ 32) (omega arith),
    value-bytes id i,
    value-bytes flag k,
    value-bytes f.fd h.fd_word,
    value-bytes f.file_id h.file_word,
    value-bytes f.stripe_id h.stripe_word,
    value-bytes f.chunk_num h.chunk_word,
    value-bytes f.offset h.offset_word,
    value-bytes (to_word f.count) (to_word_small f.count),
    to_int-to_word f.count h.count_int,
  )

  pub parse-header :
      parse_packet (file_packet id flag derived_size f rest)
      ≡ some (record { packet_size = derived_size + 36; id = id; flag = flag })
  unfolding file_packet packet parse_packet
  parse-header = ground (
    arith,
    value-bytes ((derived_size + 24 + 12) % 2 ^ 32) (omega arith),
    value-bytes id i,
    value-bytes flag k,
  )

length-take : (n : ℕ) (xs : List ℕ) → n ≤ length xs → length (take n xs) ≡ n
length-take zero xs h = refl
length-take (suc n) [] h = absurd (omega arith)
length-take (suc n) (x ∷ xs) h = omega (arith, length-take n xs)

take-take : (n : ℕ) (xs : List ℕ) → take n (take n xs) ≡ take n xs
take-take zero xs = refl
take-take (suc n) [] = refl
take-take (suc n) (x ∷ xs) = ap (◌∷◌ x) (take-take n xs)

-- The bytes that a packet of `count` bytes carries: NULL where there are none.
abbrev pub payload : ℤ → List ℕ → Option (List ℕ)
payload (pos zero) buf = none
payload (pos (suc n)) buf = some (take (suc n) buf)
payload (negsuc n) buf = none

data_buffer-file_packet :
    (id flag derived_size : ℕ) (f : FileFields) (count : ℤ) (buf : List ℕ)
    → data_buffer count (file_packet id flag derived_size f (data_of count buf)) ≡ payload count buf
unfolding file_packet packet
data_buffer-file_packet id flag derived_size f (pos zero) buf = refl
data_buffer-file_packet id flag derived_size f (pos (suc n)) buf = ap some (take-take (suc n) buf)
data_buffer-file_packet id flag derived_size f (negsuc n) buf = refl

pub data_size_room : (count : ℤ) → IsInt count → data_size count + 36 < 2 ^ 32
data_size_room (pos n) h = omega arith
data_size_room (negsuc n) h = omega arith

-- A packet that carries bytes is read as it was written: its header, whose size counts the bytes, its
-- fields, and the first `count` bytes of the buffer, or NULL where the count is not above 0.
pub parse-file_data_packet :
    (id flag : ℕ) (f : FileFields) (buf : List ℕ)
    → AreWords f
    → id < 2 ^ 32
    → flag < 2 ^ 32
    → parse_file_data_packet (file_data_packet id flag f buf)
      ≡ some (
        record { packet_size = data_size f.count + 36; id = id; flag = flag },
        f,
        payload f.count buf,
      )
unfolding file_data_packet parse_file_data_packet
parse-file_data_packet id flag f buf h i k = ground (
  arith,
  parse-file_packet id flag (data_size f.count) f (data_of f.count buf) h i k
      (data_size_room f.count h.count_int),
  data_buffer-file_packet id flag (data_size f.count) f f.count buf,
)

length-data_of :
    (count : ℤ) (buf : List ℕ)
    → data_size count ≤ length buf
    → length (data_of count buf) ≡ data_size count
length-data_of (pos n) buf h = length-take n buf h
length-data_of (negsuc n) buf h = refl

-- Where the buffer has the bytes that the count says, the packet is as long as its first word says, which
-- is how long the receiver takes it to be.
pub length-file_data_packet :
    (id flag : ℕ) (f : FileFields) (buf : List ℕ)
    → AreWords f
    → id < 2 ^ 32
    → flag < 2 ^ 32
    → data_size f.count ≤ length buf
    → word_at 0 (file_data_packet id flag f buf) ≡ some (length (file_data_packet id flag f buf))
unfolding file_data_packet file_packet packet
length-file_data_packet id flag f buf h i k enough =
    let room = data_size_room f.count h.count_int in
    let len = length-data_of f.count buf enough in
    ap some (value-bytes ((data_size f.count + 24 + 12) % 2 ^ 32) (omega arith) ∙ omega arith)

-- A packet of one word, such as that of a client's close, is read as the word that was written.
pub parse-one_word_packet :
    (flag : ℕ) (w : ℤ)
    → flag < 2 ^ 32
    → parse_one_word (one_word_packet flag w)
      ≡ some (record { packet_size = 16; id = 0; flag = flag }, to_word w)
unfolding one_word_packet parse_one_word packet parse_packet
parse-one_word_packet flag w k = ground (
  arith,
  value-bytes 16 (omega arith),
  value-bytes 0 (omega arith),
  value-bytes flag k,
  value-bytes (to_word w) (to_word_small w),
)
