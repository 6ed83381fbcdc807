-- ===== src/Node/Requests.antt =====
-- The replies of a node to the requests of the Barista.
use deca_fs.Prelude.{
  ℕ, zero, suc, ◌+◌, ◌-◌, ◌^◌, ◌≤◌, ◌<◌, ◌≡◌, ◌⊎◌, ◌∙◌, refl, ap, inl, inr, List, [], ◌∷◌, Option,
  none, some, true, length, take_all, arith,
}
use deca_fs.Prelude.Int.{pos, negsuc}
use deca_fs.Packets.{
  FileFields, chunk_fields, parse_file_data_packet, write_chunk_response, read_chunk_response,
  flag_read_chunk, flag_write_chunk, flag_delete_chunk, read_chunk_request, write_chunk_request,
  delete_chunk_request, file_packet, file_data_packet, data_of, data_size,
}
use deca_fs.Packets.RoundTrip.{
  AreWords, parse-header, data_size_room, payload, parse-file_packet, parse-file_data_packet,
}
use deca_fs.Espresso.Storage.{
  DataFile, Store, Outcome, returned, assert_failed, not_defined, read_data, write_chunk,
}
use deca_fs.Espresso.Storage.Cases.{HasLayout, HasNoneBehind}
use deca_fs.Espresso.Storage.Contents.{IsReliable, WritesOrRefuses, write_chunk-WritesOrRefuses}
use deca_fs.Node.{
  chunk_of, are_ints, buffer_size, bytes_of, read_reply, process_read_packet, write_reply,
  process_write_packet, process_delete_packet, dispatch, handle_message,
}

module _ (d : DataFile) (stray : ℕ → ℕ) where
  open d use {File}

  handle_read :
      (id : ℕ) (f : FileFields) (s : Store File)
      → AreWords f
      → id < 2 ^ 32
      → handle_message d stray (read_chunk_request id f) s ≡ process_read_packet d stray id f s
  unfolding handle_message dispatch read_chunk_request
  handle_read id f s w i =
      let e = parse-file_packet id flag_read_chunk 0 f [] w i (omega arith) (omega arith) in
      ground (arith, e, parse-header id flag_read_chunk 0 f [] w i (omega arith) (omega arith))

  parse_write :
      (id : ℕ) (f : FileFields) (buf : List ℕ)
      → AreWords f
      → id < 2 ^ 32
      → parse_file_data_packet
          (file_packet id flag_write_chunk (data_size f.count) f (data_of f.count buf))
        ≡ some (
          record { packet_size = data_size f.count + 36; id = id; flag = flag_write_chunk },
          f,
          payload f.count buf,
        )
  unfolding file_data_packet
  parse_write id f buf w i = parse-file_data_packet id flag_write_chunk f buf w i (omega arith)

  handle_write :
      (id : ℕ) (f : FileFields) (buf : List ℕ) (s : Store File)
      → AreWords f
      → id < 2 ^ 32
      → handle_message d stray (write_chunk_request id f buf) s
        ≡ process_write_packet d stray id f (bytes_of (payload f.count buf)) s
  unfolding handle_message dispatch write_chunk_request file_data_packet
  handle_write id f buf s w i =
      let room = data_size_room f.count w.count_int in
      let h =
        parse-header id flag_write_chunk (data_size f.count) f (data_of f.count buf) w i
          (omega arith) room in
      ground (arith, parse_write id f buf w i, h)

  handle_delete :
      (dirt id file_id stripe_id chunk_num : ℕ) (s : Store File)
      → AreWords (chunk_fields dirt file_id stripe_id chunk_num (2 ^ 32 - 1) (negsuc 0))
      → id < 2 ^ 32
      → handle_message d stray (delete_chunk_request dirt id file_id stripe_id chunk_num) s
        ≡ process_delete_packet d stray id
            (chunk_fields dirt file_id stripe_id chunk_num (2 ^ 32 - 1) (negsuc 0))
            s
  unfolding handle_message dispatch delete_chunk_request
  handle_delete dirt id file_id stripe_id chunk_num s w i =
      let f = chunk_fields dirt file_id stripe_id chunk_num (2 ^ 32 - 1) (negsuc 0) in
      let e = parse-file_packet id flag_delete_chunk 0 f [] w i (omega arith) (omega arith) in
      let h = parse-header id flag_delete_chunk 0 f [] w i (omega arith) (omega arith) in
      ground (arith, e, h)

  process_read_some :
      (id n : ℕ) (f : FileFields) (bs : List ℕ) (s : Store File)
      → f.count ≡ pos n
      → are_ints f ≡ true
      → f.offset + n < 2 ^ 31
      → read_data d s (chunk_of f) f.offset (pos n) ≡ some bs
      → length bs ≡ n
      → n ≤ buffer_size
      → process_read_packet d stray id f s ≡ some (some (read_chunk_response id f bs), s)
  unfolding process_read_packet read_reply
  process_read_some id n f bs s c k x r l m = ground (arith, c, k, x, r, l)

  payload-length : (n : ℕ) (buf : List ℕ) → length buf ≡ n → bytes_of (payload (pos n) buf) ≡ buf
  payload-length zero [] h = refl
  payload-length zero (b ∷ bs) h = absurd (omega arith)
  payload-length (suc n) buf h = take_all (suc n) buf (omega arith)

  written_ints :
      (id : ℕ) (f : FileFields) (bs : List ℕ) (s : Store File)
      → are_ints f ≡ true
      → process_write_packet d stray id f bs s
        ≡ write_reply d stray id f (write_chunk d s (chunk_of f) f.offset f.count bs stray)
  unfolding process_write_packet
  written_ints id f bs s k = rw k refl

  step_of :
      (id n : ℕ) (f : FileFields) (buf : List ℕ) (s : Store File)
      → AreWords f
      → id < 2 ^ 32
      → f.count ≡ pos n
      → length buf ≡ n
      → are_ints f ≡ true
      → handle_message d stray (write_chunk_request id f buf) s
        ≡ write_reply d stray id f (write_chunk d s (chunk_of f) f.offset (pos n) buf stray)
  step_of id n f buf s w i c l k =
      handle_write id f buf s w i
      ∙ written_ints id f (bytes_of (payload f.count buf)) s k
      ∙ ap
          (λ z.
            write_reply d stray id f
              (write_chunk d s (chunk_of f) f.offset z (bytes_of (payload z buf)) stray))
          c
      ∙ ap (λ x. write_reply d stray id f (write_chunk d s (chunk_of f) f.offset (pos n) x stray))
          (payload-length n buf l)

  -- What a write request did: the reply says that all bytes were written, and a read request with the
  -- same fields is then answered with them; or the reply says -1, and the store is as it was.
  abbrev pub WrittenOrRefused :
      ℕ → FileFields → List ℕ → Store File → Option (Option (List ℕ) × Store File) → Type 0
  WrittenOrRefused id f buf s none = ⊥
  WrittenOrRefused id f buf s (some (reply, s')) =
      ((reply ≡ some (write_chunk_response id f))
        × (handle_message d stray (read_chunk_request id f) s'
            ≡ some (some (read_chunk_response id f buf), s')))
      ⊎ ((reply ≡ some (write_chunk_response id (record f { count = negsuc 0 }))) × (s' ≡ s))

  module _ (reliable : IsReliable d) (limit : ℕ) where
    written_or_refused :
        (id n : ℕ) (f : FileFields) (buf : List ℕ) (s : Store File) (r : Outcome File)
        → AreWords f
        → id < 2 ^ 32
        → f.count ≡ pos n
        → length buf ≡ n
        → n ≤ buffer_size
        → are_ints f ≡ true
        → f.offset + n < 2 ^ 31
        → WritesOrRefuses d reliable limit s (chunk_of f) f.offset n buf r
        → WrittenOrRefused id f buf s (write_reply d stray id f r)
    unfolding write_reply
    written_or_refused id n f buf s (returned (some k) s') w i c l m j x (e, r) = inl (
      ground (arith, e, c),
      handle_read id f s' w i ∙ process_read_some id n f buf s' c j x r l m,
    )
    written_or_refused id n f buf s (returned none s') w i c l m j x (e, r) = inr (refl, e)
    written_or_refused id n f buf s assert_failed w i c l m j x h = h
    written_or_refused id n f buf s not_defined w i c l m j x h = h

    -- A node with a layout, on a reliable data file, does not fail on a write request of 1 to 65536 bytes
    -- whose ids and whose end in the chunk are below 2^31, if no free extent starts where a chunk that
    -- has to grow ends. Either its reply says that all were written, and a read request with the same fields is then
    -- answered with these bytes; or its reply says -1, and nothing has changed.
    pub handle_message-WrittenOrRefused :
        (id n : ℕ) (f : FileFields) (buf : List ℕ) (s : Store File)
        → HasLayout limit s
        → AreWords f
        → id < 2 ^ 32
        → f.count ≡ pos n
        → length buf ≡ n
        → 0 < n
        → n ≤ buffer_size
        → f.file_id < 2 ^ 31
        → f.stripe_id < 2 ^ 31
        → f.chunk_num < 2 ^ 31
        → f.offset + n < 2 ^ 31
        → HasNoneBehind s (chunk_of f) (f.offset + n)
        → WrittenOrRefused id f buf s (handle_message d stray (write_chunk_request id f buf) s)
    handle_message-WrittenOrRefused id n f buf s v w i c l z m x y t e q =
        let k : are_ints f ≡ true = ground arith in
        rw (step_of id n f buf s w i c l k) (
          written_or_refused id n f buf s (write_chunk d s (chunk_of f) f.offset (pos n) buf stray)
            w i c l m k e
            (write_chunk-WritesOrRefuses d reliable limit s (chunk_of f) f.offset n buf stray v
              (omega arith) e q l))
