-- ===== src/Barista/Finished/Stripes.antt =====
-- The loop of write_file over stripes returns.
use deca_fs.Prelude.{
  ℕ, zero, suc, ◌+◌, ◌-◌, ◌%◌, ◌^◌, ◌≤◌, ◌<◌, ◌≡◌, ◌≢◌, ◌⊎◌, ◌∙◌, refl, ap, List, Option, Bool,
  true, arith, inl, length, take, drop,
}
use deca_fs.Prelude.Int.{ℤ, to_int, word_mod}
use deca_fs.OrdMap.{IsIrreflexive}
use deca_fs.Types.Client.{Client}
use deca_fs.Types.File.{FileChunk}
use deca_fs.Persistent.{FileStat}
use deca_fs.IoManager.{Message, Io, finished, piece, process_write_stripe}
use deca_fs.IoManager.Placed.Nodes.{IsPlaced}
use deca_fs.IoManager.Stripes.{IsReachable, length-take_of, length-drop_of}
use deca_fs.IoManager.Flat.{process_write_stripe_ends}
use deca_fs.Barista.{Barista, served, update_file_size}
use deca_fs.Barista.Transfers.{advance, write_stripes}
use deca_fs.Barista.Finished.Calls.{moved, advance_ends, Lacks, update_file_size_ends}

-- What a write needs of the Barista.
pub record IsReady (total file_id left : ℕ) (b : Barista) : Type 0 where
  pub placed : IsPlaced b.io
  pub reachable : IsReachable b.io
  pub free : b.meta_lock.owner_uid ≡ 0
  pub room : Lacks total file_id left b.persistent

module _ (lt : FileChunk → FileChunk → Bool) (delivers : Message → List Message → Bool)
    (o : IsIrreflexive lt) (always : (m : Message) (ms : List Message) → delivers m ms ≡ true)
    (unset : Barista → ℕ) (request_id file_id fd : ℕ) (stat : FileStat) (client : Client)
    (replica_request_id : ℕ) (differ : request_id ≢ replica_request_id)
    (has_stripes : 0 < stat.stripe_size) (has_chunks : 0 < stat.chunk_size)
    (small_stripes : stat.stripe_size < 2 ^ 31) (small_chunks : stat.chunk_size < 2 ^ 31)
    (user : client.user_id ≢ 0) (total : ℕ) (fits : total < 2 ^ 31) where
  -- The state after one stripe
  one_stripe :
      (fuel stripe_id offset left : ℕ) (buf : List ℕ) (b : Barista)
      → let n = piece stat.stripe_size offset left in
        IsReady total file_id left b
        → length buf ≡ left
        → offset ≤ stat.stripe_size
        → left + 1 < fuel
        → stat.stripe_size + fuel + 1 < word_mod
        → (s' : Io) × (w : ℕ × ℕ) × (b' : Barista) × (b1 : Barista) × (res : Option ℤ)
          × (process_write_stripe lt delivers fuel request_id replica_request_id file_id stripe_id
                stat.stripe_size stat.chunk_size
                (take n buf)
                offset
                n
                b.io
              ≡ finished w s')
          × (update_file_size file_id (to_int n) client (record b { io = s' }) ≡ served (res, b1))
          × (advance lt delivers unset fd n client b1 ≡ served b')
          × IsReady total file_id (left - n) b'
          × (b'.active_write_requests ≡ b.active_write_requests)
          × (b'.write_request_lookups ≡ b.write_request_lookups)
  one_stripe fuel stripe_id offset left buf b r l g f w =
      let n = piece stat.stripe_size offset left in
      let short : n ≤ left = ground arith in
      let inside : n ≤ stat.stripe_size = ground arith in
      let long : length (take n buf) ≡ n = length-take_of n buf (omega (arith, short, l)) in
      let (s', a, c, e, p', r') =
        process_write_stripe_ends lt delivers o always request_id replica_request_id file_id
          stripe_id stat.chunk_size differ has_chunks fuel stat.stripe_size offset n (take n buf)
          b.io long r.placed r.reachable (omega (arith, inside)) (omega (arith, short))
          (omega arith) small_chunks (omega arith) in
      let whole : n + (left - n) ≡ left = omega (arith, short) in
      let (m, p, res, e1, z1, room) =
        update_file_size_ends total file_id n (left - n) client (record b { io = s' }) fits user
          r.free (rw whole r.room) in
      let b1 = record b { io = s'; meta_lock = m; persistent = p } in
      let (m', v, e2, z2) = advance_ends lt delivers unset fd n client b1 user z1 in
      (
        s',
        (a, c),
        moved m' v b1,
        b1,
        res,
        e,
        e1,
        e2,
        record {
          placed = record { chunks = p'.chunks; replicas = p'.replicas };
          reachable = record {
            first = r'.first;
            second = r'.second;
            first_replica = r'.first_replica;
            second_replica = r'.second_replica;
          };
          free = z2;
          room = room;
        },
        refl,
        refl,
      )

  pub write_stripes_ends :
      (fuel stripe_id offset left chunks replicas : ℕ) (buf : List ℕ) (b : Barista)
      → IsReady total file_id left b
      → length buf ≡ left
      → offset ≤ stat.stripe_size
      → left + 1 < fuel
      → (offset < stat.stripe_size) ⊎ (left + 2 < fuel)
      → stat.stripe_size + fuel + 1 < word_mod
      → (w : ℕ × ℕ) × (b' : Barista) × (write_stripes lt delivers unset request_id file_id fd stat
            client replica_request_id fuel stripe_id offset buf left chunks replicas b
          ≡ served (w, b'))
        × (b'.active_write_requests ≡ b.active_write_requests)
        × (b'.write_request_lookups ≡ b.write_request_lookups)
        × Lacks total file_id 0 b'.persistent
  unfolding write_stripes
  write_stripes_ends zero stripe_id offset left chunks replicas buf b r l g f f' w =
      absurd (omega arith)
  write_stripes_ends (suc fuel) stripe_id offset zero chunks replicas buf b r l g f f' w =
      ((chunks, replicas), b, refl, refl, refl, r.room)
  write_stripes_ends (suc fuel) stripe_id offset (suc left) chunks replicas buf b r l g f f' w =
      let n = piece stat.stripe_size offset (suc left) in
      let (s', c, b2, b1, res, e, e1, e2, r', same, same') =
        one_stripe (suc fuel) stripe_id offset (suc left) buf b r l g f w in
      let (v, b', e', again, again', grown) =
        write_stripes_ends fuel ((stripe_id + 1) % word_mod) 0 (suc left - n) (chunks + c.0)
          (replicas + c.1) (drop n buf) b2 r' (length-drop_of n buf ∙ ap (λ m. m - n) l)
          (omega arith) (ground arith) (inl has_stripes) (omega arith) in
      (v, b', ground (arith, e, e1, e2, e'), again ∙ same, again' ∙ same', grown)
