-- ===== src/IoManager/Stripes.antt =====
-- A stripe seen as one run of bytes: what a write leaves there, chunk after chunk, in the chunks and in
-- their replicas, when no node refuses a message.
use deca_fs.Prelude.{
  ℕ, zero, suc, ◌+◌, ◌-◌, ◌%◌, ◌<◌, ◌≤◌, ◌≡◌, ◌≢◌, ◌⊎◌, ◌∙◌, inl, inr, refl, ap, List, [], ◌∷◌,
  Bool, true, ◌&&◌, ltb, leb, ◌==◌, if◌then◌else◌, arith, length, take, drop,
}
use deca_fs.Prelude.Int.{word_mod}
use deca_fs.OrdMap.{IsIrreflexive}
use deca_fs.Types.File.{FileChunk, same_chunk}
use deca_fs.Volatile.{contains}
use deca_fs.IoManager.{
  Message, Io, chunk_at, piece, ensure_chunk, ensure_replica, node_of, send, delivered,
  write_replica, write_loop, write_request,
}
use deca_fs.IoManager.Placed.Nodes.{
  IsChunkNode, IsReplicaNode, IsPlaced, ensure-IsPlaced, ensured_rest, ensured_nodes,
}

-- The n-th byte, and 0 behind the end
unfoldable pub byte_at : ℕ → List ℕ → ℕ
byte_at n [] = 0
byte_at zero (x ∷ xs) = x
byte_at (suc n) (x ∷ xs) = byte_at n xs

pub byte_at-take : (n m : ℕ) (xs : List ℕ) → n < m → byte_at n (take m xs) ≡ byte_at n xs
unfolding byte_at
byte_at-take n zero xs h = absurd (omega arith)
byte_at-take n (suc m) [] h = refl
byte_at-take zero (suc m) (x ∷ xs) h = refl
byte_at-take (suc n) (suc m) (x ∷ xs) h = byte_at-take n m xs (omega arith)

pub byte_at-drop : (n m : ℕ) (xs : List ℕ) → byte_at n (drop m xs) ≡ byte_at (m + n) xs
unfolding byte_at
byte_at-drop n zero xs = ap (λ k. byte_at k xs) (omega arith)
byte_at-drop n (suc m) [] = refl
byte_at-drop n (suc m) (x ∷ xs) =
    byte_at-drop n m xs ∙ ap (λ k. byte_at k (x ∷ xs)) {x = suc (m + n)} (omega arith)

pub length-take_of : (m : ℕ) (xs : List ℕ) → m ≤ length xs → length (take m xs) ≡ m
length-take_of zero xs h = refl
length-take_of (suc m) [] h = absurd (omega arith)
length-take_of (suc m) (x ∷ xs) h = ap suc (length-take_of m xs (omega arith))

pub length-drop_of : (m : ℕ) (xs : List ℕ) → length (drop m xs) ≡ length xs - m
length-drop_of zero xs = omega arith
length-drop_of (suc m) [] = omega arith
length-drop_of (suc m) (x ∷ xs) = length-drop_of m xs ∙ omega arith

-- A byte of a chunk of the stripe under the write requests with the id, in the order they were sent (the
-- last one stands first): a node writes the bytes of a request from its offset on.
unfoldable pub stored : ℕ → ℕ → ℕ → List Message → (ℕ → ℕ → ℕ) → ℕ → ℕ → ℕ
unfolding byte_at same_chunk
stored id file_id stripe_id [] disk k p = disk k p
stored id file_id stripe_id (write_request r node c offset bytes ∷ ms) disk k p =
    let before = stored id file_id stripe_id ms disk k p in
    if r == id
      && same_chunk c (chunk_at file_id stripe_id k)
      && leb offset p
      && ltb p (offset + length bytes)
    then byte_at (p - offset) bytes
    else before
stored id file_id stripe_id (_ ∷ ms) disk k p = stored id file_id stripe_id ms disk k p

-- The nodes that copies are put on are connected.
pub record IsReachable (s : Io) : Type 0 where
  pub first : contains 1 s.connected ≡ true
  pub second : contains 2 s.connected ≡ true
  pub first_replica : contains 3 s.connected ≡ true
  pub second_replica : contains 4 s.connected ≡ true

node_connected :
    (n : ℕ) (s : Io) (nodes : List ℕ)
    → IsChunkNode n
    → nodes ≡ s.connected
    → IsReachable s
    → contains n nodes ≡ true
node_connected n s nodes (inl e) f r = rw (e, f) r.first
node_connected n s nodes (inr e) f r = rw (e, f) r.second

replica_connected :
    (n : ℕ) (s : Io) (nodes : List ℕ)
    → IsReplicaNode n
    → nodes ≡ s.connected
    → IsReachable s
    → contains n nodes ≡ true
replica_connected n s nodes (inl e) f r = rw (e, f) r.first_replica
replica_connected n s nodes (inr e) f r = rw (e, f) r.second_replica

module _ (lt : FileChunk → FileChunk → Bool) (delivers : Message → List Message → Bool)
    (o : IsIrreflexive lt) (always : (m : Message) (ms : List Message) → delivers m ms ≡ true) where
  sent_lem :
      (node : ℕ) (m : Message) (s : Io)
      → contains node s.connected ≡ true
      → send lt delivers node m s ≡ delivered (record s { sent = m ∷ s.sent })
  unfolding send
  sent_lem node m s h = ground (arith, always m s.sent)

  module _ (request_id replica_request_id file_id stripe_id size : ℕ) where
    -- The messages of one round
    abbrev two : ℕ → ℕ → ℕ → ℕ → List ℕ → List Message → List Message
    two node replica chunk offset bytes ms =
        write_request replica_request_id replica (chunk_at file_id stripe_id chunk) offset bytes
        ∷ write_request request_id node (chunk_at file_id stripe_id chunk) offset bytes
        ∷ ms

    pub round :
        (fuel chunk offset left chunks replicas : ℕ) (buf : List ℕ) (s : Io)
        → IsPlaced s
        → IsReachable s
        → 0 < left
        → let run = write_loop lt delivers request_id replica_request_id file_id stripe_id size in
          let n = piece size offset left in
          (s' : Io) × (node : ℕ) × (replica : ℕ) × (run
              (suc fuel)
              chunk
              offset
              buf
              left
              chunks
              replicas
              s
            ≡ run fuel
                ((chunk + 1) % word_mod)
                0
                (drop n buf)
                (left - n)
                (chunks + 1)
                (replicas + 1)
                s')
          × IsPlaced s'
          × IsReachable s'
          × (s'.sent ≡ two node replica chunk offset (take n buf) s.sent)
    unfolding write_loop write_replica
    round fuel chunk offset left chunks replicas buf s p r z =
        let c = chunk_at file_id stripe_id chunk in
        let t = ensure_replica lt c (ensure_chunk lt c s) in
        let q = ensure-IsPlaced lt c s p in
        let (_, _, k, same) = ensured_rest lt c s in
        let (x, y) = ensured_nodes lt o c s p in
        let n = piece size offset left in
        let node = node_of lt c t.chunk_to_node in
        let replica = node_of lt c t.chunk_to_replica_node in
        let m = write_request request_id node c offset (take n buf) in
        let m' = write_request replica_request_id replica c offset (take n buf) in
        let u = record t { sent = m ∷ t.sent } in
        let at_node : contains node t.connected ≡ true = node_connected node s t.connected x k r in
        let at_replica : contains replica u.connected ≡ true =
          replica_connected replica s t.connected y k r in
        (
          record t { sent = m' ∷ m ∷ t.sent },
          node,
          replica,
          ground (arith, sent_lem node m t at_node, sent_lem replica m' u at_replica),
          record { chunks = q.chunks; replicas = q.replicas },
          record {
            first = rw k r.first;
            second = rw k r.second;
            first_replica = rw k r.first_replica;
            second_replica = rw k r.second_replica;
          },
          ap (λ ms. m' ∷ m ∷ ms) same,
        )

    pub round_stored :
        (id node replica chunk offset k p : ℕ) (bytes : List ℕ) (ms : List Message)
        (disk : ℕ → ℕ → ℕ)
        → request_id ≢ replica_request_id
        → (id ≡ request_id) ⊎ (id ≡ replica_request_id)
        → stored id file_id stripe_id (two node replica chunk offset bytes ms) disk k p ≡ (
            if chunk == k && leb offset p && ltb p (offset + length bytes)
            then byte_at (p - offset) bytes
            else stored id file_id stripe_id ms disk k p)
    unfolding stored same_chunk
    round_stored id node replica chunk offset k p bytes ms disk d (inl e) = ground arith
    round_stored id node replica chunk offset k p bytes ms disk d (inr e) = ground arith
