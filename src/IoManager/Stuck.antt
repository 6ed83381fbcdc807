-- ===== src/IoManager/Stuck.antt =====
-- A write to a node that cannot be reached is tried again for ever, since no other node is chosen.
use deca_fs.Prelude.{ℕ, zero, suc, ◌<◌, ◌≡◌, refl, List, some, Bool, true, false, arith, take}
use deca_fs.OrdMap.{find}
use deca_fs.Types.File.{FileChunk}
use deca_fs.Volatile.{contains}
use deca_fs.IoManager.{
  Message, write_request, Io, running, chunk_at, piece, ensure_chunk, ensure_replica, node_of, send,
  mark_down, write_loop,
}

module _ (lt : FileChunk → FileChunk → Bool) (delivers : Message → List Message → Bool)
    (request_id replica_request_id file_id stripe_id chunk_size : ℕ) where
  kept_chunk :
      (c : FileChunk) (node : ℕ) (s : Io)
      → find lt c s.chunk_to_node ≡ some node
      → ((ensure_replica lt c (ensure_chunk lt c s)).chunk_to_node ≡ s.chunk_to_node)
        × ((ensure_replica lt c (ensure_chunk lt c s)).connected ≡ s.connected)
  unfolding ensure_replica ensure_chunk
  kept_chunk c node s e = ground (arith, e)

  -- The chunk has its node, which is connected, but send(2) never takes a message for it. However long
  -- the loop of a write runs, it does not end.
  pub write_loop_stuck :
      (fuel chunk_id chunk_offset left chunks replicas node : ℕ) (buf : List ℕ) (s : Io)
      → ((c : FileChunk) (at : ℕ) (bytes : List ℕ) (before : List Message)
          → delivers (write_request request_id node c at bytes) before ≡ false)
      → find lt (chunk_at file_id stripe_id chunk_id) s.chunk_to_node ≡ some node
      → contains node s.connected ≡ true
      → 0 < left
      → write_loop lt delivers request_id replica_request_id file_id stripe_id chunk_size fuel
          chunk_id chunk_offset buf left chunks replicas s
        ≡ running
  unfolding write_loop node_of send
  write_loop_stuck zero chunk_id chunk_offset left chunks replicas node buf s refuses e c h = refl
  write_loop_stuck (suc fuel) chunk_id chunk_offset left chunks replicas node buf s refuses e c h =
      let here = chunk_at file_id stripe_id chunk_id in
      let t = ensure_replica lt here (ensure_chunk lt here s) in
      let (k, l) = kept_chunk here node s e in
      let size = piece chunk_size chunk_offset left in
      ground (
        arith,
        k,
        l,
        e,
        refuses here chunk_offset (take size buf) t.sent,
        write_loop_stuck fuel chunk_id chunk_offset left chunks replicas node buf (mark_down node t)
            refuses (rw k e) (rw l c) h,
      )
