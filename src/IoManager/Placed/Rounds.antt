-- ===== src/IoManager/Placed/Rounds.antt =====
-- What one message, and one round of the write loop, can come to.
use deca_fs.Prelude.{
  ℕ, suc, ◌+◌, ◌-◌, ◌%◌, ◌<◌, ◌≡◌, ◌⊎◌, refl, List, ◌∷◌, Bool, arith, take, drop, Bool-cases, inl,
  inr,
}
use deca_fs.Prelude.Int.{word_mod}
use deca_fs.Types.File.{FileChunk}
use deca_fs.Volatile.{contains}
use deca_fs.Placement.{put_replica}
use deca_fs.IoManager.{
  Message, Io, Outcome, finished, faulted, running, chunk_at, piece, ensure_chunk, ensure_replica,
  node_of, send, delivered, failed, crashed, mark_down, write_replica, write_loop, write_request,
}

-- A message is taken, refused, or has no connection to go to.
module _ (lt : FileChunk → FileChunk → Bool) (delivers : Message → List Message → Bool) where
  pub send-cases :
      (node : ℕ) (m : Message) (s : Io)
      → (send lt delivers node m s ≡ crashed)
        ⊎ (send lt delivers node m s ≡ failed s)
        ⊎ (send lt delivers node m s ≡ delivered (record s { sent = m ∷ s.sent }))
  unfolding send
  send-cases node m s = elim (Bool-cases (contains node s.connected)) [
    | inr no_connection ↦ inl (ground (arith, no_connection))
    | inl yes_connection ↦ elim (Bool-cases (delivers m s.sent)) [
      | inl d ↦ inr (inr (ground (arith, yes_connection, d)))
      | inr d ↦ inr (inl (ground (arith, yes_connection, d)))
    ]
  ]

-- If it ends, it ends in such a state.
abbrev pub Ends : {A : Type 0} → (Io → Type 0) → Outcome A → Type 0
Ends P (finished a s) = P s
Ends P faulted = Unit
Ends P running = Unit

module _ (lt : FileChunk → FileChunk → Bool) (delivers : Message → List Message → Bool)
    (request_id replica_request_id file_id stripe_id chunk_size : ℕ) where
  -- A write to a replica faults, or ends with the maps as they were.
  pub write_replica-cases :
      (node chunk_id chunk_offset : ℕ) (bytes : List ℕ) (s : Io)
      → let r =
          write_replica lt delivers request_id replica_request_id file_id stripe_id chunk_size node
            chunk_id chunk_offset bytes s in
        (r ≡ faulted)
        ⊎ ((s' : Io) × (r ≡ finished tt s')
            × (s'.chunk_to_node ≡ s.chunk_to_node)
            × (s'.chunk_to_replica_node ≡ s.chunk_to_replica_node)
            × (s'.connected ≡ s.connected))
  unfolding write_replica
  write_replica-cases node chunk_id chunk_offset bytes s =
      let c = chunk_at file_id stripe_id chunk_id in
      let m = write_request replica_request_id node c chunk_offset bytes in
      elim (send-cases lt delivers node m s) [
        | inl e ↦ inl (ground (arith, e))
        | inr (inr e) ↦ inr (record s { sent = m ∷ s.sent }, ground (arith, e), refl, refl, refl)
        | inr (inl e) ↦
            let t = mark_down node s in
            let other = put_replica chunk_id t.volatile in
            let m' = write_request replica_request_id other c chunk_offset bytes in
            elim (send-cases lt delivers other m' t) [
              | inl f ↦ inl (ground (arith, e, f))
              | inr (inl f) ↦ inr (t, ground (arith, e, f), refl, refl, refl)
              | inr (inr f) ↦
                  inr (record t { sent = m' ∷ t.sent }, ground (arith, e, f), refl, refl, refl)
            ]
      ]

  -- One round of the write loop that finds bytes to write.
  pub write_loop-cases :
      (fuel chunk_id chunk_offset left chunks replicas : ℕ) (buf : List ℕ) (s : Io)
      → let run =
          write_loop lt delivers request_id replica_request_id file_id stripe_id chunk_size in
        let c = chunk_at file_id stripe_id chunk_id in
        let t = ensure_replica lt c (ensure_chunk lt c s) in
        let size = piece chunk_size chunk_offset left in
        let r = run (suc fuel) chunk_id chunk_offset buf left chunks replicas s in
        0 < left
        → (r ≡ faulted)
          ⊎ (r
              ≡ run fuel chunk_id chunk_offset buf left chunks replicas
                  (mark_down (node_of lt c t.chunk_to_node) t))
          ⊎ ((s' : Io) × (r
                ≡ run fuel
                    ((chunk_id + 1) % word_mod)
                    0
                    (drop size buf)
                    (left - size)
                    (chunks + 1)
                    (replicas + 1)
                    s')
              × (s'.chunk_to_node ≡ t.chunk_to_node)
              × (s'.chunk_to_replica_node ≡ t.chunk_to_replica_node)
              × (s'.connected ≡ t.connected))
  unfolding write_loop
  write_loop-cases fuel chunk_id chunk_offset left chunks replicas buf s z =
      let c = chunk_at file_id stripe_id chunk_id in
      let t = ensure_replica lt c (ensure_chunk lt c s) in
      let size = piece chunk_size chunk_offset left in
      let node = node_of lt c t.chunk_to_node in
      let m = write_request request_id node c chunk_offset (take size buf) in
      elim (send-cases lt delivers node m t) [
        | inl e ↦ inl (ground (arith, e))
        | inr (inl e) ↦ inr (inl (ground (arith, e)))
        | inr (inr e) ↦
            let u = record t { sent = m ∷ t.sent } in
            elim (write_replica-cases (node_of lt c t.chunk_to_replica_node) chunk_id chunk_offset
              (take size buf) u) [
                | inl f ↦ inl (ground (arith, e, f))
                | inr (s', f, a, b, d) ↦ inr (inr (s', ground (arith, e, f), a, b, d))
              ]
      ]

  pub write_loop_done :
      (fuel chunk_id chunk_offset chunks replicas : ℕ) (buf : List ℕ) (s : Io)
      → write_loop lt delivers request_id replica_request_id file_id stripe_id chunk_size
          (suc fuel)
          chunk_id
          chunk_offset
          buf
          0
          chunks
          replicas
          s
        ≡ finished (chunks, replicas) s
  unfolding write_loop
  write_loop_done fuel chunk_id chunk_offset chunks replicas buf s = refl
