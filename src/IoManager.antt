-- ===== src/IoManager.antt =====
-- lib/io_manager/io_manager.cpp, with lib/access/access.cpp and the requests of
-- lib/network_core/barista_network_helper.cpp: a stripe is read and written chunk by chunk.
-- The two maps are std::maps under a comparator `lt` of chunks. `delivers` says of a message, after those
-- sent before it (the last one first), whether send(2) takes it. A loop that has not ended within its
-- fuel is `running`; `faulted` is a failed assertion, or a message to a node with no connection, which
-- the code sends through a null pointer.
pub mod Deletes
pub mod Locate
pub mod Stripes
pub mod Placed
pub mod Stuck
pub mod Flat
pub mod Erased
pub mod Tests
use deca_fs.Prelude.{
  ℕ, zero, suc, ◌+◌, ◌-◌, ◌%◌, List, [], ◌∷◌, Option, none, some, Bool, true, false, ltb, leb, ◌==◌,
  if◌then◌else◌, take, drop,
}
use deca_fs.Prelude.Int.{ℤ, pos, negsuc, to_int, lt_int, word_mod}
use deca_fs.OrdMap.{find, assign, erase}
use deca_fs.Types.File.{FileChunk}
use deca_fs.Volatile.{Volatile, contains, is_node_up, set_node_down}
use deca_fs.Placement.{put_chunk, put_replica}

-- What goes to an Espresso node: ReadChunkRequest, WriteChunkRequest and DeleteChunkRequest.
pub data Message : Type 0 where
  read_request : ℕ → ℕ → FileChunk → ℕ → ℕ → Message
  write_request : ℕ → ℕ → FileChunk → ℕ → List ℕ → Message
  delete_request : ℕ → ℕ → FileChunk → Message

-- IO_Manager, with what it works on: the volatile metadata, the nodes that are connected (those in
-- BaristaServer::m_espresso_nodes), and the messages sent, the last one first.
pub record Io : Type 0 where
  pub chunk_to_node : List (FileChunk × ℕ)
  pub chunk_to_replica_node : List (FileChunk × ℕ)
  pub volatile : Volatile
  pub connected : List ℕ
  pub sent : List Message

pub data Outcome (A : Type 0) : Type 0 where
  finished : A → Io → Outcome A
  faulted : Outcome A
  running : Outcome A

-- CHUNK_ID_INIT, and STRIPE_ID_INIT of the Barista core
abbrev pub id_init : ℕ
id_init = 1

-- The loop of get_first_chunk and of get_first_stripe, on words: the offset is an int, the size is
-- converted to one for the test, and the difference is taken on unsigned numbers. What comes out is the
-- id, and the offset within it.
unfoldable pub locate : ℕ → ℕ → ℕ → ℕ → Option (ℕ × ℕ)
locate zero size id offset = none
locate (suc fuel) size id offset = elim (lt_int size offset) [
  | true ↦ locate fuel size ((id + 1) % word_mod) ((offset + (word_mod - size)) % word_mod)
  | false ↦ some (id, offset)
]

-- Of a size from 1 to 2^31 - 1, each round takes at least one byte off the offset; for other sizes the
-- source's loop may never end, and out of fuel is `none`.
unfoldable pub get_first : ℕ → ℕ → Option (ℕ × ℕ)
unfolding locate
get_first size offset = locate (suc offset) size id_init offset

abbrev pub chunk_at : ℕ → ℕ → ℕ → FileChunk
chunk_at file_id stripe_id chunk_id = record {
  file_id = file_id;
  stripe_id = stripe_id;
  chunk_num = chunk_id;
}

-- The bytes of a request that go to the current chunk: up to its end.
abbrev pub piece : ℕ → ℕ → ℕ → ℕ
piece chunk_size chunk_offset left =
    if ltb (chunk_size - chunk_offset) left then chunk_size - chunk_offset else left

-- `map[chunk]` of a chunk that is in the map; of any other it is the int 0.
unfoldable pub node_of : (FileChunk → FileChunk → Bool) → FileChunk → List (FileChunk × ℕ) → ℕ
node_of lt c m = elim (find lt c m) [ none ↦ 0 | some node ↦ node ]

-- Whether the map has the chunk: chunk_exists and chunk_replica_exists.
unfoldable pub exists_in : (FileChunk → FileChunk → Bool) → FileChunk → List (FileChunk × ℕ) → Bool
exists_in lt c m = elim (find lt c m) [ none ↦ false | some node ↦ true ]

pub data Sent : Type 0 where
  delivered failed : Io → Sent
  crashed : Sent

-- set_node_down (node)
abbrev pub mark_down : ℕ → Io → Io
mark_down node s = record s { volatile = (set_node_down node s.volatile).1 }

module _ (lt : FileChunk → FileChunk → Bool) where
  unfoldable pub set_node_id : FileChunk → ℕ → Io → ℕ × Io
  set_node_id c node s = (node, record s { chunk_to_node = assign lt c node s.chunk_to_node })

  -- CHUNK_NOT_FOUND is -1.
  unfoldable pub get_node_id : FileChunk → Io → ℤ
  get_node_id c s = elim (find lt c s.chunk_to_node) [ none ↦ negsuc 0 | some node ↦ pos node ]

  unfoldable pub set_replica_node_id : FileChunk → ℕ → Io → ℕ × Io
  set_replica_node_id c node s =
      (node, record s { chunk_to_replica_node = assign lt c node s.chunk_to_replica_node })

  -- REPLICA_CHUNK_NOT_FOUND is -3.
  unfoldable pub get_replica_node_id : FileChunk → Io → ℤ
  get_replica_node_id c s = elim (find lt c s.chunk_to_replica_node) [
    | none ↦ negsuc 2
    | some node ↦ pos node
  ]

  -- If the chunk does not exist, create it.
  unfoldable pub ensure_chunk : FileChunk → Io → Io
  ensure_chunk c s = elim (find lt c s.chunk_to_node) [
    | none ↦ record s {
      chunk_to_node = assign lt c (put_chunk c.chunk_num s.volatile) s.chunk_to_node;
    }
    | some node ↦ s
  ]

  -- If the replica does not exist, create it.
  unfoldable pub ensure_replica : FileChunk → Io → Io
  ensure_replica c s = elim (find lt c s.chunk_to_replica_node) [
    | none ↦ record s {
      chunk_to_replica_node =
          assign lt c (put_replica c.chunk_num s.volatile) s.chunk_to_replica_node;
    }
    | some node ↦ s
  ]

  -- The node that process_read_stripe asks: the chunk's own, or its replica's if that one is down.
  unfoldable pub read_node : FileChunk → ℕ → Io → Option ℕ
  read_node c node s =
      if is_node_up node s.volatile then some node else find lt c s.chunk_to_replica_node

module _ (lt : FileChunk → FileChunk → Bool) (delivers : Message → List Message → Bool) where
  -- BaristaServer::sendToEspresso: NODE_FAILURE is the -1 of send(2).
  unfoldable pub send : ℕ → Message → Io → Sent
  send node m s =
      if contains node s.connected
      then (if delivers m s.sent then delivered (record s { sent = m ∷ s.sent }) else failed s)
      else crashed

  module _ (request_id file_id stripe_id chunk_size : ℕ) where
    -- The loop of process_read_stripe: the current chunk, the bytes to go, and the chunks asked for.
    unfoldable pub read_loop : ℕ → ℕ → ℕ → ℕ → ℕ → Io → Outcome ℕ
    unfolding send read_node
    read_loop zero chunk_id chunk_offset left num_chunks s = running
    read_loop (suc fuel) chunk_id chunk_offset left num_chunks s = elim (left == 0) [
      | true ↦ finished num_chunks s
      | false ↦ elim (find lt (chunk_at file_id stripe_id chunk_id) s.chunk_to_node) [
        | none ↦ finished num_chunks s
        | some own ↦ elim (read_node lt (chunk_at file_id stripe_id chunk_id) own s) [
          | none ↦ faulted
          | some node ↦
              let size = piece chunk_size chunk_offset left in
              elim (send node
                (read_request request_id node (chunk_at file_id stripe_id chunk_id) chunk_offset
                  size)
                s) [
                  | crashed ↦ faulted
                  | failed s' ↦
                      read_loop fuel chunk_id chunk_offset left num_chunks (mark_down node s')
                  | delivered s' ↦
                      read_loop fuel ((chunk_id + 1) % word_mod) 0 (left - size) (num_chunks + 1) s'
                ]
        ]
      ]
    ]

  module _ (request_id replica_request_id file_id stripe_id chunk_size : ℕ) where
    -- The write to the replica: if that fails, one more attempt with another node.
    unfoldable pub write_replica : ℕ → ℕ → ℕ → List ℕ → Io → Outcome (Unit {0})
    unfolding send
    write_replica node chunk_id chunk_offset bytes s =
        let c = chunk_at file_id stripe_id chunk_id in
        elim (send node (write_request replica_request_id node c chunk_offset bytes) s) [
          | crashed ↦ faulted
          | delivered s' ↦ finished tt s'
          | failed s' ↦
              let down = mark_down node s' in
              let other = put_replica chunk_id down.volatile in
              elim (send other (write_request replica_request_id other c chunk_offset bytes) down) [
                | crashed ↦ faulted
                | delivered s'' ↦ finished tt s''
                | failed s'' ↦ finished tt s''
              ]
        ]

    -- The loop of process_write_stripe: the current chunk, the bytes to go, and the chunks and replicas
    -- written.
    unfoldable pub write_loop : ℕ → ℕ → ℕ → List ℕ → ℕ → ℕ → ℕ → Io → Outcome (ℕ × ℕ)
    unfolding send write_replica ensure_chunk ensure_replica node_of
    write_loop zero chunk_id chunk_offset buf left chunks replicas s = running
    write_loop (suc fuel) chunk_id chunk_offset buf left chunks replicas s = elim (left == 0) [
      | true ↦ finished (chunks, replicas) s
      | false ↦
          let c = chunk_at file_id stripe_id chunk_id in
          let t = ensure_replica lt c (ensure_chunk lt c s) in
          let node = node_of lt c t.chunk_to_node in
          let replica = node_of lt c t.chunk_to_replica_node in
          let size = piece chunk_size chunk_offset left in
          elim (send node (write_request request_id node c chunk_offset (take size buf)) t) [
            | crashed ↦ faulted
            | failed s' ↦
                write_loop fuel chunk_id chunk_offset buf left chunks replicas (mark_down node s')
            | delivered s' ↦ elim (write_replica replica chunk_id chunk_offset (take size buf) s') [
              | running ↦ running
              | faulted ↦ faulted
              | finished _ s'' ↦
                  write_loop fuel ((chunk_id + 1) % word_mod) 0 (drop size buf) (left - size)
                    (chunks + 1) (replicas + 1) s''
            ]
          ]
    ]

  -- process_read_stripe, with what the assertion compares as it stands there
  unfoldable pub process_read_stripe : ℕ → ℕ → ℕ → ℕ → ℕ → ℕ → ℕ → ℕ → Io → Outcome ℕ
  unfolding read_loop get_first
  process_read_stripe fuel request_id file_id stripe_id stripe_size chunk_size offset count s =
      if ltb (stripe_size + offset) count then faulted else elim (get_first chunk_size offset) [
        | none ↦ running
        | some (chunk_id, chunk_offset) ↦
            read_loop request_id file_id stripe_id chunk_size fuel chunk_id chunk_offset count 0 s
      ]

  -- process_write_stripe: the chunks and replicas written are counted from 0
  unfoldable pub process_write_stripe :
      ℕ → ℕ → ℕ → ℕ → ℕ → ℕ → ℕ → List ℕ → ℕ → ℕ → Io → Outcome (ℕ × ℕ)
  unfolding write_loop get_first
  process_write_stripe fuel request_id replica_request_id file_id stripe_id stripe_size chunk_size
        buf offset count s =
      if ltb (stripe_size + offset) count then faulted else elim (get_first chunk_size offset) [
        | none ↦ running
        | some (chunk_id, chunk_offset) ↦
            write_loop request_id replica_request_id file_id stripe_id chunk_size fuel chunk_id
              chunk_offset buf count 0 0 s
      ]
