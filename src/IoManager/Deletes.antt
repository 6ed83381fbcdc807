-- ===== src/IoManager/Deletes.antt =====
-- lib/io_manager/io_manager.cpp: process_delete_file, which deletes the copies of all chunks of a file.
use deca_fs.Prelude.{ℕ, ◌+◌, List, [], ◌∷◌, none, some, Bool, ◌==◌, if◌then◌else◌}
use deca_fs.OrdMap.{find, erase}
use deca_fs.Types.File.{FileChunk}
use deca_fs.Volatile.{is_node_up}
use deca_fs.IoManager.{
  Message, delete_request, Io, Outcome, finished, faulted, running, delivered, failed, crashed,
  send,
}

-- get_all_chunks, as a walk over chunk_to_node
unfoldable pub chunks_of : ℕ → List (FileChunk × ℕ) → List FileChunk
chunks_of file_id [] = []
chunks_of file_id ((c, node) ∷ m) =
    let rest = chunks_of file_id m in if c.file_id == file_id then c ∷ rest else rest

module _ (lt : FileChunk → FileChunk → Bool) (delivers : Message → List Message → Bool) where
  -- The request to a node that holds the chunk, if that node is up; the reply is not looked at.
  unfoldable pub delete_copy : ℕ → ℕ → FileChunk → (Io → Io) → ℕ → Io → Outcome ℕ
  unfolding send
  delete_copy request_id node c forget num_chunks s =
      if is_node_up node s.volatile
      then elim (send lt delivers node (delete_request request_id node c) s) [
        | crashed ↦ faulted
        | delivered s' ↦ finished (num_chunks + 1) (forget s')
        | failed s' ↦ finished (num_chunks + 1) (forget s')
      ]
      else finished num_chunks s

  abbrev pub forget_chunk : FileChunk → Io → Io
  forget_chunk c s = record s { chunk_to_node = erase lt c s.chunk_to_node }

  abbrev pub forget_replica : FileChunk → Io → Io
  forget_replica c s = record s { chunk_to_replica_node = erase lt c s.chunk_to_replica_node }

  unfoldable pub delete_primary : ℕ → FileChunk → ℕ → Io → Outcome ℕ
  unfolding delete_copy
  delete_primary request_id c num_chunks s = elim (find lt c s.chunk_to_node) [
    | none ↦ finished num_chunks s
    | some node ↦ delete_copy request_id node c (forget_chunk c) num_chunks s
  ]

  unfoldable pub delete_replica : ℕ → FileChunk → ℕ → Io → Outcome ℕ
  unfolding delete_copy
  delete_replica request_id c num_chunks s = elim (find lt c s.chunk_to_replica_node) [
    | none ↦ finished num_chunks s
    | some node ↦ delete_copy request_id node c (forget_replica c) num_chunks s
  ]

  -- The loop of process_delete_file.
  unfoldable pub delete_loop : ℕ → List FileChunk → ℕ → Io → Outcome ℕ
  unfolding delete_primary delete_replica
  delete_loop request_id [] num_chunks s = finished num_chunks s
  delete_loop request_id (c ∷ cs) num_chunks s = elim (delete_primary request_id c num_chunks s) [
    | running ↦ running
    | faulted ↦ faulted
    | finished n s' ↦ elim (delete_replica request_id c n s') [
      | running ↦ running
      | faulted ↦ faulted
      | finished n' s'' ↦ delete_loop request_id cs n' s''
    ]
  ]

  unfoldable pub process_delete_file : ℕ → ℕ → Io → Outcome ℕ
  unfolding delete_loop chunks_of
  process_delete_file request_id file_id s =
      delete_loop request_id (chunks_of file_id s.chunk_to_node) 0 s
