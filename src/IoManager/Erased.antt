-- ===== src/IoManager/Erased.antt =====
-- A delete takes all chunks of a file out of both maps, and leaves those of other files.
pub mod Entries
use deca_fs.Prelude.{ℕ, ◌≡◌, ◌⊎◌, All, ℕ_discrete, List, Bool, true, false, ◌||◌}
use deca_fs.Types.File.{FileChunk}
use deca_fs.Volatile.{contains, is_node_up}
use deca_fs.IoManager.{Message, Io}
use deca_fs.IoManager.Erased.Entries.{erase_all}
use deca_fs.IoManager.Placed.Nodes.{IsChunkNode, IsReplicaNode}

-- All nodes that copies are put on are up and connected.
pub record AllUp (s : Io) : Type 0 where
  pub up : (n : ℕ) → (IsChunkNode n) ⊎ (IsReplicaNode n) → is_node_up n s.volatile ≡ true
  pub reached : (n : ℕ) → (IsChunkNode n) ⊎ (IsReplicaNode n) → contains n s.connected ≡ true

module _ (lt : FileChunk → FileChunk → Bool) (delivers : Message → List Message → Bool) where
  -- What a call leaves: the maps without some chunks, and the nodes as they were
  pub record Leaves (gone gone' : List FileChunk) (s s' : Io) : Type 0 where
    pub chunks : s'.chunk_to_node ≡ erase_all lt gone s.chunk_to_node
    pub replicas : s'.chunk_to_replica_node ≡ erase_all lt gone' s.chunk_to_replica_node
    pub volatile : s'.volatile ≡ s.volatile
    pub connected : s'.connected ≡ s.connected
