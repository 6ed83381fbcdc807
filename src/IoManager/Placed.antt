-- ===== src/IoManager/Placed.antt =====
-- The copies of chunks stay on nodes of the right kind through a write.
pub mod Nodes
pub mod Rounds
use deca_fs.Prelude.{◌<◌, ◌≢◌, ◌⊎◌, ◌∙◌, refl, sym, ◌∷◌, none, some, false, take}
use deca_fs.OrdMap.{IsIrreflexive, equiv, find, assign}
use deca_fs.OrdMap.Laws.{find-assign_self, find-assign_ne, eq_of_equiv, equiv_self}
use deca_fs.Volatile.{Volatile, contains}
use deca_fs.Placement.{put_chunk, put_replica, choose}
use deca_fs.IoManager.{
  faulted, running, send, delivered, failed, crashed, write_replica, write_request,
}
use deca_fs.IoManager.Placed.Nodes.{ensured_rest, ensured_nodes}
use deca_fs.IoManager.Placed.Rounds.{write_loop_done}
