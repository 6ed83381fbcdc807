-- ===== src/Barista/Finished.antt =====
-- write_file comes to an end when no node refuses a message.
mod Calls
mod Stripes
use deca_fs.Prelude.{
  ℕ, zero, ◌-◌, ◌^◌, ◌≤◌, ◌<◌, ◌≡◌, ◌≢◌, ◌⊎◌, [], none, some, true, false, not, ltb, if◌then◌else◌,
  take, drop, Option-cases,
}
use deca_fs.Prelude.Int.{ℤ, pos, negsuc, to_int}
use deca_fs.OrdMap.{find}
use deca_fs.Types.Client.{Client, same_client, same_ip_self}
use deca_fs.Types.File.{FileInstance}
use deca_fs.Locking.{
  MetaLock, get_metadata_lock, release_metadata_lock, meta_held_by, has_exclusive_lock,
}
use deca_fs.Persistent.{Persistent, Info, size_after}
use deca_fs.Persistent as Metadata
use deca_fs.Volatile.{Volatile, get_file_info, get_file_cursor}
use deca_fs.Volatile as Volatiles
use deca_fs.IoManager.{Io, finished, piece, process_write_stripe}
use deca_fs.IoManager.Placed.Nodes.{IsPlaced}
use deca_fs.IoManager.Stripes.{IsReachable, length-take_of, length-drop_of}
use deca_fs.IoManager.Flat.{process_write_stripe_ends}
use deca_fs.Barista.{
  Barista, Run, asserted, unfinished, ◌>>=◌, with_metadata, update_file_size, set_file_cursor,
  size_of, to_word,
}
use deca_fs.Barista.Written.Order.{write_request_lt-IsStrictOrder as by_ids}
use deca_fs.Barista.Transfers.{on_io, advance, write_stripes}

-- A client that may write at the file open as `fd`: the file, its place, and what nodes and maps need
pub record CanWrite (fd : ℕ) (info : Info) (offset : ℕ) (client : Client) (b : Barista)
    : Type 0 where
  pub placed : IsPlaced b.io
  pub reachable : IsReachable b.io
  pub free : b.meta_lock.owner_uid ≡ 0
  pub user : client.user_id ≢ 0
  pub listed : find ltb (get_file_info fd b.io.volatile).file_id b.persistent.metadata ≡ some info
  pub locked :
      has_exclusive_lock client (get_file_info fd b.io.volatile).file_id b.file_locks ≡ some true
  pub cursor : get_file_cursor fd b.io.volatile ≡ pos offset
  pub has_stripes : 0 < info.stripe_size
  pub has_chunks : 0 < info.chunk_size
  pub small_stripes : info.stripe_size < 2 ^ 31
  pub small_chunks : info.chunk_size < 2 ^ 31
