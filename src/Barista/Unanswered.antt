-- ===== src/Barista/Unanswered.antt =====
-- A delete that is never answered.
use deca_fs.Prelude.{ℕ, ◌+◌, ◌%◌, ◌≡◌, refl, List, [], Option, none, some, Bool, true, ltb, arith}
use deca_fs.Prelude.Int.{word_mod}
use deca_fs.OrdMap.{find, assign}
use deca_fs.OrdMap.Laws.{find-assign_self}
use deca_fs.OrdMap.Nat.{ltb-IsStrictOrder as order}
use deca_fs.Types.Client.{Client, same_ip_self}
use deca_fs.Types.File.{FileChunk}
use deca_fs.Locking.{has_exclusive_lock, holds_exclusive, owned_by}
use deca_fs.Persistent.{Persistent, FileStat}
use deca_fs.Persistent as Metadata
use deca_fs.Volatile.{get_new_request_id}
use deca_fs.IoManager.{Message}
use deca_fs.IoManager.Deletes.{chunks_of, delete_loop, process_delete_file}
use deca_fs.Barista.{Barista, served, new_request, decafs_file_sstat}
use deca_fs.Barista.Requests.{check_delete_complete, delete_request_exists}
use deca_fs.Barista.Deletes.{delete_locked, delete_file}
use deca_fs.Barista.Removed.{with_metadata_free}
use deca_fs.Barista.Opened.{IsKnown, lock_free, locked_by}

module _ (lt : FileChunk → FileChunk → Bool) (delivers : Message → List Message → Bool)
    (unset unset_id : Barista → ℕ) where
  -- A user deletes a file that is there, that nobody has locked, and of which there is no chunk, such as
  -- one that was never written: delete_file returns without a result for the client. The request
  -- stays, with no response to come, the file stays, and the user keeps the exclusive lock on it.
  pub delete_file_unanswered :
      (pathname : List ℕ) (stat : FileStat) (client : Client) (b : Barista)
      → IsKnown pathname stat client b
      → find ltb stat.file_id b.file_locks ≡ none
      → chunks_of stat.file_id b.io.chunk_to_node ≡ []
      → let id = (b.io.volatile.request_id + 1) % word_mod in
        (b' : Barista) × (delete_file lt delivers pathname client b ≡ served b')
        × (b'.replies ≡ b.replies)
        × (b'.persistent ≡ b.persistent)
        × (delete_request_exists id b' ≡ true)
        × (has_exclusive_lock client stat.file_id b'.file_locks ≡ some true)
  unfolding delete_file delete_locked process_delete_file delete_loop check_delete_complete
      decafs_file_sstat get_new_request_id has_exclusive_lock holds_exclusive owned_by
      delete_request_exists
  delete_file_unanswered pathname stat client b k e c =
      let id = (b.io.volatile.request_id + 1) % word_mod in
      let b1 = record b {
        io = record b.io { volatile = record b.io.volatile { request_id = id } };
      } in
      let call : Persistent → Option FileStat × Persistent =
        λ p. (Metadata.decafs_file_sstat pathname p, p) in
      let (m, f, _) = with_metadata_free client call b1 k.user k.free in
      let request = new_request client stat.file_id in
      let once = assign ltb id request b.active_delete_requests in
      let lock = locked_by unset unset_id client in
      (
        record b1 {
          meta_lock = m;
          file_locks = assign ltb stat.file_id lock b.file_locks;
          active_delete_requests = assign ltb id request once;
        },
        ground (
          arith,
          f,
          k.named,
          c,
          lock_free unset unset_id client stat.file_id b.file_locks k.user e,
          find-assign_self order id request once,
        ),
        refl,
        refl,
        ground (arith, find-assign_self order id request once),
        ground (
          arith,
          k.user,
          find-assign_self order stat.file_id lock b.file_locks,
          same_ip_self client.ip,
        ),
      )
