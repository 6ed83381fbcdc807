-- ===== src/Barista/Deletes.antt =====
-- lib/barista_core/barista_core.cpp: delete_file.
use deca_fs.Prelude.{ℕ, ◌%◌, List, none, some, Bool, ltb}
use deca_fs.Prelude.Int.{word_mod}
use deca_fs.OrdMap.{assign}
use deca_fs.Types.Client.{Client}
use deca_fs.Types.File.{FileChunk}
use deca_fs.Locking.{get_exclusive_lock, lock_success, lock_error}
use deca_fs.Persistent.{file_not_found}
use deca_fs.Volatile.{get_new_request_id}
use deca_fs.IoManager.{Message}
use deca_fs.Barista.{
  new_request, Barista, Run, served, asserted, unfinished, reply, remove_result, on_volatile,
  decafs_file_sstat,
}
use deca_fs.Barista.Requests.{check_delete_complete}
use deca_fs.Barista.Files.{file_in_use}
use deca_fs.IoManager.Deletes.{process_delete_file}
use deca_fs.Barista.Transfers.{on_io}

module _ (lt : FileChunk → FileChunk → Bool) (delivers : Message → List Message → Bool) where
  -- delete_file once the file is locked
  unfoldable pub delete_locked : ℕ → ℕ → Client → Barista → Run Barista
  unfolding process_delete_file check_delete_complete
  delete_locked request_id file_id client b =
      on_io (process_delete_file lt delivers request_id file_id b.io)
        (record b {
          active_delete_requests =
              assign ltb request_id (new_request client file_id) b.active_delete_requests;
        })
        (λ num_chunks b'. check_delete_complete request_id (record b' {
          active_delete_requests =
              assign ltb request_id
                (record (new_request client file_id) { chunks_expected = num_chunks % word_mod })
                b'.active_delete_requests;
        }))

  unfoldable pub delete_file : List ℕ → Client → Barista → Run Barista
  unfolding delete_locked decafs_file_sstat
  delete_file pathname client b =
      let (request_id, b1) = on_volatile get_new_request_id b in
      elim (decafs_file_sstat pathname client b1) [
        | asserted ↦ asserted
        | unfinished ↦ unfinished
        | served (none, b2) ↦ served (reply (remove_result client file_not_found) b2)
        | served (some none, b2) ↦ served (reply (remove_result client file_not_found) b2)
        | served (some (some stat), b2) ↦
            elim (get_exclusive_lock client stat.file_id b2.file_locks) [
              | none ↦ asserted
              | some (lock_error, locks) ↦
                  served
                    (reply (remove_result client file_in_use) (record b2 { file_locks = locks }))
              | some (lock_success, locks) ↦
                  delete_locked request_id stat.file_id client (record b2 { file_locks = locks })
            ]
      ]
