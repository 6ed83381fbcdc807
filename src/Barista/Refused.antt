-- ===== src/Barista/Refused.antt =====
-- Reads and writes that are refused.
use deca_fs.Prelude.{ℕ, suc, ◌+◌, ◌%◌, ◌≡◌, ◌≢◌, List, [], ◌∷◌, some, Bool, false, ltb, arith}
use deca_fs.Prelude.Int.{pos, word_mod}
use deca_fs.Types.Client.{Client}
use deca_fs.Types.File.{FileChunk}
use deca_fs.OrdMap.{find}
use deca_fs.Locking.{
  FileLock, FileLocks, owned_by, holds_exclusive, holds_shared, has_exclusive_lock, has_shared_lock,
}
use deca_fs.Volatile.{get_file_info, get_new_request_id}
use deca_fs.IoManager.{Message}
use deca_fs.Barista.{Barista, served, read_result, write_result}
use deca_fs.Barista.Transfers.{
  may_read, read_file, write_file, file_not_open_for_read, file_not_open_for_write,
}

-- A lock of somebody else is no lock of the client.
foreign-exclusive :
    (client : Client) (f : ℕ) (l : FileLock) (locks : FileLocks)
    → client.user_id ≢ 0
    → find ltb f locks ≡ some l
    → owned_by l client ≡ false
    → has_exclusive_lock client f locks ≡ some false
unfolding has_exclusive_lock holds_exclusive
foreign-exclusive client f l locks u e o = ground (arith, e, o)

foreign-shared :
    (client : Client) (f : ℕ) (l : FileLock) (locks : FileLocks)
    → client.user_id ≢ 0
    → find ltb f locks ≡ some l
    → owned_by l client ≡ false
    → has_shared_lock client f locks ≡ some false
unfolding has_shared_lock holds_shared
foreign-shared client f l locks u e o = ground (arith, e, o)

module _ (lt : FileChunk → FileChunk → Bool) (delivers : Message → List Message → Bool)
    (unset : Barista → ℕ) where
  -- While somebody else has the file of a number locked, another user is refused: write_file answers
  -- FILE_NOT_OPEN_FOR_WRITE and read_file FILE_NOT_OPEN_FOR_READ. The state is the same but for that
  -- reply and the counter of request ids, which goes up by 1 for a read and by 2 for a write, modulo
  -- 2^32: no message is sent, no request is filed, and cursors, files, chunks and locks stay.
  pub refused_without_lock :
      (fuel n count : ℕ) (buf : List ℕ) (client : Client) (l : FileLock) (b : Barista)
      → client.user_id ≢ 0
      → find ltb (get_file_info (suc n) b.io.volatile).file_id b.file_locks ≡ some l
      → owned_by l client ≡ false
      → let id = (b.io.volatile.request_id + 1) % word_mod in
        (write_file lt delivers unset fuel (pos (suc n)) buf count client b
          ≡ served (record b {
            io = record b.io {
              volatile = record b.io.volatile { request_id = (id + 1) % word_mod };
            };
            replies = write_result client 0 file_not_open_for_write ∷ b.replies;
          }))
        × (read_file lt delivers unset fuel (pos (suc n)) count client b
            ≡ served (record b {
              io = record b.io { volatile = record b.io.volatile { request_id = id } };
              replies = read_result client 0 file_not_open_for_read [] ∷ b.replies;
            }))
  unfolding write_file read_file may_read get_new_request_id get_file_info
  refused_without_lock fuel n count buf client l b u e o =
      let f = (get_file_info (suc n) b.io.volatile).file_id in
      let ex = foreign-exclusive client f l b.file_locks u e o in
      let sh = foreign-shared client f l b.file_locks u e o in
      (ground (arith, ex), ground (arith, ex, sh))
