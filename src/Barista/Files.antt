-- ===== src/Barista/Files.antt =====
-- lib/barista_core/barista_core.cpp: open_file, close_file and file_seek. Of the flags O_RDWR and O_APPEND are
-- looked at, here `writable` and `append`; `time` is what gettimeofday says. `unset_id` is what the
-- field file_id of a decafs_file_stat holds that no call filled in.
use deca_fs.Prelude.{ℕ, ◌+◌, ◌-◌, ◌%◌, List, Option, none, some, Bool, ltb, if◌then◌else◌}
use deca_fs.Prelude.Int.{ℤ, pos, negsuc, word_mod}
use deca_fs.Types.Client.{Client}
use deca_fs.Locking.{
  FileLocks, Status, lock_success, lock_error, get_exclusive_lock, get_shared_lock, release_lock,
}
use deca_fs.Persistent.{Timeval}
use deca_fs.Volatile.{new_file_cursor, close_file_cursor, get_file_cursor}
use deca_fs.Barista.{
  Barista, Run, served, asserted, unfinished, ◌>>=◌, reply, open_result, close_result, seek_result,
  to_word, decafs_file_sstat, add_file, on_volatile, size_of, set_file_cursor,
}

abbrev pub file_in_use : ℤ
file_in_use = negsuc 0

abbrev pub file_not_found_for_reading : ℤ
file_not_found_for_reading = negsuc 4

-- An int result, or NO_METADATA_LOCK
abbrev pub or_no_lock : Option ℤ → ℤ
or_no_lock none = negsuc 3
or_no_lock (some res) = res

-- SEEK_SET and SEEK_END; any other `whence` is as SEEK_CUR.
pub data Whence : Type 0 where
  seek_set seek_cur seek_end : Whence

module _ (unset unset_id : Barista → ℕ) where
  -- The id of the file to open, which is created if it is to be written; `none` where it is not there.
  unfoldable pub file_to_open :
      List ℕ → Bool → Timeval → Client → Barista → Run (Option ℕ × Barista)
  unfolding decafs_file_sstat add_file
  file_to_open pathname writable time client b = elim (decafs_file_sstat pathname client b) [
    | asserted ↦ asserted
    | unfinished ↦ unfinished
    | served (none, b') ↦ served (some (unset_id b'), b')
    | served (some (some stat), b') ↦ served (some stat.file_id, b')
    | served (some none, b') ↦
        if writable
        then (let v = b'.io.volatile in
            do
              (id, b'') ← add_file pathname v.stripe_size v.chunk_size v.chunk_size time client b'
              served (some (to_word (or_no_lock id)), b''))
        else served (none, b')
  ]

  -- What becomes of `stat.size`: that of the file if it was there.
  unfoldable pub stat_size : List ℕ → Client → Barista → ℕ
  unfolding decafs_file_sstat size_of
  stat_size pathname client b = elim (decafs_file_sstat pathname client b) [
    | asserted ↦ unset b
    | unfinished ↦ unset b
    | served (found, b') ↦ size_of unset found b'
  ]

  abbrev pub lock_for : Bool → Client → ℕ → FileLocks → Option (Status × FileLocks)
  lock_for writable client file_id locks =
      if writable
      then get_exclusive_lock client file_id locks
      else get_shared_lock client file_id locks

  -- set_file_cursor (cursor, stat.size, client)
  unfoldable pub move_to_end : ℤ → ℕ → Client → Barista → Run Barista
  unfolding set_file_cursor
  move_to_end cursor size client b = do
    (_, b') ← set_file_cursor unset (to_word cursor) size client b
    served b'

  -- The end of open_file, with the lock: a cursor, at the end of the file if it is opened to append.
  unfoldable pub open_cursor : ℕ → Bool → ℕ → Client → Barista → Run Barista
  unfolding move_to_end
  open_cursor file_id append size client b = do
    let (cursor, b1) = on_volatile (new_file_cursor file_id client) b
    b2 ← if append then move_to_end cursor size client b1 else served b1
    served (reply (open_result client cursor) b2)

  unfoldable pub open_locked : ℕ → Bool → Bool → ℕ → Client → Barista → Run Barista
  unfolding open_cursor
  open_locked file_id writable append size client b =
      elim (lock_for writable client file_id b.file_locks) [
        | none ↦ asserted
        | some (lock_error, locks) ↦
            served (reply (open_result client file_in_use) (record b { file_locks = locks }))
        | some (lock_success, locks) ↦
            open_cursor file_id append size client (record b { file_locks = locks })
      ]

  unfoldable pub open_file : List ℕ → Bool → Bool → Timeval → Client → Barista → Run Barista
  unfolding file_to_open stat_size open_locked
  open_file pathname writable append time client b =
      elim (file_to_open pathname writable time client b) [
        | asserted ↦ asserted
        | unfinished ↦ unfinished
        | served (none, b') ↦ served (reply (open_result client file_not_found_for_reading) b')
        | served (some file_id, b') ↦
            open_locked file_id writable append (stat_size pathname client b) client b'
      ]

  -- The rest of file_seek: the cursor moved on by the offset
  unfoldable pub seek_by : ℕ → ℕ → Client → Barista → Run Barista
  unfolding set_file_cursor
  seek_by fd offset client b = elim (get_file_cursor fd b.io.volatile) [
    | negsuc _ ↦ served (reply (seek_result client (get_file_cursor fd b.io.volatile)) b)
    | pos cursor_val ↦ elim (set_file_cursor unset fd ((cursor_val + offset) % word_mod) client b) [
      | asserted ↦ asserted
      | unfinished ↦ unfinished
      | served (_, b') ↦ served (reply (seek_result client (get_file_cursor fd b'.io.volatile)) b')
    ]
  ]

  unfoldable pub file_seek : ℤ → ℕ → Whence → Client → Barista → Run Barista
  unfolding set_file_cursor seek_by
  file_seek fd offset seek_end client b = do
    (_, b') ← set_file_cursor unset (to_word fd) (word_mod - 1) client b
    served (reply (seek_result client (get_file_cursor (to_word fd) b'.io.volatile)) b')
  file_seek fd offset seek_set client b = do
    (_, b') ← set_file_cursor unset (to_word fd) 0 client b
    seek_by (to_word fd) offset client b'
  file_seek fd offset seek_cur client b = seek_by (to_word fd) offset client b

-- The locks after a close that gave `res`
unfoldable pub locks_closed : ℤ → Client → FileLocks → Option FileLocks
locks_closed (negsuc _) client locks = some locks
locks_closed (pos file_id) client locks =
    if ltb 0 file_id
    then elim (release_lock client file_id locks) [ none ↦ none | some (_, left) ↦ some left ]
    else some locks

-- close_file: the lock goes with the cursor.
unfoldable pub close_file : ℤ → Client → Barista → Run Barista
unfolding locks_closed
close_file fd client b =
    let (res, b') = on_volatile (close_file_cursor (to_word fd) client) b in
    elim (locks_closed res client b'.file_locks) [
      | none ↦ asserted
      | some locks ↦ served (reply (close_result client res) (record b' { file_locks = locks }))
    ]
