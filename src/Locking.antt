-- ===== src/Locking.antt =====
-- lib/locking_strategy/locking_strategy.cc: the locks on files and the lock on the metadata. Each
-- function holds its mutex from start to end, so it is one step. A call with user id 0 fails the
-- assertion, which is `none`.
pub mod Mutex
pub mod Exclusion
pub mod Table
pub mod Sharing
mod Tests
use deca_fs.Prelude.{
  ℕ, ◌≡◌, List, [], ◌∷◌, Option, none, some, Bool, true, false, not, ◌&&◌, ◌||◌, ltb, ◌==◌,
  if◌then◌else◌,
}
use deca_fs.OrdMap.{find, assign, erase}
use deca_fs.Types.Client.{Client, same_ip}

-- file_lock
pub record FileLock : Type 0 where
  pub owner_uid : ℕ
  pub owner_ip : List ℕ
  pub ex_proc : ℕ
  pub sh_procs : List ℕ

-- file_lock()
abbrev pub unlocked : FileLock
unlocked = record { owner_uid = 0; owner_ip = []; ex_proc = 0; sh_procs = [] }

-- file_locks, by file id
abbrev pub FileLocks : Type 0
FileLocks = List (ℕ × FileLock)

-- LOCK_SUCCESS and LOCK_ERROR
pub data Status : Type 0 where
  lock_success lock_error : Status

-- `file_locks[file_id]` as a value; a missing entry is made with file_lock().
unfoldable pub lock_of : ℕ → FileLocks → FileLock
lock_of f locks = elim (find ltb f locks) [ none ↦ unlocked | some l ↦ l ]

-- sh_procs.count (p) != 0
unfoldable pub member : ℕ → List ℕ → Bool
member p [] = false
member p (q ∷ qs) = q == p || member p qs

-- sh_procs.erase (p)
unfoldable pub remove : ℕ → List ℕ → List ℕ
remove p [] = []
remove p (q ∷ qs) = if q == p then remove p qs else q ∷ remove p qs

-- lock.owner_uid == client.user_id && lock.owner_ip == client.ip
unfoldable pub owned_by : FileLock → Client → Bool
owned_by l c = l.owner_uid == c.user_id && same_ip l.owner_ip c.ip

unfoldable pub exclusive_step : FileLock → Client → Status × FileLock
exclusive_step l c =
    if not (l.owner_uid == 0)
    then (lock_error, l)
    else (lock_success, record l { owner_uid = c.user_id; owner_ip = c.ip; ex_proc = c.ctc })

-- `assert (client.user_id != 0)`, then the step on `file_locks[file_id]`
unfoldable pub get_exclusive_lock : Client → ℕ → FileLocks → Option (Status × FileLocks)
get_exclusive_lock c f locks =
    let (r, l) = exclusive_step (lock_of f locks) c in
    if c.user_id == 0 then none else some (r, assign ltb f l locks)

unfoldable pub share : FileLock → Client → Status × FileLock
share l c =
    if member c.ctc l.sh_procs
    then (lock_error, l)
    else (lock_success, record l { sh_procs = c.ctc ∷ l.sh_procs })

unfoldable pub shared_step : FileLock → Client → Status × FileLock
unfolding share owned_by
shared_step l c =
    if l.owner_uid == 0
    then share (record l { owner_uid = c.user_id; owner_ip = c.ip }) c
    else if not (owned_by l c)
    then (lock_error, l)
    else share l c

unfoldable pub get_shared_lock : Client → ℕ → FileLocks → Option (Status × FileLocks)
get_shared_lock c f locks =
    let (r, l) = shared_step (lock_of f locks) c in
    if c.user_id == 0 then none else some (r, assign ltb f l locks)

-- The end of release_lock: the entry is erased with its last shared holder.
unfoldable pub keep_shared : FileLock → List ℕ → Status × Option FileLock
keep_shared l [] = (lock_success, none)
keep_shared l (p ∷ ps) = (lock_success, some (record l { sh_procs = p ∷ ps }))

-- The entry after a release: `none` where it is erased.
unfoldable pub release_step : FileLock → Client → Status × Option FileLock
unfolding owned_by keep_shared
release_step l c =
    if not (owned_by l c)
    then (lock_error, some l)
    else if l.ex_proc == c.ctc
    then (lock_success, none)
    else if not (member c.ctc l.sh_procs)
    then (lock_error, some l)
    else keep_shared l (remove c.ctc l.sh_procs)

abbrev pub store_entry : ℕ → Option FileLock → FileLocks → FileLocks
store_entry f none locks = erase ltb f locks
store_entry f (some l) locks = assign ltb f l locks

unfoldable pub release_lock : Client → ℕ → FileLocks → Option (Status × FileLocks)
release_lock c f locks =
    let (r, l) = release_step (lock_of f locks) c in
    if c.user_id == 0 then none else some (r, store_entry f l locks)

unfoldable pub holds_exclusive : FileLock → Client → Bool
unfolding owned_by
holds_exclusive l c = owned_by l c && l.ex_proc == c.ctc

unfoldable pub holds_shared : FileLock → Client → Bool
unfolding owned_by
holds_shared l c = owned_by l c && member c.ctc l.sh_procs

-- has_exclusive_lock: true for 1, false for 0
unfoldable pub has_exclusive_lock : Client → ℕ → FileLocks → Option Bool
unfolding holds_exclusive
has_exclusive_lock c f locks =
    if c.user_id == 0
    then none
    else some (elim (find ltb f locks) [ none ↦ false | some l ↦ holds_exclusive l c ])

unfoldable pub has_shared_lock : Client → ℕ → FileLocks → Option Bool
unfolding holds_shared
has_shared_lock c f locks =
    if c.user_id == 0
    then none
    else some (elim (find ltb f locks) [ none ↦ false | some l ↦ holds_shared l c ])

-- meta_lock_singleton
pub record MetaLock : Type 0 where
  pub owner_uid : ℕ
  pub owner_ip : List ℕ
  pub proc : ℕ

unfoldable pub meta_held_by : MetaLock → Client → Bool
meta_held_by l c = l.owner_uid == c.user_id && same_ip l.owner_ip c.ip && l.proc == c.ctc

unfoldable pub get_metadata_lock : Client → MetaLock → Option (Status × MetaLock)
get_metadata_lock c l =
    if c.user_id == 0
    then none
    else if l.owner_uid == 0
    then some (lock_success, record { owner_uid = c.user_id; owner_ip = c.ip; proc = c.ctc })
    else some (lock_error, l)

unfoldable pub release_metadata_lock : Client → MetaLock → Option (Status × MetaLock)
unfolding meta_held_by
release_metadata_lock c l =
    if c.user_id == 0
    then none
    else if meta_held_by l c
    then some (lock_success, record l { owner_uid = 0 })
    else some (lock_error, l)

unfoldable pub has_metadata_lock : Client → MetaLock → Option Bool
unfolding meta_held_by
has_metadata_lock c l = if c.user_id == 0 then none else some (meta_held_by l c)
