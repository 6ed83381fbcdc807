-- ===== src/Barista/Opened.antt =====
-- Opening and closing: the lock that an open file holds, and its cursor.
use deca_fs.Prelude.{
  ℕ, ◌+◌, ◌%◌, ◌^◌, ◌<◌, ◌≡◌, ◌≢◌, ◌∙◌, refl, List, [], ◌∷◌, none, some, Bool, true, false, ltb,
  arith, inl, inr, Option-cases, ℕ_discrete,
}
use deca_fs.Prelude.Int.{pos, word_mod}
use deca_fs.OrdMap.{find, assign, erase}
use deca_fs.OrdMap.Laws.{find-assign_self, find-assign_ne, find-erase_self, find-erase_ne}
use deca_fs.OrdMap.Nat.{ltb-IsStrictOrder as order}
use deca_fs.Locking.{
  FileLock, FileLocks, MetaLock, lock_success, lock_of, owned_by, get_exclusive_lock,
  get_shared_lock, exclusive_step, shared_step, holds_exclusive, has_exclusive_lock,
}
use deca_fs.Types.Client.{Client, same_client, same_client_iff, same_ip_self}
use deca_fs.Types.File.{FileInstance}
use deca_fs.Persistent.{Persistent, FileStat, Timeval}
use deca_fs.Persistent as Metadata
use deca_fs.Volatile.{Volatile, get_new_fd, get_file_cursor, new_file_cursor, close_file_cursor}
use deca_fs.Volatile.Cursors.{HasCursors, get_new_fd_lem}
use deca_fs.Barista.{
  Barista, Reply, served, open_result, close_result, reply, decafs_file_sstat, size_of,
}
use deca_fs.Barista.Files.{
  file_in_use, file_to_open, stat_size, open_cursor, open_locked, open_file, locks_closed,
  close_file,
}
use deca_fs.Barista.Removed.{with_metadata_free, release_own}

-- A file that is there, seen by a user while nobody holds the metadata lock
pub record IsKnown (pathname : List ℕ) (stat : FileStat) (client : Client) (b : Barista)
    : Type 0 where
  pub named : Metadata.decafs_file_sstat pathname b.persistent ≡ some stat
  pub listed : Metadata.decafs_file_stat stat.file_id b.persistent ≡ some stat
  pub user : client.user_id ≢ 0
  pub free : b.meta_lock.owner_uid ≡ 0

-- An entry written again as it was changes nothing.
rewritten :
    (k : ℕ) (l : FileLock) (locks : FileLocks) (f : ℕ)
    → find ltb k locks ≡ some l
    → find ltb f (assign ltb k l locks) ≡ find ltb f locks
rewritten k l locks f e = elim (ℕ_discrete k f) [
  | yes q ↦ ground (arith, q, e, find-assign_self order k l locks)
  | no n ↦ find-assign_ne order k f l locks n
]

module _ (unset unset_id : Barista → ℕ) where
  known_lem :
      (pathname : List ℕ) (writable : Bool) (time : Timeval) (stat : FileStat) (client : Client)
      (b : Barista)
      → IsKnown pathname stat client b
      → (m : MetaLock) × (file_to_open unset unset_id pathname writable time client b
          ≡ served (some stat.file_id, record b { meta_lock = m }))
        × (stat_size unset unset_id pathname client b ≡ stat.size)
        × (m.owner_uid ≡ 0)
  unfolding file_to_open stat_size decafs_file_sstat size_of
  known_lem pathname writable time stat client b k =
      let (m, e, f) =
        with_metadata_free client (λ p. (Metadata.decafs_file_sstat pathname p, p)) b k.user
          k.free in
      (m, ground (arith, e, k.named), ground (arith, e, k.named), f)

  -- While somebody else has a file locked and nobody holds the metadata lock, a user who opens the
  -- file is told FILE_IN_USE, whatever the flags. The entries of the file locks are as before, and
  -- the metadata lock is free again, though it may keep the address and the connection of the user
  -- (the user id 0 is what makes it free). The rest of the state is the same: cursors, files, nodes
  -- and requests.
  pub open_file_elsewhere :
      (pathname : List ℕ) (writable append : Bool) (time : Timeval) (stat : FileStat)
      (client : Client) (l : FileLock) (b : Barista)
      → IsKnown pathname stat client b
      → find ltb stat.file_id b.file_locks ≡ some l
      → l.owner_uid ≢ 0
      → owned_by l client ≡ false
      → (m : MetaLock) × (locks : FileLocks) × (open_file unset unset_id pathname writable append
            time client b
          ≡ served (record b {
            meta_lock = m;
            file_locks = locks;
            replies = open_result client file_in_use ∷ b.replies;
          }))
        × (m.owner_uid ≡ 0)
        × ((f : ℕ) → find ltb f locks ≡ find ltb f b.file_locks)
  unfolding open_file open_locked get_exclusive_lock get_shared_lock lock_of exclusive_step
      shared_step
  open_file_elsewhere pathname writable append time stat client l b k e u o =
      let (m, f, _, z) = known_lem pathname writable time stat client b k in
      let id = stat.file_id in
      (
        m,
        assign ltb id l b.file_locks,
        ground (arith, f, e, k.user),
        z,
        λ g. rewritten id l b.file_locks g e,
      )

  -- The number that the next open file gets
  abbrev next_fd : Barista → ℕ
  next_fd b = b.io.volatile.last_fd + 1

  abbrev pub locked_by : Client → FileLock
  locked_by client = record {
    owner_uid = client.user_id;
    owner_ip = client.ip;
    ex_proc = client.ctc;
    sh_procs = [];
  }

  pub lock_free :
      (client : Client) (file_id : ℕ) (locks : FileLocks)
      → client.user_id ≢ 0
      → find ltb file_id locks ≡ none
      → get_exclusive_lock client file_id locks
        ≡ some (lock_success, assign ltb file_id (locked_by client) locks)
  unfolding get_exclusive_lock exclusive_step lock_of
  lock_free client file_id locks u e = ground arith

  -- The file open for writing: its cursor and its lock
  abbrev opened_state : MetaLock → ℕ → ℕ → Client → Reply → Barista → Barista
  opened_state m file_id offset client r b =
      let v = b.io.volatile in
      let inst : FileInstance = record { client_id = client; file_id = file_id; offset = offset } in
      record b {
        meta_lock = m;
        file_locks = assign ltb file_id (locked_by client) b.file_locks;
        io = record b.io {
          volatile = record v {
            file_cursors = assign ltb (next_fd b) inst v.file_cursors;
            last_fd = next_fd b;
          };
        };
        replies = r ∷ b.replies;
      }

  open_plain :
      (m : MetaLock) (file_id size : ℕ) (client : Client) (b : Barista)
      → HasCursors b.io.volatile
      → next_fd b < 2 ^ 31
      → client.user_id ≢ 0
      → find ltb file_id b.file_locks ≡ none
      → open_locked unset unset_id file_id true false size client (record b { meta_lock = m })
        ≡ served (opened_state m file_id 0 client (open_result client (pos (next_fd b))) b)
  unfolding open_locked open_cursor new_file_cursor
  open_plain m file_id size client b c room u e =
      let fd : get_new_fd b.io.volatile ≡ next_fd b =
        omega (arith, get_new_fd_lem b.io.volatile c) in
      ground (arith, lock_free client file_id b.file_locks u e, fd)

  own_lem : (client : Client) → holds_exclusive (locked_by client) client ≡ true
  unfolding holds_exclusive owned_by
  own_lem client = ground (arith, same_ip_self client.ip)

  close_lem :
      (m : MetaLock) (file_id offset : ℕ) (client : Client) (r : Reply) (b : Barista)
      → next_fd b < 2 ^ 31
      → 0 < file_id
      → file_id < 2 ^ 31
      → client.user_id ≢ 0
      → let b1 = opened_state m file_id offset client r b in
        close_file (pos (next_fd b)) client b1
        ≡ served (
            reply (close_result client (pos file_id)) (record b1 {
              file_locks = erase ltb file_id b1.file_locks;
              io = record b1.io {
                volatile = record b1.io.volatile {
                  file_cursors = erase ltb (next_fd b) b1.io.volatile.file_cursors;
                };
              };
            }))
  unfolding close_file close_file_cursor locks_closed
  close_lem m file_id offset client r b room z w u =
      let v = b.io.volatile in
      let inst : FileInstance = record { client_id = client; file_id = file_id; offset = offset } in
      let locks = assign ltb file_id (locked_by client) b.file_locks in
      let word : next_fd b % word_mod ≡ next_fd b = omega arith in
      let mine : same_client client client ≡ true = (same_client_iff client client).1 refl in
      let held : holds_exclusive (locked_by client) client ≡ true = own_lem client in
      ground (
        arith,
        word,
        mine,
        find-assign_self order (next_fd b) inst v.file_cursors,
        release_own client file_id (locked_by client) locks u
            (find-assign_self order file_id (locked_by client) b.file_locks) held,
      )

  restored {ℓ} :
      {V : Type ℓ} (k : ℕ) (a : V) (m : List (ℕ × V)) (g : ℕ)
      → find ltb k m ≡ none
      → find ltb g (erase ltb k (assign ltb k a m)) ≡ find ltb g m
  restored k a m g n = elim (ℕ_discrete k g) [
    | yes q ↦ ground (arith, q, n, find-erase_self order k (assign ltb k a m))
    | no d ↦ find-erase_ne order k g (assign ltb k a m) d ∙ find-assign_ne order k g a m d
  ]

  not_open : (v : Volatile) → HasCursors v → find ltb (v.last_fd + 1) v.file_cursors ≡ none
  not_open v c = elim (Option-cases (find ltb (v.last_fd + 1) v.file_cursors)) [
    | inl n ↦ n
    | inr (inst, e) ↦ let h = c (v.last_fd + 1) inst e in absurd (omega arith)
  ]

  -- A user opens for writing a file that is there and that nobody has locked, and closes it. The open
  -- answers the next file number and leaves the user with the exclusive lock and a cursor at 0; the
  -- close answers the id of the file. After both every lock and every cursor is as before.
  pub open_file-close_file :
      (pathname : List ℕ) (time : Timeval) (stat : FileStat) (client : Client) (b : Barista)
      → IsKnown pathname stat client b
      → HasCursors b.io.volatile
      → b.io.volatile.last_fd + 1 < 2 ^ 31
      → 0 < stat.file_id
      → stat.file_id < 2 ^ 31
      → find ltb stat.file_id b.file_locks ≡ none
      → let fd = b.io.volatile.last_fd + 1 in
        (b1 b2 : Barista) × (open_file unset unset_id pathname true false time client b ≡ served b1)
        × (close_file (pos fd) client b1 ≡ served b2)
        × (has_exclusive_lock client stat.file_id b1.file_locks ≡ some true)
        × (get_file_cursor fd b1.io.volatile ≡ pos 0)
        × (b2.replies
            ≡ close_result client (pos stat.file_id) ∷ open_result client (pos fd) ∷ b.replies)
        × ((f : ℕ) → find ltb f b2.file_locks ≡ find ltb f b.file_locks)
        × ((g : ℕ) → find ltb g b2.io.volatile.file_cursors ≡ find ltb g b.io.volatile.file_cursors)
  unfolding open_file has_exclusive_lock get_file_cursor holds_exclusive owned_by
  open_file-close_file pathname time stat client b k c room z w e =
      let (m, f, _, _) = known_lem pathname true time stat client b k in
      let v = b.io.volatile in
      let fd = v.last_fd + 1 in
      let id = stat.file_id in
      let r = open_result client (pos fd) in
      let b1 = opened_state m id 0 client r b in
      let inst : FileInstance = record { client_id = client; file_id = id; offset = 0 } in
      (
        b1,
        reply (close_result client (pos id)) (record b1 {
          file_locks = erase ltb id b1.file_locks;
          io = record b1.io {
            volatile = record b1.io.volatile {
              file_cursors = erase ltb fd b1.io.volatile.file_cursors;
            };
          };
        }),
        ground (
          arith,
          f,
          open_plain m id (stat_size unset unset_id pathname client b) client b c room k.user e,
        ),
        close_lem m id 0 client r b room z w k.user,
        ground (
          arith,
          k.user,
          find-assign_self order id (locked_by client) b.file_locks,
          same_ip_self client.ip,
        ),
        ground (arith, find-assign_self order fd inst v.file_cursors),
        refl,
        λ g. restored id (locked_by client) b.file_locks g e,
        λ g. restored fd inst v.file_cursors g (not_open v c),
      )
