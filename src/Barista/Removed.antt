-- ===== src/Barista/Removed.antt =====
-- A delete ends with its last response: the client is told, and file and lock are gone.
use deca_fs.Prelude.{
  ℕ, zero, suc, ◌+◌, ◌≤◌, ◌<◌, ◌≡◌, ◌≢◌, refl, ◌∷◌, none, some, Bool, true, false, not, ltb, ◌==◌,
  if◌then◌else◌, arith, inl, inr, Option-cases, Bool-cases,
}
use deca_fs.Prelude.Int.{pos, word_mod}
use deca_fs.OrdMap.{find, assign, erase}
use deca_fs.OrdMap.Laws.{find-assign_self, find-erase_self}
use deca_fs.OrdMap.Nat.{ltb-IsStrictOrder}
use deca_fs.Locking.{
  FileLock, FileLocks, lock_success, MetaLock, holds_exclusive, release_step, release_lock, lock_of,
  get_metadata_lock, release_metadata_lock, meta_held_by,
}
use deca_fs.Types.Client.{Client, same_ip_self}
use deca_fs.Persistent.{Persistent, Info, FileStat}
use deca_fs.Persistent as Metadata
use deca_fs.Barista.{
  RequestInfo, Barista, Run, served, ◌>>=◌, remove_result, reply, with_metadata,
  delete_file_contents,
}
use deca_fs.Barista.Requests.{
  received_one, delete_done, check_delete_complete, delete_response_handler, delete_request_exists,
}

-- As many responses with the id, one after the other
unfoldable pub delete_responses : ℕ → ℕ → Barista → Run Barista
unfolding delete_response_handler
delete_responses id zero b = served b
delete_responses id (suc k) b = delete_response_handler id b >>= λ b'. delete_responses id k b'

-- A delete under way: its client has locked the file, and nobody holds the metadata lock.
pub record IsDeleting (id : ℕ) (d : RequestInfo) (l : FileLock) (b : Barista) : Type 0 where
  pub active : find ltb id b.active_delete_requests ≡ some d
  pub locked : find ltb d.file_id b.file_locks ≡ some l
  pub holder : holds_exclusive l d.client ≡ true
  pub user : d.client.user_id ≢ 0
  pub free : b.meta_lock.owner_uid ≡ 0

-- With the metadata lock free a call-through comes to its call, and the lock is free again.
pub with_metadata_free {ℓ} :
    {A : Type ℓ} (client : Client) (call : Persistent → A × Persistent) (b : Barista)
    → client.user_id ≢ 0
    → b.meta_lock.owner_uid ≡ 0
    → (l : MetaLock) × (with_metadata client (λ p. some (call p)) b
        ≡ served (
          some (call b.persistent).0,
          record b { meta_lock = l; persistent = (call b.persistent).1 },
        ))
      × (l.owner_uid ≡ 0)
unfolding with_metadata get_metadata_lock release_metadata_lock meta_held_by
with_metadata_free client call b u f = (
  record { owner_uid = 0; owner_ip = client.ip; proc = client.ctc },
  ground (arith, same_ip_self client.ip),
  refl,
)

-- The holder's release takes the entry out.
pub release_own :
    (client : Client) (file_id : ℕ) (l : FileLock) (locks : FileLocks)
    → client.user_id ≢ 0
    → find ltb file_id locks ≡ some l
    → holds_exclusive l client ≡ true
    → release_lock client file_id locks ≡ some (lock_success, erase ltb file_id locks)
unfolding release_lock release_step lock_of holds_exclusive
release_own client file_id l locks u f h = ground arith

stat_deleted :
    (file_id : ℕ) (p : Persistent)
    → Metadata.decafs_file_stat file_id (Metadata.delete_file_contents file_id p).1 ≡ none
unfolding Metadata.decafs_file_stat Metadata.delete_file_contents
stat_deleted file_id p = elim (Option-cases (find ltb file_id p.metadata)) [
  | inl n ↦ ground (arith, n)
  | inr (i, e) ↦ ground (arith, e, find-erase_self ltb-IsStrictOrder file_id p.metadata)
]

module _ (id : ℕ) where
  -- What the client, the metadata and the locks see of a delete that is done, or is not.
  abbrev Deleted : Bool → RequestInfo → Barista → Barista → Type 0
  Deleted done d b b' =
      (b'.replies ≡ (if done then remove_result d.client (pos 0) ∷ b.replies else b.replies))
      × (Metadata.decafs_file_stat d.file_id b'.persistent
          ≡ (if done then none else Metadata.decafs_file_stat d.file_id b.persistent))
      × (find ltb d.file_id b'.file_locks
          ≡ (if done then none else find ltb d.file_id b.file_locks))
      × (delete_request_exists id b' ≡ not done)

  done_lem :
      (d : RequestInfo) (l : FileLock) (b : Barista)
      → IsDeleting id d l b
      → (b' : Barista) × (delete_done id d b ≡ served b') × Deleted true d b b'
  unfolding delete_done delete_file_contents delete_request_exists
  done_lem d l b a =
      let (m, e, _) =
        with_metadata_free d.client (Metadata.delete_file_contents d.file_id)
          (reply (remove_result d.client (pos 0)) b) a.user a.free in
      (
        record b {
          meta_lock = m;
          persistent = (Metadata.delete_file_contents d.file_id b.persistent).1;
          file_locks = erase ltb d.file_id b.file_locks;
          active_delete_requests = erase ltb id b.active_delete_requests;
          replies = remove_result d.client (pos 0) ∷ b.replies;
        },
        ground (arith, e, release_own d.client d.file_id l b.file_locks a.user a.locked a.holder),
        (
          refl,
          stat_deleted d.file_id b.persistent,
          find-erase_self ltb-IsStrictOrder d.file_id b.file_locks,
          ground (arith, find-erase_self ltb-IsStrictOrder id b.active_delete_requests),
        ),
      )

  abbrev counted : RequestInfo → Barista → Barista
  counted d b = record b { active_delete_requests = assign ltb id d b.active_delete_requests }

  handler_lem :
      (d : RequestInfo) (l : FileLock) (b : Barista)
      → IsDeleting id d l b
      → 0 < d.chunks_expected
      → let d' = received_one d in
        delete_response_handler id b ≡ (
          if d.chunks_expected == d'.chunks_received
          then delete_done id d' (counted d' b)
          else served (counted d' b))
  unfolding delete_response_handler check_delete_complete
  handler_lem d l b a h = ground (
    arith,
    a.active,
    find-assign_self ltb-IsStrictOrder id (received_one d) b.active_delete_requests,
  )

  IsDeleting-counted :
      (d d' : RequestInfo) (l : FileLock) (b : Barista)
      → d'.client ≡ d.client
      → d'.file_id ≡ d.file_id
      → IsDeleting id d l b
      → IsDeleting id d' l (counted d' b)
  IsDeleting-counted d d' l b e f a = record {
    active = find-assign_self ltb-IsStrictOrder id d' b.active_delete_requests;
    locked = rw f a.locked;
    holder = rw e a.holder;
    user = rw e a.user;
    free = a.free;
  }

  exists_lem :
      (d : RequestInfo) (l : FileLock) (b : Barista)
      → IsDeleting id d l b
      → delete_request_exists id b ≡ true
  unfolding delete_request_exists
  exists_lem d l b a = ground (arith, a.active)

  -- A delete whose client holds the exclusive lock on the file, when the metadata lock is free: while
  -- a response is missing, nothing is sent, and the file, its lock and the request stay. With the
  -- last response the client is told once, the file is in the metadata no more, nobody has it
  -- locked, and the request is forgotten.
  pub delete_responses_lem :
      (k : ℕ) (d : RequestInfo) (l : FileLock) (b : Barista)
      → IsDeleting id d l b
      → d.chunks_received + k ≤ d.chunks_expected
      → d.chunks_received < d.chunks_expected
      → d.chunks_expected < word_mod
      → let done = d.chunks_received + k == d.chunks_expected in
        (b' : Barista) × (delete_responses id k b ≡ served b')
        × (b'.replies ≡ (if done then remove_result d.client (pos 0) ∷ b.replies else b.replies))
        × (Metadata.decafs_file_stat d.file_id b'.persistent
            ≡ (if done then none else Metadata.decafs_file_stat d.file_id b.persistent))
        × (find ltb d.file_id b'.file_locks
            ≡ (if done then none else find ltb d.file_id b.file_locks))
        × (delete_request_exists id b' ≡ not done)
  unfolding delete_responses
  delete_responses_lem zero d l b a h g w =
      let d0 : (d.chunks_received + 0 == d.chunks_expected) ≡ false = ground arith in
      (b, refl, rw d0 refl, rw d0 refl, rw d0 refl, rw d0 (exists_lem d l b a))
  delete_responses_lem (suc k) d l b a h g w =
      let d' = received_one d in
      let a' = IsDeleting-counted d d' l b refl refl a in
      elim (Bool-cases (d.chunks_expected == d'.chunks_received)) [
        | inl last ↦
            let k0 : k ≡ 0 = ground arith in
            let (b', e, (x, y, z, t)) = done_lem d' l (counted d' b) a' in
            let done : (d.chunks_received + suc k == d.chunks_expected) ≡ true = ground arith in
            (
              b',
              ground (arith, handler_lem d l b a (omega arith), last, e, k0),
              rw done x,
              rw done y,
              rw done z,
              rw done t,
            )
        | inr more ↦
            let (b', e, x, y, z, t) =
              delete_responses_lem k d' l (counted d' b) a' (omega arith) (ground (arith, w)) w in
            let done : (d.chunks_received + suc k == d.chunks_expected)
                ≡ (d'.chunks_received + k == d.chunks_expected) =
              ground (arith, w) in
            (
              b',
              ground (arith, handler_lem d l b a (omega arith), more, e),
              rw done x,
              rw done y,
              rw done z,
              rw done t,
            )
      ]
