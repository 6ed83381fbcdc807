-- ===== src/Barista.antt =====
-- lib/barista_core/barista_core.cpp and barista_core.h: what clients ask for, the requests that are under
-- way, and the calls through to the metadata. The state of the Barista is that of its parts. `unset`
-- is what the field `size` of a decafs_file_stat holds that no call filled in.
pub mod Requests
pub mod Files
pub mod Transfers
pub mod Deletes
pub mod Written
pub mod Gathered
pub mod Removed
pub mod Opened
pub mod Finished
pub mod Refused
pub mod Unanswered
mod Tests
use deca_fs.Prelude.{
  ℕ, ◌+◌, ◌-◌, ◌^◌, ◌%◌, List, [], ◌∷◌, Option, none, some, Bool, true, false, ltb, leb, ◌==◌,
  if◌then◌else◌,
}
use deca_fs.Prelude.Int.{ℤ, pos, negsuc, word_mod}
use deca_fs.OrdMap.{find}
use deca_fs.Types.Client.{Client, same_client}
use deca_fs.Types.File.{FileChunk, FileInstance}
use deca_fs.IoManager.{Io}
use deca_fs.Locking.{
  FileLocks, MetaLock, lock_success, lock_error, get_metadata_lock, release_metadata_lock,
}
use deca_fs.Persistent.{Persistent, FileStat, Timeval}
use deca_fs.Persistent as Metadata
use deca_fs.Volatile.{Volatile}
use deca_fs.Volatile as Volatiles

pub record RequestInfo : Type 0 where
  pub chunks_expected : ℕ
  pub chunks_received : ℕ
  pub file_id : ℕ
  pub client : Client

-- request_info (client, file_id)
abbrev pub new_request : Client → ℕ → RequestInfo
new_request client file_id = record {
  chunks_expected = 0;
  chunks_received = 0;
  file_id = file_id;
  client = client;
}

-- read_request_info, with the bytes that `buf` has room for, and of a read_buffer its bytes
pub record ReadRequestInfo : Type 0 where
  pub info : RequestInfo
  pub fd : ℕ
  pub room : ℕ
  pub response_packets : List (FileChunk × List ℕ)

pub record WriteRequest : Type 0 where
  pub request_id : ℕ
  pub replica_request_id : ℕ

-- operator< of write_request
unfoldable pub write_request_lt : WriteRequest → WriteRequest → Bool
write_request_lt a b =
    if a.request_id == b.request_id
    then ltb a.replica_request_id b.replica_request_id
    else ltb a.request_id b.request_id

pub record WriteRequestInfo : Type 0 where
  pub info : RequestInfo
  pub replica_info : RequestInfo
  pub fd : ℕ
  pub count : ℤ

-- What is sent to clients: a status, or what was read or written. A send that fails is only logged.
pub data Reply : Type 0 where
  open_result close_result seek_result remove_result : Client → ℤ → Reply
  read_result : Client → ℕ → ℤ → List ℕ → Reply
  write_result : Client → ℕ → ℤ → Reply

-- The Barista: the IO manager with the volatile metadata, the persistent metadata, the locks, the
-- requests under way, and the replies sent, the last one first.
pub record Barista : Type 0 where
  pub io : Io
  pub persistent : Persistent
  pub meta_lock : MetaLock
  pub file_locks : FileLocks
  pub active_read_requests : List (ℕ × ReadRequestInfo)
  pub write_request_lookups : List (ℕ × WriteRequest)
  pub active_write_requests : List (WriteRequest × WriteRequestInfo)
  pub active_delete_requests : List (ℕ × RequestInfo)
  pub replies : List Reply

-- A call that returns, one whose assertion fails or whose behaviour is undefined, and one that does not
-- come to an end.
pub data Run {ℓ} (A : Type ℓ) : Type ℓ where
  served : A → Run A
  asserted : Run A
  unfinished : Run A

-- The chain of such calls, for `do`.
infixl 5 ◌>>=◌
abbrev pub ◌>>=◌ {ℓ κ} : {A : Type ℓ} {B : Type κ} → Run A → (A → Run B) → Run B
served a >>= f = f a
asserted >>= f = asserted
unfinished >>= f = unfinished

abbrev pub checked {ℓ} : {A : Type ℓ} → Option A → Run A
checked none = asserted
checked (some a) = served a

abbrev pub reply : Reply → Barista → Barista
reply r b = record b { replies = r ∷ b.replies }

-- An int as the uint32_t that a call takes
abbrev pub to_word : ℤ → ℕ
to_word (pos n) = n % word_mod
to_word (negsuc n) = word_mod - 1 - n % word_mod

-- The sum of two ints, or `none` where it overflows.
unfoldable pub add_int : ℤ → ℤ → Option ℤ
add_int (pos a) (pos b) = if ltb (a + b) (2 ^ 31) then some (pos (a + b)) else none
add_int (pos a) (negsuc b) = some (if ltb b a then pos (a - (b + 1)) else negsuc (b - a))
add_int (negsuc a) (pos b) = some (if ltb a b then pos (b - (a + 1)) else negsuc (a - b))
add_int (negsuc a) (negsuc b) = if ltb (a + b + 1) (2 ^ 31) then some (negsuc (a + b + 1)) else none

-- A call-through to the persistent metadata under the metadata lock: `none` inside is NO_METADATA_LOCK.
unfoldable pub with_metadata {ℓ} :
    {A : Type ℓ}
    → Client
    → (Persistent → Option (A × Persistent))
    → Barista
    → Run (Option A × Barista)
with_metadata client call b = elim (get_metadata_lock client b.meta_lock) [
  | none ↦ asserted
  | some (lock_error, l) ↦ served (none, record b { meta_lock = l })
  | some (lock_success, l) ↦ elim (call b.persistent) [
    | none ↦ asserted
    | some (res, p) ↦ elim (release_metadata_lock client l) [
      | none ↦ asserted
      | some (_, l') ↦ served (some res, record b { meta_lock = l'; persistent = p })
    ]
  ]
]

unfoldable pub get_num_files : Client → Barista → Run (Option ℕ × Barista)
unfolding with_metadata
get_num_files client b = with_metadata client (λ p. some (Metadata.get_num_files p, p)) b

unfoldable pub get_filenames : ℤ → Client → Barista → Run (Option (List (List ℕ)) × Barista)
unfolding with_metadata
get_filenames size client b = with_metadata client (λ p. some (Metadata.get_filenames size p, p)) b

unfoldable pub decafs_file_sstat :
    List ℕ → Client → Barista → Run (Option (Option FileStat) × Barista)
unfolding with_metadata
decafs_file_sstat pathname client b =
    with_metadata client (λ p. some (Metadata.decafs_file_sstat pathname p, p)) b

unfoldable pub decafs_file_stat : ℕ → Client → Barista → Run (Option (Option FileStat) × Barista)
unfolding with_metadata
decafs_file_stat file_id client b =
    with_metadata client (λ p. some (Metadata.decafs_file_stat file_id p, p)) b

unfoldable pub set_access_time :
    FileInstance → Timeval → Client → Barista → Run (Option ℤ × Barista)
unfolding with_metadata
set_access_time inst time client b =
    with_metadata client (λ p. some (Metadata.set_access_time inst time p)) b

unfoldable pub add_file : List ℕ → ℕ → ℕ → ℕ → Timeval → Client → Barista → Run (Option ℤ × Barista)
unfolding with_metadata
add_file pathname stripe_size chunk_size replica_size time client b =
    with_metadata client
      (λ p. some (Metadata.add_file pathname stripe_size chunk_size replica_size time p)) b

unfoldable pub delete_file_contents : ℕ → Client → Barista → Run (Option ℤ × Barista)
unfolding with_metadata
delete_file_contents file_id client b =
    with_metadata client (λ p. some (Metadata.delete_file_contents file_id p)) b

unfoldable pub update_file_size : ℕ → ℤ → Client → Barista → Run (Option ℤ × Barista)
unfolding with_metadata
update_file_size file_id size_delta client b =
    with_metadata client (Metadata.update_file_size file_id size_delta) b

-- A call-through to the volatile metadata
abbrev pub on_volatile {ℓ} : {A : Type ℓ} → (Volatile → A × Volatile) → Barista → A × Barista
on_volatile call b =
    let (res, v) = call b.io.volatile in (res, record b { io = record b.io { volatile = v } })

module _ (unset : Barista → ℕ) where
  -- The size of a file that set_file_cursor is bounded by
  unfoldable pub size_of : Option (Option FileStat) → Barista → ℕ
  size_of (some (some stat)) b = stat.size
  size_of _ b = unset b

  -- set_file_cursor: only the client's own open file is looked up in the persistent metadata.
  unfoldable pub set_file_cursor : ℕ → ℕ → Client → Barista → Run (ℤ × Barista)
  unfolding size_of decafs_file_stat
  set_file_cursor fd offset client b = elim (find ltb fd b.io.volatile.file_cursors) [
    | none ↦ served (Volatiles.instance_not_found, b)
    | some file ↦
        if same_client file.client_id client
        then (do
          (found, b') ← decafs_file_stat file.file_id client b
          served (on_volatile (Volatiles.set_file_cursor fd offset client (size_of found b')) b'))
        else served (Volatiles.wrong_client, b)
  ]
