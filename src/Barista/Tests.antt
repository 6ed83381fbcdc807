-- ===== src/Barista/Tests.antt =====
-- A small instance with one file and one user: the results on it.
use mathlib.Core.List.{Perm}
use mathlib.Core.List.Perm
use deca_fs.Prelude.{
  ℕ, ◌+◌, ◌^◌, ◌<◌, ◌≡◌, refl, List, [], ◌∷◌, none, some, Bool, true, false, not, ltb,
  if◌then◌else◌, arith, inl, inr, length,
}
use deca_fs.Prelude.Int.{pos}
use deca_fs.OrdMap.{find, equiv}
use deca_fs.Types.Client.{Client, same_ip}
use deca_fs.Types.File.{FileChunk, FileInstance, file_chunk_lt}
use deca_fs.IoManager.Deletes.{chunks_of}
use deca_fs.Barista.Deletes.{delete_file}
use deca_fs.Barista.Unanswered.{delete_file_unanswered}
use deca_fs.Barista.Refused.{refused_without_lock}
use deca_fs.Barista.Transfers.{
  read_file, write_file, file_not_open_for_write, file_not_open_for_read,
}
use deca_fs.IoManager.Tests.{taken, fresh}
use deca_fs.Locking.{FileLock, FileLocks, MetaLock, has_exclusive_lock, holds_exclusive, owned_by}
use deca_fs.Persistent.{Persistent, Info, FileStat, Timeval, stat_of}
use deca_fs.Persistent as Metadata
use deca_fs.Persistent.Names.{name_lt}
use deca_fs.Volatile.{get_file_cursor, get_file_info}
use deca_fs.Volatile.Cursors.{HasCursors}
use deca_fs.Barista.{
  Barista, RequestInfo, ReadRequestInfo, WriteRequest, WriteRequestInfo, write_request_lt, served,
  new_request, read_result, write_result, remove_result, open_result, close_result,
}
use deca_fs.Barista.Requests.{
  ReadResponse, WriteResponse, write_request_exists, delete_request_exists,
}
use deca_fs.Barista.Files.{open_file, close_file, file_in_use}
use deca_fs.Barista.Written.{respond_all_lem}
use deca_fs.Barista.Written.Progress.{
  is_gone, respond_all, answers, bytes_of, all_in, IsActive, IsUnderWay,
}
use deca_fs.Barista.Removed.{delete_responses, delete_responses_lem, IsDeleting}
use deca_fs.Barista.Opened.{open_file_elsewhere, open_file-close_file}

abbrev alice : Client
alice = record { ip = 10 ∷ []; user_id = 1; ctc = 4 }

abbrev bob : Client
bob = record { ip = 10 ∷ []; user_id = 2; ctc = 6 }

abbrev now : Timeval
now = record { tv_sec = pos 0; tv_usec = pos 0 }

abbrev info_3 : Info
info_3 = record {
  file_id = 3;
  size = 0;
  stripe_size = 1024;
  chunk_size = 512;
  replica_size = 512;
  pathname = 97 ∷ [];
  last_access_time = now;
}

abbrev her_lock : FileLock
her_lock = record { owner_uid = 1; owner_ip = 10 ∷ []; ex_proc = 4; sh_procs = [] }

abbrev idle : Barista
idle = record {
  io = fresh;
  persistent = record {
    pathname_to_file_id = (97 ∷ [], 3) ∷ [];
    metadata = (3, info_3) ∷ [];
    next_file_id = 3;
  };
  meta_lock = record { owner_uid = 0; owner_ip = []; proc = 0 };
  file_locks = [];
  active_read_requests = [];
  write_request_lookups = [];
  active_write_requests = [];
  active_delete_requests = [];
  replies = [];
}

-- A write of two chunks, and their two replicas
abbrev request_7 : WriteRequest
request_7 = record { request_id = 7; replica_request_id = 8 }

abbrev two_chunks : RequestInfo
two_chunks = record (new_request alice 3) { chunks_expected = 2 }

abbrev write_7 : WriteRequestInfo
write_7 = record { info = two_chunks; replica_info = two_chunks; fd = 1; count = pos 0 }

abbrev writing : Barista
writing = record idle {
  write_request_lookups = (7, request_7) ∷ (8, request_7) ∷ [];
  active_write_requests = (request_7, write_7) ∷ [];
}

abbrev wrote : ℕ → ℕ → WriteResponse
wrote id n = record { id = id; count = pos n }

abbrev responses : List WriteResponse
responses = wrote 8 512 ∷ wrote 7 512 ∷ wrote 7 88 ∷ wrote 8 88 ∷ []

writing-IsActive : IsActive request_7 write_7 writing
unfolding find equiv write_request_lt
writing-IsActive = record { own = refl; replica = refl; entry = refl }

writing-IsUnderWay : IsUnderWay 0 (answers 7 responses) (answers 8 responses) write_7
unfolding answers
writing-IsUnderWay = record {
  counted = refl;
  some_expected = omega arith;
  chunks_bound = omega arith;
  replicas_bound = omega arith;
  chunks = omega arith;
  replicas = omega arith;
}

small : 0 + bytes_of 7 responses < 2 ^ 31
unfolding bytes_of
small = omega arith

abbrev all_are_in : Bool
all_are_in = all_in (answers 7 responses) (answers 8 responses) write_7

respond_all_lem_example :
    (b' : Barista) × (respond_all responses writing ≡ served b')
    × (b'.replies
        ≡ (if all_are_in then write_result alice 1 (pos (0 + bytes_of 7 responses)) ∷ [] else []))
    × (write_request_exists 7 b' ≡ not all_are_in)
    × (find ltb 7 b'.write_request_lookups ≡ (if all_are_in then none else some request_7))
    × (find ltb 8 b'.write_request_lookups ≡ (if all_are_in then none else some request_7))
    × (is_gone (find write_request_lt request_7 b'.active_write_requests) ≡ all_are_in)
respond_all_lem_example =
    respond_all_lem request_7 (λ e. omega arith) responses 0 write_7 writing writing-IsActive
      (
        record { to = inr refl; written = refl },
        (
          record { to = inl refl; written = refl },
          (
            record { to = inl refl; written = refl },
            (record { to = inr refl; written = refl }, tt),
          ),
        ),
      )
      writing-IsUnderWay refl small

-- A read of two chunks, of which the second comes first
abbrev chunk : ℕ → FileChunk
chunk n = record { file_id = 3; stripe_id = 1; chunk_num = n }

abbrev got : ℕ → List ℕ → ReadResponse
got n bytes = record { id = 9; chunk = chunk n; count = pos (length bytes); data_buffer = bytes }

abbrev backwards : List ReadResponse
backwards = got 2 (33 ∷ []) ∷ got 1 (11 ∷ 22 ∷ []) ∷ []

abbrev in_order : List (FileChunk × List ℕ)
in_order = (chunk 1, 11 ∷ 22 ∷ []) ∷ (chunk 2, 33 ∷ []) ∷ []

abbrev read_9 : ReadRequestInfo
read_9 = record { info = two_chunks; fd = 1; room = 3; response_packets = [] }

abbrev reading : Barista
reading = record idle { active_read_requests = (9, read_9) ∷ [] }

-- A delete with two chunks to come
abbrev deleting : Barista
deleting = record idle {
  file_locks = (3, her_lock) ∷ [];
  active_delete_requests = (5, two_chunks) ∷ [];
}

deleting-IsDeleting : IsDeleting 5 two_chunks her_lock deleting
unfolding find equiv holds_exclusive owned_by same_ip
deleting-IsDeleting = record {
  active = refl;
  locked = refl;
  holder = refl;
  user = λ e. omega arith;
  free = refl;
}

delete_responses_lem_example :
    (b' : Barista) × (delete_responses 5 2 deleting ≡ served b')
    × (b'.replies ≡ remove_result alice (pos 0) ∷ [])
    × (Metadata.decafs_file_stat 3 b'.persistent ≡ none)
    × (find ltb 3 b'.file_locks ≡ none)
    × (delete_request_exists 5 b' ≡ false)
delete_responses_lem_example =
    delete_responses_lem 5 2 two_chunks her_lock deleting deleting-IsDeleting (omega arith)
      (omega arith) (omega arith)

-- Her file, locked
abbrev locked : Barista
locked = record idle { file_locks = (3, her_lock) ∷ [] }

abbrev unset : Barista → ℕ
unset b = 0

idle_named : Metadata.decafs_file_sstat (97 ∷ []) idle.persistent ≡ some (stat_of info_3)
unfolding Metadata.decafs_file_sstat Metadata.decafs_file_stat find equiv name_lt
idle_named = refl

idle_listed : Metadata.decafs_file_stat 3 idle.persistent ≡ some (stat_of info_3)
unfolding Metadata.decafs_file_stat find equiv
idle_listed = refl

her_file : find ltb 3 locked.file_locks ≡ some her_lock
unfolding find equiv
her_file = refl

not_his : owned_by her_lock bob ≡ false
unfolding owned_by
not_his = refl

open_file_elsewhere_example :
    (m : MetaLock) × (locks : FileLocks) × (open_file unset unset
        (97 ∷ [])
        false
        true
        now
        bob
        locked
      ≡ served (record locked {
        meta_lock = m;
        file_locks = locks;
        replies = open_result bob file_in_use ∷ [];
      }))
    × (m.owner_uid ≡ 0)
    × ((f : ℕ) → find ltb f locks ≡ find ltb f locked.file_locks)
open_file_elsewhere_example =
    open_file_elsewhere unset unset (97 ∷ []) false true now (stat_of info_3) bob her_lock locked
      (record { named = idle_named; listed = idle_listed; user = λ e. omega arith; free = refl })
      her_file (λ e. omega arith) not_his

none_locked : find ltb 3 idle.file_locks ≡ none
unfolding find
none_locked = refl

no_cursors : HasCursors idle.io.volatile
unfolding find
no_cursors fd inst e = absurd (ground arith)

open_file-close_file_example :
    (b1 b2 : Barista) × (open_file unset unset (97 ∷ []) true false now alice idle ≡ served b1)
    × (close_file (pos 1) alice b1 ≡ served b2)
    × (has_exclusive_lock alice 3 b1.file_locks ≡ some true)
    × (get_file_cursor 1 b1.io.volatile ≡ pos 0)
    × (b2.replies ≡ close_result alice (pos 3) ∷ open_result alice (pos 1) ∷ [])
    × ((f : ℕ) → find ltb f b2.file_locks ≡ find ltb f idle.file_locks)
    × ((g : ℕ) → find ltb g b2.io.volatile.file_cursors ≡ find ltb g idle.io.volatile.file_cursors)
open_file-close_file_example =
    open_file-close_file unset unset (97 ∷ []) now (stat_of info_3) alice idle
      (record { named = idle_named; listed = idle_listed; user = λ e. omega arith; free = refl })
      no_cursors (omega arith) (omega arith) (omega arith) none_locked

-- Her file open for writing at 1, with its cursor at 5
abbrev at_five : FileInstance
at_five = record { client_id = alice; file_id = 3; offset = 5 }

abbrev ready : Barista
ready = record locked {
  io = record fresh { volatile = record fresh.volatile { file_cursors = (1, at_five) ∷ [] } };
}

abbrev text : List ℕ
text = 11 ∷ 12 ∷ 13 ∷ []

her_file_open :
    find ltb (get_file_info 1 ready.io.volatile).file_id ready.file_locks ≡ some her_lock
unfolding find equiv get_file_info
her_file_open = refl

refused_without_lock_example :
    (write_file file_chunk_lt taken unset 9 (pos 1) text 3 bob ready
      ≡ served (record ready {
        io = record ready.io { volatile = record ready.io.volatile { request_id = 2 } };
        replies = write_result bob 0 file_not_open_for_write ∷ [];
      }))
    × (read_file file_chunk_lt taken unset 9 (pos 1) 3 bob ready
        ≡ served (record ready {
          io = record ready.io { volatile = record ready.io.volatile { request_id = 1 } };
          replies = read_result bob 0 file_not_open_for_read [] ∷ [];
        }))
refused_without_lock_example =
    refused_without_lock file_chunk_lt taken unset 9 0 3 text bob her_lock ready (λ e. omega arith)
      her_file_open not_his

no_chunks : chunks_of 3 idle.io.chunk_to_node ≡ []
unfolding chunks_of
no_chunks = refl

delete_file_unanswered_example :
    (b' : Barista) × (delete_file file_chunk_lt taken (97 ∷ []) alice idle ≡ served b')
    × (b'.replies ≡ [])
    × (b'.persistent ≡ idle.persistent)
    × (delete_request_exists 1 b' ≡ true)
    × (has_exclusive_lock alice 3 b'.file_locks ≡ some true)
delete_file_unanswered_example =
    delete_file_unanswered file_chunk_lt taken unset unset (97 ∷ []) (stat_of info_3) alice idle
      (record { named = idle_named; listed = idle_listed; user = λ e. omega arith; free = refl })
      none_locked no_chunks
