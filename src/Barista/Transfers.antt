-- ===== src/Barista/Transfers.antt =====
-- lib/barista_core/barista_core.cpp: read_file and write_file. A request is cut into stripes,
-- each of which the IO manager cuts into chunks. `fuel` bounds the rounds of each loop; a run that needs
-- more is `unfinished`.
use deca_fs.Prelude.{
  ℕ, zero, suc, ◌+◌, ◌-◌, ◌%◌, List, [], Option, none, some, Bool, true, false, not, ltb, ◌==◌,
  if◌then◌else◌, take, drop,
}
use deca_fs.Prelude.Int.{ℤ, pos, negsuc, to_int, word_mod}
use deca_fs.OrdMap.{find, assign}
use deca_fs.Types.Client.{Client}
use deca_fs.Types.File.{FileChunk}
use deca_fs.Locking.{has_exclusive_lock, has_shared_lock}
use deca_fs.Persistent.{FileStat}
use deca_fs.Volatile.{get_file_info, get_file_cursor, get_new_request_id}
use deca_fs.IoManager.{
  Message, Outcome, finished, faulted, running, piece, get_first, process_read_stripe,
  process_write_stripe,
}
use deca_fs.Barista.{
  ReadRequestInfo, WriteRequest, WriteRequestInfo, write_request_lt, new_request, Barista, Run,
  served, asserted, unfinished, ◌>>=◌, checked, reply, read_result, write_result, to_word,
  on_volatile, decafs_file_stat, update_file_size, set_file_cursor,
}
use deca_fs.Barista.Requests.{check_read_complete, check_write_complete}

abbrev pub file_not_open_for_write : ℤ
file_not_open_for_write = negsuc 1

abbrev pub file_not_open_for_read : ℤ
file_not_open_for_read = negsuc 2

abbrev pub unable_to_stat_file : ℤ
unable_to_stat_file = negsuc 3

-- A call of the IO manager
abbrev pub on_io {ℓ} :
    {A : Type 0} {B : Type ℓ} → Outcome A → Barista → (A → Barista → Run B) → Run B
on_io (finished a s) b next = next a (record b { io = s })
on_io faulted b next = asserted
on_io running b next = unfinished

-- has_exclusive_lock or has_shared_lock
unfoldable pub may_read : Client → ℕ → Barista → Option Bool
may_read client file_id b = elim (has_exclusive_lock client file_id b.file_locks) [
  | none ↦ none
  | some true ↦ some true
  | some false ↦ has_shared_lock client file_id b.file_locks
]

-- What the loops compare with: (int)count
abbrev pub int_count : ℕ → ℕ
int_count count = elim (to_int (count % word_mod)) [ pos n ↦ n | negsuc n ↦ 0 ]

module _ (lt : FileChunk → FileChunk → Bool) (delivers : Message → List Message → Bool)
    (unset : Barista → ℕ) where
  -- set_file_cursor (fd, get_file_cursor (fd) + size, client)
  unfoldable pub advance : ℕ → ℕ → Client → Barista → Run Barista
  unfolding set_file_cursor
  advance fd size client b =
      let at = (to_word (get_file_cursor fd b.io.volatile) + size) % word_mod in
      do (_, b') ← set_file_cursor unset fd at client b; served b'

  module _ (request_id file_id fd : ℕ) (stat : FileStat) (client : Client) where
    -- The loop of read_file, with the bytes to go: the chunks that were asked for
    unfoldable pub read_stripes : ℕ → ℕ → ℕ → ℕ → ℕ → Barista → Run (ℕ × Barista)
    unfolding process_read_stripe advance
    read_stripes zero stripe_id stripe_offset left num_chunks b = unfinished
    read_stripes (suc fuel) stripe_id stripe_offset left num_chunks b = elim (left == 0) [
      | true ↦ served (num_chunks, b)
      | false ↦
          let read_size = piece stat.stripe_size stripe_offset left in
          on_io
            (process_read_stripe lt delivers (suc fuel) request_id file_id stripe_id
              stat.stripe_size stat.chunk_size stripe_offset read_size b.io)
            b
            (λ chunks b1. advance fd read_size client b1 >>= λ b2.
              read_stripes fuel ((stripe_id + 1) % word_mod) 0 (left - read_size)
                (num_chunks + chunks) b2)
    ]

    module _ (replica_request_id : ℕ) where
      -- The loop of write_file: the chunks and the replicas that were written
      unfoldable pub write_stripes :
          ℕ → ℕ → ℕ → List ℕ → ℕ → ℕ → ℕ → Barista → Run ((ℕ × ℕ) × Barista)
      unfolding process_write_stripe advance update_file_size
      write_stripes zero stripe_id stripe_offset buf left chunks replicas b = unfinished
      write_stripes (suc fuel) stripe_id stripe_offset buf left chunks replicas b =
          elim (left == 0) [
            | true ↦ served ((chunks, replicas), b)
            | false ↦
                let write_size = piece stat.stripe_size stripe_offset left in
                on_io
                  (process_write_stripe lt delivers (suc fuel) request_id replica_request_id file_id
                    stripe_id stat.stripe_size stat.chunk_size (take write_size buf) stripe_offset
                    write_size b.io)
                  b
                  (λ written b1. update_file_size file_id (to_int write_size) client b1 >>= λ res.
                    advance fd write_size client res.1 >>= λ b2.
                    write_stripes fuel ((stripe_id + 1) % word_mod) 0 (drop write_size buf)
                      (left - write_size) (chunks + written.0) (replicas + written.1) b2)
          ]

  -- read_file from the cursor on, with the stat of the file
  unfoldable pub read_from : ℕ → ℕ → ℕ → ℕ → ℕ → ℕ → FileStat → Client → Barista → Run Barista
  unfolding read_stripes get_first check_read_complete
  read_from fuel request_id file_id fd count file_offset stat client b =
      if not (elim (to_int stat.size) [ pos size ↦ ltb file_offset size | negsuc _ ↦ false ])
      then served (reply (read_result client fd (pos 0) []) b)
      else if count == 0
      then served (reply (read_result client fd (pos 0) []) b)
      else elim (get_first stat.stripe_size file_offset) [
        | none ↦ unfinished
        | some (stripe_id, stripe_offset) ↦
            let request : ReadRequestInfo = record {
              info = new_request client file_id;
              fd = fd;
              room = count;
              response_packets = [];
            } in
            do
              (num_chunks, b') ←
                  read_stripes request_id file_id fd stat client fuel stripe_id stripe_offset
                    (int_count count) 0
                    (record b {
                      active_read_requests = assign ltb request_id request b.active_read_requests;
                    })
              r ← checked (find ltb request_id b'.active_read_requests)
              check_read_complete request_id (record b' {
                active_read_requests =
                    assign ltb request_id
                      (record r {
                        info = record r.info { chunks_expected = num_chunks % word_mod };
                      })
                      b'.active_read_requests;
              })
      ]

  -- The checks of read_file that come first
  unfoldable pub read_file : ℕ → ℤ → ℕ → Client → Barista → Run Barista
  unfolding read_from may_read decafs_file_stat
  read_file fuel (negsuc _) count client b = asserted
  read_file fuel (pos zero) count client b = asserted
  read_file fuel (pos (suc n)) count client b =
      let (request_id, b1) = on_volatile get_new_request_id b in
      let file_id = (get_file_info (suc n) b1.io.volatile).file_id in
      elim (may_read client file_id b1) [
        | none ↦ asserted
        | some false ↦ served (reply (read_result client 0 file_not_open_for_read []) b1)
        | some true ↦ elim (decafs_file_stat file_id client b1) [
          | asserted ↦ asserted
          | unfinished ↦ unfinished
          | served (none, b2) ↦ served (reply (read_result client 0 unable_to_stat_file []) b2)
          | served (some none, b2) ↦ served (reply (read_result client 0 unable_to_stat_file []) b2)
          | served (some (some stat), b2) ↦ elim (get_file_cursor (suc n) b2.io.volatile) [
            | negsuc _ ↦ served (reply (read_result client 0 file_not_open_for_read []) b2)
            | pos file_offset ↦
                read_from fuel request_id file_id (suc n) count file_offset stat client b2
          ]
        ]
      ]

  -- write_file from the cursor on, with the stat of the file
  unfoldable pub write_from :
      ℕ → WriteRequest → ℕ → ℕ → List ℕ → ℕ → ℕ → FileStat → Client → Barista → Run Barista
  unfolding write_stripes get_first check_write_complete write_request_lt
  write_from fuel request file_id fd buf count file_offset stat client b =
      if count == 0
      then served (reply (write_result client 0 (pos 0)) b)
      else elim (get_first stat.stripe_size file_offset) [
        | none ↦ unfinished
        | some (stripe_id, stripe_offset) ↦
            let info : WriteRequestInfo = record {
              info = new_request client file_id;
              replica_info = new_request client file_id;
              fd = fd;
              count = pos 0;
            } in
            do
              ((chunks, replicas), b') ←
                  write_stripes request.request_id file_id fd stat client request.replica_request_id
                    fuel stripe_id stripe_offset buf (int_count count) 0 0
                    (record b {
                      write_request_lookups =
                          assign ltb request.replica_request_id request
                            (assign ltb request.request_id request b.write_request_lookups);
                      active_write_requests =
                          assign write_request_lt request info b.active_write_requests;
                    })
              w ← checked (find write_request_lt request b'.active_write_requests)
              check_write_complete request.request_id (record b' {
                active_write_requests =
                    assign write_request_lt request
                      (record w {
                        info = record w.info { chunks_expected = chunks % word_mod };
                        replica_info = record w.replica_info {
                          chunks_expected = replicas % word_mod;
                        };
                      })
                      b'.active_write_requests;
              })
      ]

  -- The checks of write_file that come first
  unfoldable pub write_file : ℕ → ℤ → List ℕ → ℕ → Client → Barista → Run Barista
  unfolding write_from decafs_file_stat
  write_file fuel (negsuc _) buf count client b = asserted
  write_file fuel (pos zero) buf count client b = asserted
  write_file fuel (pos (suc n)) buf count client b =
      let (request_id, b0) = on_volatile get_new_request_id b in
      let (replica_request_id, b1) = on_volatile get_new_request_id b0 in
      let file_id = (get_file_info (suc n) b1.io.volatile).file_id in
      elim (has_exclusive_lock client file_id b1.file_locks) [
        | none ↦ asserted
        | some false ↦ served (reply (write_result client 0 file_not_open_for_write) b1)
        | some true ↦ elim (decafs_file_stat file_id client b1) [
          | asserted ↦ asserted
          | unfinished ↦ unfinished
          | served (none, b2) ↦ served (reply (write_result client 0 unable_to_stat_file) b2)
          | served (some none, b2) ↦ served (reply (write_result client 0 unable_to_stat_file) b2)
          | served (some (some stat), b2) ↦ elim (get_file_cursor (suc n) b2.io.volatile) [
            | negsuc _ ↦ served (reply (write_result client 0 file_not_open_for_write) b2)
            | pos file_offset ↦
                write_from fuel
                  (record { request_id = request_id; replica_request_id = replica_request_id })
                  file_id (suc n) buf count file_offset stat client b2
          ]
        ]
      ]
