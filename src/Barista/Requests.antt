-- ===== src/Barista/Requests.antt =====
-- lib/barista_core/barista_core.cpp: the responses of the Espresso nodes, and when a request is complete.
-- The response packets of a read are kept in a std::map under a comparator `lt` of chunks. A response
-- packet carries as many bytes as its count says.
use deca_fs.Prelude.{
  ℕ, ◌+◌, ◌%◌, List, [], ◌∷◌, ◌++◌, Option, none, some, Bool, true, false, ◌&&◌, ltb, ◌==◌,
  if◌then◌else◌, length, take,
}
use deca_fs.Prelude.Int.{ℤ, pos, negsuc, word_mod}
use deca_fs.OrdMap.{find, assign, erase}
use deca_fs.Types.File.{FileChunk}
use deca_fs.Locking.{release_lock}
use deca_fs.Barista.{
  RequestInfo, ReadRequestInfo, WriteRequest, WriteRequestInfo, write_request_lt, Barista, Run,
  served, asserted, unfinished, read_result, write_result, remove_result, reply, add_int,
  delete_file_contents,
}

-- What a ReadChunkResponse, a WriteChunkResponse and a DeleteChunkResponse say
pub record ReadResponse : Type 0 where
  pub id : ℕ
  pub chunk : FileChunk
  pub count : ℤ
  pub data_buffer : List ℕ

pub record WriteResponse : Type 0 where
  pub id : ℕ
  pub count : ℤ

-- read_buffer (size, buf)
unfoldable pub read_buffer : ℤ → List ℕ → List ℕ
read_buffer (pos size) buf = take size buf
read_buffer (negsuc size) buf = []

-- One more chunk has been received.
abbrev pub received_one : RequestInfo → RequestInfo
received_one info = record info { chunks_received = (info.chunks_received + 1) % word_mod }

-- The packets copied to the buffer one after the other
unfoldable pub gathered : List (FileChunk × List ℕ) → List ℕ
gathered [] = []
gathered ((c, bytes) ∷ packets) = bytes ++ gathered packets

-- The check of a request that there is
unfoldable pub read_complete : ℕ → ReadRequestInfo → Barista → Run Barista
unfolding gathered
read_complete request_id r b =
    if r.info.chunks_expected == 0
    then served b
    else if r.info.chunks_expected == r.info.chunks_received
    then (let bytes = gathered r.response_packets in
        if ltb r.room (length bytes)
        then asserted
        else served (record b {
          active_read_requests = erase ltb request_id b.active_read_requests;
          replies = read_result r.info.client r.fd (pos (length bytes)) bytes ∷ b.replies;
        }))
    else served b

unfoldable pub check_read_complete : ℕ → Barista → Run Barista
unfolding read_complete
check_read_complete request_id b = elim (find ltb request_id b.active_read_requests) [
  | none ↦ asserted
  | some r ↦ read_complete request_id r b
]

module _ (lt : FileChunk → FileChunk → Bool) where
  -- The request with the response filed
  abbrev pub with_packet : ReadResponse → ReadRequestInfo → ReadRequestInfo
  with_packet response r = record r {
    info = received_one r.info;
    response_packets =
        assign lt response.chunk (read_buffer response.count response.data_buffer)
          r.response_packets;
  }

  unfoldable pub read_response_handler : ReadResponse → Barista → Run Barista
  unfolding check_read_complete read_buffer
  read_response_handler response b = elim (find ltb response.id b.active_read_requests) [
    | none ↦ asserted
    | some r ↦ check_read_complete response.id (record b {
      active_read_requests = assign ltb response.id (with_packet response r) b.active_read_requests;
    })
  ]

-- The entry of a write request, through the lookup: `none` where write_request_exists is false.
unfoldable pub write_request_of : ℕ → Barista → Option (WriteRequest × WriteRequestInfo)
unfolding write_request_lt
write_request_of request_id b = elim (find ltb request_id b.write_request_lookups) [
  | none ↦ none
  | some request ↦ elim (find write_request_lt request b.active_write_requests) [
    | none ↦ none
    | some w ↦ some (request, w)
  ]
]

unfoldable pub write_request_exists : ℕ → Barista → Bool
unfolding write_request_of
write_request_exists request_id b = elim (write_request_of request_id b) [
  | none ↦ false
  | some _ ↦ true
]

-- The check of a request that there is
unfoldable pub write_complete : WriteRequest → WriteRequestInfo → Barista → Run Barista
unfolding write_request_lt
write_complete request w b =
    if w.info.chunks_expected == 0
    then served b
    else if w.info.chunks_expected == w.info.chunks_received
        && w.replica_info.chunks_expected == w.replica_info.chunks_received
    then served (record b {
      active_write_requests = erase write_request_lt request b.active_write_requests;
      write_request_lookups =
          erase ltb request.replica_request_id
            (erase ltb request.request_id b.write_request_lookups);
      replies = write_result w.info.client w.fd w.count ∷ b.replies;
    })
    else served b

unfoldable pub check_write_complete : ℕ → Barista → Run Barista
unfolding write_request_of write_complete
check_write_complete request_id b = elim (write_request_of request_id b) [
  | none ↦ asserted
  | some (request, w) ↦ write_complete request w b
]

-- The request with the response counted, or `none` where the sum of the counts overflows.
unfoldable pub count_write :
    WriteResponse → WriteRequest → WriteRequestInfo → Option WriteRequestInfo
unfolding add_int
count_write response request w =
    if response.id == request.request_id
    then elim (add_int w.count response.count) [
      | none ↦ none
      | some sum ↦ some (record w { info = received_one w.info; count = sum })
    ]
    else some (record w { replica_info = received_one w.replica_info })

unfoldable pub write_response_handler : WriteResponse → Barista → Run Barista
unfolding check_write_complete count_write write_request_of write_request_lt
write_response_handler response b = elim (write_request_of response.id b) [
  | none ↦ asserted
  | some (request, w) ↦ elim (count_write response request w) [
    | none ↦ asserted
    | some w' ↦ check_write_complete response.id (record b {
      active_write_requests = assign write_request_lt request w' b.active_write_requests;
    })
  ]
]

-- The end of a delete, once the metadata lock has been had: the loop goes on while it is not.
unfoldable pub delete_done : ℕ → RequestInfo → Barista → Run Barista
unfolding delete_file_contents
delete_done request_id d b =
    elim (delete_file_contents d.file_id d.client (reply (remove_result d.client (pos 0)) b)) [
      | asserted ↦ asserted
      | unfinished ↦ unfinished
      | served (none, b') ↦ unfinished
      | served (some res, b') ↦ elim (release_lock d.client d.file_id b'.file_locks) [
        | none ↦ asserted
        | some (_, locks) ↦ served (record b' {
          file_locks = locks;
          active_delete_requests = erase ltb request_id b'.active_delete_requests;
        })
      ]
    ]

unfoldable pub check_delete_complete : ℕ → Barista → Run Barista
unfolding delete_done
check_delete_complete request_id b = elim (find ltb request_id b.active_delete_requests) [
  | none ↦ asserted
  | some d ↦
      if d.chunks_expected == 0
      then served b
      else if d.chunks_expected == d.chunks_received
      then delete_done request_id d b
      else served b
]

-- Of a DeleteChunkResponse only the id is looked at.
unfoldable pub delete_response_handler : ℕ → Barista → Run Barista
unfolding check_delete_complete
delete_response_handler id b = elim (find ltb id b.active_delete_requests) [
  | none ↦ asserted
  | some d ↦ check_delete_complete id (record b {
    active_delete_requests = assign ltb id (received_one d) b.active_delete_requests;
  })
]

unfoldable pub delete_request_exists : ℕ → Barista → Bool
delete_request_exists request_id b = elim (find ltb request_id b.active_delete_requests) [
  | none ↦ false
  | some d ↦ true
]
