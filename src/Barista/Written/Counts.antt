-- ===== src/Barista/Written/Counts.antt =====
-- What a response adds to the counts of its request, and what the check of the counts does.
use deca_fs.Prelude.{
  ℕ, suc, ◌+◌, ◌^◌, ◌<◌, ◌≡◌, ◌≢◌, refl, List, ◌∷◌, none, some, true, false, ltb, arith,
}
use deca_fs.Prelude.Int.{pos, is_neg}
use deca_fs.OrdMap.{find, erase}
use deca_fs.Barista.Written.Order.{write_request_lt-IsStrictOrder}
use deca_fs.OrdMap.Laws.{find-erase_self, find-erase_ne}
use deca_fs.OrdMap.Nat.{ltb-IsStrictOrder}
use deca_fs.Barista.{
  WriteRequest, WriteRequestInfo, write_request_lt, Barista, served, write_result, add_int,
}
use deca_fs.Barista.Requests.{
  WriteResponse, received_one, write_request_of, write_request_exists, write_complete, count_write,
}
use deca_fs.Barista.Written.Progress.{answers, size, bytes_of, IsActive, all_in}

module _ (q : WriteRequest) (differ : q.request_id ≢ q.replica_request_id) where
  abbrev pub after_own : ℕ → WriteRequestInfo → WriteRequestInfo
  after_own sum w = record w { info = received_one w.info; count = pos sum }

  abbrev pub after_replica : WriteRequestInfo → WriteRequestInfo
  after_replica w = record w { replica_info = received_one w.replica_info }

  pub count_own :
      (r : WriteResponse) (w : WriteRequestInfo) (c : ℕ)
      → r.id ≡ q.request_id
      → w.count ≡ pos c
      → is_neg r.count ≡ false
      → c + size r.count < 2 ^ 31
      → count_write r q w ≡ some (after_own (c + size r.count) w)
  unfolding count_write add_int
  count_own r w c e f n h = ground arith

  pub count_replica :
      (r : WriteResponse) (w : WriteRequestInfo)
      → r.id ≡ q.replica_request_id
      → count_write r q w ≡ some (after_replica w)
  unfolding count_write
  count_replica r w e = ground (arith, differ)

  pub complete_lem :
      (w : WriteRequestInfo) (b : Barista)
      → 0 < w.info.chunks_expected
      → all_in 0 0 w ≡ true
      → (b' : Barista) × (write_complete q w b ≡ served b')
        × (b'.replies ≡ write_result w.info.client w.fd w.count ∷ b.replies)
        × (write_request_exists q.request_id b' ≡ false)
        × (find ltb q.request_id b'.write_request_lookups ≡ none)
        × (find ltb q.replica_request_id b'.write_request_lookups ≡ none)
        × (find write_request_lt q b'.active_write_requests ≡ none)
  unfolding write_complete write_request_exists write_request_of
  complete_lem w b h d =
      let once = erase ltb q.request_id b.write_request_lookups in
      let own : find ltb q.request_id (erase ltb q.replica_request_id once) ≡ none = ground (
        arith,
        find-erase_self ltb-IsStrictOrder q.request_id b.write_request_lookups,
        find-erase_ne ltb-IsStrictOrder q.replica_request_id q.request_id once,
        differ,
      ) in
      (
        record b {
          active_write_requests = erase write_request_lt q b.active_write_requests;
          write_request_lookups = erase ltb q.replica_request_id once;
          replies = write_result w.info.client w.fd w.count ∷ b.replies;
        },
        ground arith,
        refl,
        ground (arith, own),
        own,
        find-erase_self ltb-IsStrictOrder q.replica_request_id once,
        find-erase_self write_request_lt-IsStrictOrder q b.active_write_requests,
      )

  pub incomplete_lem :
      (w : WriteRequestInfo) (b : Barista) → all_in 0 0 w ≡ false → write_complete q w b ≡ served b
  unfolding write_complete
  incomplete_lem w b d = ground arith

  -- What a response from a chunk, or from a replica, adds to the counts.
  pub own_adds :
      (r : WriteResponse) (rs : List WriteResponse)
      → r.id ≡ q.request_id
      → (answers q.request_id (r ∷ rs) ≡ suc (answers q.request_id rs))
        × (answers q.replica_request_id (r ∷ rs) ≡ answers q.replica_request_id rs)
        × (bytes_of q.request_id (r ∷ rs) ≡ size r.count + bytes_of q.request_id rs)
  unfolding answers bytes_of
  own_adds r rs own = (ground arith, ground (arith, differ), ground arith)

  pub replica_adds :
      (r : WriteResponse) (rs : List WriteResponse)
      → r.id ≡ q.replica_request_id
      → (answers q.request_id (r ∷ rs) ≡ answers q.request_id rs)
        × (answers q.replica_request_id (r ∷ rs) ≡ suc (answers q.replica_request_id rs))
        × (bytes_of q.request_id (r ∷ rs) ≡ bytes_of q.request_id rs)
  unfolding answers bytes_of
  replica_adds r rs rep = (ground (arith, differ), ground arith, ground (arith, differ))

  pub exists_lem :
      (w : WriteRequestInfo) (b : Barista)
      → IsActive q w b
      → write_request_exists q.request_id b ≡ true
  unfolding write_request_exists write_request_of
  exists_lem w b a = ground (arith, a.own, a.entry)
