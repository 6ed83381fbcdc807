-- ===== src/Barista/Written.antt =====
-- A write is answered once, when the last response is in, whatever the order of the responses.
pub mod Order
pub mod Progress
pub mod Counts
use deca_fs.Prelude.{
  ℕ, suc, ◌+◌, ◌^◌, ◌≤◌, ◌<◌, ◌≡◌, ◌≢◌, ◌⊎◌, inl, inr, refl, sym, List, [], ◌∷◌, none, some, Bool,
  true, false, not, ◌&&◌, ltb, ◌==◌, if◌then◌else◌, arith, All, Bool-cases,
}
use deca_fs.Prelude.Int.{ℤ, pos, negsuc, is_neg, word_mod}
use deca_fs.OrdMap.{IsStrictOrder, find, assign, erase}
use deca_fs.OrdMap.Laws.{find-assign_self, find-erase_self, find-erase_ne}
use deca_fs.OrdMap.Nat.{ltb-IsStrictOrder}
use deca_fs.Barista.{
  WriteRequest, WriteRequestInfo, write_request_lt, Barista, Run, served, ◌>>=◌, write_result,
  add_int,
}
use deca_fs.Barista.Requests.{
  WriteResponse, received_one, write_request_of, write_request_exists, write_complete,
  check_write_complete, count_write, write_response_handler,
}
use deca_fs.Barista.Written.Progress.{
  respond_all, answers, size, is_gone, bytes_of, IsAnswer, IsActive, all_in, stored,
  IsActive-stored, handler_lem, IsUnderWay,
}
use deca_fs.Barista.Written.Counts.{
  after_own, after_replica, count_own, count_replica, complete_lem, incomplete_lem, own_adds,
  replica_adds, exists_lem,
}

module _ (q : WriteRequest) (differ : q.request_id ≢ q.replica_request_id) where
  -- What the check of a request and the responses to come do.
  abbrev Answered : ℕ → WriteRequestInfo → List WriteResponse → Barista → Type 0
  Answered c w rs b =
      let done = all_in (answers q.request_id rs) (answers q.replica_request_id rs) w in
      (b' : Barista) × ((write_complete q w b >>= respond_all rs) ≡ served b')
      × (b'.replies ≡ (
          if done
          then write_result w.info.client w.fd (pos (c + bytes_of q.request_id rs)) ∷ b.replies
          else b.replies))
      × (write_request_exists q.request_id b' ≡ not done)
      × (find ltb q.request_id b'.write_request_lookups ≡ (if done then none else some q))
      × (find ltb q.replica_request_id b'.write_request_lookups ≡ (if done then none else some q))
      × (is_gone (find write_request_lt q b'.active_write_requests) ≡ done)

  -- A response that leaves the request under way, and then the others
  carry :
      (r : WriteResponse) (rs : List WriteResponse) (c c' : ℕ) (w w' : WriteRequestInfo)
      (b : Barista)
      → let done =
          all_in (answers q.request_id (r ∷ rs)) (answers q.replica_request_id (r ∷ rs)) w in
        let done' = all_in (answers q.request_id rs) (answers q.replica_request_id rs) w' in
        write_response_handler r b ≡ write_complete q w' (stored q w' b)
        → all_in 0 0 w ≡ false
        → done' ≡ done
        → c' + bytes_of q.request_id rs ≡ c + bytes_of q.request_id (r ∷ rs)
        → w'.info.client ≡ w.info.client
        → w'.fd ≡ w.fd
        → Answered c' w' rs (stored q w' b)
        → Answered c w (r ∷ rs) b
  unfolding respond_all
  carry r rs c c' w w' b e d same total client fd (b', f, g, x, y, z, t) = (
    b',
    ground (arith, incomplete_lem q differ w b d, e, f),
    rw (sym same, sym total, sym client, sym fd) g,
    rw (sym same) x,
    rw (sym same) y,
    rw (sym same) z,
    rw (sym same) t,
  )

  check_then :
      (rs : List WriteResponse) (c : ℕ) (w : WriteRequestInfo) (b : Barista)
      → IsActive q w b
      → All (IsAnswer q) rs
      → IsUnderWay c (answers q.request_id rs) (answers q.replica_request_id rs) w
      → c + bytes_of q.request_id rs < 2 ^ 31
      → Answered c w rs b
  unfolding answers bytes_of respond_all is_gone
  check_then [] c w b a h u k = elim (Bool-cases (all_in 0 0 w)) [
    | inl d ↦
        let (b', e, f, g, x, y, z) = complete_lem q differ w b u.some_expected d in
        let at_end : w.count ≡ pos (c + 0) = ground (arith, u.counted) in
        (b', ground (arith, e), rw (d, sym at_end) f, rw d g, rw d x, rw d y, ground (arith, d, z))
    | inr d ↦ (
      b,
      ground (arith, incomplete_lem q differ w b d),
      rw d refl,
      rw d (exists_lem q differ w b a),
      rw d a.own,
      rw d a.replica,
      ground (arith, d, a.entry),
    )
  ]
  check_then (r ∷ rs) c w b a (h, hs) u k = elim h.to [
    | inl own ↦
        let (n, m, j) = own_adds q differ r rs own in
        let w' = after_own q differ (c + size r.count) w in
        let k' : c + size r.count + bytes_of q.request_id rs < 2 ^ 31 = omega (arith, j) in
        let u' : IsUnderWay (c + size r.count) (answers q.request_id rs)
            (answers q.replica_request_id rs) w' =
          record {
            counted = refl;
            some_expected = u.some_expected;
            chunks_bound = u.chunks_bound;
            replicas_bound = u.replicas_bound;
            chunks = omega (arith, n, u.chunks, u.chunks_bound);
            replicas = omega (arith, m, u.replicas);
          } in
        let e =
          handler_lem q r w w' b a h
            (count_own q differ r w c own u.counted h.written (omega (arith, k'))) in
        carry r rs c (c + size r.count) w w' b e (ground (arith, n, u.chunks))
          (ground (arith, n, m, u.chunks, u.chunks_bound)) (omega (arith, j)) refl refl
          (check_then rs (c + size r.count) w' (stored q w' b) (IsActive-stored q w w' b a) hs u'
            k')
    | inr rep ↦
        let (n, m, j) = replica_adds q differ r rs rep in
        let w' = after_replica q differ w in
        let u' : IsUnderWay c (answers q.request_id rs) (answers q.replica_request_id rs) w' =
          record {
            counted = u.counted;
            some_expected = u.some_expected;
            chunks_bound = u.chunks_bound;
            replicas_bound = u.replicas_bound;
            chunks = omega (arith, n, u.chunks);
            replicas = omega (arith, m, u.replicas, u.replicas_bound);
          } in
        let e = handler_lem q r w w' b a h (count_replica q differ r w rep) in
        carry r rs c c w w' b e (ground (arith, m, u.replicas))
          (ground (arith, n, m, u.replicas, u.replicas_bound)) (omega (arith, j)) refl refl
          (check_then rs c w' (stored q w' b) (IsActive-stored q w w' b a) hs u' (omega (arith, j)))
  ]

  -- A write of which some responses are missing, when responses arrive in any order, chunks and
  -- replicas mixed, and no more than are expected; no response counts -1, which a node sends for a
  -- failed write, and the counts sum up to less than 2^31. While one is missing, nothing is sent to
  -- the client, both ids lead to the request and its entry is there. The last one makes the Barista
  -- send one result, with the file and the sum of the counts of the chunks; then neither id leads to
  -- a request, and the entry is gone.
  pub respond_all_lem :
      (rs : List WriteResponse) (c : ℕ) (w : WriteRequestInfo) (b : Barista)
      → IsActive q w b
      → All (IsAnswer q) rs
      → IsUnderWay c (answers q.request_id rs) (answers q.replica_request_id rs) w
      → all_in 0 0 w ≡ false
      → c + bytes_of q.request_id rs < 2 ^ 31
      → let done = all_in (answers q.request_id rs) (answers q.replica_request_id rs) w in
        (b' : Barista) × (respond_all rs b ≡ served b')
        × (b'.replies ≡ (
            if done
            then write_result w.info.client w.fd (pos (c + bytes_of q.request_id rs)) ∷ b.replies
            else b.replies))
        × (write_request_exists q.request_id b' ≡ not done)
        × (find ltb q.request_id b'.write_request_lookups ≡ (if done then none else some q))
        × (find ltb q.replica_request_id b'.write_request_lookups ≡ (if done then none else some q))
        × (is_gone (find write_request_lt q b'.active_write_requests) ≡ done)
  respond_all_lem rs c w b a h u d k =
      let (b', e, f, g, x, y, z) = check_then rs c w b a h u k in
      (b', ground (arith, incomplete_lem q differ w b d, e), f, g, x, y, z)
