-- ===== src/Barista/Written/Progress.antt =====
-- How far a write request has come, and the handling of one response.
use deca_fs.Prelude.{
  ℕ, ◌+◌, ◌≤◌, ◌<◌, ◌≡◌, ◌⊎◌, List, [], ◌∷◌, Option, none, some, Bool, true, false, ◌&&◌, ltb, ◌==◌,
  if◌then◌else◌, arith,
}
use deca_fs.Prelude.Int.{ℤ, pos, negsuc, is_neg, word_mod}
use deca_fs.OrdMap.{find, assign}
use deca_fs.OrdMap.Laws.{find-assign_self}
use deca_fs.Barista.{WriteRequest, WriteRequestInfo, write_request_lt, Barista, Run, served, ◌>>=◌}
use deca_fs.Barista.Requests.{
  WriteResponse, write_request_of, write_complete, check_write_complete, count_write,
  write_response_handler,
}
use deca_fs.Barista.Written.Order.{write_request_lt-IsStrictOrder}

-- The responses handled one after the other
unfoldable pub respond_all : List WriteResponse → Barista → Run Barista
unfolding write_response_handler
respond_all [] b = served b
respond_all (r ∷ rs) b = write_response_handler r b >>= λ b'. respond_all rs b'

-- How many responses have the id, and how many bytes they count
unfoldable pub answers : ℕ → List WriteResponse → ℕ
answers id [] = 0
answers id (r ∷ rs) = (if r.id == id then 1 else 0) + answers id rs

abbrev pub size : ℤ → ℕ
size (pos n) = n
size (negsuc n) = 0

unfoldable pub bytes_of : ℕ → List WriteResponse → ℕ
bytes_of id [] = 0
bytes_of id (r ∷ rs) = (if r.id == id then size r.count else 0) + bytes_of id rs

-- A response to the request, from a chunk or from a replica, that is no error.
pub record IsAnswer (q : WriteRequest) (r : WriteResponse) : Type 0 where
  pub to : (r.id ≡ q.request_id) ⊎ (r.id ≡ q.replica_request_id)
  pub written : is_neg r.count ≡ false

-- The request is under way: `w` is what is known of it.
pub record IsActive (q : WriteRequest) (w : WriteRequestInfo) (b : Barista) : Type 0 where
  pub own : find ltb q.request_id b.write_request_lookups ≡ some q
  pub replica : find ltb q.replica_request_id b.write_request_lookups ≡ some q
  pub entry : find write_request_lt q b.active_write_requests ≡ some w

-- Nothing is found.
unfoldable pub is_gone {ℓ} : {A : Type ℓ} → Option A → Bool
is_gone none = true
is_gone (some a) = false

-- All chunks and all replicas are in.
abbrev pub all_in : ℕ → ℕ → WriteRequestInfo → Bool
all_in p r w =
    w.info.chunks_expected == w.info.chunks_received + p
    && w.replica_info.chunks_expected == w.replica_info.chunks_received + r

module _ (q : WriteRequest) where
  abbrev pub stored : WriteRequestInfo → Barista → Barista
  stored w b = record b {
    active_write_requests = assign write_request_lt q w b.active_write_requests;
  }

  pub IsActive-stored :
      (w w' : WriteRequestInfo) (b : Barista) → IsActive q w b → IsActive q w' (stored w' b)
  IsActive-stored w w' b a = record {
    own = a.own;
    replica = a.replica;
    entry = find-assign_self write_request_lt-IsStrictOrder q w' b.active_write_requests;
  }

  pub handler_lem :
      (r : WriteResponse) (w w' : WriteRequestInfo) (b : Barista)
      → IsActive q w b
      → IsAnswer q r
      → count_write r q w ≡ some w'
      → write_response_handler r b ≡ write_complete q w' (stored w' b)
  unfolding write_response_handler check_write_complete write_request_of
  handler_lem r w w' b a h e =
      let found : find ltb r.id b.write_request_lookups ≡ some q =
        ground (arith, a.own, a.replica, h.to) in
      ground (
        arith,
        found,
        a.entry,
        e,
        find-assign_self write_request_lt-IsStrictOrder q w' b.active_write_requests,
      )

-- How far a request has come: `c` bytes are counted, and `p` chunks and `r` replicas are to come at most.
pub record IsUnderWay (c p r : ℕ) (w : WriteRequestInfo) : Type 0 where
  pub counted : w.count ≡ pos c
  pub some_expected : 0 < w.info.chunks_expected
  pub chunks_bound : w.info.chunks_expected < word_mod
  pub replicas_bound : w.replica_info.chunks_expected < word_mod
  pub chunks : w.info.chunks_received + p ≤ w.info.chunks_expected
  pub replicas : w.replica_info.chunks_received + r ≤ w.replica_info.chunks_expected
