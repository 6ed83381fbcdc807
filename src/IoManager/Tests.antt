-- ===== src/IoManager/Tests.antt =====
-- A write of four bytes over the border of two chunks of two bytes: the results on it.
use deca_fs.Prelude.{
  ℕ, suc, ◌+◌, ◌*◌, ◌<◌, ◌≤◌, ◌≡◌, ◌⊎◌, refl, List, [], ◌∷◌, some, Bool, true, false, arith, take,
  drop,
}
use deca_fs.OrdMap.{find, equiv}
use deca_fs.Types.File.{file_chunk_lt}
use deca_fs.Volatile.{Volatile, initial, contains}
use deca_fs.IoManager.{Message, Io, running, chunk_at, get_first, write_loop, write_request}
use deca_fs.IoManager.Locate.{get_first_lem}
use deca_fs.IoManager.Placed.Nodes.{IsPlaced}
use deca_fs.IoManager.Stuck.{write_loop_stuck}
use deca_fs.IoManager.Stripes.{IsReachable}

abbrev nodes_up : Volatile
nodes_up = record initial { up_nodes = 1 ∷ 2 ∷ 3 ∷ 4 ∷ [] }

abbrev pub fresh : Io
fresh = record {
  chunk_to_node = [];
  chunk_to_replica_node = [];
  volatile = nodes_up;
  connected = 1 ∷ 2 ∷ 3 ∷ 4 ∷ [];
  sent = [];
}

abbrev pub taken : Message → List Message → Bool
taken m ms = true

abbrev none_taken : Message → List Message → Bool
none_taken m ms = false

pub fresh-IsPlaced : IsPlaced fresh
fresh-IsPlaced = record { chunks = tt; replicas = tt }

pub fresh-IsReachable : IsReachable fresh
unfolding contains
fresh-IsReachable = record {
  first = refl;
  second = refl;
  first_replica = refl;
  second_replica = refl;
}

abbrev text : List ℕ
text = 11 ∷ 12 ∷ 13 ∷ 14 ∷ []

-- The four bytes of that write: two messages for each of the three chunks it touches
abbrev written : Io
written = record fresh {
  chunk_to_node = (chunk_at 5 1 1, 1) ∷ (chunk_at 5 1 2, 2) ∷ (chunk_at 5 1 3, 1) ∷ [];
  chunk_to_replica_node = (chunk_at 5 1 1, 3) ∷ (chunk_at 5 1 2, 4) ∷ (chunk_at 5 1 3, 3) ∷ [];
  sent =
      write_request 8 3 (chunk_at 5 1 3) 0 (take 1 (drop 2 (drop 1 text)))
      ∷ write_request 7 1 (chunk_at 5 1 3) 0 (take 1 (drop 2 (drop 1 text)))
      ∷ write_request 8 4 (chunk_at 5 1 2) 0 (take 2 (drop 1 text))
      ∷ write_request 7 2 (chunk_at 5 1 2) 0 (take 2 (drop 1 text))
      ∷ write_request 8 3 (chunk_at 5 1 1) 1 (take 1 text)
      ∷ write_request 7 1 (chunk_at 5 1 1) 1 (take 1 text)
      ∷ [];
}

abbrev far : ℕ
far = 600

get_first_lem_example :
    (k o : ℕ) × (get_first 256 far ≡ some (suc k, o))
    × (k * 256 + o ≡ far)
    × (o ≤ 256)
    × ((far ≡ 0) ⊎ (0 < o))
get_first_lem_example = get_first_lem 256 far (omega arith) (omega arith) (omega arith)

abbrev on_first : Io
on_first = record fresh { chunk_to_node = (chunk_at 5 1 1, 1) ∷ [] }

first_found : find file_chunk_lt (chunk_at 5 1 1) on_first.chunk_to_node ≡ some 1
unfolding find equiv file_chunk_lt
first_found = refl

write_loop_stuck_example :
    write_loop file_chunk_lt none_taken 7 8 5 1 2 9 1 0 text 4 0 0 on_first ≡ running
write_loop_stuck_example =
    write_loop_stuck file_chunk_lt none_taken 7 8 5 1 2 9 1 0 4 0 0 1 text on_first
      (λ c at bytes before. refl) first_found fresh-IsReachable.first (omega arith)

abbrev both_copies : Io
both_copies = record fresh {
  chunk_to_node = (chunk_at 5 1 1, 1) ∷ [];
  chunk_to_replica_node = (chunk_at 5 1 1, 3) ∷ [];
}
