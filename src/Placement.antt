-- ===== src/Placement.antt =====
-- lib/distribution_strategy/distribution_strategy.cpp and lib/replication_strategy/
-- replication_strategy.cpp: on which nodes a chunk and its replica go. The file, its path and the stripe
-- are not looked at.
pub mod Choice
mod Tests
use deca_fs.Prelude.{ℕ, ◌%◌, Bool, ◌==◌, if◌then◌else◌}
use deca_fs.Volatile.{Volatile, is_node_up}

abbrev pub first : ℕ
first = 1

abbrev pub second : ℕ
second = 2

abbrev pub first_replica : ℕ
first_replica = 3

abbrev pub second_replica : ℕ
second_replica = 4

-- The body of both functions: the node for the number of the chunk if it is up, else the other one.
unfoldable pub choose : ℕ → ℕ → ℕ → Volatile → ℕ
choose one other chunk_num v =
    let node_num = if chunk_num % 2 == 1 then one else other in
    if is_node_up node_num v then node_num else if node_num == one then other else one

unfoldable pub put_chunk : ℕ → Volatile → ℕ
unfolding choose
put_chunk chunk_num v = choose first second chunk_num v

unfoldable pub put_replica : ℕ → Volatile → ℕ
unfolding choose
put_replica chunk_num v = choose first_replica second_replica chunk_num v
