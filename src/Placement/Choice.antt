-- ===== src/Placement/Choice.antt =====
-- A chunk and its replica are apart, and each is on a node that is up if its pair has one.
use deca_fs.Prelude.{ℕ, ◌+◌, ◌≡◌, ◌≢◌, true, ◌||◌, arith}
use deca_fs.Volatile.{Volatile, is_node_up}
use deca_fs.Placement.{choose, first, second, first_replica, second_replica, put_chunk, put_replica}

-- The node chosen is up exactly when one of the two is.
choose_up :
    (one other chunk_num : ℕ) (v : Volatile)
    → one ≢ other
    → is_node_up (choose one other chunk_num v) v ≡ (is_node_up one v || is_node_up other v)
unfolding choose
choose_up one other chunk_num v ne = ground arith

copies_apart : (chunk_num : ℕ) (v : Volatile) → put_chunk chunk_num v ≢ put_replica chunk_num v
unfolding put_chunk put_replica choose
copies_apart chunk_num v = ground arith

-- The copies of a chunk never share a node, and each is put on a node that is up exactly when one of the
-- two nodes for it is.
pub put_chunk-put_replica :
    (chunk_num : ℕ) (v : Volatile)
    → (put_chunk chunk_num v ≢ put_replica chunk_num v)
      × (is_node_up (put_chunk chunk_num v) v ≡ (is_node_up first v || is_node_up second v))
      × (is_node_up (put_replica chunk_num v) v
          ≡ (is_node_up first_replica v || is_node_up second_replica v))
unfolding put_chunk put_replica
put_chunk-put_replica chunk_num v = (
  copies_apart chunk_num v,
  choose_up first second chunk_num v (λ h. omega arith),
  choose_up first_replica second_replica chunk_num v (λ h. omega arith),
)

-- While both nodes for chunks are up, neighbouring chunks of a stripe go to different nodes.
pub neighbours_apart :
    (chunk_num : ℕ) (v : Volatile)
    → is_node_up first v ≡ true
    → is_node_up second v ≡ true
    → put_chunk chunk_num v ≢ put_chunk (chunk_num + 1) v
unfolding put_chunk choose
neighbours_apart chunk_num v a b = ground arith
