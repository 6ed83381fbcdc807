-- ===== src/Volatile/Calls.antt =====
-- The calls that change the volatile metadata, in any order.
use deca_fs.Prelude.{ℕ, List, [], ◌∷◌}
use deca_fs.Types.Client.{Client}
use deca_fs.Volatile.{
  Volatile, set_chunk_size, set_stripe_size, set_num_espressos, set_node_down, set_node_up,
  new_file_cursor, close_file_cursor, set_file_cursor, get_new_request_id,
}

pub data Call : Type 0 where
  sets_chunk_size sets_stripe_size sets_num_espressos : ℕ → Call
  sets_node_down sets_node_up : ℕ → Call
  opens closes : ℕ → Client → Call
  moves : ℕ → ℕ → Client → ℕ → Call
  asks_request_id : Call

unfoldable pub step : Call → Volatile → Volatile
step (sets_chunk_size n) v = (set_chunk_size n v).1
step (sets_stripe_size n) v = (set_stripe_size n v).1
step (sets_num_espressos n) v = (set_num_espressos n v).1
step (sets_node_down n) v = (set_node_down n v).1
step (sets_node_up n) v = (set_node_up n v).1
step (opens file_id c) v = (new_file_cursor file_id c v).1
step (closes fd c) v = (close_file_cursor fd c v).1
step (moves fd offset c size) v = (set_file_cursor fd offset c size v).1
step asks_request_id v = (get_new_request_id v).1

unfoldable pub run : List Call → Volatile → Volatile
run [] v = v
run (k ∷ ks) v = run ks (step k v)
