-- ===== src/Placement/Tests.antt =====
-- Where the first chunk goes while node 1 is down.
use deca_fs.Prelude.{◌≡◌, ◌≢◌, refl, true, [], ◌∷◌, ◌||◌}
use deca_fs.Volatile.{Volatile, initial, is_node_up, contains}
use deca_fs.Placement.{first, second, first_replica, second_replica, put_chunk, put_replica}
use deca_fs.Placement.Choice.{put_chunk-put_replica}

abbrev one_down : Volatile
one_down = record initial { up_nodes = 2 ∷ 3 ∷ 4 ∷ [] }

abbrev all_up : Volatile
all_up = record initial { up_nodes = 1 ∷ 2 ∷ 3 ∷ 4 ∷ [] }

first_up : is_node_up first all_up ≡ true
unfolding is_node_up contains
first_up = refl

second_up : is_node_up second all_up ≡ true
unfolding is_node_up contains
second_up = refl

put_chunk-put_replica_example :
    (put_chunk 1 one_down ≢ put_replica 1 one_down)
    × (is_node_up (put_chunk 1 one_down) one_down
        ≡ (is_node_up first one_down || is_node_up second one_down))
    × (is_node_up (put_replica 1 one_down) one_down
        ≡ (is_node_up first_replica one_down || is_node_up second_replica one_down))
put_chunk-put_replica_example = put_chunk-put_replica 1 one_down
