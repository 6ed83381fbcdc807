-- ===== src/Server/Tests.antt =====
-- A node and a client that connect, and the node that leaves: the result on them.
use deca_fs.Prelude.{◌≡◌, refl, List, [], ◌∷◌, true, arith}
use deca_fs.OrdMap.{find, equiv, assign, erase}
use deca_fs.Volatile.{initial, contains, is_node_up}
use deca_fs.Server.{
  Server, count, client_connected, node_disconnected, client_disconnected, add_espresso_node,
  add_decafs_client,
}
use deca_fs.Server.Linked.{
  IsLinked, Event, connects, disconnects, joins_node, joins_client, handle, allowed, all_allowed,
  run, run-IsLinked,
}

abbrev started : Server
started = record {
  pending_clients = [];
  decafs_clients = [];
  espresso_nodes = [];
  espresso_nodes_rev = [];
  volatile = initial;
}

started-IsLinked : IsLinked started
unfolding find count is_node_up contains
started-IsLinked = record {
  there = λ n c h. absurd (ground (arith, h));
  back = λ c n h. absurd (ground (arith, h));
  up = λ n. refl;
  apart = λ c h. refl;
}

abbrev events : List Event
events =
    connects 10 ∷ connects 11 ∷ joins_node 1 10 ∷ joins_client (49 ∷ []) 7 11 ∷ disconnects 10 ∷ []

events_allowed : all_allowed events started ≡ true
unfolding all_allowed allowed handle client_connected client_disconnected node_disconnected
    add_espresso_node add_decafs_client count find equiv assign erase
events_allowed = refl

run-IsLinked_example : IsLinked (run events started)
run-IsLinked_example = run-IsLinked events started events_allowed started-IsLinked
