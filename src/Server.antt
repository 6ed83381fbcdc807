-- ===== src/Server.antt =====
-- lib/network_core/barista_server.cpp: the connections of the Barista, each the address of its
-- ConnectionToClient. A connection is pending until it says whether it is a client or a node.
pub mod Linked
mod Tests
use deca_fs.Prelude.{ℕ, List, [], Option, none, some, Bool, true, false, ltb, if◌then◌else◌}
use deca_fs.OrdMap.{find, assign, erase}
use deca_fs.Types.Client.{Client}
use deca_fs.Volatile.{Volatile, set_node_up, set_node_down}

-- BaristaServer, with the volatile metadata that it tells of nodes
pub record Server : Type 0 where
  pub pending_clients : List (ℕ × ℕ)
  pub decafs_clients : List (ℕ × Client)
  pub espresso_nodes : List (ℕ × ℕ)
  pub espresso_nodes_rev : List (ℕ × ℕ)
  pub volatile : Volatile

-- m.count (k)
unfoldable pub count {ℓ} : {V : Type ℓ} → ℕ → List (ℕ × V) → Bool
count k m = elim (find ltb k m) [ none ↦ false | some v ↦ true ]

unfoldable pub client_connected : ℕ → Server → Server
client_connected ctc s = record s { pending_clients = assign ltb ctc 1 s.pending_clients }

-- The end of clientDisconnected: the connection of a node
unfoldable pub node_disconnected : ℕ → Server → Server
node_disconnected ctc s = elim (find ltb ctc s.espresso_nodes_rev) [
  | none ↦ s
  | some node_id ↦ record s {
    espresso_nodes_rev = erase ltb ctc s.espresso_nodes_rev;
    espresso_nodes = erase ltb node_id s.espresso_nodes;
    volatile = (set_node_down node_id s.volatile).1;
  }
]

unfoldable pub client_disconnected : ℕ → Server → Server
unfolding count node_disconnected
client_disconnected ctc s =
    if count ctc s.pending_clients
    then record s { pending_clients = erase ltb ctc s.pending_clients }
    else if count ctc s.decafs_clients
    then record s { decafs_clients = erase ltb ctc s.decafs_clients }
    else node_disconnected ctc s

unfoldable pub add_espresso_node : ℕ → ℕ → Server → Server
unfolding count
add_espresso_node node_id ctc s =
    if count ctc s.pending_clients
    then record s {
      pending_clients = erase ltb ctc s.pending_clients;
      espresso_nodes = assign ltb node_id ctc s.espresso_nodes;
      espresso_nodes_rev = assign ltb ctc node_id s.espresso_nodes_rev;
      volatile = (set_node_up node_id s.volatile).1;
    }
    else s

-- `ip` is what inet_ntoa makes of the address of the connection.
unfoldable pub add_decafs_client : List ℕ → ℕ → ℕ → Server → Server
unfolding count
add_decafs_client ip user_id ctc s =
    if count ctc s.pending_clients
    then (let client : Client = record { ip = ip; user_id = user_id; ctc = ctc } in
        record s {
          pending_clients = erase ltb ctc s.pending_clients;
          decafs_clients = assign ltb ctc client s.decafs_clients;
        })
    else s
