-- ===== src/Server/Linked.antt =====
-- A node is up while it is connected, and the two maps of connected nodes are inverse to each other.
use deca_fs.Prelude.{
  ℕ, ◌≡◌, ◌≢◌, ◌⊎◌, inl, inr, sym, subst, List, [], ◌∷◌, ◌++◌, none, some, Bool, true, not, ◌&&◌,
  ◌||◌, ltb, ◌==◌, arith, Bool-cases, Option-cases, ℕ_discrete,
}
use deca_fs.OrdMap.{find, assign, erase}
use deca_fs.OrdMap.Laws.{find-assign_self, find-assign_ne, find-erase_self, find-erase_ne}
use deca_fs.OrdMap.Nat.{ltb-IsStrictOrder as order}
use deca_fs.Volatile.{Volatile, contains, remove, set_node_up, set_node_down, is_node_up}
use deca_fs.Server.{
  Server, count, client_connected, node_disconnected, client_disconnected, add_espresso_node,
  add_decafs_client,
}

pub record IsLinked (s : Server) : Type 0 where
  pub there :
      (n c : ℕ) → find ltb n s.espresso_nodes ≡ some c → find ltb c s.espresso_nodes_rev ≡ some n
  pub back :
      (c n : ℕ) → find ltb c s.espresso_nodes_rev ≡ some n → find ltb n s.espresso_nodes ≡ some c
  pub up : (n : ℕ) → is_node_up n s.volatile ≡ count n s.espresso_nodes
  pub apart : (c : ℕ) → count c s.pending_clients ≡ true → find ltb c s.espresso_nodes_rev ≡ none

contains-remove :
    (m n : ℕ) (ns : List ℕ) → contains m (remove n ns) ≡ (contains m ns && not (n == m))
unfolding contains remove
contains-remove m n [] = ground arith
contains-remove m n (k ∷ ns) = ground (arith, contains-remove m n ns)

contains-append : (m n : ℕ) (ns : List ℕ) → contains m (ns ++ n ∷ []) ≡ (contains m ns || n == m)
unfolding contains
contains-append m n [] = ground arith
contains-append m n (k ∷ ns) = ground (arith, contains-append m n ns)

down_lem :
    (m n : ℕ) (v : Volatile) → is_node_up m (set_node_down n v).1 ≡ (is_node_up m v && not (n == m))
unfolding is_node_up set_node_down
down_lem m n v = ground (arith, contains-remove m n v.up_nodes)

up_lem : (m n : ℕ) (v : Volatile) → is_node_up m (set_node_up n v).1 ≡ (is_node_up m v || n == m)
unfolding is_node_up set_node_up
up_lem m n v = ground (arith, contains-append m n v.up_nodes)

-- The maps without a node, or with one more
erased {ℓ} :
    {V : Type ℓ} (k j : ℕ) (m : List (ℕ × V))
    → ((k ≡ j) × (find ltb j (erase ltb k m) ≡ none))
      ⊎ ((k ≢ j) × (find ltb j (erase ltb k m) ≡ find ltb j m))
erased k j m = elim (ℕ_discrete k j) [
  | yes e ↦ inl (e, rw e (find-erase_self order j m))
  | no d ↦ inr (d, find-erase_ne order k j m d)
]

assigned {ℓ} :
    {V : Type ℓ} (k j : ℕ) (v : V) (m : List (ℕ × V))
    → ((k ≡ j) × (find ltb j (assign ltb k v m) ≡ some v))
      ⊎ ((k ≢ j) × (find ltb j (assign ltb k v m) ≡ find ltb j m))
assigned k j v m = elim (ℕ_discrete k j) [
  | yes e ↦ inl (e, rw e (find-assign_self order j v m))
  | no d ↦ inr (d, find-assign_ne order k j v m d)
]

node_disconnected-IsLinked : (c : ℕ) (s : Server) → IsLinked s → IsLinked (node_disconnected c s)
unfolding node_disconnected count
node_disconnected-IsLinked c s l = elim (Option-cases (find ltb c s.espresso_nodes_rev)) [
  | inl e ↦ let same : node_disconnected c s ≡ s = ground (arith, e) in subst IsLinked (sym same) l
  | inr (n, e) ↦
      let t : Server = record s {
        espresso_nodes_rev = erase ltb c s.espresso_nodes_rev;
        espresso_nodes = erase ltb n s.espresso_nodes;
        volatile = (set_node_down n s.volatile).1;
      } in
      let same : node_disconnected c s ≡ t = ground (arith, e) in
      let linked : IsLinked t = record {
        there = λ m d h. ground (
          arith,
          h,
          e,
          erased n m s.espresso_nodes,
          erased c d s.espresso_nodes_rev,
          l.there m d,
        );
        back = λ d m h. ground (
          arith,
          h,
          l.back c n e,
          erased n m s.espresso_nodes,
          erased c d s.espresso_nodes_rev,
          l.back d m,
        );
        up = λ m. ground (arith, down_lem m n s.volatile, l.up m, erased n m s.espresso_nodes);
        apart = λ d h. ground (arith, h, l.apart d, erased c d s.espresso_nodes_rev);
      } in
      subst IsLinked (sym same) linked
]

add_node-IsLinked :
    (n c : ℕ) (s : Server)
    → IsLinked s
    → find ltb n s.espresso_nodes ≡ none
    → IsLinked (add_espresso_node n c s)
unfolding add_espresso_node count
add_node-IsLinked n c s l free = elim (Bool-cases (count c s.pending_clients)) [
  | inr e ↦ rw e l
  | inl e ↦ rw e (record {
    there = λ m d h. ground (
      arith,
      h,
      free,
      l.apart c e,
      assigned n m c s.espresso_nodes,
      assigned c d n s.espresso_nodes_rev,
      l.there m d,
    );
    back = λ d m h. ground (
      arith,
      h,
      free,
      l.apart c e,
      assigned n m c s.espresso_nodes,
      assigned c d n s.espresso_nodes_rev,
      l.back d m,
    );
    up = λ m. ground (arith, up_lem m n s.volatile, l.up m, assigned n m c s.espresso_nodes);
    apart = λ d h.
        ground
          (arith, h, l.apart d, erased c d s.pending_clients, assigned c d n s.espresso_nodes_rev);
  })
]

-- What happens to the server: a connection comes or ends, or says that it is a node or a client.
pub data Event : Type 0 where
  connects disconnects : ℕ → Event
  joins_node : ℕ → ℕ → Event
  joins_client : List ℕ → ℕ → ℕ → Event

unfoldable pub handle : Event → Server → Server
unfolding client_connected client_disconnected add_espresso_node add_decafs_client
handle (connects c) s = client_connected c s
handle (disconnects c) s = client_disconnected c s
handle (joins_node n c) s = add_espresso_node n c s
handle (joins_client ip user_id c) s = add_decafs_client ip user_id c s

-- A connection that comes is not that of a connected node, and a node that joins has a number that no
-- connected node has.
unfoldable pub allowed : Event → Server → Bool
unfolding count
allowed (connects c) s = not (count c s.espresso_nodes_rev)
allowed (joins_node n c) s = not (count n s.espresso_nodes)
allowed _ s = true

unfoldable pub run : List Event → Server → Server
unfolding handle
run [] s = s
run (e ∷ es) s = run es (handle e s)

unfoldable pub all_allowed : List Event → Server → Bool
unfolding allowed handle
all_allowed [] s = true
all_allowed (e ∷ es) s = allowed e s && all_allowed es (handle e s)

-- Fewer connections are pending, or none but the given one more; the nodes stay.
still_apart :
    (s : Server) (pending : List (ℕ × ℕ))
    → IsLinked s
    → ((d : ℕ) → count d pending ≡ true → find ltb d s.espresso_nodes_rev ≡ none)
    → IsLinked (record s { pending_clients = pending })
still_apart s pending l h = record { there = l.there; back = l.back; up = l.up; apart = h }

pending_erased :
    (c : ℕ) (s : Server)
    → IsLinked s
    → IsLinked (record s { pending_clients = erase ltb c s.pending_clients })
unfolding count
pending_erased c s l =
    still_apart s (erase ltb c s.pending_clients) l
      (λ d h. ground (arith, h, l.apart d, erased c d s.pending_clients))

handle-IsLinked : (e : Event) (s : Server) → allowed e s ≡ true → IsLinked s → IsLinked (handle e s)
unfolding handle allowed client_connected client_disconnected add_decafs_client count
handle-IsLinked (connects c) s h l =
    still_apart s (assign ltb c 1 s.pending_clients) l
      (λ d k. ground (arith, h, k, l.apart d, assigned c d 1 s.pending_clients))
handle-IsLinked (disconnects c) s h l = elim (Bool-cases (count c s.pending_clients)) [
  | inl e ↦ rw e (pending_erased c s l)
  | inr e ↦ elim (Bool-cases (count c s.decafs_clients)) [
    | inl f ↦ rw (e, f) (record { there = l.there; back = l.back; up = l.up; apart = l.apart })
    | inr f ↦ rw (e, f) (node_disconnected-IsLinked c s l)
  ]
]
handle-IsLinked (joins_node n c) s h l = add_node-IsLinked n c s l (ground (arith, h))
handle-IsLinked (joins_client ip user_id c) s h l = elim (Bool-cases (count c s.pending_clients)) [
  | inr e ↦ rw e l
  | inl e ↦
      let p = pending_erased c s l in
      rw e (record { there = p.there; back = p.back; up = p.up; apart = p.apart })
]

-- Connections come and go and say what they are, in any order, where no node joins with the number of
-- one that is connected, and no connection comes twice: throughout, a node is up exactly while a
-- connection is filed for its number, each of the two maps of nodes is the inverse of the other, and
-- no pending connection is that of a node.
pub run-IsLinked :
    (es : List Event) (s : Server) → all_allowed es s ≡ true → IsLinked s → IsLinked (run es s)
unfolding run all_allowed
run-IsLinked [] s h l = l
run-IsLinked (e ∷ es) s h l =
    run-IsLinked es (handle e s) (ground (arith, h)) (handle-IsLinked e s (ground (arith, h)) l)
