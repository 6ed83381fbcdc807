-- ===== src/Volatile/Nodes.antt =====
-- The nodes that are up: a set, and the sorted array that get_active_nodes gives out.
use mathlib.Core.List.{Perm}
use mathlib.Core.List.Perm
use deca_fs.Prelude.{
  ℕ, ◌+◌, ◌≤◌, ◌≡◌, refl, List, [], ◌∷◌, ◌++◌, some, false, not, ◌&&◌, ◌||◌, ltb, ◌==◌,
  if◌then◌else◌, length, inl, inr, arith, Bool-cases,
}
use deca_fs.Volatile.{
  Volatile, node_success, node_number_not_found, node_already_up, node_failure, node_up, contains,
  remove, sort, sort_insert, set_chunk_size, set_stripe_size, set_num_espressos, set_node_down,
  set_node_up, is_node_up, get_active_node_count, get_active_nodes, num_espresso, new_file_cursor,
  close_file_cursor, set_file_cursor, get_new_request_id,
}
use deca_fs.Volatile.Calls.{Call, sets_node_down, sets_node_up, step, run}

contains-append : (m n : ℕ) (ns : List ℕ) → contains m (ns ++ n ∷ []) ≡ (n == m || contains m ns)
unfolding contains
contains-append m n [] = refl
contains-append m n (k ∷ ns) = ground (arith, contains-append m n ns)

contains-remove :
    (m n : ℕ) (ns : List ℕ) → contains m (remove n ns) ≡ (not (n == m) && contains m ns)
unfolding contains remove
contains-remove m n [] = ground arith
contains-remove m n (k ∷ ns) = ground (arith, contains-remove m n ns)

-- A node that comes up is up, and no other node changes. The handler runs exactly when it was down.
pub set_node_up_lem :
    (m n : ℕ) (v : Volatile)
    → (is_node_up m (set_node_up n v).1 ≡ (n == m || is_node_up m v))
      × ((set_node_up n v).0 ≡ (if is_node_up n v then node_already_up else node_success))
      × ((set_node_up n v).1.handled
          ≡ (if is_node_up n v then v.handled else node_up n ∷ v.handled))
unfolding set_node_up is_node_up
set_node_up_lem m n v = (ground (arith, contains-append m n v.up_nodes), ground arith, ground arith)

-- A node that goes down is down, and no other node changes. The handler runs exactly when it was up.
pub set_node_down_lem :
    (m n : ℕ) (v : Volatile)
    → (is_node_up m (set_node_down n v).1 ≡ (not (n == m) && is_node_up m v))
      × ((set_node_down n v).0 ≡ (if is_node_up n v then node_success else node_number_not_found))
      × ((set_node_down n v).1.handled
          ≡ (if is_node_up n v then node_failure n ∷ v.handled else v.handled))
unfolding set_node_down is_node_up
set_node_down_lem m n v =
    (ground (arith, contains-remove m n v.up_nodes), ground arith, ground arith)

-- Each node is listed once.
abbrev pub Distinct : List ℕ → Type 0
Distinct [] = Unit
Distinct (n ∷ ns) = (contains n ns ≡ false) × Distinct ns

Distinct-append :
    (n : ℕ) (ns : List ℕ) → contains n ns ≡ false → Distinct ns → Distinct (ns ++ n ∷ [])
unfolding contains
Distinct-append n [] h d = (refl, tt)
Distinct-append n (k ∷ ns) h d =
    (ground (arith, contains-append k n ns), Distinct-append n ns (ground arith) d.1)

Distinct-remove : (n : ℕ) (ns : List ℕ) → Distinct ns → Distinct (remove n ns)
unfolding remove
Distinct-remove n [] d = tt
Distinct-remove n (k ∷ ns) d = ground (arith, Distinct-remove n ns d.1, contains-remove k n ns)

-- What a call makes of the list.
abbrev nodes_after : Call → List ℕ → List ℕ
nodes_after (sets_node_up n) ns = if contains n ns then ns else ns ++ n ∷ []
nodes_after (sets_node_down n) ns = if contains n ns then remove n ns else ns
nodes_after _ ns = ns

up_nodes-step : (k : Call) (v : Volatile) → (step k v).up_nodes ≡ nodes_after k v.up_nodes
unfolding step set_chunk_size set_stripe_size set_num_espressos set_node_down set_node_up
    new_file_cursor close_file_cursor set_file_cursor get_new_request_id
up_nodes-step (sets_node_up n) v = ground arith
up_nodes-step _ v = ground arith

nodes_after-Distinct : (k : Call) (ns : List ℕ) → Distinct ns → Distinct (nodes_after k ns)
nodes_after-Distinct (sets_node_up n) ns d = elim (Bool-cases (contains n ns)) [
  | inl h ↦ rw h d
  | inr h ↦ rw h (Distinct-append n ns h d)
]
nodes_after-Distinct (sets_node_down n) ns d = elim (Bool-cases (contains n ns)) [
  | inl h ↦ rw h (Distinct-remove n ns d)
  | inr h ↦ rw h d
]
nodes_after-Distinct _ ns d = d

step-Distinct : (k : Call) (v : Volatile) → Distinct v.up_nodes → Distinct (step k v).up_nodes
step-Distinct k v d = rw (up_nodes-step k v) (nodes_after-Distinct k v.up_nodes d)

-- Whatever is called, no node is listed twice.
pub run-Distinct :
    (ks : List Call) (v : Volatile) → Distinct v.up_nodes → Distinct (run ks v).up_nodes
unfolding run
run-Distinct [] v d = d
run-Distinct (k ∷ ks) v d = run-Distinct ks (step k v) (step-Distinct k v d)

abbrev pub Ascending : List ℕ → Type 0
Ascending [] = Unit
Ascending (n ∷ []) = Unit
Ascending (n ∷ m ∷ ns) = (n ≤ m) × Ascending (m ∷ ns)

sort_insert-Ascending : (n : ℕ) (ns : List ℕ) → Ascending ns → Ascending (sort_insert n ns)
unfolding sort_insert
sort_insert-Ascending n [] a = tt
sort_insert-Ascending n (m ∷ []) a = ground arith
sort_insert-Ascending n (m ∷ k ∷ ns) a = ground (arith, sort_insert-Ascending n (k ∷ ns) a.1)

sort-Ascending : (ns : List ℕ) → Ascending (sort ns)
unfolding sort
sort-Ascending [] = tt
sort-Ascending (n ∷ ns) = sort_insert-Ascending n (sort ns) (sort-Ascending ns)

sort_insert-perm : (n : ℕ) (ns : List ℕ) → Perm (sort_insert n ns) (n ∷ ns)
unfolding sort_insert
sort_insert-perm n [] = Perm.refl _
sort_insert-perm n (m ∷ ms) = elim (Bool-cases (ltb m n)) [
  | inl h ↦ rw h (Perm.trans (Perm.cons m (sort_insert-perm n ms)) (Perm.swap n m ms))
  | inr h ↦ rw h (Perm.refl _)
]

sort-perm : (ns : List ℕ) → Perm (sort ns) ns
unfolding sort
sort-perm [] = Perm.refl _
sort-perm (n ∷ ns) = Perm.trans (sort_insert-perm n (sort ns)) (Perm.cons n (sort-perm ns))

length-sort_insert : (n : ℕ) (ns : List ℕ) → length (sort_insert n ns) ≡ length ns + 1
unfolding sort_insert
length-sort_insert n [] = refl
length-sort_insert n (m ∷ ms) = ground (arith, length-sort_insert n ms)

length-sort : (ns : List ℕ) → length (sort ns) ≡ length ns
unfolding sort
length-sort [] = refl
length-sort (n ∷ ns) = omega (arith, length-sort ns, length-sort_insert n (sort ns))

-- With at most NUM_ESPRESSO nodes up, get_active_nodes gives out exactly those, in ascending order.
pub get_active_nodes_lem :
    (v : Volatile)
    → get_active_node_count v ≤ num_espresso
    → (ns : List ℕ) × (get_active_nodes v ≡ some (ns, record v { up_nodes = ns }))
      × Ascending ns
      × Perm ns v.up_nodes
unfolding get_active_nodes get_active_node_count
get_active_nodes_lem v h = (
  sort v.up_nodes,
  ground (arith, length-sort v.up_nodes),
  sort-Ascending v.up_nodes,
  sort-perm v.up_nodes,
)
