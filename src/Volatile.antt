-- ===== src/Volatile.antt =====
-- lib/volatile_metadata/volatile_metadata.cpp: the sizes of the instance, the nodes that are up, the
-- cursors of open files, and the counters. Counters are 32-bit words and wrap. A number from a
-- function declared int is converted, so that one from 2^31 on is negative.
pub mod Calls
pub mod Sizes
pub mod Nodes
pub mod Cursors
pub mod Numbers
pub mod Isolation
mod Tests
use deca_fs.Prelude.{
  ℕ, suc, ◌+◌, ◌%◌, ◌≡◌, List, [], ◌∷◌, ◌++◌, Option, none, some, Bool, true, false, not, ◌&&◌,
  ◌||◌, ltb, leb, ◌==◌, if◌then◌else◌, length,
}
use deca_fs.Prelude.Int.{ℤ, pos, negsuc, to_int, word_mod}
use deca_fs.OrdMap.{find, assign, erase, last_key}
use deca_fs.Types.Client.{Client, same_client}
use deca_fs.Types.File.{FileInstance, null_instance, min_stripe, max_stripe, min_chunk, max_chunk}

-- A call of run_node_failure_handler or run_node_up_handler.
pub data NodeEvent : Type 0 where
  node_failure node_up : ℕ → NodeEvent

-- Volatile_Metadata. `handled` lists the calls of the node handlers, the last one first.
pub record Volatile : Type 0 where
  pub chunk_size : ℕ
  pub stripe_size : ℕ
  pub num_espressos : ℕ
  pub up_nodes : List ℕ
  pub file_cursors : List (ℕ × FileInstance)
  pub last_fd : ℕ
  pub request_id : ℕ
  pub handled : List NodeEvent

-- Volatile_Metadata()
abbrev pub initial : Volatile
initial = record {
  chunk_size = 0;
  stripe_size = 0;
  num_espressos = 0;
  up_nodes = [];
  file_cursors = [];
  last_fd = 0;
  request_id = 0;
  handled = [];
}

-- 1, SIZE_ALREADY_SET and SIZE_INVALID
pub data SizeStatus : Type 0 where
  size_set size_already_set size_invalid : SizeStatus

unfoldable pub set_chunk_size : ℕ → Volatile → SizeStatus × Volatile
set_chunk_size size v =
    if v.chunk_size == 0
    then if leb min_chunk size && leb size max_chunk
      then (size_set, record v { chunk_size = size })
      else (size_invalid, v)
    else (size_already_set, v)

unfoldable pub set_stripe_size : ℕ → Volatile → SizeStatus × Volatile
set_stripe_size size v =
    if v.stripe_size == 0
    then if leb min_stripe size && leb size max_stripe
      then (size_set, record v { stripe_size = size })
      else (size_invalid, v)
    else (size_already_set, v)

-- The parameter hides the field, which is neither read nor set.
unfoldable pub set_num_espressos : ℕ → Volatile → SizeStatus × Volatile
set_num_espressos num_espressos v =
    if num_espressos == 0 then (size_set, v) else (size_already_set, v)

-- V_META_SUCCESS, NODE_NUMBER_NOT_FOUND and NODE_ALREADY_UP
pub data NodeStatus : Type 0 where
  node_success node_number_not_found node_already_up : NodeStatus

-- up_nodes_contains
unfoldable pub contains : ℕ → List ℕ → Bool
contains n [] = false
contains n (m ∷ ms) = m == n || contains n ms

-- up_nodes.remove (n)
unfoldable pub remove : ℕ → List ℕ → List ℕ
remove n [] = []
remove n (m ∷ ms) = if m == n then remove n ms else m ∷ remove n ms

unfoldable pub set_node_down : ℕ → Volatile → NodeStatus × Volatile
set_node_down n v =
    if contains n v.up_nodes
    then (
      node_success,
      record v { up_nodes = remove n v.up_nodes; handled = node_failure n ∷ v.handled },
    )
    else (node_number_not_found, v)

unfoldable pub set_node_up : ℕ → Volatile → NodeStatus × Volatile
set_node_up n v =
    if not (contains n v.up_nodes)
    then (
      node_success,
      record v { up_nodes = v.up_nodes ++ n ∷ []; handled = node_up n ∷ v.handled },
    )
    else (node_already_up, v)

unfoldable pub is_node_up : ℕ → Volatile → Bool
is_node_up n v = contains n v.up_nodes

unfoldable pub get_active_node_count : Volatile → ℕ
get_active_node_count v = length v.up_nodes

-- up_nodes.sort()
unfoldable pub sort_insert : ℕ → List ℕ → List ℕ
sort_insert n [] = n ∷ []
sort_insert n (m ∷ ms) = if ltb m n then m ∷ sort_insert n ms else n ∷ m ∷ ms

unfoldable pub sort : List ℕ → List ℕ
sort [] = []
sort (n ∷ ns) = sort_insert n (sort ns)

-- NUM_ESPRESSO, the length of active_nodes.node_numbers
abbrev pub num_espresso : ℕ
num_espresso = 4

-- get_active_nodes: the array written, or `none` where the loop writes behind its end.
unfoldable pub get_active_nodes : Volatile → Option (List ℕ × Volatile)
get_active_nodes v =
    let ns = sort v.up_nodes in
    if leb (length ns) num_espresso then some (ns, record v { up_nodes = ns }) else none

-- INSTANCE_NOT_FOUND and WRONG_CLIENT
abbrev pub instance_not_found : ℤ
instance_not_found = negsuc 0

abbrev pub wrong_client : ℤ
wrong_client = negsuc 1

-- get_new_fd: the number, and last_fd after it
unfoldable pub get_new_fd : Volatile → ℕ
get_new_fd v =
    let last =
      if v.last_fd == 0
      then elim (last_key v.file_cursors) [ none ↦ v.last_fd | some k ↦ k ]
      else v.last_fd in
    (last + 1) % word_mod

unfoldable pub new_file_cursor : ℕ → Client → Volatile → ℤ × Volatile
unfolding get_new_fd
new_file_cursor file_id client v =
    let fd = get_new_fd v in
    let inst : FileInstance = record { client_id = client; file_id = file_id; offset = 0 } in
    (to_int fd, record v { file_cursors = assign ltb fd inst v.file_cursors; last_fd = fd })

unfoldable pub close_file_cursor : ℕ → Client → Volatile → ℤ × Volatile
close_file_cursor fd client v = elim (find ltb fd v.file_cursors) [
  | none ↦ (instance_not_found, v)
  | some file ↦
      if same_client file.client_id client
      then (to_int file.file_id, record v { file_cursors = erase ltb fd v.file_cursors })
      else (wrong_client, v)
]

unfoldable pub get_file_cursor : ℕ → Volatile → ℤ
get_file_cursor fd v = elim (find ltb fd v.file_cursors) [
  | none ↦ instance_not_found
  | some file ↦ to_int file.offset
]

-- `size` is info.size as decafs_file_stat leaves it.
unfoldable pub set_file_cursor : ℕ → ℕ → Client → ℕ → Volatile → ℤ × Volatile
set_file_cursor fd offset client size v = elim (find ltb fd v.file_cursors) [
  | none ↦ (instance_not_found, v)
  | some file ↦
      if same_client file.client_id client
      then (let at = if ltb size offset then size else offset in
          (
            to_int at,
            record v { file_cursors = assign ltb fd (record file { offset = at }) v.file_cursors },
          ))
      else (wrong_client, v)
]

unfoldable pub get_file_info : ℕ → Volatile → FileInstance
get_file_info fd v = elim (find ltb fd v.file_cursors) [ none ↦ null_instance | some file ↦ file ]

unfoldable pub get_new_request_id : Volatile → ℕ × Volatile
get_new_request_id v = let id = (v.request_id + 1) % word_mod in (id, record v { request_id = id })
