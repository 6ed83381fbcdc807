-- ===== src/Volatile/Tests.antt =====
-- An instance with two nodes and two open files: the results on it.
use deca_fs.Prelude.{◌+◌, ◌≡◌, ◌≢◌, refl, ap, List, [], ◌∷◌, some, inr, ltb, arith, All}
use deca_fs.OrdMap.{equiv, find}
use deca_fs.Types.Client.{Client}
use deca_fs.Types.File.{FileInstance}
use deca_fs.Volatile.{Volatile, contains}
use deca_fs.Volatile.Calls.{
  Call, sets_chunk_size, sets_num_espressos, sets_node_up, sets_node_down, opens, closes, moves,
  run,
}
use deca_fs.Volatile.Sizes.{HasSizes}
use deca_fs.Volatile.Nodes.{Distinct, run-Distinct}
use deca_fs.Volatile.Cursors.{HasCursors}
use deca_fs.Volatile.Numbers.{run-HasCursors}
use deca_fs.Volatile.Isolation.{run_keeps_cursor, IsElsewhere}

abbrev alice : Client
alice = record { ip = 10 ∷ []; user_id = 1; ctc = 4 }

abbrev bob : Client
bob = record { ip = 10 ∷ []; user_id = 2; ctc = 6 }

abbrev hers : FileInstance
hers = record { client_id = alice; file_id = 3; offset = 50 }

abbrev instance_1 : Volatile
instance_1 = record {
  chunk_size = 512;
  stripe_size = 1024;
  num_espressos = 0;
  up_nodes = 2 ∷ 1 ∷ [];
  file_cursors = (1, hers) ∷ (2, record hers { client_id = bob }) ∷ [];
  last_fd = 2;
  request_id = 0;
  handled = [];
}

abbrev calls : List Call
calls =
    sets_chunk_size 256
    ∷ sets_num_espressos 4
    ∷ sets_node_down 1
    ∷ sets_node_up 3
    ∷ opens 3 bob
    ∷ closes 1 bob
    ∷ moves 2 10 bob 100
    ∷ []

instance_1-HasSizes : HasSizes instance_1
instance_1-HasSizes = record { chunk = inr (omega arith); stripe = inr (omega arith); nodes = refl }

instance_1-HasCursors : HasCursors instance_1
unfolding find equiv
instance_1-HasCursors fd inst h = ground arith

find_1 : find ltb 1 instance_1.file_cursors ≡ some hers
unfolding find equiv
find_1 = refl

alice≢bob : alice ≢ bob
alice≢bob h = absurd (omega (arith, ap (λ (c : Client). c.user_id) h))

instance_1-Distinct : Distinct instance_1.up_nodes
unfolding contains
instance_1-Distinct = (refl, (refl, tt))

run-Distinct_example : Distinct (run calls instance_1).up_nodes
run-Distinct_example = run-Distinct calls instance_1 instance_1-Distinct

run-HasCursors_example :
    HasCursors (run calls instance_1) × ((run calls instance_1).last_fd ≡ 2 + 1)
run-HasCursors_example = run-HasCursors calls instance_1 instance_1-HasCursors (omega arith)

calls-IsElsewhere : All (IsElsewhere 1 alice) calls
calls-IsElsewhere = ground (arith, alice≢bob)

run_keeps_cursor_example : find ltb 1 (run calls instance_1).file_cursors ≡ some hers
run_keeps_cursor_example =
    run_keeps_cursor calls 1 hers instance_1 instance_1-HasCursors (omega arith) calls-IsElsewhere
      find_1
