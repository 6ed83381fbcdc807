-- ===== src/Volatile/Sizes.antt =====
-- The sizes of the instance are set once, within their limits.
use deca_fs.Prelude.{◌≤◌, ◌≡◌, ◌≢◌, ◌⊎◌, ◌∙◌, refl, sym, List, [], ◌∷◌, arith}
use deca_fs.Types.File.{min_stripe, max_stripe, min_chunk, max_chunk}
use deca_fs.Volatile.{
  Volatile, set_chunk_size, set_stripe_size, set_num_espressos, set_node_down, set_node_up,
  new_file_cursor, close_file_cursor, set_file_cursor, get_new_request_id,
}
use deca_fs.Volatile.Calls.{Call, sets_chunk_size, step, run}

-- Each size is unset or within its limits, and the number of nodes is unset.
pub record HasSizes (v : Volatile) : Type 0 where
  pub chunk : (v.chunk_size ≡ 0) ⊎ (min_chunk ≤ v.chunk_size) × (v.chunk_size ≤ max_chunk)
  pub stripe : (v.stripe_size ≡ 0) ⊎ (min_stripe ≤ v.stripe_size) × (v.stripe_size ≤ max_stripe)
  pub nodes : v.num_espressos ≡ 0

step-HasSizes : (k : Call) (v : Volatile) → HasSizes v → HasSizes (step k v)
unfolding step set_chunk_size set_stripe_size set_num_espressos set_node_down set_node_up
    new_file_cursor close_file_cursor set_file_cursor get_new_request_id
step-HasSizes (sets_chunk_size n) v h = ground arith
step-HasSizes _ v h = ground arith

-- Whatever is called, the sizes stay unset or within their limits. The number of nodes is never set,
-- by set_num_espressos neither.
pub run-HasSizes : (ks : List Call) (v : Volatile) → HasSizes v → HasSizes (run ks v)
unfolding run
run-HasSizes [] v h = h
run-HasSizes (k ∷ ks) v h = run-HasSizes ks (step k v) (step-HasSizes k v h)

step_sizes :
    (k : Call) (v : Volatile)
    → v.chunk_size ≢ 0
    → v.stripe_size ≢ 0
    → ((step k v).chunk_size ≡ v.chunk_size) × ((step k v).stripe_size ≡ v.stripe_size)
unfolding step set_chunk_size set_stripe_size set_num_espressos set_node_down set_node_up
    new_file_cursor close_file_cursor set_file_cursor get_new_request_id
step_sizes (sets_chunk_size n) v h k = (ground arith, ground arith)
step_sizes _ v h k = (ground arith, ground arith)

-- The sizes once set stay, whatever is called.
pub run_sizes :
    (ks : List Call) (v : Volatile)
    → v.chunk_size ≢ 0
    → v.stripe_size ≢ 0
    → ((run ks v).chunk_size ≡ v.chunk_size) × ((run ks v).stripe_size ≡ v.stripe_size)
unfolding run
run_sizes [] v h k = (refl, refl)
run_sizes (c ∷ ks) v h k =
    let (p, q) = step_sizes c v h k in
    let (r, s) = run_sizes ks (step c v) (λ e. h (sym p ∙ e)) (λ e. k (sym q ∙ e)) in (r ∙ p, s ∙ q)
