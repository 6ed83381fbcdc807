-- ===== src/Volatile/Isolation.antt =====
-- Who can change a cursor: only the client that opened it.
use deca_fs.Prelude.{
  All, subst, ℕ, ◌+◌, ◌<◌, ◌≡◌, ◌≢◌, ◌⊎◌, ◌∙◌, sym, List, [], ◌∷◌, some, false, ltb, inl, inr,
  arith, Bool-cases, Option-cases, ℕ_discrete,
}
use deca_fs.Prelude.Int.{word_mod}
use deca_fs.OrdMap.{find}
use deca_fs.OrdMap.Laws.{find-assign_ne, find-erase_ne}
use deca_fs.OrdMap.Nat.{ltb-IsStrictOrder as order}
use deca_fs.Types.Client.{Client, same_client, same_client_iff}
use deca_fs.Types.File.{FileInstance}
use deca_fs.Volatile.{
  Volatile, set_chunk_size, set_stripe_size, set_num_espressos, set_node_down, set_node_up,
  get_new_fd, new_file_cursor, close_file_cursor, set_file_cursor, get_new_request_id,
}
use deca_fs.Volatile.Calls.{Call, opens, closes, moves, step, run}
use deca_fs.Volatile.Cursors.{HasCursors, get_new_fd_lem, clamped}
use deca_fs.Volatile.Numbers.{opens_in, opens_in-cons, step-HasCursors}

-- A call that is not by `client` on `fd`: it closes or moves another number, or for another client.
abbrev pub IsElsewhere : ℕ → Client → Call → Type 0
IsElsewhere fd client (closes at by) = (fd ≢ at) ⊎ (client ≢ by)
IsElsewhere fd client (moves at offset by size) = (fd ≢ at) ⊎ (client ≢ by)
IsElsewhere fd client _ = Unit

same_client_ne : (a b : Client) → a ≢ b → same_client a b ≡ false
same_client_ne a b n = elim (Bool-cases (same_client a b)) [
  | inl t ↦ absurd (n ((same_client_iff a b).0 t))
  | inr f ↦ f
]

module _ (fd : ℕ) (inst : FileInstance) (v : Volatile)
    (e : find ltb fd v.file_cursors ≡ some inst) where
  close_keeps :
      (at : ℕ) (by : Client)
      → (fd ≢ at) ⊎ (inst.client_id ≢ by)
      → find ltb fd (close_file_cursor at by v).1.file_cursors ≡ some inst
  unfolding close_file_cursor
  close_keeps at by away = elim (ℕ_discrete at fd) [
    | yes same ↦ ground (
      arith,
      away,
      same_client_ne inst.client_id by,
      subst (λ k. find ltb k v.file_cursors ≡ some inst) (sym same) e,
    )
    | no other ↦ ground (arith, find-erase_ne order at fd v.file_cursors other)
  ]

  move_keeps :
      (at offset : ℕ) (by : Client) (size : ℕ)
      → (fd ≢ at) ⊎ (inst.client_id ≢ by)
      → find ltb fd (set_file_cursor at offset by size v).1.file_cursors ≡ some inst
  unfolding set_file_cursor
  move_keeps at offset by size away = elim (Option-cases (find ltb at v.file_cursors)) [
    | inl n ↦ ground (arith, n, e)
    | inr (old, p) ↦ elim (ℕ_discrete at fd) [
      | yes same ↦ ground (
        arith,
        p,
        away,
        same_client_ne inst.client_id by,
        subst (λ k. find ltb k v.file_cursors ≡ some inst) (sym same) e,
      )
      | no other ↦ ground (
        arith,
        p,
        find-assign_ne order at fd (record old { offset = clamped size offset }) v.file_cursors
            other,
      )
    ]
  ]

  open_keeps :
      (file_id : ℕ) (by : Client)
      → HasCursors v
      → v.last_fd + 1 < word_mod
      → find ltb fd (new_file_cursor file_id by v).1.file_cursors ≡ some inst
  unfolding new_file_cursor
  open_keeps file_id by c room =
      let new : get_new_fd v ≡ v.last_fd + 1 = omega (arith, get_new_fd_lem v c) in
      let (p, q) = c fd inst e in
      find-assign_ne order (get_new_fd v) fd
        (record { client_id = by; file_id = file_id; offset = 0 }) v.file_cursors (λ h. omega arith)
      ∙ e

  step_keeps :
      (k : Call)
      → HasCursors v
      → v.last_fd + opens_in (k ∷ []) < word_mod
      → IsElsewhere fd inst.client_id k
      → find ltb fd (step k v).file_cursors ≡ some inst
  unfolding step set_chunk_size set_stripe_size set_num_espressos set_node_down set_node_up
      get_new_request_id
  step_keeps (opens file_id by) c room away = open_keeps file_id by c room
  step_keeps (closes at by) c room away = close_keeps at by away
  step_keeps (moves at offset by size) c room away = move_keeps at offset by size away
  step_keeps _ c room away = ground (arith, e)

-- While the counter does not wrap, an open file keeps its client, its file and its offset over any
-- calls but the closes and moves of that number for that client: other clients' calls on it are
-- refused, and no later open is given its number.
pub run_keeps_cursor :
    (ks : List Call) (fd : ℕ) (inst : FileInstance) (v : Volatile)
    → HasCursors v
    → v.last_fd + opens_in ks < word_mod
    → All (IsElsewhere fd inst.client_id) ks
    → find ltb fd v.file_cursors ≡ some inst
    → find ltb fd (run ks v).file_cursors ≡ some inst
unfolding run
run_keeps_cursor [] fd inst v c room away e = e
run_keeps_cursor (k ∷ ks) fd inst v c room (a, rest) e =
    let split = opens_in-cons k ks in
    let (d, n) = step-HasCursors k v c (omega arith) in
    run_keeps_cursor ks fd inst (step k v) d (omega arith) rest
      (step_keeps fd inst v e k c (omega arith) a)
