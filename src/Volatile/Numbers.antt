-- ===== src/Volatile/Numbers.antt =====
-- The numbers of open files over any run of calls, and who can change a cursor.
use deca_fs.Prelude.{
  ℕ, suc, ◌+◌, ◌≤◌, ◌<◌, ◌≡◌, ◌⊎◌, ◌∙◌, refl, sym, ap, List, [], ◌∷◌, some, ltb, inl, inr, arith,
  Bool-cases, Option-cases, ℕ_discrete,
}
use deca_fs.Prelude.Int.{word_mod}
use deca_fs.OrdMap.{find, assign, erase}
use deca_fs.OrdMap.Laws.{find-assign_ne, find-erase_self, find-erase_ne}
use deca_fs.OrdMap.Nat.{ltb-IsStrictOrder as order}
use deca_fs.Types.Client.{Client, same_client}
use deca_fs.Types.File.{FileInstance}
use deca_fs.Volatile.{
  Volatile, set_chunk_size, set_stripe_size, set_num_espressos, set_node_down, set_node_up,
  get_new_fd, new_file_cursor, close_file_cursor, set_file_cursor, get_new_request_id,
}
use deca_fs.Volatile.Calls.{
  Call, sets_chunk_size, sets_stripe_size, sets_num_espressos, sets_node_down, sets_node_up, opens,
  closes, moves, asks_request_id, step, run,
}
use deca_fs.Volatile.Cursors.{HasCursors, get_new_fd_lem, clamped}

-- How many files the calls open.
abbrev pub opens_in : List Call → ℕ
opens_in [] = 0
opens_in (opens file_id c ∷ ks) = suc (opens_in ks)
opens_in (_ ∷ ks) = opens_in ks

HasCursors-assign :
    (m : List (ℕ × FileInstance)) (fd last : ℕ) (inst : FileInstance)
    → 0 < fd
    → fd ≤ last
    → ((k : ℕ) (i : FileInstance) → find ltb k m ≡ some i → (0 < k) × (k ≤ last))
    → (k : ℕ) (i : FileInstance) → find ltb k (assign ltb fd inst m) ≡ some i
    → (0 < k) × (k ≤ last)
HasCursors-assign m fd last inst p q c k i e = elim (ℕ_discrete fd k) [
  | yes same ↦ omega arith
  | no other ↦ c k i (sym (find-assign_ne order fd k inst m other) ∙ e)
]

HasCursors-erase :
    (m : List (ℕ × FileInstance)) (fd last : ℕ)
    → ((k : ℕ) (i : FileInstance) → find ltb k m ≡ some i → (0 < k) × (k ≤ last))
    → (k : ℕ) (i : FileInstance) → find ltb k (erase ltb fd m) ≡ some i
    → (0 < k) × (k ≤ last)
HasCursors-erase m fd last c k i e = elim (ℕ_discrete fd k) [
  | yes same ↦ absurd (ground (arith, find-erase_self order fd m))
  | no other ↦ c k i (sym (find-erase_ne order fd k m other) ∙ e)
]

-- What a call that opens no file does to the cursors: nothing, or it sets or erases an open one.
Changes : List (ℕ × FileInstance) → List (ℕ × FileInstance) → Type 0
Changes m m' =
    (m' ≡ m)
    ⊎ ((fd : ℕ) × (old : FileInstance) × (find ltb fd m ≡ some old)
        × ((m' ≡ erase ltb fd m) ⊎ ((inst : FileInstance) × (m' ≡ assign ltb fd inst m))))

close-Changes :
    (fd : ℕ) (client : Client) (v : Volatile)
    → Changes v.file_cursors (close_file_cursor fd client v).1.file_cursors
      × ((close_file_cursor fd client v).1.last_fd ≡ v.last_fd)
unfolding close_file_cursor Changes
close-Changes fd client v = elim (Option-cases (find ltb fd v.file_cursors)) [
  | inl n ↦ (inl (ground (arith, n)), ground (arith, n))
  | inr (old, e) ↦ elim (Bool-cases (same_client old.client_id client)) [
    | inl t ↦ (inr (fd, old, e, inl (ground (arith, e, t))), ground (arith, e, t))
    | inr f ↦ (inl (ground (arith, e, f)), ground (arith, e, f))
  ]
]

move-Changes :
    (fd offset : ℕ) (client : Client) (size : ℕ) (v : Volatile)
    → Changes v.file_cursors (set_file_cursor fd offset client size v).1.file_cursors
      × ((set_file_cursor fd offset client size v).1.last_fd ≡ v.last_fd)
unfolding set_file_cursor Changes
move-Changes fd offset client size v = elim (Option-cases (find ltb fd v.file_cursors)) [
  | inl n ↦ (inl (ground (arith, n)), ground (arith, n))
  | inr (old, e) ↦ elim (Bool-cases (same_client old.client_id client)) [
    | inl t ↦ (
      inr (fd, old, e, inr (record old { offset = clamped size offset }, ground (arith, e, t))),
      ground (arith, e, t),
    )
    | inr f ↦ (inl (ground (arith, e, f)), ground (arith, e, f))
  ]
]

Changes-HasCursors :
    (v w : Volatile)
    → Changes v.file_cursors w.file_cursors × (w.last_fd ≡ v.last_fd)
    → HasCursors v
    → HasCursors w
unfolding Changes
Changes-HasCursors v w (inl same, last) c fd inst e =
    let h = c fd inst (sym (ap (λ m. find ltb fd m) same) ∙ e) in (h.0, omega (arith, h.1))
Changes-HasCursors v w (inr (at, old, p, inl h), last) c fd inst e =
    let (q, r) =
      HasCursors-erase v.file_cursors at v.last_fd c fd inst
        (sym (ap (λ m. find ltb fd m) h) ∙ e) in
    (q, omega arith)
Changes-HasCursors v w (inr (at, old, p, inr (i, h)), last) c fd inst e =
    let (a, b) = c at old p in
    let (q, r) =
      HasCursors-assign v.file_cursors at v.last_fd i a b c fd inst
        (sym (ap (λ m. find ltb fd m) h) ∙ e) in
    (q, omega arith)

open-HasCursors :
    (file_id : ℕ) (client : Client) (v : Volatile)
    → HasCursors v
    → v.last_fd + 1 < word_mod
    → HasCursors (new_file_cursor file_id client v).1
      × ((new_file_cursor file_id client v).1.last_fd ≡ v.last_fd + 1)
unfolding new_file_cursor
open-HasCursors file_id client v c room =
    let new : get_new_fd v ≡ v.last_fd + 1 = omega (arith, get_new_fd_lem v c) in
    (
      HasCursors-assign v.file_cursors (get_new_fd v) (get_new_fd v)
          (record { client_id = client; file_id = file_id; offset = 0 }) (omega arith) (omega arith)
          (λ k i e. let (p, q) = c k i e in (p, omega arith)),
      new,
    )

others-keep :
    (k : Call) (v : Volatile)
    → opens_in (k ∷ []) ≡ 0
    → Changes v.file_cursors (step k v).file_cursors × ((step k v).last_fd ≡ v.last_fd)
unfolding step Changes set_chunk_size set_stripe_size set_num_espressos set_node_down set_node_up
    get_new_request_id
others-keep (opens file_id client) v h = absurd (omega arith)
others-keep (closes fd client) v h = close-Changes fd client v
others-keep (moves fd offset client size) v h = move-Changes fd offset client size v
others-keep (sets_chunk_size n) v h = (inl (ground arith), ground arith)
others-keep (sets_stripe_size n) v h = (inl (ground arith), ground arith)
others-keep (sets_num_espressos n) v h = (inl (ground arith), ground arith)
others-keep (sets_node_down n) v h = (inl (ground arith), ground arith)
others-keep (sets_node_up n) v h = (inl (ground arith), ground arith)
others-keep asks_request_id v h = (inl refl, refl)

module _ (k : Call) (v : Volatile) (c : HasCursors v)
    (room : v.last_fd + opens_in (k ∷ []) < word_mod) where
  kept-HasCursors :
      opens_in (k ∷ []) ≡ 0
      → HasCursors (step k v) × ((step k v).last_fd ≡ v.last_fd + opens_in (k ∷ []))
  kept-HasCursors none_opened =
      let h = others-keep k v none_opened in
      (Changes-HasCursors v (step k v) h c, omega (arith, h.1))

pub step-HasCursors :
    (k : Call) (v : Volatile)
    → HasCursors v
    → v.last_fd + opens_in (k ∷ []) < word_mod
    → HasCursors (step k v) × ((step k v).last_fd ≡ v.last_fd + opens_in (k ∷ []))
unfolding step
step-HasCursors (opens file_id client) v c room = open-HasCursors file_id client v c room
step-HasCursors (closes fd client) v c room = kept-HasCursors (closes fd client) v c room refl
step-HasCursors (moves fd at client size) v c room =
    kept-HasCursors (moves fd at client size) v c room refl
step-HasCursors (sets_chunk_size n) v c room = kept-HasCursors (sets_chunk_size n) v c room refl
step-HasCursors (sets_stripe_size n) v c room = kept-HasCursors (sets_stripe_size n) v c room refl
step-HasCursors (sets_num_espressos n) v c room =
    kept-HasCursors (sets_num_espressos n) v c room refl
step-HasCursors (sets_node_down n) v c room = kept-HasCursors (sets_node_down n) v c room refl
step-HasCursors (sets_node_up n) v c room = kept-HasCursors (sets_node_up n) v c room refl
step-HasCursors asks_request_id v c room = kept-HasCursors asks_request_id v c room refl

pub opens_in-cons :
    (k : Call) (ks : List Call) → opens_in (k ∷ ks) ≡ opens_in (k ∷ []) + opens_in ks
opens_in-cons (opens file_id client) ks = ground arith
opens_in-cons _ ks = ground arith

-- Over any calls that open so few files that the counter does not wrap, the counter goes up by the
-- files opened, and every number in use stays above 0 and at most the counter.
pub run-HasCursors :
    (ks : List Call) (v : Volatile)
    → HasCursors v
    → v.last_fd + opens_in ks < word_mod
    → HasCursors (run ks v) × ((run ks v).last_fd ≡ v.last_fd + opens_in ks)
unfolding run
run-HasCursors [] v c room = (c, omega arith)
run-HasCursors (k ∷ ks) v c room =
    let split = opens_in-cons k ks in
    let (d, e) = step-HasCursors k v c (omega arith) in
    let (f, g) = run-HasCursors ks (step k v) d (omega arith) in (f, omega arith)
