-- ===== src/Volatile/Cursors.antt =====
-- The cursors of open files: fresh numbers, owners, and offsets within the file.
use deca_fs.Prelude.{
  ℕ, ◌+◌, ◌%◌, ◌^◌, ◌≤◌, ◌<◌, ◌≡◌, ◌≢◌, refl, List, [], ◌∷◌, some, true, ltb, if◌then◌else◌, inl,
  inr, arith, Option-cases,
}
use deca_fs.Prelude.Int.{pos, to_int, word_mod}
use deca_fs.OrdMap.{find, last_key}
use deca_fs.OrdMap.Laws.{
  equiv_self, find-assign_self, find-assign_ne, find-erase_self, find-erase_ne,
}
use deca_fs.OrdMap.Nat.{ltb-IsStrictOrder as order}
use deca_fs.Types.Client.{Client, same_client, same_client_iff}
use deca_fs.Types.File.{FileInstance}
use deca_fs.Volatile.{
  Volatile, instance_not_found, get_new_fd, new_file_cursor, close_file_cursor, get_file_cursor,
  set_file_cursor, get_file_info,
}

-- Every number in use was given out: none is 0, and none lies above the last one.
abbrev pub HasCursors : Volatile → Type 0
HasCursors v =
    (fd : ℕ) (inst : FileInstance)
    → find ltb fd v.file_cursors ≡ some inst
    → (0 < fd) × (fd ≤ v.last_fd)

last_key-find :
    (m : List (ℕ × FileInstance)) (k : ℕ)
    → last_key m ≡ some k
    → (fd : ℕ) × (inst : FileInstance) × (find ltb fd m ≡ some inst)
unfolding last_key find
last_key-find [] k h = absurd (ground arith)
last_key-find ((j, inst) ∷ m) k h = (j, inst, ground (arith, equiv_self order j))

-- With the counter at 0 nothing is open, so the number given out is the next one.
pub get_new_fd_lem : (v : Volatile) → HasCursors v → get_new_fd v ≡ (v.last_fd + 1) % word_mod
unfolding get_new_fd
get_new_fd_lem v c = elim (Option-cases (last_key v.file_cursors)) [
  | inl n ↦ ground arith
  | inr (k, e) ↦ let (fd, inst, p) = last_key-find v.file_cursors k e in ground (arith, c fd inst p)
]

module _ (file_id : ℕ) (client : Client) (v : Volatile) (c : HasCursors v)
    (room : v.last_fd + 1 < 2 ^ 31) where
  new_fd : get_new_fd v ≡ v.last_fd + 1
  new_fd = omega (arith, get_new_fd_lem v c)

  not_open : get_file_cursor (v.last_fd + 1) v ≡ instance_not_found
  unfolding get_file_cursor
  not_open = elim (Option-cases (find ltb (v.last_fd + 1) v.file_cursors)) [
    | inl n ↦ ground arith
    | inr (inst, e) ↦ let h = c (v.last_fd + 1) inst e in absurd (omega arith)
  ]

  -- While fewer than 2^31 - 1 files were opened, new_file_cursor gives out a number that is not in
  -- use. Its cursor stands at 0, belongs to the client, and the other cursors stay.
  pub new_file_cursor_lem :
      (other : ℕ)
      → other ≢ v.last_fd + 1
      → let fd = v.last_fd + 1 in
        let v' = (new_file_cursor file_id client v).1 in
        ((new_file_cursor file_id client v).0 ≡ pos fd)
        × (get_file_cursor fd v ≡ instance_not_found)
        × (get_file_cursor fd v' ≡ pos 0)
        × (get_file_info fd v' ≡ record { client_id = client; file_id = file_id; offset = 0 })
        × (get_file_info other v' ≡ get_file_info other v)
  unfolding new_file_cursor get_file_cursor get_file_info
  new_file_cursor_lem other h =
      let fd = v.last_fd + 1 in
      let inst : FileInstance = record { client_id = client; file_id = file_id; offset = 0 } in
      (
        ground (arith, new_fd),
        not_open,
        ground (arith, new_fd, find-assign_self order fd inst v.file_cursors),
        ground (arith, new_fd, find-assign_self order fd inst v.file_cursors),
        ground (arith, new_fd, find-assign_ne order fd other inst v.file_cursors),
      )

-- The offset that set_file_cursor ends at: the one asked for, or the end of the file.
abbrev pub clamped : ℕ → ℕ → ℕ
clamped size offset = if ltb size offset then size else offset

module _ (fd : ℕ) (inst : FileInstance) (v : Volatile)
    (e : find ltb fd v.file_cursors ≡ some inst) where
  same_owner : same_client inst.client_id inst.client_id ≡ true
  same_owner = (same_client_iff inst.client_id inst.client_id).1 refl

  -- The client that opened a file closes it, and gets the file's id. The number is then not in use,
  -- and the other cursors stay.
  pub close_file_cursor_lem :
      (other : ℕ)
      → other ≢ fd
      → let (r, v') = close_file_cursor fd inst.client_id v in
        (r ≡ to_int inst.file_id)
        × (get_file_cursor fd v' ≡ instance_not_found)
        × (get_file_info other v' ≡ get_file_info other v)
  unfolding close_file_cursor get_file_cursor get_file_info
  close_file_cursor_lem other h = (
    ground (arith, same_owner),
    ground (arith, same_owner, find-erase_self order fd v.file_cursors),
    ground (arith, same_owner, find-erase_ne order fd other v.file_cursors),
  )

  -- For the client that opened the file the cursor goes where it was asked to, at most to the end of
  -- the file; nothing else changes.
  pub set_file_cursor_lem :
      (offset size other : ℕ)
      → other ≢ fd
      → let (r, v') = set_file_cursor fd offset inst.client_id size v in
        (r ≡ to_int (clamped size offset))
        × (clamped size offset ≤ size)
        × (get_file_info fd v' ≡ record inst { offset = clamped size offset })
        × (get_file_info other v' ≡ get_file_info other v)
  unfolding set_file_cursor get_file_info
  set_file_cursor_lem offset size other h =
      let next : FileInstance = record inst { offset = clamped size offset } in
      (
        ground (arith, same_owner),
        ground arith,
        ground (arith, same_owner, find-assign_self order fd next v.file_cursors),
        ground (arith, same_owner, find-assign_ne order fd other next v.file_cursors),
      )
