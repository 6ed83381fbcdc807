-- ===== src/Locking/Table.antt =====
-- The table of file locks: what its entries can look like, who gets a lock, and when a file is free.
use deca_fs.Prelude.{
  ℕ, ◌≡◌, ◌≢◌, ◌∙◌, refl, sym, List, [], ◌∷◌, Option, none, some, Bool, true, false, ◌&&◌, arith,
  All, Bool-cases, inl, inr, ltb, ◌==◌, ℕ_discrete, Option-cases,
}
use deca_fs.OrdMap.{find}
use deca_fs.OrdMap.Laws.{find-assign_self, find-assign_ne, find-erase_ne, find-erase_self}
use deca_fs.OrdMap.Nat.{ltb-IsStrictOrder as order}
use deca_fs.Types.Client.{Client}
use deca_fs.Locking.{
  FileLock, FileLocks, lock_of, member, remove, owned_by, exclusive_step, shared_step, keep_shared,
  release_step, store_entry,
}
use deca_fs.Locking.Exclusion.{
  LockCall, get_exclusive, get_shared, release, caller, lock_run, file_of, entry_after,
  lock_step-store_entry,
}

abbrev pub is_empty : List ℕ → Bool
is_empty [] = true
is_empty (p ∷ ps) = false

-- An entry has no owner exactly when no connection holds it.
abbrev pub IsWellFormed : FileLock → Type 0
IsWellFormed l = (l.owner_uid == 0) ≡ (l.ex_proc == 0 && is_empty l.sh_procs)

abbrev pub IsWellFormedTable : FileLocks → Type 0
IsWellFormedTable t = (f : ℕ) (l : FileLock) → find ltb f t ≡ some l → IsWellFormed l

-- A logged-in client on a connection.
abbrev pub IsConnected : Client → Type 0
IsConnected c = (c.user_id ≢ 0) × (c.ctc ≢ 0)

lock_of-IsWellFormed : (f : ℕ) (t : FileLocks) → IsWellFormedTable t → IsWellFormed (lock_of f t)
unfolding lock_of
lock_of-IsWellFormed f t w = elim (Option-cases (find ltb f t)) [
  | inl e ↦ rw (e, lock_of) refl
  | inr (l, e) ↦ rw (e, lock_of) (w f l e)
]

exclusive_step-IsWellFormed :
    (l : FileLock) (c : Client)
    → IsConnected c
    → IsWellFormed l
    → IsWellFormed (exclusive_step l c).1
unfolding exclusive_step
exclusive_step-IsWellFormed l c k w = ground arith

member_empty : (p : ℕ) (qs : List ℕ) → member p qs ≡ true → is_empty qs ≡ false
unfolding member
member_empty p [] h = cc
member_empty p (q ∷ qs) h = refl

shared_step-IsWellFormed :
    (l : FileLock) (c : Client) → IsConnected c → IsWellFormed l → IsWellFormed (shared_step l c).1
unfolding shared_step member
shared_step-IsWellFormed l c k w = ground (arith, member_empty c.ctc l.sh_procs)

abbrev IsWellFormedEntry : Option FileLock → Type 0
IsWellFormedEntry none = Unit
IsWellFormedEntry (some l) = IsWellFormed l

keep_shared-IsWellFormed :
    (l : FileLock) (ps : List ℕ) → l.owner_uid ≢ 0 → IsWellFormedEntry (keep_shared l ps).1
unfolding keep_shared
keep_shared-IsWellFormed l [] h = tt
keep_shared-IsWellFormed l (p ∷ ps) h = ground arith

release_step-IsWellFormed :
    (l : FileLock) (c : Client)
    → IsConnected c
    → IsWellFormed l
    → IsWellFormedEntry (release_step l c).1
unfolding release_step owned_by
release_step-IsWellFormed l c k w = elim (Bool-cases (owned_by l c)) [
  | inl o ↦ elim (Bool-cases (l.ex_proc == c.ctc)) [
    | inl x ↦ rw (o, x, release_step) tt
    | inr x ↦ elim (Bool-cases (member c.ctc l.sh_procs)) [
      | inl m ↦
          rw (o, x, m, release_step)
            (keep_shared-IsWellFormed l (remove c.ctc l.sh_procs) (ground arith))
      | inr m ↦ rw (o, x, m, release_step) w
    ]
  ]
  | inr o ↦ rw (o, release_step) w
]

entry_after-IsWellFormed :
    (k : LockCall) (t : FileLocks)
    → IsConnected (caller k)
    → IsWellFormedTable t
    → IsWellFormedEntry (entry_after k t)
entry_after-IsWellFormed (get_exclusive c f) t k w =
    exclusive_step-IsWellFormed (lock_of f t) c k (lock_of-IsWellFormed f t w)
entry_after-IsWellFormed (get_shared c f) t k w =
    shared_step-IsWellFormed (lock_of f t) c k (lock_of-IsWellFormed f t w)
entry_after-IsWellFormed (release c f) t k w =
    release_step-IsWellFormed (lock_of f t) c k (lock_of-IsWellFormed f t w)

store_entry-IsWellFormedTable :
    (f : ℕ) (r : Option FileLock) (t : FileLocks)
    → IsWellFormedEntry r
    → IsWellFormedTable t
    → IsWellFormedTable (store_entry f r t)
store_entry-IsWellFormedTable f none t v w g l h = elim (ℕ_discrete f g) [
  | yes same ↦ absurd (ground (arith, find-erase_self order f t))
  | no other ↦ w g l (sym (find-erase_ne order f g t other) ∙ h)
]
store_entry-IsWellFormedTable f (some m) t v w g l h = elim (ℕ_discrete f g) [
  | yes same ↦ ground (arith, find-assign_self order f m t)
  | no other ↦ w g l (sym (find-assign_ne order f g m t other) ∙ h)
]

-- Whatever connected clients call, in whatever order, the calls return and every entry stays well
-- formed.
pub lock_run-IsWellFormedTable :
    (ks : List LockCall) (t : FileLocks)
    → All (λ k. IsConnected (caller k)) ks
    → IsWellFormedTable t
    → (t' : FileLocks) × (lock_run ks t ≡ some t') × IsWellFormedTable t'
unfolding lock_run
lock_run-IsWellFormedTable [] t c w = (t, refl, w)
lock_run-IsWellFormedTable (k ∷ ks) t c w =
    let u = store_entry (file_of k) (entry_after k t) t in
    let (t', r, v) = lock_run-IsWellFormedTable ks u c.1 (
      store_entry-IsWellFormedTable (file_of k) (entry_after k t) t
        (entry_after-IsWellFormed k t c.0 w) w) in
    (t', rw (lock_step-store_entry k t c.0.0, lock_run) r, v)
