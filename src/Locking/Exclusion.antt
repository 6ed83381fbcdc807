-- ===== src/Locking/Exclusion.antt =====
-- The locks on files against clients of other users or addresses.
use deca_fs.Prelude.{
  ℕ, ◌≡◌, ◌≢◌, ◌∙◌, ◌⊎◌, refl, sym, List, [], ◌∷◌, Option, none, some, true, false, arith, All, inl,
  inr, ltb, ℕ_discrete, Option-cases,
}
use deca_fs.OrdMap.{find, assign}
use deca_fs.OrdMap.Laws.{find-assign_self, find-assign_ne, find-erase_ne}
use deca_fs.OrdMap.Nat.{ltb-IsStrictOrder as order}
use deca_fs.Types.Client.{Client, eq_of_same_ip}
use deca_fs.Locking.{
  FileLock, FileLocks, lock_error, lock_of, owned_by, exclusive_step, shared_step, release_step,
  store_entry, get_exclusive_lock, get_shared_lock, release_lock, has_exclusive_lock,
  has_shared_lock,
}

pub data LockCall : Type 0 where
  get_exclusive get_shared release : Client → ℕ → LockCall

abbrev pub caller : LockCall → Client
caller (get_exclusive c f) = c
caller (get_shared c f) = c
caller (release c f) = c

-- The table after a call, if its assertion holds.
unfoldable pub lock_step : LockCall → FileLocks → Option FileLocks
lock_step (get_exclusive c f) t = elim (get_exclusive_lock c f t) [
  | none ↦ none
  | some (r, t') ↦ some t'
]
lock_step (get_shared c f) t = elim (get_shared_lock c f t) [ none ↦ none | some (r, t') ↦ some t' ]
lock_step (release c f) t = elim (release_lock c f t) [ none ↦ none | some (r, t') ↦ some t' ]

unfoldable pub lock_run : List LockCall → FileLocks → Option FileLocks
lock_run [] t = some t
lock_run (k ∷ ks) t = elim (lock_step k t) [ none ↦ none | some t' ↦ lock_run ks t' ]

-- A call, on any file, by a logged-in client of another user or another address.
abbrev pub IsForeign : Client → LockCall → Type 0
IsForeign c k =
    ((caller k).user_id ≢ 0) × ((c.user_id ≢ (caller k).user_id) ⊎ (c.ip ≢ (caller k).ip))

not_owned :
    (c e : Client) (l : FileLock)
    → owned_by l c ≡ true
    → (c.user_id ≢ e.user_id) ⊎ (c.ip ≢ e.ip)
    → owned_by l e ≡ false
unfolding owned_by
not_owned c e l h d = ground (arith, eq_of_same_ip l.owner_ip c.ip, eq_of_same_ip l.owner_ip e.ip)

find-store_entry :
    (f g : ℕ) (l : FileLock) (r : Option FileLock) (t : FileLocks)
    → find ltb f t ≡ some l
    → (g ≡ f → r ≡ some l)
    → find ltb f (store_entry g r t) ≡ some l
find-store_entry f g l none t h k = elim (ℕ_discrete g f) [
  | yes same ↦ cc (k same)
  | no other ↦ find-erase_ne order g f t other ∙ h
]
find-store_entry f g l (some m) t h k = elim (ℕ_discrete g f) [
  | yes same ↦ rw same (find-assign_self order f m t ∙ k same)
  | no other ↦ find-assign_ne order g f m t other ∙ h
]

-- What a foreign client's call leaves at the entry of the file that it names.
foreign_exclusive :
    (l : FileLock) (e : Client) → l.owner_uid ≢ 0 → exclusive_step l e ≡ (lock_error, l)
unfolding exclusive_step
foreign_exclusive l e h = ground arith

foreign_shared :
    (l : FileLock) (e : Client)
    → l.owner_uid ≢ 0
    → owned_by l e ≡ false
    → shared_step l e ≡ (lock_error, l)
unfolding shared_step
foreign_shared l e h o = ground arith

foreign_release :
    (l : FileLock) (e : Client) → owned_by l e ≡ false → release_step l e ≡ (lock_error, some l)
unfolding release_step
foreign_release l e o = ground arith

owner_uid_ne : (l : FileLock) (c : Client) → c.user_id ≢ 0 → owned_by l c ≡ true → l.owner_uid ≢ 0
unfolding owned_by
owner_uid_ne l c z h = ground arith

pub lock_of-find : (f : ℕ) (l : FileLock) (t : FileLocks) → find ltb f t ≡ some l → lock_of f t ≡ l
unfolding lock_of
lock_of-find f l t h = rw (h, lock_of)

-- What the call makes of the entry that it names.
abbrev pub entry_after : LockCall → FileLocks → Option FileLock
entry_after (get_exclusive e g) t = some (exclusive_step (lock_of g t) e).1
entry_after (get_shared e g) t = some (shared_step (lock_of g t) e).1
entry_after (release e g) t = (release_step (lock_of g t) e).1

abbrev pub file_of : LockCall → ℕ
file_of (get_exclusive e g) = g
file_of (get_shared e g) = g
file_of (release e g) = g

pub lock_step-store_entry :
    (k : LockCall) (t : FileLocks)
    → (caller k).user_id ≢ 0
    → lock_step k t ≡ some (store_entry (file_of k) (entry_after k t) t)
unfolding lock_step get_exclusive_lock get_shared_lock release_lock
lock_step-store_entry (get_exclusive e g) t z = ground arith
lock_step-store_entry (get_shared e g) t z = ground arith
lock_step-store_entry (release e g) t z = ground arith

entry_after_foreign :
    (l : FileLock) (k : LockCall) (t : FileLocks)
    → lock_of (file_of k) t ≡ l
    → l.owner_uid ≢ 0
    → owned_by l (caller k) ≡ false
    → entry_after k t ≡ some l
entry_after_foreign l (get_exclusive e g) t h z o = ground (arith, foreign_exclusive l e z)
entry_after_foreign l (get_shared e g) t h z o = ground (arith, foreign_shared l e z o)
entry_after_foreign l (release e g) t h z o = ground (arith, foreign_release l e o)

lock_step_foreign :
    (c : Client) (f : ℕ) (l : FileLock) (k : LockCall) (t : FileLocks)
    → c.user_id ≢ 0
    → owned_by l c ≡ true
    → IsForeign c k
    → find ltb f t ≡ some l
    → (t' : FileLocks) × (lock_step k t ≡ some t') × (find ltb f t' ≡ some l)
lock_step_foreign c f l k t z o d h = (
  store_entry (file_of k) (entry_after k t) t,
  lock_step-store_entry k t d.0,
  find-store_entry f (file_of k) l (entry_after k t) t h (λ q.
      entry_after_foreign l k t (rw q (lock_of-find f l t h)) (owner_uid_ne l c z o)
        (not_owned c (caller k) l o d.1)),
)

lock_run_foreign :
    (c : Client) (f : ℕ) (l : FileLock) (ks : List LockCall) (t : FileLocks)
    → c.user_id ≢ 0
    → owned_by l c ≡ true
    → All (IsForeign c) ks
    → find ltb f t ≡ some l
    → (t' : FileLocks) × (lock_run ks t ≡ some t') × (find ltb f t' ≡ some l)
unfolding lock_run
lock_run_foreign c f l [] t z o d h = (t, refl, h)
lock_run_foreign c f l (k ∷ ks) t z o d h =
    let (u, p, q) = lock_step_foreign c f l k t z o d.0 h in
    let (t', r, w) = lock_run_foreign c f l ks u z o d.1 q in (t', rw (p, lock_run) r, w)

-- The two kinds of lock that a client can hold.
abbrev pub Holds : Client → ℕ → FileLocks → Type 0
Holds c f t = (has_exclusive_lock c f t ≡ some true) ⊎ (has_shared_lock c f t ≡ some true)

Holds-entry :
    (c : Client) (f : ℕ) (t : FileLocks)
    → Holds c f t
    → (c.user_id ≢ 0) × (l : FileLock) × (find ltb f t ≡ some l) × (owned_by l c ≡ true)
unfolding has_exclusive_lock has_shared_lock
Holds-entry c f t h = elim (Option-cases (find ltb f t)) [
  | inl n ↦ absurd (ground arith)
  | inr (l, e) ↦ (ground arith, l, e, ground arith)
]

-- What a client holds depends on the entry of the file alone.
has_exclusive_lock-find :
    (c : Client) (f : ℕ) (t t' : FileLocks)
    → find ltb f t ≡ find ltb f t'
    → has_exclusive_lock c f t ≡ has_exclusive_lock c f t'
unfolding has_exclusive_lock
has_exclusive_lock-find c f t t' h = ground arith

has_shared_lock-find :
    (c : Client) (f : ℕ) (t t' : FileLocks)
    → find ltb f t ≡ find ltb f t'
    → has_shared_lock c f t ≡ has_shared_lock c f t'
unfolding has_shared_lock
has_shared_lock-find c f t t' h = ground arith

-- No calls of other users or addresses, on whatever files, take a lock away from its holder.
pub lock_run_keeps :
    (c : Client) (f : ℕ) (ks : List LockCall) (t : FileLocks)
    → Holds c f t
    → All (IsForeign c) ks
    → (t' : FileLocks) × (lock_run ks t ≡ some t')
      × (has_exclusive_lock c f t' ≡ has_exclusive_lock c f t)
      × (has_shared_lock c f t' ≡ has_shared_lock c f t)
lock_run_keeps c f ks t h d =
    let (z, l, e, o) = Holds-entry c f t h in
    let (t', r, w) = lock_run_foreign c f l ks t z o d e in
    (t', r, has_exclusive_lock-find c f t' t (w ∙ sym e), has_shared_lock-find c f t' t (w ∙ sym e))

-- While a client holds a lock of either kind on a file, a client of another user or address gets
-- neither kind.
pub foreign_refused :
    (c e : Client) (f : ℕ) (t : FileLocks)
    → Holds c f t
    → e.user_id ≢ 0
    → (c.user_id ≢ e.user_id) ⊎ (c.ip ≢ e.ip)
    → (t₁ t₂ : FileLocks) × (get_exclusive_lock e f t ≡ some (lock_error, t₁))
      × (get_shared_lock e f t ≡ some (lock_error, t₂))
unfolding get_exclusive_lock get_shared_lock
foreign_refused c e f t h z d =
    let (u, l, p, o) = Holds-entry c f t h in
    (
      assign ltb f l t,
      assign ltb f l t,
      ground (arith, lock_of-find f l t p, foreign_exclusive l e (owner_uid_ne l c u o)),
      ground (
        arith,
        lock_of-find f l t p,
        foreign_shared l e (owner_uid_ne l c u o) (not_owned c e l o d),
      ),
    )
