-- ===== src/Locking/Tests.antt =====
-- Two users with a file and the metadata: the results on them.
use deca_fs.Prelude.{◌≡◌, ◌≢◌, refl, ap, [], ◌∷◌, some, true, false, inl, ltb, arith, All}
use deca_fs.OrdMap.{equiv, find, assign, erase}
use deca_fs.Types.Client.{Client, same_ip}
use deca_fs.Locking.{
  FileLock, FileLocks, lock_success, lock_error, lock_of, member, owned_by, exclusive_step,
  holds_exclusive, holds_shared, get_exclusive_lock, get_shared_lock, release_lock,
  has_exclusive_lock, has_shared_lock, MetaLock, meta_held_by, get_metadata_lock, has_metadata_lock,
}
use deca_fs.Locking.Mutex.{MetaCall, meta_run, meta_run_other, metadata_lock_cycle, IsOther}
use deca_fs.Locking.Mutex as Mutex
use deca_fs.Locking.Exclusion.{
  get_exclusive, get_shared, release, lock_run, IsForeign, lock_run_keeps, foreign_refused,
}
use deca_fs.Locking.Table.{IsWellFormedTable, lock_run-IsWellFormedTable}
use deca_fs.Locking.Sharing.{exclusive_lock_cycle, shared_breaks_exclusive}

abbrev alice : Client
alice = record { ip = 10 ∷ []; user_id = 1; ctc = 4 }

abbrev alice_again : Client
alice_again = record { ip = 10 ∷ []; user_id = 1; ctc = 5 }

abbrev bob : Client
bob = record { ip = 10 ∷ []; user_id = 2; ctc = 6 }

abbrev held : FileLock
held = record { owner_uid = 1; owner_ip = 10 ∷ []; ex_proc = 4; sh_procs = [] }

abbrev shared : FileLock
shared = record { owner_uid = 1; owner_ip = 10 ∷ []; ex_proc = 0; sh_procs = 4 ∷ 5 ∷ [] }

abbrev table : FileLocks
table = (7, held) ∷ (8, shared) ∷ []

find_7 : find ltb 7 table ≡ some held
unfolding find equiv
find_7 = refl

has_7 : has_exclusive_lock alice 7 table ≡ some true
unfolding has_exclusive_lock find equiv holds_exclusive owned_by same_ip
has_7 = refl

not_8 : has_exclusive_lock alice 8 table ≡ some false
unfolding has_exclusive_lock find equiv holds_exclusive owned_by same_ip
not_8 = refl

has_8 : has_shared_lock alice 8 table ≡ some true
unfolding has_shared_lock find equiv holds_shared owned_by same_ip member
has_8 = refl

has_8_again : has_shared_lock alice_again 8 table ≡ some true
unfolding has_shared_lock find equiv holds_shared owned_by same_ip member
has_8_again = refl

one≢two : alice.user_id ≢ bob.user_id
one≢two h = absurd (omega arith)

bob-IsForeign : All (IsForeign alice) (get_exclusive bob 7 ∷ get_shared bob 7 ∷ release bob 7 ∷ [])
bob-IsForeign = ground arith

table-IsWellFormedTable : IsWellFormedTable table
unfolding find equiv
table-IsWellFormedTable f l h = ground arith

lock_run_keeps_example :
    (t' : FileLocks) × (lock_run (get_exclusive bob 7 ∷ get_shared bob 7 ∷ release bob 7 ∷ []) table
      ≡ some t')
    × (has_exclusive_lock alice 7 t' ≡ has_exclusive_lock alice 7 table)
    × (has_shared_lock alice 7 t' ≡ has_shared_lock alice 7 table)
lock_run_keeps_example =
    lock_run_keeps alice 7 (get_exclusive bob 7 ∷ get_shared bob 7 ∷ release bob 7 ∷ []) table
      (inl has_7) bob-IsForeign

foreign_refused_example :
    (t₁ t₂ : FileLocks) × (get_exclusive_lock bob 7 table ≡ some (lock_error, t₁))
    × (get_shared_lock bob 7 table ≡ some (lock_error, t₂))
foreign_refused_example =
    foreign_refused alice bob 7 table (inl has_7) (λ h. omega arith) (inl one≢two)

lock_run-IsWellFormedTable_example :
    (t' : FileLocks) × (lock_run
        (get_shared bob 9 ∷ release alice 7 ∷ get_exclusive bob 7 ∷ [])
        table
      ≡ some t')
    × IsWellFormedTable t'
lock_run-IsWellFormedTable_example =
    lock_run-IsWellFormedTable (get_shared bob 9 ∷ release alice 7 ∷ get_exclusive bob 7 ∷ []) table
      (ground arith) table-IsWellFormedTable

got : get_exclusive_lock alice 9 table ≡ some (lock_success, assign ltb 9 held table)
unfolding get_exclusive_lock lock_of find equiv exclusive_step assign
got = refl

exclusive_lock_cycle_example :
    (has_exclusive_lock alice 9 (assign ltb 9 held table) ≡ some true)
    × (release_lock alice 9 (assign ltb 9 held table)
        ≡ some (lock_success, erase ltb 9 (assign ltb 9 held table)))
    × (u : FileLocks) × (get_exclusive_lock bob 9 (erase ltb 9 (assign ltb 9 held table))
        ≡ some (lock_success, u))
    × (has_exclusive_lock bob 9 u ≡ some true)
exclusive_lock_cycle_example =
    exclusive_lock_cycle alice bob 9 table (assign ltb 9 held table) (λ h. omega arith) got

shared_breaks_exclusive_example :
    (t' : FileLocks) × (get_shared_lock alice_again 7 table ≡ some (lock_success, t'))
    × (has_exclusive_lock alice 7 t' ≡ some true)
    × (has_shared_lock alice_again 7 t' ≡ some true)
    × (release_lock alice_again 7 t' ≡ some (lock_success, erase ltb 7 t'))
    × (has_exclusive_lock alice 7 (erase ltb 7 t') ≡ some false)
shared_breaks_exclusive_example =
    shared_breaks_exclusive alice alice_again 7 held table find_7 has_7 refl refl refl
      (λ h. omega arith)

abbrev taken : MetaLock
taken = record { owner_uid = 1; owner_ip = 10 ∷ []; proc = 4 }

abbrev free : MetaLock
free = record { owner_uid = 0; owner_ip = []; proc = 0 }

meta_held : has_metadata_lock alice taken ≡ some true
unfolding has_metadata_lock meta_held_by same_ip
meta_held = refl

meta_got : get_metadata_lock alice free ≡ some (lock_success, taken)
unfolding get_metadata_lock
meta_got = refl

alice≢bob : alice ≢ bob
alice≢bob h = absurd (omega (arith, ap (λ (c : Client). c.user_id) h))

bob-IsOther : All (IsOther alice) (Mutex.get bob ∷ Mutex.release bob ∷ [])
bob-IsOther = ((λ h. omega arith, alice≢bob), ((λ h. omega arith, alice≢bob), tt))

meta_run_other_example : meta_run (Mutex.get bob ∷ Mutex.release bob ∷ []) taken ≡ some taken
meta_run_other_example =
    meta_run_other alice (Mutex.get bob ∷ Mutex.release bob ∷ []) taken bob-IsOther meta_held
