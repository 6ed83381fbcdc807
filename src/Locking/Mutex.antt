-- ===== src/Locking/Mutex.antt =====
-- The lock on the metadata: one holder at a time, until that holder releases it.
use deca_fs.Prelude.{◌≡◌, ◌≢◌, refl, List, [], ◌∷◌, Option, none, some, true, arith, All}
use deca_fs.Types.Client.{Client, same_ip_self, eq_of_same_ip}
use deca_fs.Locking.{
  MetaLock, lock_success, lock_error, get_metadata_lock, release_metadata_lock, has_metadata_lock,
}

pub data MetaCall : Type 0 where
  get release : Client → MetaCall

abbrev pub caller : MetaCall → Client
caller (get c) = c
caller (release c) = c

-- The state after a call, if its assertion holds.
unfoldable pub meta_step : MetaCall → MetaLock → Option MetaLock
meta_step (get c) l = elim (get_metadata_lock c l) [ none ↦ none | some (r, l') ↦ some l' ]
meta_step (release c) l = elim (release_metadata_lock c l) [ none ↦ none | some (r, l') ↦ some l' ]

unfoldable pub meta_run : List MetaCall → MetaLock → Option MetaLock
meta_run [] l = some l
meta_run (k ∷ ks) l = elim (meta_step k l) [ none ↦ none | some l' ↦ meta_run ks l' ]

-- A call by a logged-in client other than `c`.
abbrev pub IsOther : Client → MetaCall → Type 0
IsOther c k = ((caller k).user_id ≢ 0) × (c ≢ caller k)

meta_step_other :
    (c : Client) (k : MetaCall) (l : MetaLock)
    → IsOther c k
    → has_metadata_lock c l ≡ some true
    → meta_step k l ≡ some l
unfolding meta_step has_metadata_lock get_metadata_lock release_metadata_lock
meta_step_other c (get e) l o h = ground arith
meta_step_other c (release e) l o h =
    ground (arith, eq_of_same_ip l.owner_ip c.ip, eq_of_same_ip l.owner_ip e.ip)

-- While a client holds the metadata lock, no calls of other clients take it away or change the state:
-- a get returns at once and leaves the state as it is, where the header of the class says that it
-- blocks until the lock is acquired.
pub meta_run_other :
    (c : Client) (ks : List MetaCall) (l : MetaLock)
    → All (IsOther c) ks
    → has_metadata_lock c l ≡ some true
    → meta_run ks l ≡ some l
unfolding meta_run
meta_run_other c [] l o h = refl
meta_run_other c (k ∷ ks) l o h =
    rw (meta_step_other c k l o.0 h, meta_run) (meta_run_other c ks l o.1 h)

-- The metadata lock goes from hand to hand: a client that gets it holds it, any client that asks
-- meanwhile is refused, and after the release the next one that asks gets it.
pub metadata_lock_cycle :
    (c e : Client) (l l' : MetaLock)
    → e.user_id ≢ 0
    → get_metadata_lock c l ≡ some (lock_success, l')
    → (has_metadata_lock c l' ≡ some true)
      × (get_metadata_lock e l' ≡ some (lock_error, l'))
      × (release_metadata_lock c l' ≡ some (lock_success, record l' { owner_uid = 0 }))
      × (get_metadata_lock e (record l' { owner_uid = 0 })
          ≡ some (lock_success, record { owner_uid = e.user_id; owner_ip = e.ip; proc = e.ctc }))
unfolding has_metadata_lock get_metadata_lock release_metadata_lock
metadata_lock_cycle c e l l' z h = ground (arith, same_ip_self c.ip)
