-- ===== src/Locking/Sharing.antt =====
-- Locks from request to release, and the clients of one user at one address.
use deca_fs.Prelude.{
  ℕ, ◌≡◌, ◌≢◌, refl, List, [], ◌∷◌, none, some, true, false, arith, inl, inr, ltb, Option-cases,
}
use deca_fs.OrdMap.{find, assign, erase}
use deca_fs.OrdMap.Laws.{find-assign_self, find-erase_self}
use deca_fs.OrdMap.Nat.{ltb-IsStrictOrder as order}
use deca_fs.Types.Client.{Client, same_ip_self, eq_of_same_ip}
use deca_fs.Locking.{
  FileLock, FileLocks, lock_success, lock_of, member, remove, exclusive_step, shared_step,
  release_step, keep_shared, get_exclusive_lock, get_shared_lock, release_lock, has_exclusive_lock,
  has_shared_lock,
}
use deca_fs.Locking.Exclusion.{lock_of-find}

member-remove_self : (p : ℕ) (qs : List ℕ) → member p (remove p qs) ≡ false
unfolding member remove
member-remove_self p [] = refl
member-remove_self p (q ∷ qs) = ground (arith, member-remove_self p qs)

member-remove_ne : (p r : ℕ) (qs : List ℕ) → p ≢ r → member r (remove p qs) ≡ member r qs
unfolding member remove
member-remove_ne p r [] h = refl
member-remove_ne p r (q ∷ qs) h = ground (arith, member-remove_ne p r qs h)

-- A client that gets the exclusive lock on a file holds it, and its release leaves the file without
-- an entry, so that the next client that asks gets it and holds it.
pub exclusive_lock_cycle :
    (c e : Client) (f : ℕ) (t t' : FileLocks)
    → e.user_id ≢ 0
    → get_exclusive_lock c f t ≡ some (lock_success, t')
    → (has_exclusive_lock c f t' ≡ some true)
      × (release_lock c f t' ≡ some (lock_success, erase ltb f t'))
      × (u : FileLocks) × (get_exclusive_lock e f (erase ltb f t') ≡ some (lock_success, u))
      × (has_exclusive_lock e f u ≡ some true)
unfolding get_exclusive_lock release_lock has_exclusive_lock lock_of exclusive_step release_step
exclusive_lock_cycle c e f t t' z h =
    let l : FileLock = record (lock_of f t) {
      owner_uid = c.user_id;
      owner_ip = c.ip;
      ex_proc = c.ctc;
    } in
    let m : FileLock = record {
      owner_uid = e.user_id;
      owner_ip = e.ip;
      ex_proc = e.ctc;
      sh_procs = [];
    } in
    let q : t' ≡ assign ltb f l t = ground arith in
    let p : find ltb f t' ≡ some l = rw q (find-assign_self order f l t) in
    (
      ground (arith, p, same_ip_self c.ip),
      ground (arith, p, same_ip_self c.ip),
      assign ltb f m (erase ltb f t'),
      ground (arith, find-erase_self order f t'),
      ground (arith, same_ip_self e.ip, find-assign_self order f m (erase ltb f t')),
    )

shared_entry :
    (c : Client) (f : ℕ) (t : FileLocks) → has_shared_lock c f t ≡ some true → find ltb f t ≢ none
unfolding has_shared_lock
shared_entry c f t h e = ground arith

keep_shared-member :
    (p : ℕ) (l : FileLock) (ps : List ℕ)
    → member p ps ≡ true
    → keep_shared l ps ≡ (lock_success, some (record l { sh_procs = ps }))
unfolding keep_shared member
keep_shared-member p l [] h = cc
keep_shared-member p l (q ∷ qs) h = refl

release_shared_entry :
    (c e : Client) (f : ℕ) (l : FileLock) (t : FileLocks)
    → find ltb f t ≡ some l
    → has_shared_lock c f t ≡ some true
    → has_shared_lock e f t ≡ some true
    → has_exclusive_lock c f t ≡ some false
    → c.ctc ≢ e.ctc
    → release_lock c f t
      ≡ some (lock_success, assign ltb f (record l { sh_procs = remove c.ctc l.sh_procs }) t)
unfolding release_lock has_shared_lock has_exclusive_lock release_step
release_shared_entry c e f l t p hc he hx n =
    let ps = remove c.ctc l.sh_procs in
    let other = member-remove_ne c.ctc e.ctc l.sh_procs n in
    ground (arith, lock_of-find f l t p, other, keep_shared-member e.ctc l ps)

-- Two connections share a file, and neither holds it exclusively: the release of one ends its own
-- hold and leaves the other's.
pub release_shared :
    (c e : Client) (f : ℕ) (t : FileLocks)
    → has_shared_lock c f t ≡ some true
    → has_shared_lock e f t ≡ some true
    → has_exclusive_lock c f t ≡ some false
    → c.ctc ≢ e.ctc
    → (t' : FileLocks) × (release_lock c f t ≡ some (lock_success, t'))
      × (has_shared_lock c f t' ≡ some false)
      × (has_shared_lock e f t' ≡ some true)
release_shared c e f t hc he hx n = elim (Option-cases (find ltb f t)) [
  | inl none_there ↦ absurd (shared_entry c f t hc none_there)
  | inr (l, p) ↦
      let ps = remove c.ctc l.sh_procs in
      let m : FileLock = record l { sh_procs = ps } in
      let q = find-assign_self order f m t in
      let self = member-remove_self c.ctc l.sh_procs in
      let other = member-remove_ne c.ctc e.ctc l.sh_procs n in
      (
        assign ltb f m t,
        release_shared_entry c e f l t p hc he hx n,
        unfold has_shared_lock in ground (arith, q, self),
        unfold has_shared_lock in ground (arith, q, other),
      )
]

-- The locks of one user at one address do not exclude each other. Where a connection holds a file
-- exclusively, another connection of that user and address gets a shared lock on it; and when that
-- one gives its lock back, the first no longer has its exclusive lock.
pub shared_breaks_exclusive :
    (c e : Client) (f : ℕ) (l : FileLock) (t : FileLocks)
    → find ltb f t ≡ some l
    → has_exclusive_lock c f t ≡ some true
    → l.sh_procs ≡ []
    → e.user_id ≡ c.user_id
    → e.ip ≡ c.ip
    → e.ctc ≢ c.ctc
    → (t' : FileLocks) × (get_shared_lock e f t ≡ some (lock_success, t'))
      × (has_exclusive_lock c f t' ≡ some true)
      × (has_shared_lock e f t' ≡ some true)
      × (release_lock e f t' ≡ some (lock_success, erase ltb f t'))
      × (has_exclusive_lock c f (erase ltb f t') ≡ some false)
unfolding get_shared_lock release_lock has_exclusive_lock has_shared_lock shared_step release_step
    member remove
shared_breaks_exclusive c e f l t p h s u i n =
    let m : FileLock = record l { sh_procs = e.ctc ∷ [] } in
    let q = find-assign_self order f m t in
    let r = find-erase_self order f (assign ltb f m t) in
    (
      assign ltb f m t,
      ground (arith, lock_of-find f l t p, same_ip_self c.ip, eq_of_same_ip l.owner_ip c.ip),
      ground (arith, q),
      ground (arith, q, same_ip_self c.ip, eq_of_same_ip l.owner_ip c.ip),
      ground (
        arith,
        q,
        lock_of-find f m (assign ltb f m t) q,
        same_ip_self c.ip,
        eq_of_same_ip l.owner_ip c.ip,
      ),
      ground (arith, r),
    )
