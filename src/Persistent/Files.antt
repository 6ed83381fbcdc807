-- ===== src/Persistent/Files.antt =====
-- What clients see of the files: adding, deleting, and changing the size.
use deca_fs.Prelude.{
  ℕ, ◌+◌, ◌-◌, ◌^◌, ◌≤◌, ◌<◌, ◌≡◌, ◌≢◌, ◌∙◌, refl, sym, ap, List, none, some, ltb, inl, inr, arith,
  Option-cases, length,
}
use deca_fs.Prelude.Int.{ℤ, pos, negsuc, to_int, to_int-pos}
use deca_fs.OrdMap.{find, assign}
use deca_fs.OrdMap.Laws.{find-assign_self, find-assign_ne, find-erase_self, find-erase_ne}
use deca_fs.OrdMap.Nat.{ltb-IsStrictOrder as order}
use deca_fs.Types.File.{max_filename_length}
use deca_fs.Persistent.{
  Timeval, Info, Persistent, stat_of, get_new_file_id, new_info, add_file, delete_file_contents,
  size_after, update_file_size, decafs_file_stat, decafs_file_sstat,
}
use deca_fs.Persistent.Names.{name_lt, name_lt-IsStrictOrder as by_name}
use deca_fs.Persistent.Invariant.{IsConsistent, new_id_above}
use deca_fs.Persistent.Added.{some_inj}
use deca_fs.Persistent.Outcomes.{add_file_new, added, with_new, size_set_to, deleted, without_file}

-- decafs_file_sstat reads the two maps only.
sstat_eq :
    (n : List ℕ) (p q : Persistent)
    → find name_lt n p.pathname_to_file_id ≡ find name_lt n q.pathname_to_file_id
    → ((id : ℕ)
        → find name_lt n q.pathname_to_file_id ≡ some id
        → find ltb id p.metadata ≡ find ltb id q.metadata)
    → decafs_file_sstat n p ≡ decafs_file_sstat n q
unfolding decafs_file_sstat decafs_file_stat
sstat_eq n p q e h = elim (Option-cases (find name_lt n q.pathname_to_file_id)) [
  | inl none_q ↦ ground (arith, e, none_q)
  | inr (id, f) ↦ let same = h id f in ground (arith, e, f, same)
]

sstat_found :
    (n : List ℕ) (id : ℕ) (info : Info) (p : Persistent)
    → find name_lt n p.pathname_to_file_id ≡ some id
    → find ltb id p.metadata ≡ some info
    → decafs_file_sstat n p ≡ some (stat_of info)
unfolding decafs_file_sstat decafs_file_stat
sstat_found n id info p e f = ground (arith, e, f)

-- While ids are left below 2^31, a path that is not in use and has at most 100 bytes becomes a file of
-- size 0 with the sizes given, under an id that no file had; every other path leads to what it did.
pub add_file_lem :
    (pathname other : List ℕ) (stripe_size chunk_size replica_size : ℕ) (time : Timeval)
    (p : Persistent)
    → IsConsistent p
    → 0 < get_new_file_id p
    → get_new_file_id p < 2 ^ 31
    → find name_lt pathname p.pathname_to_file_id ≡ none
    → length pathname ≤ max_filename_length
    → pathname ≢ other
    → let (r, p') = add_file pathname stripe_size chunk_size replica_size time p in
      (r ≡ pos (get_new_file_id p))
      × (decafs_file_stat (get_new_file_id p) p ≡ none)
      × (decafs_file_sstat pathname p'
          ≡ some (
              stat_of
                (new_info (get_new_file_id p) pathname stripe_size chunk_size replica_size time)))
      × (decafs_file_sstat other p' ≡ decafs_file_sstat other p)
unfolding decafs_file_stat
add_file_lem pathname other stripe_size chunk_size replica_size time p c w room unused short ne =
    let new = get_new_file_id p in
    let info = added pathname stripe_size chunk_size replica_size time p in
    let step =
      add_file_new pathname stripe_size chunk_size replica_size time p unused (ground arith) in
    let free : find ltb new p.metadata ≡ none = elim (Option-cases (find ltb new p.metadata)) [
      | inl n ↦ n
      | inr (i, f) ↦ let above = new_id_above p c w new i f in absurd (omega arith)
    ] in
    rw step (
      to_int-pos new room,
      ground (arith, free),
      sstat_found pathname new info (with_new pathname stripe_size chunk_size replica_size time p)
          (find-assign_self by_name pathname new p.pathname_to_file_id)
          (find-assign_self order new info p.metadata),
      sstat_eq other (with_new pathname stripe_size chunk_size replica_size time p) p
          (find-assign_ne by_name pathname other new p.pathname_to_file_id ne)
          (λ id f.
            let (i, g, _) = c.named other id f in
            let above = new_id_above p c w id i g in
            find-assign_ne order new id info p.metadata (λ h. omega arith)),
    )

-- A deleted file is found neither by its id nor by its path; every other path leads to what it did.
pub delete_file_contents_lem :
    (file_id : ℕ) (info : Info) (other : List ℕ) (p : Persistent)
    → IsConsistent p
    → find ltb file_id p.metadata ≡ some info
    → info.pathname ≢ other
    → let (r, p') = delete_file_contents file_id p in
      (r ≡ pos 0)
      × (decafs_file_stat file_id p' ≡ none)
      × (decafs_file_sstat info.pathname p' ≡ none)
      × (decafs_file_sstat other p' ≡ decafs_file_sstat other p)
unfolding decafs_file_stat decafs_file_sstat
delete_file_contents_lem file_id info other p c e ne = rw (deleted file_id p info e) (
  refl,
  ground (arith, find-erase_self order file_id p.metadata),
  ground (arith, find-erase_self by_name info.pathname p.pathname_to_file_id),
  sstat_eq other (without_file file_id info p) p
      (find-erase_ne by_name info.pathname other p.pathname_to_file_id ne)
      (λ id f.
        let (i, g, h) = c.named other id f in
        find-erase_ne order file_id id p.metadata (λ same. ne (
          ap (λ (x : Info). x.pathname)
            (some_inj info i (sym e ∙ ap (λ x. find ltb x p.metadata) same ∙ g))
          ∙ h))),
)

-- The size that a change leaves: the sum where it is no less than 0, and else 0.
abbrev pub grown : ℕ → ℤ → ℕ
grown size (pos d) = size + d
grown size (negsuc d) = size - (d + 1)

size_after-grown :
    (size : ℕ) (delta : ℤ)
    → size < 2 ^ 31
    → grown size delta < 2 ^ 31
    → size_after (to_int size) delta ≡ some (grown size delta)
unfolding size_after
size_after-grown size (pos d) h k = ground arith
size_after-grown size (negsuc d) h k = ground arith

-- While sizes stay below 2^31, a file's size goes up or down by the change, stops at 0, and is returned;
-- the rest of the file and every other file stay as they were.
pub update_file_size_lem :
    (file_id : ℕ) (size_delta : ℤ) (info : Info) (other : ℕ) (p : Persistent)
    → find ltb file_id p.metadata ≡ some info
    → info.size < 2 ^ 31
    → grown info.size size_delta < 2 ^ 31
    → file_id ≢ other
    → (p' : Persistent) × (update_file_size file_id size_delta p
        ≡ some (pos (grown info.size size_delta), p'))
      × (decafs_file_stat file_id p'
          ≡ some (record (stat_of info) { size = grown info.size size_delta }))
      × (decafs_file_stat other p' ≡ decafs_file_stat other p)
unfolding decafs_file_stat
update_file_size_lem file_id size_delta info other p e small room ne =
    let size = grown info.size size_delta in
    let new : Info = record info { size = size } in
    (
      record p { metadata = assign ltb file_id new p.metadata },
      size_set_to file_id size_delta p info size e
            (size_after-grown info.size size_delta small room)
          ∙ ground (arith, to_int-pos size room),
      ground (arith, find-assign_self order file_id new p.metadata),
      ground (arith, find-assign_ne order file_id other new p.metadata ne),
    )
