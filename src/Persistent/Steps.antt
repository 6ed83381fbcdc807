-- ===== src/Persistent/Steps.antt =====
-- Every operation keeps the two maps of the files in agreement.
use deca_fs.Prelude.{
  ℕ, ◌<◌, ◌≡◌, ◌∙◌, refl, sym, ap, subst, List, some, ltb, inl, inr, Bool-cases, Option-cases,
  length,
}
use deca_fs.Prelude.Int.{ℤ, to_int}
use deca_fs.OrdMap.{find}
use deca_fs.Types.File.{FileInstance, max_filename_length}
use deca_fs.Persistent.{
  Timeval, Persistent, file_not_found, get_new_file_id, add_file, delete_file_contents,
  set_access_time, size_after, update_file_size,
}
use deca_fs.Persistent.Names.{name_lt}
use deca_fs.Persistent.Invariant.{IsConsistent, new_id_above, new_id_small}
use deca_fs.Persistent.Added.{added-IsConsistent, some_inj, none-some}
use deca_fs.Persistent.Outcomes.{
  add_file_taken, add_file_long, add_file_new, added, time_unset, time_set, size_unset,
  size_undefined, size_set_to, nothing_deleted, deleted,
}
use deca_fs.Persistent.Removed.{reset-IsConsistent, without-IsConsistent}

-- Adding a file keeps the maps in agreement, unless the ids are used up.
pub add_file-IsConsistent :
    (pathname : List ℕ) (stripe_size chunk_size replica_size : ℕ) (time : Timeval) (p : Persistent)
    → IsConsistent p
    → 0 < get_new_file_id p
    → IsConsistent (add_file pathname stripe_size chunk_size replica_size time p).1
add_file-IsConsistent pathname stripe_size chunk_size replica_size time p c w =
    elim (Option-cases (find name_lt pathname p.pathname_to_file_id)) [
      | inr (id, e) ↦ rw (add_file_taken pathname stripe_size chunk_size replica_size time p id e) c
      | inl n ↦ elim (Bool-cases (ltb max_filename_length (length pathname))) [
        | inl long ↦ rw (add_file_long pathname stripe_size chunk_size replica_size time p n long) c
        | inr short ↦
            rw (add_file_new pathname stripe_size chunk_size replica_size time p n short) (
              added-IsConsistent p c (added pathname stripe_size chunk_size replica_size time p) n
                (new_id_above p c w) w (new_id_small p))
      ]
    ]

-- Setting the access time keeps the maps in agreement.
pub set_access_time-IsConsistent :
    (inst : FileInstance) (time : Timeval) (p : Persistent)
    → IsConsistent p
    → IsConsistent (set_access_time inst time p).1
set_access_time-IsConsistent inst time p c =
    elim (Option-cases (find ltb inst.file_id p.metadata)) [
      | inl n ↦
          let same : set_access_time inst time p ≡ (file_not_found, p) = time_unset inst time p n in
          rw same c
      | inr (info, e) ↦ rw (time_set inst time p info e) (
          reset-IsConsistent p c inst.file_id info (record info { last_access_time = time }) e refl
            refl)
    ]

-- A change of a file's size that is defined keeps the maps in agreement.
pub update_file_size-IsConsistent :
    (file_id : ℕ) (size_delta result : ℤ) (p p' : Persistent)
    → IsConsistent p
    → update_file_size file_id size_delta p ≡ some (result, p')
    → IsConsistent p'
update_file_size-IsConsistent file_id size_delta result p p' c h =
    elim (Option-cases (find ltb file_id p.metadata)) [
      | inl n ↦
          let same =
            some_inj (file_not_found, p) (result, p')
              (sym (size_unset file_id size_delta p n) ∙ h) in
          subst IsConsistent (ap (λ (x : ℤ × Persistent). x.1) same) c
      | inr (info, e) ↦ elim (Option-cases (size_after (to_int info.size) size_delta)) [
        | inl n ↦
            absurd (none-some (result, p') (sym (size_undefined file_id size_delta p info e n) ∙ h))
        | inr (size, f) ↦
            let same =
              some_inj _ (result, p') (sym (size_set_to file_id size_delta p info size e f) ∙ h) in
            subst IsConsistent (ap (λ (x : ℤ × Persistent). x.1) same)
              (reset-IsConsistent p c file_id info (record info { size = size }) e refl refl)
      ]
    ]

-- Deleting a file keeps the maps in agreement.
pub delete_file_contents-IsConsistent :
    (file_id : ℕ) (p : Persistent)
    → IsConsistent p
    → IsConsistent (delete_file_contents file_id p).1
delete_file_contents-IsConsistent file_id p c = elim (Option-cases (find ltb file_id p.metadata)) [
  | inl n ↦ rw (nothing_deleted file_id p n) c
  | inr (info, e) ↦ rw (deleted file_id p info e) (without-IsConsistent p c file_id info e)
]
