-- ===== src/Persistent/Tests.antt =====
-- An instance with two files: the results on it.
use deca_fs.Prelude.{
  ℕ, ◌≤◌, ◌<◌, ◌≡◌, ◌≢◌, ◌⊎◌, refl, List, [], ◌∷◌, none, some, inl, inr, ltb, arith, Bool-cases,
}
use deca_fs.Prelude.Int.{pos, word_mod}
use deca_fs.OrdMap.{equiv, find, last_key}
use deca_fs.OrdMap.Laws.{eq_of_equiv}
use deca_fs.Types.File.{FileInstance, null_client}
use deca_fs.Persistent.{
  Timeval, Info, FileStat, Persistent, stat_of, get_new_file_id, new_info, add_file,
  delete_file_contents, set_access_time, update_file_size, decafs_file_stat, decafs_file_sstat,
}
use deca_fs.Persistent.Names.{name_lt, name_lt-IsStrictOrder}
use deca_fs.Persistent.Invariant.{IsConsistent}
use deca_fs.Persistent.Steps.{add_file-IsConsistent, delete_file_contents-IsConsistent}
use deca_fs.Persistent.Files.{add_file_lem, delete_file_contents_lem}

abbrev now : Timeval
now = record { tv_sec = pos 100; tv_usec = pos 0 }

abbrev a_info : Info
a_info = new_info 1 (97 ∷ []) 1024 512 512 now

abbrev b_info : Info
b_info = new_info 2 (98 ∷ []) 1024 512 512 now

abbrev two_files : Persistent
two_files = record {
  pathname_to_file_id = (97 ∷ [], 1) ∷ (98 ∷ [], 2) ∷ [];
  metadata = (1, a_info) ∷ (2, b_info) ∷ [];
  next_file_id = 0;
}

find_1 : find ltb 1 two_files.metadata ≡ some a_info
unfolding find equiv
find_1 = refl

find_2 : find ltb 2 two_files.metadata ≡ some b_info
unfolding find equiv
find_2 = refl

named :
    (n : List ℕ) (id : ℕ)
    → find name_lt n two_files.pathname_to_file_id ≡ some id
    → (info : Info) × (find ltb id two_files.metadata ≡ some info) × (info.pathname ≡ n)
unfolding find
named n id h = elim (Bool-cases (equiv name_lt (97 ∷ []) n)) [
  | inl t ↦ (a_info, ground (arith, h, t, find_1), eq_of_equiv name_lt-IsStrictOrder (97 ∷ []) n t)
  | inr f ↦ elim (Bool-cases (equiv name_lt (98 ∷ []) n)) [
    | inl t ↦
        (b_info, ground (arith, h, f, t, find_2), eq_of_equiv name_lt-IsStrictOrder (98 ∷ []) n t)
    | inr g ↦ absurd (ground (arith, h, f, g))
  ]
]

filed :
    (id : ℕ) (info : Info)
    → find ltb id two_files.metadata ≡ some info
    → (info.file_id ≡ id) × (find name_lt info.pathname two_files.pathname_to_file_id ≡ some id)
unfolding find equiv name_lt
filed id info h = ground arith

numbered :
    (id : ℕ) (info : Info)
    → find ltb id two_files.metadata ≡ some info
    → (0 < id) × (id < word_mod) × ((two_files.next_file_id ≡ 0) ⊎ (id ≤ two_files.next_file_id))
unfolding find equiv
numbered id info h = ground arith

two_files-IsConsistent : IsConsistent two_files
two_files-IsConsistent = record {
  named = named;
  filed = filed;
  numbered = numbered;
  last_word = omega arith;
  in_order = (refl, tt);
}

new_id : get_new_file_id two_files ≡ 3
unfolding get_new_file_id last_key
new_id = refl

unused_c : find name_lt (99 ∷ []) two_files.pathname_to_file_id ≡ none
unfolding find equiv name_lt
unused_c = refl

a≢b : a_info.pathname ≢ b_info.pathname
a≢b h = absurd (ground (arith, h))

c≢b : (new_info 3 (99 ∷ []) 256 128 128 now).pathname ≢ b_info.pathname
c≢b h = absurd (ground (arith, h))

abbrev opened_1 : FileInstance
opened_1 = record { client_id = null_client; file_id = 1; offset = 0 }

add_file-IsConsistent_example : IsConsistent (add_file (99 ∷ []) 256 128 128 now two_files).1
add_file-IsConsistent_example =
    add_file-IsConsistent (99 ∷ []) 256 128 128 now two_files two_files-IsConsistent
      (omega (arith, new_id))

delete_file_contents-IsConsistent_example : IsConsistent (delete_file_contents 1 two_files).1
delete_file_contents-IsConsistent_example =
    delete_file_contents-IsConsistent 1 two_files two_files-IsConsistent

abbrev a_grown : Persistent
a_grown = record two_files { metadata = (1, record a_info { size = 40 }) ∷ (2, b_info) ∷ [] }

grows : update_file_size 1 (pos 40) two_files ≡ some (pos 40, a_grown)
unfolding update_file_size deca_fs.OrdMap.assign find equiv deca_fs.Persistent.size_after
grows = refl

add_file_lem_example :
    ((add_file (99 ∷ []) 256 128 128 now two_files).0 ≡ pos (get_new_file_id two_files))
    × (decafs_file_stat (get_new_file_id two_files) two_files ≡ none)
    × (decafs_file_sstat (99 ∷ []) (add_file (99 ∷ []) 256 128 128 now two_files).1
        ≡ some (stat_of (new_info (get_new_file_id two_files) (99 ∷ []) 256 128 128 now)))
    × (decafs_file_sstat (98 ∷ []) (add_file (99 ∷ []) 256 128 128 now two_files).1
        ≡ decafs_file_sstat (98 ∷ []) two_files)
add_file_lem_example =
    add_file_lem (99 ∷ []) (98 ∷ []) 256 128 128 now two_files two_files-IsConsistent
      (omega (arith, new_id)) (omega (arith, new_id)) unused_c (omega arith) c≢b

delete_file_contents_lem_example :
    ((delete_file_contents 1 two_files).0 ≡ pos 0)
    × (decafs_file_stat 1 (delete_file_contents 1 two_files).1 ≡ none)
    × (decafs_file_sstat (97 ∷ []) (delete_file_contents 1 two_files).1 ≡ none)
    × (decafs_file_sstat (98 ∷ []) (delete_file_contents 1 two_files).1
        ≡ decafs_file_sstat (98 ∷ []) two_files)
delete_file_contents_lem_example =
    delete_file_contents_lem 1 a_info (98 ∷ []) two_files two_files-IsConsistent find_1 a≢b
