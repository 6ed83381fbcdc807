-- ===== src/Persistent.antt =====
-- lib/persistent_metadata/persistent_metadata.cpp: the files of the instance by path and by id, and
-- what is known of each. The two maps are taken as the std::maps they stand for. A char is a byte.
pub mod Names
pub mod Invariant
pub mod Added
pub mod Outcomes
pub mod Removed
pub mod Steps
pub mod Files
mod Tests
use deca_fs.Prelude.{
  ℕ, ◌+◌, ◌-◌, ◌%◌, ◌^◌, List, [], ◌∷◌, Option, none, some, Bool, true, false, ltb, leb, ◌==◌,
  if◌then◌else◌, length, map, take,
}
use deca_fs.Prelude.Int.{ℤ, pos, negsuc, to_int, word_mod}
use deca_fs.OrdMap.{find, assign, erase, last_key}
use deca_fs.Types.File.{FileInstance, max_filename_length}
use deca_fs.Persistent.Names.{name_lt}

-- timeval
pub record Timeval : Type 0 where
  pub tv_sec : ℤ
  pub tv_usec : ℤ

-- persistent_metadata_info
pub record Info : Type 0 where
  pub file_id : ℕ
  pub size : ℕ
  pub stripe_size : ℕ
  pub chunk_size : ℕ
  pub replica_size : ℕ
  pub pathname : List ℕ
  pub last_access_time : Timeval

-- decafs_file_stat
pub record FileStat : Type 0 where
  pub file_id : ℕ
  pub size : ℕ
  pub stripe_size : ℕ
  pub chunk_size : ℕ
  pub replica_size : ℕ
  pub last_access_time : Timeval

-- Persistent_Metadata_Impl
pub record Persistent : Type 0 where
  pub pathname_to_file_id : List (List ℕ × ℕ)
  pub metadata : List (ℕ × Info)
  pub next_file_id : ℕ

-- Persistent_Metadata_Impl(), with the maps that init opened
unfoldable pub opened : List (List ℕ × ℕ) → List (ℕ × Info) → Persistent
opened names files = record { pathname_to_file_id = names; metadata = files; next_file_id = 0 }

abbrev pub file_not_found : ℤ
file_not_found = negsuc 0

abbrev pub file_exists : ℤ
file_exists = negsuc 1

abbrev pub filename_invalid : ℤ
filename_invalid = negsuc 2

unfoldable pub get_num_files : Persistent → ℕ
get_num_files p = length p.metadata

-- get_filenames: the names written to the array, in its order
unfoldable pub get_filenames : ℤ → Persistent → List (List ℕ)
get_filenames (pos size) p = take size (map (λ (e : List ℕ × ℕ). e.0) p.pathname_to_file_id)
get_filenames (negsuc size) p = []

abbrev pub stat_of : Info → FileStat
stat_of info = record {
  file_id = info.file_id;
  size = info.size;
  stripe_size = info.stripe_size;
  chunk_size = info.chunk_size;
  replica_size = info.replica_size;
  last_access_time = info.last_access_time;
}

-- decafs_file_stat: what is written to `buf`, or `none` for FILE_NOT_FOUND
unfoldable pub decafs_file_stat : ℕ → Persistent → Option FileStat
decafs_file_stat file_id p = elim (find ltb file_id p.metadata) [
  | none ↦ none
  | some info ↦ some (stat_of info)
]

-- decafs_file_sstat
unfoldable pub decafs_file_sstat : List ℕ → Persistent → Option FileStat
decafs_file_sstat pathname p = elim (find name_lt pathname p.pathname_to_file_id) [
  | none ↦ none
  | some file_id ↦ decafs_file_stat file_id p
]

unfoldable pub set_access_time : FileInstance → Timeval → Persistent → ℤ × Persistent
set_access_time inst time p = elim (find ltb inst.file_id p.metadata) [
  | none ↦ (file_not_found, p)
  | some info ↦ (
    pos 0,
    record p {
      metadata = assign ltb inst.file_id (record info { last_access_time = time }) p.metadata;
    },
  )
]

-- get_new_file_id: the id, and next_file_id after it
unfoldable pub get_new_file_id : Persistent → ℕ
get_new_file_id p =
    let last =
      if p.next_file_id == 0
      then elim (last_key p.metadata) [ none ↦ p.next_file_id | some k ↦ k ]
      else p.next_file_id in
    (last + 1) % word_mod

abbrev pub new_info : ℕ → List ℕ → ℕ → ℕ → ℕ → Timeval → Info
new_info file_id pathname stripe_size chunk_size replica_size time = record {
  file_id = file_id;
  size = 0;
  stripe_size = stripe_size;
  chunk_size = chunk_size;
  replica_size = replica_size;
  pathname = pathname;
  last_access_time = time;
}

unfoldable pub add_file : List ℕ → ℕ → ℕ → ℕ → Timeval → Persistent → ℤ × Persistent
add_file pathname stripe_size chunk_size replica_size time p =
    elim (find name_lt pathname p.pathname_to_file_id) [
      | some _ ↦ (file_exists, p)
      | none ↦
          if ltb max_filename_length (length pathname)
          then (filename_invalid, p)
          else (let file_id = get_new_file_id p in
              let info = new_info file_id pathname stripe_size chunk_size replica_size time in
              (
                to_int file_id,
                record {
                  pathname_to_file_id = assign name_lt pathname file_id p.pathname_to_file_id;
                  metadata = assign ltb file_id info p.metadata;
                  next_file_id = file_id;
                },
              ))
    ]

unfoldable pub delete_file_contents : ℕ → Persistent → ℤ × Persistent
delete_file_contents file_id p = elim (find ltb file_id p.metadata) [
  | none ↦ (file_not_found, p)
  | some info ↦ (
    pos 0,
    record p {
      pathname_to_file_id = erase name_lt info.pathname p.pathname_to_file_id;
      metadata = erase ltb file_id p.metadata;
    },
  )
]

-- The size that a size and a change of it leave, or `none` where the sum of two ints overflows.
unfoldable pub size_after : ℤ → ℤ → Option ℕ
size_after (pos a) (pos b) = if ltb (a + b) (2 ^ 31) then some (a + b) else none
size_after (pos a) (negsuc b) = if leb a b then some 0 else some (a - (b + 1))
size_after (negsuc a) (pos b) = if leb b a then some 0 else some (b - (a + 1))
size_after (negsuc a) (negsuc b) = if leb (a + b + 2) (2 ^ 31) then some 0 else none

-- update_file_size, or `none` where the behaviour is undefined
unfoldable pub update_file_size : ℕ → ℤ → Persistent → Option (ℤ × Persistent)
update_file_size file_id size_delta p = elim (find ltb file_id p.metadata) [
  | none ↦ some (file_not_found, p)
  | some info ↦ elim (size_after (to_int info.size) size_delta) [
    | none ↦ none
    | some size ↦ some (
      to_int size,
      record p { metadata = assign ltb file_id (record info { size = size }) p.metadata },
    )
  ]
]
