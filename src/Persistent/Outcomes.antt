-- ===== src/Persistent/Outcomes.antt =====
-- What each operation returns and leaves, by what it finds.
use deca_fs.Prelude.{ℕ, ◌≡◌, List, none, some, true, false, ltb, arith, length}
use deca_fs.Prelude.Int.{ℤ, pos, to_int}
use deca_fs.OrdMap.{find, assign, erase}
use deca_fs.Types.File.{FileInstance, max_filename_length}
use deca_fs.Persistent.{
  Timeval, Info, Persistent, file_not_found, file_exists, filename_invalid, get_new_file_id,
  new_info, add_file, delete_file_contents, set_access_time, size_after, update_file_size,
}
use deca_fs.Persistent.Names.{name_lt}

module _ (pathname : List ℕ) (stripe_size chunk_size replica_size : ℕ) (time : Timeval)
    (p : Persistent) where
  pub add_file_taken :
      (id : ℕ)
      → find name_lt pathname p.pathname_to_file_id ≡ some id
      → add_file pathname stripe_size chunk_size replica_size time p ≡ (file_exists, p)
  unfolding add_file
  add_file_taken id e = ground (arith, e)

  pub add_file_long :
      find name_lt pathname p.pathname_to_file_id ≡ none
      → ltb max_filename_length (length pathname) ≡ true
      → add_file pathname stripe_size chunk_size replica_size time p ≡ (filename_invalid, p)
  unfolding add_file
  add_file_long e f = ground (arith, e, f)

  abbrev pub added : Info
  added = new_info (get_new_file_id p) pathname stripe_size chunk_size replica_size time

  abbrev pub with_new : Persistent
  with_new = record {
    pathname_to_file_id = assign name_lt pathname (get_new_file_id p) p.pathname_to_file_id;
    metadata = assign ltb (get_new_file_id p) added p.metadata;
    next_file_id = get_new_file_id p;
  }

  pub add_file_new :
      find name_lt pathname p.pathname_to_file_id ≡ none
      → ltb max_filename_length (length pathname) ≡ false
      → add_file pathname stripe_size chunk_size replica_size time p
        ≡ (to_int (get_new_file_id p), with_new)
  unfolding add_file
  add_file_new e f = ground (arith, e, f)

-- What the other operations return, by what they look up.
pub time_unset :
    (inst : FileInstance) (time : Timeval) (p : Persistent)
    → find ltb inst.file_id p.metadata ≡ none
    → set_access_time inst time p ≡ (file_not_found, p)
unfolding set_access_time
time_unset inst time p n = ground (arith, n)

pub time_set :
    (inst : FileInstance) (time : Timeval) (p : Persistent) (info : Info)
    → find ltb inst.file_id p.metadata ≡ some info
    → set_access_time inst time p ≡ (
      pos 0,
      record p {
        metadata = assign ltb inst.file_id (record info { last_access_time = time }) p.metadata;
      },
    )
unfolding set_access_time
time_set inst time p info e = ground (arith, e)

pub size_unset :
    (file_id : ℕ) (size_delta : ℤ) (p : Persistent)
    → find ltb file_id p.metadata ≡ none
    → update_file_size file_id size_delta p ≡ some (file_not_found, p)
unfolding update_file_size
size_unset file_id size_delta p n = ground (arith, n)

pub size_undefined :
    (file_id : ℕ) (size_delta : ℤ) (p : Persistent) (info : Info)
    → find ltb file_id p.metadata ≡ some info
    → size_after (to_int info.size) size_delta ≡ none
    → update_file_size file_id size_delta p ≡ none
unfolding update_file_size
size_undefined file_id size_delta p info e n = ground (arith, e, n)

pub size_set_to :
    (file_id : ℕ) (size_delta : ℤ) (p : Persistent) (info : Info) (size : ℕ)
    → find ltb file_id p.metadata ≡ some info
    → size_after (to_int info.size) size_delta ≡ some size
    → update_file_size file_id size_delta p
      ≡ some (
        to_int size,
        record p { metadata = assign ltb file_id (record info { size = size }) p.metadata },
      )
unfolding update_file_size
size_set_to file_id size_delta p info size e f = ground (arith, e, f)

pub nothing_deleted :
    (file_id : ℕ) (p : Persistent)
    → find ltb file_id p.metadata ≡ none
    → delete_file_contents file_id p ≡ (file_not_found, p)
unfolding delete_file_contents
nothing_deleted file_id p n = ground (arith, n)

abbrev pub without_file : ℕ → Info → Persistent → Persistent
without_file file_id info p = record p {
  pathname_to_file_id = erase name_lt info.pathname p.pathname_to_file_id;
  metadata = erase ltb file_id p.metadata;
}

pub deleted :
    (file_id : ℕ) (p : Persistent) (info : Info)
    → find ltb file_id p.metadata ≡ some info
    → delete_file_contents file_id p ≡ (pos 0, without_file file_id info p)
unfolding delete_file_contents
deleted file_id p info e = ground (arith, e)
