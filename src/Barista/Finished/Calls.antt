-- ===== src/Barista/Finished/Calls.antt =====
-- The calls of write_file to the metadata return.
use deca_fs.Prelude.{
  ℕ, ◌+◌, ◌%◌, ◌^◌, ◌<◌, ◌≡◌, ◌≢◌, refl, List, Option, some, Bool, ltb, arith, inl, inr, Bool-cases,
  Option-cases,
}
use deca_fs.Prelude.Int.{ℤ, to_int, word_mod}
use deca_fs.OrdMap.{find, assign}
use deca_fs.OrdMap.Laws.{find-assign_self}
use deca_fs.OrdMap.Nat.{ltb-IsStrictOrder}
use deca_fs.Types.Client.{Client, same_client, same_ip_self}
use deca_fs.Types.File.{FileChunk}
use deca_fs.Locking.{MetaLock, get_metadata_lock, release_metadata_lock, meta_held_by}
use deca_fs.Persistent.{Persistent, Info, FileStat, size_after, stat_of}
use deca_fs.Persistent as Metadata
use deca_fs.Volatile.{Volatile, get_file_info, get_file_cursor, get_new_request_id}
use deca_fs.Volatile as Volatiles
use deca_fs.IoManager.{Message}
use deca_fs.Barista.{
  Barista, served, with_metadata, decafs_file_stat, update_file_size, set_file_cursor, size_of,
  to_word,
}
use deca_fs.Barista.Removed.{with_metadata_free}
use deca_fs.Barista.Transfers.{advance}

-- The Barista with other volatile metadata, and another state of the metadata lock
abbrev pub moved : MetaLock → Volatile → Barista → Barista
moved m v b = record b { meta_lock = m; io = record b.io { volatile = v } }

-- A call that may be undefined, on the free lock
with_metadata-some {ℓ} :
    {A : Type ℓ} (client : Client) (call : Persistent → Option (A × Persistent)) (a : A)
    (p : Persistent) (b : Barista)
    → client.user_id ≢ 0
    → b.meta_lock.owner_uid ≡ 0
    → call b.persistent ≡ some (a, p)
    → (m : MetaLock) × (with_metadata client call b
        ≡ served (some a, record b { meta_lock = m; persistent = p }))
      × (m.owner_uid ≡ 0)
unfolding with_metadata get_metadata_lock release_metadata_lock meta_held_by
with_metadata-some client call a p b u f e = (
  record { owner_uid = 0; owner_ip = client.ip; proc = client.ctc },
  ground (arith, same_ip_self client.ip, e),
  refl,
)

module _ (lt : FileChunk → FileChunk → Bool) (delivers : Message → List Message → Bool)
    (unset : Barista → ℕ) where
  set_file_cursor_ends :
      (fd offset : ℕ) (client : Client) (b : Barista)
      → client.user_id ≢ 0
      → b.meta_lock.owner_uid ≡ 0
      → (m : MetaLock) × (v : Volatile) × (res : ℤ) × (set_file_cursor unset fd offset client b
          ≡ served (res, moved m v b))
        × (m.owner_uid ≡ 0)
  unfolding set_file_cursor decafs_file_stat
  set_file_cursor_ends fd offset client b u f =
      elim (Option-cases (find ltb fd b.io.volatile.file_cursors)) [
        | inl n ↦ (b.meta_lock, b.io.volatile, Volatiles.instance_not_found, ground (arith, n), f)
        | inr (file, e) ↦ elim (Bool-cases (same_client file.client_id client)) [
          | inr d ↦ (b.meta_lock, b.io.volatile, Volatiles.wrong_client, ground (arith, e, d), f)
          | inl d ↦
              let stat : Persistent → Option FileStat × Persistent =
                λ p. (Metadata.decafs_file_stat file.file_id p, p) in
              let (m, g, z) = with_metadata_free client stat b u f in
              let size = size_of unset (some (stat b.persistent).0) (record b { meta_lock = m }) in
              let after = Volatiles.set_file_cursor fd offset client size b.io.volatile in
              (m, after.1, after.0, ground (arith, e, d, g), z)
        ]
      ]

  pub advance_ends :
      (fd size : ℕ) (client : Client) (b : Barista)
      → client.user_id ≢ 0
      → b.meta_lock.owner_uid ≡ 0
      → (m : MetaLock) × (v : Volatile) × (advance lt delivers unset fd size client b
          ≡ served (moved m v b))
        × (m.owner_uid ≡ 0)
  unfolding advance
  advance_ends fd size client b u f =
      let at = (to_word (Volatiles.get_file_cursor fd b.io.volatile) + size) % word_mod in
      let (m, v, res, e, z) = set_file_cursor_ends fd at client b u f in
      (m, v, ground (arith, e), z)

-- The file has its full size with so many bytes more.
abbrev pub Lacks : ℕ → ℕ → ℕ → Persistent → Type 0
Lacks total file_id n p =
    (info : Info) × (find ltb file_id p.metadata ≡ some info) × (info.size + n ≡ total)

pub update_file_size_ends :
    (total file_id n left : ℕ) (client : Client) (b : Barista)
    → total < 2 ^ 31
    → client.user_id ≢ 0
    → b.meta_lock.owner_uid ≡ 0
    → Lacks total file_id (n + left) b.persistent
    → (m : MetaLock) × (p : Persistent) × (res : Option ℤ) × (update_file_size file_id
          (to_int n)
          client
          b
        ≡ served (res, record b { meta_lock = m; persistent = p }))
      × (m.owner_uid ≡ 0)
      × Lacks total file_id left p
unfolding update_file_size Metadata.update_file_size size_after
update_file_size_ends total file_id n left client b t u f (info, e, h) =
    let p = b.persistent in
    let grown = record info { size = info.size + n } in
    let p' = record p { metadata = assign ltb file_id grown p.metadata } in
    let (m, g, z) =
      with_metadata-some client (Metadata.update_file_size file_id (to_int n))
        (to_int (info.size + n)) p' b u f (ground (arith, e)) in
    (
      m,
      p',
      some (to_int (info.size + n)),
      g,
      z,
      (grown, find-assign_self ltb-IsStrictOrder file_id grown p.metadata, omega arith),
    )
