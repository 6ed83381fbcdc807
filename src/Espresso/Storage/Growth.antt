-- ===== src/Espresso/Storage/Growth.antt =====
-- A chunk that is written behind its start keeps the bytes in front, also where it moves.
use deca_fs.Prelude.{
  ℕ, zero, suc, ◌+◌, ◌≤◌, ◌<◌, ◌^◌, ◌≡◌, ◌∙◌, refl, sym, ap, List, [], ◌∷◌, Option, none, some,
  arith, take, length,
}
use deca_fs.Prelude.Int.{pos}
use deca_fs.OrdMap.{find}
use deca_fs.OrdMap.Laws.{find-assign_self}
use deca_fs.Espresso.Extents.{Extent}
use deca_fs.Espresso.Descriptor.{Descriptor, descriptor_lt, descriptor_lt-IsStrictOrder as order}
use deca_fs.Espresso.Storage.{
  DataFile, Store, returned, read_count, returns, read_data, buffer, write_data, write_moved,
  write_chunk,
}
use deca_fs.Espresso.Storage.Cases.{HasLayout, HasNoneBehind, placed, write_chunk_cases}
use deca_fs.Espresso.Storage.Steps.{write_data_keeps}
use deca_fs.Espresso.Storage.Contents.{IsReliable, Reads, write_data_result, length-buffer}

take-buffer :
    (m n : ℕ) (bs : List ℕ) (stray : ℕ → ℕ)
    → length (take m bs) ≡ m
    → m ≤ n
    → take m (buffer n bs stray) ≡ take m bs
unfolding buffer
take-buffer zero n bs stray l h = refl
take-buffer (suc m) n [] stray l h = absurd (omega arith)
take-buffer (suc m) zero (b ∷ bs) stray l h = absurd (omega arith)
take-buffer (suc m) (suc n) (b ∷ bs) stray l h =
    ap (◌∷◌ b) (take-buffer m n bs stray (omega arith) (omega arith))

module _ (d : DataFile) (reliable : IsReliable d) (limit : ℕ) where
  open d use {File, read_at, write_at}

  -- A write behind a range of the same chunk leaves the range alone.
  write_data_behind :
      (s : Store File) (c : Descriptor) (a : Extent) (offset n : ℕ) (buf xs : List ℕ)
      → find descriptor_lt c s.metadata ≡ some a
      → offset + n ≤ a.size
      → length xs ≡ offset
      → read_at s.file a.offset offset ≡ some xs
      → read_at (write_data d s c offset (pos n) buf).1.file a.offset offset ≡ some xs
  unfolding write_data
  write_data_behind s c a offset n buf xs h z l r =
      ground (
        arith,
        reliable.read-write_apart s.file (a.offset + offset) a.offset offset (take n buf) xs,
      )

  -- In a chunk of the extent `a`, a read from the start is a read of the file.
  read_front :
      (s : Store File) (c : Descriptor) (a : Extent) (m : ℕ)
      → find descriptor_lt c s.metadata ≡ some a
      → m ≤ a.size
      → read_data d s c 0 (pos m) ≡ read_at s.file a.offset m
  unfolding read_data read_count
  read_front s c a m h z =
      let e : a.offset + 0 ≡ a.offset = omega arith in
      ground (arith, ap (λ (p : ℕ). read_at s.file p m) e)

  -- The copy at the new address, before the new bytes are written.
  copied_front :
      (s : Store File) (c : Descriptor) (b : Extent) (m : ℕ) (old : List ℕ) (stray : ℕ → ℕ)
      → find descriptor_lt c s.metadata ≡ some b
      → m ≤ b.size
      → length (take m old) ≡ m
      → read_at (write_data d s c 0 (pos b.size) (buffer b.size old stray)).1.file b.offset m
        ≡ some (take m old)
  copied_front s c b m old stray h z l =
      let bytes = buffer b.size old stray in
      let w = write_data d s c 0 (pos b.size) bytes in
      let kept = (write_data_keeps d limit s c 0 (pos b.size) bytes).0 in
      let whole : read_at w.1.file b.offset b.size ≡ some bytes =
        sym (read_front w.1 c b b.size (rw kept h) (omega arith))
        ∙ (write_data_result d reliable limit s c b 0 b.size bytes h (omega arith)
            (length-buffer d reliable limit b.size old stray)).1 in
      reliable.read_prefix w.1.file b.offset b.size m bytes whole z
      ∙ ap some (take-buffer m b.size old stray l z)

  write_moved-Reads_front :
      (s : Store File) (c : Descriptor) (b : Extent) (offset n : ℕ) (buf old : List ℕ)
      (stray : ℕ → ℕ)
      → find descriptor_lt c s.metadata ≡ some b
      → b.size ≡ offset + n
      → length (take offset old) ≡ offset
      → Reads d reliable limit c 0 offset
          (take offset old)
          (write_moved d s c offset n buf stray old b)
  unfolding write_moved
  write_moved-Reads_front s c b offset n buf old stray h z l =
      then_write (write_data d s c 0 (pos b.size) (buffer b.size old stray))
        ((write_data_keeps d limit s c 0 _ _).0)
        (copied_front s c b offset old stray h (omega arith) l)
    where
      then_write :
          (q : Option ℕ × Store File)
          → q.1.metadata ≡ s.metadata
          → read_at q.1.file b.offset offset ≡ some (take offset old)
          → Reads d reliable limit c 0 offset (take offset old) (elim q.0 [
            | none ↦ returned none q.1
            | some _ ↦ returns d (write_data d q.1 c offset (pos n) buf)
          ])
      then_write (none, s') k r = read_front s' c b offset (rw k h) (omega arith) ∙ r
      then_write (some i, s') k r =
          let kept = (write_data_keeps d limit s' c offset (pos n) buf).0 in
          read_front _ c b offset (rw (kept, k) h) (omega arith)
          ∙ write_data_behind s' c b offset n buf _ (rw k h) (omega arith) l r

  -- On a reliable data file, after a write that reaches at least one byte, to an end below 2^31, what was
  -- read of the chunk in front of the range is read again, whether the chunk fits, moves or finds no
  -- room; if it has to grow, no free extent starts where it ends.
  pub write_chunk-Reads_front :
      (s : Store File) (c : Descriptor) (a : Extent) (offset n : ℕ) (buf xs : List ℕ)
      (stray : ℕ → ℕ)
      → HasLayout limit s
      → 0 < offset + n
      → offset + n < 2 ^ 31
      → HasNoneBehind s c (offset + n)
      → find descriptor_lt c s.metadata ≡ some a
      → offset ≤ a.size
      → length xs ≡ offset
      → read_data d s c 0 (pos offset) ≡ some xs
      → Reads d reliable limit c 0 offset xs (write_chunk d s c offset (pos n) buf stray)
  write_chunk-Reads_front s c a offset n buf xs stray v p q b h z l r =
      write_chunk_cases d limit s c offset n buf stray v p q b
        (Reads d reliable limit c 0 offset xs) (λ _. r) (λ a k q. r)
        (λ a free k w _. absurd (ground arith))
        (λ e b free old k q lt w t.
          let g : a ≡ e = ground arith in
          let f : take offset old ≡ xs = ground (
            arith,
            read_front s c a offset h z,
            read_front s c e e.size k (omega arith),
            reliable.read_prefix s.file e.offset e.size offset old,
          ) in
          rw (← f) (
            write_moved-Reads_front (placed s c b free) c b offset n buf old stray
              (find-assign_self order c b s.metadata) t (rw f l)))
        (λ e k le.
          let kept = (write_data_keeps d limit s c offset (pos n) buf).0 in
          read_front _ c e offset (rw kept k) (omega arith)
          ∙ write_data_behind s c e offset n buf xs k le l
              (sym (read_front s c e offset k (omega arith)) ∙ r))
