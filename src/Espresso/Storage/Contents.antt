-- ===== src/Espresso/Storage/Contents.antt =====
-- What a chunk holds after a call: the bytes written, and in every other chunk the old ones.
use deca_fs.Prelude.{
  ℕ, zero, suc, ◌+◌, ◌≤◌, ◌<◌, ◌^◌, ◌≡◌, ◌≢◌, ◌∙◌, ◌⊎◌, refl, List, [], ◌∷◌, Option, none, some,
  inl, inr, arith, Option-cases, take, length, length-take-le, take_all,
}
use deca_fs.Prelude.Int.{ℤ, pos, negsuc}
use deca_fs.OrdMap.{find, assign}
use deca_fs.OrdMap.Laws.{find-assign_self, find-assign_ne}
use deca_fs.Espresso.Extents.{Extent}
use deca_fs.Espresso.Descriptor.{Descriptor, descriptor_lt, descriptor_lt-IsStrictOrder as order}
use deca_fs.Espresso.Storage.{
  DataFile, Store, Outcome, returned, assert_failed, not_defined, read_count, returns, read_data,
  buffer, write_data, write_moved, write_chunk,
}
use deca_fs.Espresso.Storage.Invariant.{chunks_apart}
use deca_fs.Espresso.Storage.Cases.{HasLayout, HasNoneBehind, NoRoom, placed, write_chunk_cases}
use deca_fs.Espresso.Storage.Steps.{write_data_keeps, write_data-HasLayout}

-- What the node relies on of its data file: reads and writes do not fail and are complete, a read
-- gives what was last written there, and a write leaves the bytes outside its range alone.
pub record IsReliable (d : DataFile) : Type 0 where
  pub reads : (f : d.File) (p n : ℕ) → (xs : List ℕ) × (d.read_at f p n ≡ some xs)
  pub read_prefix :
      (f : d.File) (p n m : ℕ) (xs : List ℕ)
      → d.read_at f p n ≡ some xs
      → m ≤ n
      → d.read_at f p m ≡ some (take m xs)
  pub writes_all : (f : d.File) (p : ℕ) (bs : List ℕ) → (d.write_at f p bs).0 ≡ some (length bs)
  pub read-write :
      (f : d.File) (p : ℕ) (bs : List ℕ) → d.read_at (d.write_at f p bs).1 p (length bs) ≡ some bs
  pub read-write_apart :
      (f : d.File) (p q n : ℕ) (bs xs : List ℕ)
      → d.read_at f q n ≡ some xs
      → length xs ≡ n
      → (q + n ≤ p) ⊎ (p + length bs ≤ q)
      → d.read_at (d.write_at f p bs).1 q n ≡ some xs

module _ (d : DataFile) (reliable : IsReliable d) (limit : ℕ) where
  open d use {File, read_at, write_at}

  -- A range within the chunk is written whole, and reads back.
  pub write_data_result :
      (s : Store File) (c : Descriptor) (a : Extent) (offset n : ℕ) (buf : List ℕ)
      → find descriptor_lt c s.metadata ≡ some a
      → offset + n ≤ a.size
      → length buf ≡ n
      → ((write_data d s c offset (pos n) buf).0 ≡ some n)
        × (read_data d (write_data d s c offset (pos n) buf).1 c offset (pos n) ≡ some buf)
  unfolding write_data read_data read_count
  write_data_result s c a offset n buf h z e = ground (
    arith,
    take_all n buf (omega arith),
    reliable.writes_all s.file (a.offset + offset) buf,
    reliable.read-write s.file (a.offset + offset) buf,
  )

  -- A write to one chunk leaves what another holds.
  write_data_other :
      (s : Store File) (c e : Descriptor) (g : Extent) (offset o m : ℕ) (count : ℤ)
      (buf xs : List ℕ)
      → HasLayout limit s
      → c ≢ e
      → find descriptor_lt e s.metadata ≡ some g
      → o + m ≤ g.size
      → length xs ≡ m
      → read_data d s e o (pos m) ≡ some xs
      → read_data d (write_data d s c offset count buf).1 e o (pos m) ≡ some xs
  unfolding write_data read_data read_count
  write_data_other s c e g offset o m (negsuc n) buf xs v ne h z l r = r
  write_data_other s c e g offset o m (pos n) buf xs v ne h z l r =
      elim (Option-cases (find descriptor_lt c s.metadata)) [
        | inl k ↦ ground arith
        | inr (a, k) ↦
            let apart = chunks_apart limit s.metadata s.free_extents v c e a g ne k h in
            ground (
              arith,
              apart,
              length-take-le n buf,
              reliable.read-write_apart s.file (a.offset + offset) (g.offset + o) m (take n buf) xs,
            )
      ]

  -- A chunk other than `e` gets a new address; `e` is read as before.
  read_data-assign :
      (s : Store File) (c e : Descriptor) (b : Extent) (free : List Extent) (o : ℕ) (count : ℤ)
      → c ≢ e
      → read_data d
          (record s { metadata = assign descriptor_lt c b s.metadata; free_extents = free })
          e
          o
          count
        ≡ read_data d s e o count
  unfolding read_data
  read_data-assign s c e b free o (negsuc n) ne = refl
  read_data-assign s c e b free o (pos n) ne =
      rw (find-assign_ne order c e b s.metadata ne, read_data)

  abbrev pub Reads : Descriptor → ℕ → ℕ → List ℕ → Outcome File → Type 0
  Reads e o m xs (returned r s) = read_data d s e o (pos m) ≡ some xs
  Reads e o m xs assert_failed = ⊥
  Reads e o m xs not_defined = ⊥

  write_moved-Reads :
      (s : Store File) (c e : Descriptor) (b g : Extent) (offset n o m : ℕ) (buf old xs : List ℕ)
      (stray : ℕ → ℕ)
      → HasLayout limit s
      → c ≢ e
      → find descriptor_lt e s.metadata ≡ some g
      → o + m ≤ g.size
      → length xs ≡ m
      → read_data d s e o (pos m) ≡ some xs
      → Reads e o m xs (write_moved d s c offset n buf stray old b)
  unfolding write_moved
  write_moved-Reads s c e b g offset n o m buf old xs stray v ne h z l r =
      then_write (write_data d s c 0 (pos b.size) (buffer b.size old stray))
        (write_data-HasLayout d limit s c 0 _ _ v) ((write_data_keeps d limit s c 0 _ _).0)
        (write_data_other s c e g 0 o m _ _ xs v ne h z l r)
    where
      then_write :
          (q : Option ℕ × Store File)
          → HasLayout limit q.1
          → q.1.metadata ≡ s.metadata
          → read_data d q.1 e o (pos m) ≡ some xs
          → Reads e o m xs (elim q.0 [
            | none ↦ returned none q.1
            | some _ ↦ returns d (write_data d q.1 c offset (pos n) buf)
          ])
      then_write (none, s') w k r' = r'
      then_write (some i, s') w k r' =
          write_data_other s' c e g offset o m (pos n) buf xs w ne (rw k h) z l r'

  -- On a reliable data file a write to one chunk that reaches at least one byte, and an end below 2^31,
  -- changes nothing that was read of another, whether it makes the chunk, grows it, fits or fails; if
  -- the chunk has to grow, no free extent starts where it ends.
  pub write_chunk-Reads :
      (s : Store File) (c e : Descriptor) (g : Extent) (offset n o m : ℕ) (buf xs : List ℕ)
      (stray : ℕ → ℕ)
      → HasLayout limit s
      → 0 < offset + n
      → offset + n < 2 ^ 31
      → HasNoneBehind s c (offset + n)
      → c ≢ e
      → find descriptor_lt e s.metadata ≡ some g
      → o + m ≤ g.size
      → length xs ≡ m
      → read_data d s e o (pos m) ≡ some xs
      → Reads e o m xs (write_chunk d s c offset (pos n) buf stray)
  write_chunk-Reads s c e g offset n o m buf xs stray v p q b ne h z l r =
      write_chunk_cases d limit s c offset n buf stray v p q b (Reads e o m xs) (λ _. r)
        (λ a k q. r)
        (λ a free _ w _.
          write_data_other (placed s c a free) c e g offset o m (pos n) buf xs w ne
            (find-assign_ne order c e a s.metadata ne ∙ h) z l
            (read_data-assign s c e a free o (pos m) ne ∙ r))
        (λ a b free old k q lt w _.
          write_moved-Reads (placed s c b free) c e b g offset n o m buf old xs stray w ne
            (find-assign_ne order c e b s.metadata ne ∙ h) z l
            (read_data-assign s c e b free o (pos m) ne ∙ r))
        (λ a k le. write_data_other s c e g offset o m (pos n) buf xs v ne h z l r)

  -- The whole range was written and reads back; or -1, for want of room, and nothing has changed.
  abbrev pub WritesOrRefuses : Store File → Descriptor → ℕ → ℕ → List ℕ → Outcome File → Type 0
  WritesOrRefuses s c offset n buf (returned (some k) s') =
      (k ≡ n) × (read_data d s' c offset (pos n) ≡ some buf)
  WritesOrRefuses s c offset n buf (returned none s') = (s' ≡ s) × NoRoom s c (offset + n)
  WritesOrRefuses s c offset n buf assert_failed = ⊥
  WritesOrRefuses s c offset n buf not_defined = ⊥

  returns-WritesOrRefuses :
      (s : Store File) (c : Descriptor) (offset n : ℕ) (buf : List ℕ) (r : Option ℕ × Store File)
      → (r.0 ≡ some n) × (read_data d r.1 c offset (pos n) ≡ some buf)
      → WritesOrRefuses s c offset n buf (returns d r)
  returns-WritesOrRefuses s c offset n buf (some k, s') h = (ground arith, h.1)
  returns-WritesOrRefuses s c offset n buf (none, s') h = absurd (ground arith)

  pub length-buffer : (n : ℕ) (bs : List ℕ) (stray : ℕ → ℕ) → length (buffer n bs stray) ≡ n
  unfolding buffer
  length-buffer zero bs stray = refl
  length-buffer (suc n) [] stray = omega (arith, length-buffer n [] (λ i. stray (suc i)))
  length-buffer (suc n) (b ∷ bs) stray = omega (arith, length-buffer n bs stray)

  write_moved-WritesOrRefuses :
      (s t : Store File) (c : Descriptor) (b : Extent) (offset n : ℕ) (buf old : List ℕ)
      (stray : ℕ → ℕ)
      → find descriptor_lt c s.metadata ≡ some b
      → b.size ≡ offset + n
      → length buf ≡ n
      → WritesOrRefuses t c offset n buf (write_moved d s c offset n buf stray old b)
  unfolding write_moved
  write_moved-WritesOrRefuses s t c b offset n buf old stray h z l =
      then_write (write_data d s c 0 (pos b.size) (buffer b.size old stray))
        ((write_data_result s c b 0 b.size _ h (omega arith) (length-buffer b.size old stray)).0)
        ((write_data_keeps d limit s c 0 _ _).0)
    where
      then_write :
          (q : Option ℕ × Store File)
          → q.0 ≡ some b.size
          → q.1.metadata ≡ s.metadata
          → WritesOrRefuses t c offset n buf (elim q.0 [
            | none ↦ returned none q.1
            | some _ ↦ returns d (write_data d q.1 c offset (pos n) buf)
          ])
      then_write (none, s') w k = absurd (ground arith)
      then_write (some i, s') w k =
          returns-WritesOrRefuses t c offset n buf _
            (write_data_result s' c b offset n buf (rw k h) (omega arith) l)

  -- On a reliable data file a write that reaches at least one byte, to an end below 2^31, with as many
  -- bytes as it says, and with no free extent where the chunk ends if that has to grow: it returns
  -- that number, and the range then reads back as those bytes; or it returns -1, as no free
  -- extent has room, also not with the chunk's own bytes free, and nothing has changed.
  pub write_chunk-WritesOrRefuses :
      (s : Store File) (c : Descriptor) (offset n : ℕ) (buf : List ℕ) (stray : ℕ → ℕ)
      → HasLayout limit s
      → 0 < offset + n
      → offset + n < 2 ^ 31
      → HasNoneBehind s c (offset + n)
      → length buf ≡ n
      → WritesOrRefuses s c offset n buf (write_chunk d s c offset (pos n) buf stray)
  unfolding read_data
  write_chunk-WritesOrRefuses s c offset n buf stray v p q b l =
      write_chunk_cases d limit s c offset n buf stray v p q b (WritesOrRefuses s c offset n buf)
        (λ full. (refl, full))
        (λ a h q.
          absurd (ground (arith, reliable.reads s.file (a.offset + 0) (read_count a 0 a.size))))
        (λ a free _ w e. returns-WritesOrRefuses s c offset n buf _ (
          write_data_result (placed s c a free) c a offset n buf
            (find-assign_self order c a s.metadata) (omega arith) l))
        (λ a b free old h q lt w e.
          write_moved-WritesOrRefuses (placed s c b free) s c b offset n buf old stray
            (find-assign_self order c b s.metadata) e l)
        (λ a h le.
          returns-WritesOrRefuses s c offset n buf _ (write_data_result s c a offset n buf h le l))
