-- ===== src/Espresso/Storage/Steps.antt =====
-- Every call of the storage node keeps the layout of the data file, and none fails an assertion.
use deca_fs.Prelude.{
  ℕ, ◌+◌, ◌<◌, ◌^◌, ◌≡◌, Bool, subst, Bool-cases, refl, List, [], Option, none, some, inl, inr,
  arith, Option-cases,
}
use deca_fs.Prelude.Int.{ℤ, pos, negsuc}
use deca_fs.OrdMap.{find, erase}
use deca_fs.OrdMap.Order.{total}
use deca_fs.Espresso.Extents.{Extent, cover}
use deca_fs.Espresso.Allocator.{joins_after, coalesce}
use deca_fs.Espresso.Allocator.Release.{coalesce_alone}
use deca_fs.Espresso.Allocator.Reallocate.{deallocate_joined}
use deca_fs.Espresso.Descriptor.{Descriptor, descriptor_lt}
use deca_fs.Espresso.Storage.{
  DataFile, Store, Outcome, returned, assert_failed, not_defined, init_free_extents, returns,
  buffer, write_data, write_moved, write_chunk, delete_chunk,
}
use deca_fs.Espresso.Storage.Cases.{HasLayout, HasNoneBehind, write_chunk_cases}
use deca_fs.Espresso.Storage.Invariant.{IsLayout, deleted_chunk-IsLayout}

-- A call that returns, with a store of the given layout.
abbrev pub Keeps : {F : Type 0} → ℕ → Outcome F → Type 0
Keeps limit (returned r s) = HasLayout limit s
Keeps limit assert_failed = ⊥
Keeps limit not_defined = ⊥

-- A range of a chunk that ends behind its first byte and at an int, and no free extent starts where
-- the chunk ends if it has to grow; or a count that write_chunk refuses
abbrev pub Reaches : {F : Type 0} → Store F → Descriptor → ℕ → ℤ → Type 0
Reaches s c offset (negsuc n) = Unit
Reaches s c offset (pos n) =
    (0 < offset + n) × (offset + n < 2 ^ 31) × HasNoneBehind s c (offset + n)

module _ (d : DataFile) (limit : ℕ) where
  open d use {File}

  -- write_data changes only the bytes of the file.
  pub write_data_keeps :
      (s : Store File) (c : Descriptor) (offset : ℕ) (count : ℤ) (buf : List ℕ)
      → ((write_data d s c offset count buf).1.metadata ≡ s.metadata)
        × ((write_data d s c offset count buf).1.free_extents ≡ s.free_extents)
  unfolding write_data
  write_data_keeps s c offset (negsuc n) buf = (refl, refl)
  write_data_keeps s c offset (pos n) buf = (ground arith, ground arith)

  pub write_data-HasLayout :
      (s : Store File) (c : Descriptor) (offset : ℕ) (count : ℤ) (buf : List ℕ)
      → HasLayout limit s
      → HasLayout limit (write_data d s c offset count buf).1
  write_data-HasLayout s c offset count buf v =
      let (m, f) = write_data_keeps s c offset count buf in rw (m, f) v

  write_moved-Keeps :
      (s : Store File) (c : Descriptor) (offset n : ℕ) (buf : List ℕ) (stray : ℕ → ℕ) (old : List ℕ)
      (b : Extent)
      → HasLayout limit s
      → Keeps limit (write_moved d s c offset n buf stray old b)
  unfolding write_moved
  write_moved-Keeps s c offset n buf stray old b v =
      then_write (write_data d s c 0 (pos b.size) (buffer b.size old stray))
        (write_data-HasLayout s c 0 _ _ v)
    where
      then_write :
          (r : Option ℕ × Store File)
          → HasLayout limit r.1
          → Keeps limit (elim r.0 [
            | none ↦ returned none r.1
            | some _ ↦ returns d (write_data d r.1 c offset (pos n) buf)
          ])
      then_write (none, s') w = w
      then_write (some k, s') w = write_data-HasLayout s' c offset (pos n) buf w

  -- A write that reaches at least one byte of the chunk, to an end below 2^31, keeps the layout, whether
  -- it makes the chunk, grows it, fits, or fails. No assertion of the allocator fails and nothing
  -- undefined happens, if no free extent starts where a chunk that has to grow ends.
  pub write_chunk-Keeps :
      (s : Store File) (c : Descriptor) (offset : ℕ) (count : ℤ) (buf : List ℕ) (stray : ℕ → ℕ)
      → HasLayout limit s
      → Reaches s c offset count
      → Keeps limit (write_chunk d s c offset count buf stray)
  unfolding write_chunk
  write_chunk-Keeps s c offset (negsuc n) buf stray v z = v
  write_chunk-Keeps s c offset (pos n) buf stray v z =
      write_chunk_cases d limit s c offset n buf stray v z.0 z.1 z.2 (Keeps limit) (λ _. v)
        (λ a h q. v) (λ a free _ w _. write_data-HasLayout _ c offset (pos n) buf w)
        (λ a b free old h q lt w _. write_moved-Keeps _ c offset n buf stray old b w)
        (λ a h le. write_data-HasLayout s c offset (pos n) buf v)

-- A deletion that is defined keeps the layout.
pub delete_chunk-HasLayout :
    {F : Type 0} (limit : ℕ) (s s' : Store F) (c : Descriptor) (r : Bool)
    → delete_chunk s c ≡ some (r, s')
    → HasLayout limit s
    → HasLayout limit s'
unfolding delete_chunk
delete_chunk-HasLayout limit s s' c r q v = elim (Option-cases (find descriptor_lt c s.metadata)) [
  | inl e ↦ let same : s ≡ s' = ground (arith, e, q) in subst (HasLayout limit) same v
  | inr (a, e) ↦ elim (Bool-cases (joins_after a s.free_extents)) [
    | inl h ↦ absurd (ground (arith, e, q, h, deallocate_joined a s.free_extents h))
    | inr h ↦
        let t = record s {
          metadata = erase descriptor_lt c s.metadata;
          free_extents = coalesce a s.free_extents;
        } in
        let same : t ≡ s' = ground (arith, e, q, coalesce_alone a s.free_extents h) in
        subst (HasLayout limit) same
          (deleted_chunk-IsLayout limit s.metadata s.free_extents v c a e)
  ]
]

find_empty :
    (c : Descriptor) (a : Extent) → find {V = Extent} descriptor_lt c [] ≡ some a → 0 < a.size
unfolding find
find_empty c a e = cc

-- A node with nothing on record starts with a layout.
pub init-HasLayout :
    (limit : ℕ) → 0 < limit → limit < 2 ^ 31 → IsLayout limit [] (init_free_extents limit [])
unfolding init_free_extents cover total
init-HasLayout limit h w = record {
  small = w;
  sorted = tt;
  spaced = (omega arith, h, tt);
  nonempty = λ c a e. find_empty c a e;
  shared_out = λ b. ground arith;
}
