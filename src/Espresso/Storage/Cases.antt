-- ===== src/Espresso/Storage/Cases.antt =====
-- The ways through write_chunk, on a store with a layout: what each way knows of the store that it
-- writes to.
use deca_fs.Prelude.{
  ℕ, ◌+◌, ◌≤◌, ◌<◌, ◌^◌, ◌≡◌, true, false, List, Option, none, some, inl, inr, ltb, arith,
  Option-cases, Bool-cases, All,
}
use deca_fs.Prelude.Int.{pos}
use deca_fs.OrdMap.{find, assign}
use deca_fs.Espresso.Extents.{Extent}
use deca_fs.Espresso.Descriptor.{Descriptor, descriptor_lt}
use deca_fs.Espresso.Allocator.{
  allocate_chunk, coalesce, reallocate_chunk, Reallocation, moved, refused, aborted, undefined,
  joins_after,
}
use deca_fs.Espresso.Allocator.Allocate.{Allocates, allocate_chunk-Allocates}
use deca_fs.Espresso.Allocator.Reallocate.{Reallocates, reallocate_chunk-Reallocates}
use deca_fs.Espresso.Storage.{
  DataFile, Store, Outcome, returned, assert_failed, not_defined, returns, read_data, write_data,
  write_moved, write_grown, write_new, write_chunk,
}
use deca_fs.Espresso.Storage.Invariant.{
  IsLayout, chunk-Apart, new_chunk-IsLayout, moved_chunk-IsLayout,
}

abbrev pub HasLayout : {F : Type 0} → ℕ → Store F → Type 0
HasLayout limit s = IsLayout limit s.metadata s.free_extents

-- The chunk `c` gets the extent `a`.
abbrev pub placed : {F : Type 0} → Store F → Descriptor → Extent → List Extent → Store F
placed s c a free = record s { metadata = assign descriptor_lt c a s.metadata; free_extents = free }

-- No free extent has room for `size` bytes, also not once the chunk's own extent is free.
-- If the chunk has to grow to `size` bytes, no free extent starts where its extent ends.
abbrev pub HasNoneBehind : {F : Type 0} → Store F → Descriptor → ℕ → Type 0
HasNoneBehind s c size =
    (a : Extent)
    → find descriptor_lt c s.metadata ≡ some a
    → a.size < size
    → joins_after a s.free_extents ≡ false

abbrev pub NoRoom : {F : Type 0} → Store F → Descriptor → ℕ → Type 0
NoRoom s c size =
    All (λ (e : Extent). e.size < size)
      (elim (find descriptor_lt c s.metadata) [
        | none ↦ s.free_extents
        | some a ↦ coalesce a s.free_extents
      ])

module _ (d : DataFile) (limit : ℕ) (s : Store d.File) (c : Descriptor) (offset n : ℕ)
    (buf : List ℕ) (stray : ℕ → ℕ) (v : HasLayout limit s) (z : 0 < offset + n)
    (sum : offset + n < 2 ^ 31) (clear : HasNoneBehind s c (offset + n))
    (P : Outcome d.File → Type 0) (full : NoRoom s c (offset + n) → P (returned none s))
    (unread : (a : Extent)
      → find descriptor_lt c s.metadata ≡ some a
      → read_data d s c 0 (pos a.size) ≡ none
      → P (returned none s))
    (fresh : (a : Extent) (free : List Extent)
      → find descriptor_lt c s.metadata ≡ none
      → HasLayout limit (placed s c a free)
      → a.size ≡ offset + n
      → P (returns d (write_data d (placed s c a free) c offset (pos n) buf)))
    (grown : (a b : Extent) (free : List Extent) (old : List ℕ)
      → find descriptor_lt c s.metadata ≡ some a
      → read_data d s c 0 (pos a.size) ≡ some old
      → a.size < offset + n
      → HasLayout limit (placed s c b free)
      → b.size ≡ offset + n
      → P (write_moved d (placed s c b free) c offset n buf stray old b))
    (fits : (a : Extent)
      → find descriptor_lt c s.metadata ≡ some a
      → offset + n ≤ a.size
      → P (returns d (write_data d s c offset (pos n) buf))) where
  write_new_cases : find descriptor_lt c s.metadata ≡ none → P (write_new d s c offset n buf)
  unfolding write_new
  write_new_cases h =
      at_result (allocate_chunk (offset + n) s.free_extents)
        (allocate_chunk-Allocates (offset + n) s.free_extents z v.spaced)
    where
      at_result :
          (r : Option (Extent × List Extent))
          → Allocates (offset + n) 0 s.free_extents r
          → P (elim r [
            | none ↦ returned none s
            | some (a, free) ↦ returns d (write_data d (placed s c a free) c offset (pos n) buf)
          ])
      at_result none w = full (rw h w)
      at_result (some (a, free)) w =
          fresh a free h
            (new_chunk-IsLayout limit s.metadata s.free_extents v c a free h (omega arith) w.2 w.3)
            w.0

  write_grown_cases :
      (a : Extent)
      → find descriptor_lt c s.metadata ≡ some a
      → a.size < offset + n
      → P (write_grown d s c offset n buf stray a)
  unfolding write_grown
  write_grown_cases a h lt = elim (Option-cases (read_data d s c 0 (pos a.size))) [
    | inl q ↦ rw (q, write_grown) (unread a h q)
    | inr (old, q) ↦
        rw (q, write_grown)
          (at_result old (reallocate_chunk a (offset + n) s.free_extents) q (
            reallocate_chunk-Reallocates a (offset + n) s.free_extents (v.nonempty c a h) z v.spaced
              (chunk-Apart limit s.metadata s.free_extents v c a h)))
  ]
    where
      at_result :
          (old : List ℕ) (r : Reallocation)
          → read_data d s c 0 (pos a.size) ≡ some old
          → Reallocates a (offset + n) s.free_extents r
          → P (elim r [
            | moved b free ↦ write_moved d (placed s c b free) c offset n buf stray old b
            | refused free ↦ returned none (record s { free_extents = free })
            | aborted ↦ assert_failed
            | undefined ↦ not_defined
          ])
      at_result old (moved b free) q w =
          grown a b free old h q lt
            (moved_chunk-IsLayout limit s.metadata s.free_extents v c a b free h (omega arith) w.1
              w.2)
            w.0
      at_result old (refused free) q w = rw w.0 (full (rw h w.1))
      at_result old aborted q w = absurd w
      at_result old undefined q w = absurd (ground (arith, w, clear a h lt))

  pub write_chunk_cases : P (write_chunk d s c offset (pos n) buf stray)
  unfolding write_chunk
  write_chunk_cases =
      let short : ltb (offset + n) (2 ^ 31) ≡ true = ground (arith, sum) in
      elim (Option-cases (find descriptor_lt c s.metadata)) [
        | inl e ↦ rw (short, e, write_chunk) (write_new_cases e)
        | inr (a, e) ↦ elim (Bool-cases (ltb a.size (offset + n))) [
          | inl t ↦ rw (short, e, t, write_chunk) (write_grown_cases a e (ground arith))
          | inr f ↦ rw (short, e, f, write_chunk) (fits a e (ground arith))
        ]
      ]
