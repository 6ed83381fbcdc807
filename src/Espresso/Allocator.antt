-- ===== src/Espresso/Allocator.antt =====
-- lib/espresso_storage/espresso_storage.cc: the allocator over the set of free extents.
pub mod Release
pub mod Allocate
pub mod Coalesce
pub mod CleanUp
pub mod Restore
pub mod Reallocate
use deca_fs.Prelude.{
  ℕ, ◌+◌, ◌-◌, List, [], ◌∷◌, Option, none, some, Bool, false, ltb, leb, ◌==◌, if◌then◌else◌,
}
use deca_fs.Espresso.Extents.{Extent, end_of, insert, erase, lower_bound, predecessor}

-- The loop of allocate_chunk: the first extent that is large enough.
unfoldable pub first_fit : ℕ → List Extent → Option Extent
first_fit size [] = none
first_fit size (e ∷ es) = if leb size e.size then some e else first_fit size es

-- The body of that loop at the extent found: its front is taken, what is left goes back.
unfoldable pub take_front : ℕ → Extent → List Extent → Extent × List Extent
take_front size e free = (
  record { offset = e.offset; size = size },
  erase e (
      if ltb size e.size
      then insert (record { offset = e.offset + size; size = e.size - size }) free
      else free),
)

-- allocate_chunk: the address and the free extents left, or `none` for -1.
unfoldable pub allocate_chunk : ℕ → List Extent → Option (Extent × List Extent)
unfolding first_fit take_front
allocate_chunk size free = elim (first_fit size free) [
  | none ↦ none
  | some e ↦ some (take_front size e free)
]

-- The extent behind, joined if it starts where the extent ends: `after` of deallocate_chunk as it is
-- meant, with a place to step back from.
unfoldable pub merge_after : Extent → List Extent → Extent × List Extent
merge_after a free = elim (lower_bound a free) [
  | none ↦ (a, free)
  | some e ↦
      if e.offset == end_of a
      then (record a { size = a.size + e.size }, erase e free)
      else (a, free)
]

-- `before` of deallocate_chunk, joined if it ends where the extent starts.
unfoldable pub merge_before : Extent → List Extent → Extent × List Extent
merge_before a free = elim (predecessor a free) [
  | none ↦ (a, free)
  | some e ↦
      if end_of e == a.offset
      then (record { offset = e.offset; size = a.size + e.size }, erase e free)
      else (a, free)
]

-- What deallocate_chunk is for: an extent goes back and is joined with its neighbours. The results
-- on the function are read against it.
unfoldable pub coalesce : Extent → List Extent → List Extent
unfolding merge_after merge_before
coalesce a free =
    let (b, free') = merge_after a free in let (c, free'') = merge_before b free' in insert c free''

-- A free extent starts where the extent ends.
unfoldable pub joins_after : Extent → List Extent → Bool
joins_after a free = elim (lower_bound a free) [ none ↦ false | some e ↦ e.offset == end_of a ]

-- deallocate_chunk. `before` is a copy of `after`: where the first join erases that element, the source
-- compares and steps back an iterator of an element that is gone, which is undefined and here `none`.
unfoldable pub deallocate_chunk : Extent → List Extent → Option (List Extent)
unfolding joins_after merge_before
deallocate_chunk a free =
    if joins_after a free
    then none
    else (let (b, free') = merge_before a free in some (insert b free'))

-- reallocate_chunk: a new address, -1, an assertion that fails, or undefined behaviour.
pub data Reallocation : Type 0 where
  moved : Extent → List Extent → Reallocation
  refused : List Extent → Reallocation
  aborted : Reallocation
  undefined : Reallocation

-- `it` of the clean-up: `lower_bound`, or the element in front where that lies behind `a`.
unfoldable pub restore_merged_before : Extent → List Extent → Reallocation
restore_merged_before a free = elim (predecessor a free) [
  | none ↦ aborted
  | some e ↦
      let free_before = a.offset - e.offset in
      let free' =
        if ltb (free_before + a.size) e.size
        then insert (record { offset = end_of a; size = e.size - a.size - free_before }) free
        else free in
      if ltb a.size e.size
      then refused (insert (record { offset = e.offset; size = free_before }) (erase e free'))
      else aborted
]

unfoldable pub restore_at : Extent → Extent → List Extent → Reallocation
restore_at a e free =
    if ltb a.size e.size
    then if e.offset == a.offset
      then refused (erase e (insert (record { offset = end_of a; size = e.size - a.size }) free))
      else aborted
    else if e.offset == a.offset
    then if e.size == a.size then refused (erase e free) else aborted
    else aborted

-- The clean-up after a deallocation that did not make enough room.
unfoldable pub restore : Extent → List Extent → Reallocation
unfolding restore_merged_before restore_at
restore a free = elim (lower_bound a free) [
  | none ↦ restore_merged_before a free
  | some e ↦ if ltb a.offset e.offset then restore_merged_before a free else restore_at a e free
]

unfoldable pub reallocate_chunk : Extent → ℕ → List Extent → Reallocation
reallocate_chunk a size free = elim (deallocate_chunk a free) [
  | none ↦ undefined
  | some free' ↦ elim (allocate_chunk size free') [
    | none ↦ restore a free'
    | some (b, free'') ↦ moved b free''
  ]
]
