-- ===== src/Espresso/Allocator/Reallocate.antt =====
-- What reallocate_chunk does: a new extent, or the old free set.
use deca_fs.Prelude.{
  ℕ, ◌+◌, ◌<◌, ◌≡◌, refl, List, none, some, true, false, sym, subst, inl, inr, Bool-cases, arith,
  All, Option,
}
use deca_fs.Espresso.Extents.{Extent, Spaced, Apart, cover, within}
use deca_fs.Espresso.Allocator.{
  coalesce, deallocate_chunk, joins_after, allocate_chunk, Reallocation, moved, refused, aborted,
  undefined, restore, reallocate_chunk,
}
use deca_fs.Espresso.Allocator.Allocate.{Allocates, allocate_chunk-Allocates}
use deca_fs.Espresso.Allocator.Coalesce.{coalesce-Spaced, cover-coalesce}
use deca_fs.Espresso.Allocator.Release.{coalesce-release, coalesce_alone}
use deca_fs.Espresso.Allocator.Restore.{restore-release}

-- A chunk that moves gets the size asked for, and its new extent with the new free set makes up its
-- old extent with the old free set. Where no extent has room, also with the chunk's own bytes free,
-- the free set is the old one. No assertion of the clean-up fails, and what is undefined is so by a
-- free extent at the end of the chunk's.
abbrev pub Reallocates : Extent → ℕ → List Extent → Reallocation → Type 0
Reallocates a size free (moved b rest) =
    (b.size ≡ size)
    × Spaced 0 rest
    × ((x : ℕ) → within x b + cover x rest ≡ within x a + cover x free)
Reallocates a size free (refused rest) =
    (rest ≡ free) × All (λ (e : Extent). e.size < size) (coalesce a free)
Reallocates a size free aborted = ⊥
Reallocates a size free undefined = joins_after a free ≡ true

reallocate_result :
    (a : Extent) (size : ℕ) (free free' : List Extent) (r : Option (Extent × List Extent))
    → free' ≡ coalesce a free
    → Allocates size 0 free' r
    → ((x : ℕ) → cover x free' ≡ within x a + cover x free)
    → restore a free' ≡ refused free
    → Reallocates a size free
        (elim r [ none ↦ restore a free' | some (b, free'') ↦ moved b free'' ])
reallocate_result a size free free' none q v c h = rw h (refl, rw (← q) v)
reallocate_result a size free free' (some (b, rest)) q v c h =
    (v.0, v.2, λ x. omega (arith, v.3 x, c x))

pub deallocate_joined :
    (a : Extent) (free : List Extent) → joins_after a free ≡ true → deallocate_chunk a free ≡ none
unfolding deallocate_chunk
deallocate_joined a free h = ground (arith, h)

reallocate_alone :
    (a : Extent) (size : ℕ) (free : List Extent)
    → 0 < a.size
    → 0 < size
    → Spaced 0 free
    → Apart a free
    → let free' = coalesce a free in
      Reallocates a size free (elim (allocate_chunk size free') [
        | none ↦ restore a free'
        | some (b, free'') ↦ moved b free''
      ])
reallocate_alone a size free p z s d =
    let free' = coalesce a free in
    reallocate_result a size free free' (allocate_chunk size free') refl
      (allocate_chunk-Allocates size free' z (coalesce-Spaced a free p s d))
      (λ x. cover-coalesce x a free p s d)
      (rw (coalesce-release a 0 free p s d) (restore-release a 0 free p s d))

reallocate_joined :
    (a : Extent) (size : ℕ) (free : List Extent)
    → joins_after a free ≡ true
    → reallocate_chunk a size free ≡ undefined
unfolding reallocate_chunk
reallocate_joined a size free h = ground (arith, deallocate_joined a free h)

reallocate_coalesced :
    (a : Extent) (size : ℕ) (free : List Extent)
    → joins_after a free ≡ false
    → let free' = coalesce a free in
      reallocate_chunk a size free ≡ (elim (allocate_chunk size free') [
        | none ↦ restore a free'
        | some (b, free'') ↦ moved b free''
      ])
unfolding reallocate_chunk
reallocate_coalesced a size free h = ground (arith, coalesce_alone a free h)

-- Where an extent is not empty and apart from a well-spaced free set, a reallocation to at least one
-- byte hands out an extent of that size, and it and the new free set, well spaced, hold exactly the
-- bytes that the old extent and the old set held; or no extent has room, also not with the old bytes
-- free, and the clean-up gives back the old free set. No assertion fails. The behaviour is undefined
-- only where a free extent starts at the end of the old extent.
pub reallocate_chunk-Reallocates :
    (a : Extent) (size : ℕ) (free : List Extent)
    → 0 < a.size
    → 0 < size
    → Spaced 0 free
    → Apart a free
    → Reallocates a size free (reallocate_chunk a size free)
reallocate_chunk-Reallocates a size free p z s d = elim (Bool-cases (joins_after a free)) [
  | inl h ↦ subst (Reallocates a size free) (sym (reallocate_joined a size free h)) h
  | inr h ↦
      subst (Reallocates a size free) (sym (reallocate_coalesced a size free h))
        (reallocate_alone a size free p z s d)
]
