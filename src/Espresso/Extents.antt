-- ===== src/Espresso/Extents.antt =====
-- lib/espresso_storage/espresso_types.h and espresso_state.h: extents of the data file, and the set of
-- free extents. A data_address is kept by its offset; the ints of an extent are never negative.
pub mod Laws
use deca_fs.Prelude.{
  ℕ, suc, ◌+◌, ◌≤◌, ◌<◌, ◌⊎◌, List, [], ◌∷◌, Option, none, some, Bool, ◌&&◌, ltb, leb, ◌==◌,
  if◌then◌else◌,
}

-- A data_address.
pub record Extent : Type 0 where
  pub offset : ℕ
  pub size : ℕ

-- The first byte behind the extent.
abbrev pub end_of : Extent → ℕ
end_of e = e.offset + e.size

-- operator< of data_address
unfoldable pub extent_lt : Extent → Extent → Bool
extent_lt a b = ltb a.offset b.offset

-- `free_extents.insert(e)`: an extent at the same offset keeps the new one out.
unfoldable pub insert : Extent → List Extent → List Extent
unfolding extent_lt
insert e [] = e ∷ []
insert e (f ∷ fs) =
    if extent_lt e f then e ∷ f ∷ fs else if extent_lt f e then f ∷ insert e fs else f ∷ fs

-- `free_extents.erase(it)` for the element at this offset
unfoldable pub erase : Extent → List Extent → List Extent
unfolding extent_lt
erase e [] = []
erase e (f ∷ fs) = if extent_lt f e then f ∷ erase e fs else if extent_lt e f then f ∷ fs else fs

-- `free_extents.lower_bound(e)`: the first element that is not before `e`
unfoldable pub lower_bound : Extent → List Extent → Option Extent
unfolding extent_lt
lower_bound e [] = none
lower_bound e (f ∷ fs) = if extent_lt f e then lower_bound e fs else some f

-- The element in front of `lower_bound(e)`, or `none` where that is `begin()`.
unfoldable pub predecessor : Extent → List Extent → Option Extent
unfolding extent_lt
predecessor e [] = none
predecessor e (f ∷ fs) =
    if extent_lt f e then elim (predecessor e fs) [ none ↦ some f | some g ↦ some g ] else none

-- The extents rise from `lo` on, are not empty, and no two of them touch.
abbrev pub Spaced : ℕ → List Extent → Type 0
Spaced lo [] = Unit
Spaced lo (e ∷ es) = (lo ≤ e.offset) × (0 < e.size) × Spaced (suc (end_of e)) es

-- The extent shares no byte with any of the list.
abbrev pub Apart : Extent → List Extent → Type 0
Apart a [] = Unit
Apart a (e ∷ es) = ((end_of a ≤ e.offset) ⊎ (end_of e ≤ a.offset)) × Apart a es

-- 1 where the extent holds the byte, 0 elsewhere.
abbrev pub within : ℕ → Extent → ℕ
within b e = if leb e.offset b && ltb b (end_of e) then 1 else 0

-- How many of the extents hold the byte.
unfoldable pub cover : ℕ → List Extent → ℕ
cover b [] = 0
cover b (e ∷ es) = within b e + cover b es
