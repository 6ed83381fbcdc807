-- ===== src/Espresso/Allocator/Coalesce.antt =====
-- A deallocation gives back exactly the bytes of the extent and keeps the free set joined up.
use deca_fs.Prelude.{ℕ, suc, ◌+◌, ◌≤◌, ◌<◌, ◌≡◌, refl, List, [], ◌∷◌, arith}
use deca_fs.Espresso.Extents.{Extent, end_of, Spaced, Apart, cover, within}
use deca_fs.Espresso.Extents.Laws.{Spaced-lower}
use deca_fs.Espresso.Allocator.{coalesce}
use deca_fs.Espresso.Allocator.Release.{join, release, coalesce-release}

cover-join : (b : ℕ) (a : Extent) (es : List Extent) → cover b (join a es) ≡ within b a + cover b es
unfolding cover join
cover-join b a [] = refl
cover-join b a (e ∷ es) = ground arith

cover-release :
    (b : ℕ) (a : Extent) (es : List Extent) → cover b (release a es) ≡ within b a + cover b es
unfolding cover release
cover-release b a [] = refl
cover-release b a (e ∷ es) =
    let m : Extent = record { offset = e.offset; size = a.size + e.size } in
    ground (arith, cover-release b a es, cover-join b a (e ∷ es), cover-join b m es)

join-Spaced :
    (a : Extent) (lo : ℕ) (es : List Extent)
    → lo ≤ a.offset
    → 0 < a.size
    → Spaced (end_of a) es
    → Spaced lo (join a es)
unfolding join
join-Spaced a lo [] h p s = (h, p, tt)
join-Spaced a lo (e ∷ es) h p s = ground arith

-- What is apart from an extent and starts behind its start lies behind its end.
pub Spaced-Apart :
    (a : Extent) (es : List Extent) → Spaced a.offset es → Apart a es → Spaced (end_of a) es
Spaced-Apart a [] s d = tt
Spaced-Apart a (e ∷ es) s d = (omega arith, s.1, s.2)

pub release-Spaced :
    (a : Extent) (lo : ℕ) (es : List Extent)
    → lo ≤ a.offset
    → 0 < a.size
    → Spaced lo es
    → Apart a es
    → Spaced lo (release a es)
unfolding release
release-Spaced a lo [] h p s d = (h, p, tt)
release-Spaced a lo (e ∷ es) h p s d =
    let m : Extent = record { offset = e.offset; size = a.size + e.size } in
    ground (
      arith,
      release-Spaced a (suc (end_of e)) es,
      join-Spaced a lo (e ∷ es),
      join-Spaced m lo es,
      Spaced-Apart a es,
      Spaced-lower (end_of m) (end_of a) es,
      Spaced-lower a.offset (suc (end_of e)) es,
    )

-- Giving back an extent that is not empty and apart from a well-spaced free set leaves the set well
-- spaced: no two free extents overlap or touch.
pub coalesce-Spaced :
    (a : Extent) (free : List Extent)
    → 0 < a.size
    → Spaced 0 free
    → Apart a free
    → Spaced 0 (coalesce a free)
coalesce-Spaced a free p s d =
    rw (coalesce-release a 0 free p s d) (release-Spaced a 0 free (omega arith) p s d)

-- Giving back an extent that is not empty and apart from a well-spaced free set makes exactly its bytes
-- free: each byte lies in as many free extents as before, and in one more if the extent holds it.
pub cover-coalesce :
    (b : ℕ) (a : Extent) (free : List Extent)
    → 0 < a.size
    → Spaced 0 free
    → Apart a free
    → cover b (coalesce a free) ≡ within b a + cover b free
cover-coalesce b a free p s d = rw (coalesce-release a 0 free p s d) (cover-release b a free)
