-- ===== src/Espresso/Allocator/Allocate.antt =====
-- What allocate_chunk hands out.
use deca_fs.Prelude.{
  ℕ, suc, ◌+◌, ◌-◌, ◌≤◌, ◌<◌, ◌≡◌, refl, Option-cases, List, [], ◌∷◌, none, some, arith, inl, inr,
  ltb, leb, Bool-cases, All, if◌then◌else◌, Option,
}
use deca_fs.Espresso.Extents.{Extent, end_of, Spaced, cover, within, insert, erase}
use deca_fs.Espresso.Extents.Laws.{Spaced-lower, insert_front}
use deca_fs.Espresso.Allocator.{first_fit, take_front, allocate_chunk}

-- The front of the first extent that is large enough; the rest of it stays free.
unfoldable pub carve : ℕ → List Extent → Option (Extent × List Extent)
carve size [] = none
carve size (e ∷ es) =
    if leb size e.size
    then some (
      record { offset = e.offset; size = size },
      if ltb size e.size
          then record { offset = e.offset + size; size = e.size - size } ∷ es
          else es,
    )
    else elim (carve size es) [ none ↦ none | some (a, fs) ↦ some (a, e ∷ fs) ]

first_fit_ge :
    (size lo : ℕ) (e : Extent) (es : List Extent)
    → Spaced lo es
    → first_fit size es ≡ some e
    → lo ≤ e.offset
unfolding first_fit
first_fit_ge size lo e [] s h = cc
first_fit_ge size lo e (f ∷ fs) s h =
    ground
      (arith, first_fit_ge size lo e fs (Spaced-lower lo (suc (end_of f)) fs (omega arith) s.2))

take_front_head :
    (size lo : ℕ) (e : Extent) (es : List Extent)
    → 0 < size
    → size ≤ e.size
    → Spaced lo (e ∷ es)
    → take_front size e (e ∷ es) ≡ (
      record { offset = e.offset; size = size },
      if ltb size e.size
          then record { offset = e.offset + size; size = e.size - size } ∷ es
          else es,
    )
unfolding take_front insert erase
take_front_head size lo e es z h s =
    let rest : Extent = record { offset = e.offset + size; size = e.size - size } in
    ground (arith, insert_front rest es (Spaced-lower _ _ es (omega arith) s.2))

take_front_behind :
    (size : ℕ) (g e : Extent) (es : List Extent)
    → 0 < size
    → e.offset < g.offset
    → take_front size g (e ∷ es) ≡ ((take_front size g es).0, e ∷ (take_front size g es).1)
unfolding take_front insert erase
take_front_behind size g e es z h = ground arith

pub allocate_chunk-carve :
    (size lo : ℕ) (free : List Extent)
    → 0 < size
    → Spaced lo free
    → allocate_chunk size free ≡ carve size free
unfolding allocate_chunk carve
allocate_chunk-carve size lo [] z s = refl
allocate_chunk-carve size lo (e ∷ es) z s =
    let ih = allocate_chunk-carve size (suc (end_of e)) es z s.2 in
    elim (Bool-cases (leb size e.size)) [
      | inl h ↦ ground (arith, take_front_head size lo e es z (ground arith) s)
      | inr h ↦ elim (Option-cases (first_fit size es)) [
        | inl n ↦ ground arith
        | inr (g, p) ↦
            ground (
              arith,
              first_fit_ge size (suc (end_of e)) g es s.2 p,
              take_front_behind size g e es z,
            )
      ]
    ]

-- The address handed out has the size asked for, and with what stays free makes up the old free
-- set. Where none is handed out no extent is large enough.
abbrev pub Allocates : ℕ → ℕ → List Extent → Option (Extent × List Extent) → Type 0
Allocates size lo free none = All (λ (e : Extent). e.size < size) free
Allocates size lo free (some (a, rest)) =
    (a.size ≡ size)
    × (lo ≤ a.offset)
    × Spaced lo rest
    × ((b : ℕ) → cover b free ≡ within b a + cover b rest)

Allocates-behind :
    (size lo : ℕ) (e : Extent) (es : List Extent) (r : Option (Extent × List Extent))
    → e.size < size
    → Spaced lo (e ∷ es)
    → Allocates size (suc (end_of e)) es r
    → Allocates size lo (e ∷ es) (elim r [ none ↦ none | some (a, fs) ↦ some (a, e ∷ fs) ])
unfolding cover
Allocates-behind size lo e es none z s h = (z, h)
Allocates-behind size lo e es (some (a, fs)) z s h =
    (h.0, omega arith, (s.0, s.1, h.2), λ b. omega (arith, h.3 b))

carve-Allocates :
    (size lo : ℕ) (free : List Extent)
    → 0 < size
    → Spaced lo free
    → Allocates size lo free (carve size free)
unfolding carve cover
carve-Allocates size lo [] z s = tt
carve-Allocates size lo (e ∷ es) z s = elim (Bool-cases (leb size e.size)) [
  | inl fits ↦ elim (Bool-cases (ltb size e.size)) [
    | inl more ↦
        rw (fits, more)
          (
            refl,
            s.0,
            (omega arith, ground arith, Spaced-lower _ _ es (ground arith) s.2),
            λ b. ground arith,
          )
    | inr all ↦ rw (fits, all) (refl, s.0, Spaced-lower _ _ es (omega arith) s.2, λ b. ground arith)
  ]
  | inr small ↦ rw small (
      Allocates-behind size lo e es (carve size es) (ground arith) s
        (carve-Allocates size (suc (end_of e)) es z s.2))
]

-- For a size above 0 and a well-spaced free set, allocate_chunk hands out an extent of that size which
-- with the new free set, again well spaced, holds exactly the bytes that were free, each once; or no
-- free extent is large enough.
pub allocate_chunk-Allocates :
    (size : ℕ) (free : List Extent)
    → 0 < size
    → Spaced 0 free
    → Allocates size 0 free (allocate_chunk size free)
allocate_chunk-Allocates size free z s =
    rw (allocate_chunk-carve size 0 free z s) (carve-Allocates size 0 free z s)
