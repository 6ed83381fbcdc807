-- ===== src/Espresso/Extents/Laws.antt =====
-- How the operations of the free set act on a list of extents that rises with gaps.
use deca_fs.Prelude.{ℕ, suc, ◌+◌, ◌≤◌, ◌<◌, ◌≡◌, refl, List, [], ◌∷◌, none, some, arith}
use deca_fs.Espresso.Extents.{
  Extent, end_of, insert, erase, lower_bound, predecessor, Spaced, Apart, cover, within,
}

pub Spaced-lower : (lo hi : ℕ) (es : List Extent) → lo ≤ hi → Spaced hi es → Spaced lo es
Spaced-lower lo hi [] h s = tt
Spaced-lower lo hi (e ∷ es) h s = (omega arith, s.1, s.2)

pub insert_front : (a : Extent) (es : List Extent) → Spaced (suc a.offset) es → insert a es ≡ a ∷ es
unfolding insert
insert_front a [] s = refl
insert_front a (e ∷ es) s = ground arith

pub insert_behind :
    (a e : Extent) (es : List Extent) → e.offset < a.offset → insert a (e ∷ es) ≡ e ∷ insert a es
unfolding insert
insert_behind a e es h = ground arith

pub erase_front : (a e : Extent) (es : List Extent) → a.offset ≡ e.offset → erase a (e ∷ es) ≡ es
unfolding erase
erase_front a e es h = ground arith

pub erase_behind :
    (a e : Extent) (es : List Extent) → e.offset < a.offset → erase a (e ∷ es) ≡ e ∷ erase a es
unfolding erase
erase_behind a e es h = ground arith

pub lower_bound_ge :
    (a g : Extent) (es : List Extent) → lower_bound a es ≡ some g → a.offset ≤ g.offset
unfolding lower_bound
lower_bound_ge a g [] h = cc
lower_bound_ge a g (e ∷ es) h = ground (arith, lower_bound_ge a g es)

pub predecessor_ge :
    (lo : ℕ) (a g : Extent) (es : List Extent)
    → Spaced lo es
    → predecessor a es ≡ some g
    → lo ≤ g.offset
unfolding predecessor
predecessor_ge lo a g [] s h = cc
predecessor_ge lo a g (e ∷ es) s h =
    ground (arith, predecessor_ge lo a g es (Spaced-lower lo (suc (end_of e)) es (omega arith) s.2))

-- Where all lie behind the extent there is none in front of it.
pub predecessor-none :
    (a : Extent) (es : List Extent) → Spaced a.offset es → predecessor a es ≡ none
unfolding predecessor
predecessor-none a [] s = refl
predecessor-none a (e ∷ es) s = ground arith

pub Spaced-erase : (lo : ℕ) (a : Extent) (es : List Extent) → Spaced lo es → Spaced lo (erase a es)
unfolding erase
Spaced-erase lo a [] s = tt
Spaced-erase lo a (e ∷ es) s = ground (
  arith,
  Spaced-erase (suc (end_of e)) a es s.2,
  Spaced-lower lo (suc (end_of e)) es (omega arith) s.2,
)

-- Erasing an extent behind leaves the one in front as it was.
pub predecessor-erase :
    (a g : Extent) (lo : ℕ) (es : List Extent)
    → a.offset ≤ g.offset
    → Spaced lo es
    → predecessor a (erase g es) ≡ predecessor a es
unfolding predecessor erase
predecessor-erase a g lo [] h s = refl
predecessor-erase a g lo (e ∷ es) h s = ground (
  arith,
  predecessor-erase a g (suc (end_of e)) es h s.2,
  predecessor-none a es,
  Spaced-lower a.offset (suc (end_of e)) es,
)

-- An extent that shares no byte with the list, counted byte by byte, is apart from it.
pub Apart-cover :
    (a : Extent) (es : List Extent)
    → 0 < a.size
    → ((b : ℕ) → within b a + cover b es ≤ 1)
    → (lo : ℕ) → Spaced lo es
    → Apart a es
unfolding cover
Apart-cover a [] p h lo s = tt
Apart-cover a (e ∷ es) p h lo s = (
  ground (arith, h a.offset, h e.offset),
  Apart-cover a es p (λ b. omega (arith, h b)) (suc (end_of e)) s.2,
)

pub lower_bound-Spaced :
    (lo : ℕ) (a g : Extent) (es : List Extent)
    → Spaced lo es
    → lower_bound a es ≡ some g
    → lo ≤ g.offset
unfolding lower_bound
lower_bound-Spaced lo a g [] s h = cc
lower_bound-Spaced lo a g (e ∷ es) s h =
    ground
      (arith, lower_bound-Spaced lo a g es (Spaced-lower lo (suc (end_of e)) es (omega arith) s.2))

-- The lookups step over an extent in front.
pub lower_bound_behind :
    (a e : Extent) (es : List Extent)
    → e.offset < a.offset
    → lower_bound a (e ∷ es) ≡ lower_bound a es
unfolding lower_bound
lower_bound_behind a e es h = ground arith

pub lower_bound_here :
    (a e : Extent) (es : List Extent) → a.offset ≤ e.offset → lower_bound a (e ∷ es) ≡ some e
unfolding lower_bound
lower_bound_here a e es h = ground arith

pub predecessor_here :
    (a e : Extent) (es : List Extent)
    → e.offset < a.offset
    → predecessor a es ≡ none
    → predecessor a (e ∷ es) ≡ some e
unfolding predecessor
predecessor_here a e es h p = ground arith

pub predecessor_behind :
    (a e g : Extent) (es : List Extent)
    → e.offset < a.offset
    → predecessor a es ≡ some g
    → predecessor a (e ∷ es) ≡ some g
unfolding predecessor
predecessor_behind a e g es h p = ground arith
