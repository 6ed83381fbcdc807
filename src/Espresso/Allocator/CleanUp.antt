-- ===== src/Espresso/Allocator/CleanUp.antt =====
-- The clean-up of reallocate_chunk at each place that the free extent can have.
use deca_fs.Prelude.{
  suc, ◌+◌, ◌-◌, ◌<◌, ◌≡◌, ◌∙◌, ◌⊎◌, refl, Option-cases, List, [], ◌∷◌, some, arith, inl, inr,
  Bool-cases, ◌==◌,
}
use deca_fs.Espresso.Extents.{Extent, end_of, Spaced, insert, erase, lower_bound, predecessor}
use deca_fs.Espresso.Extents.Laws.{
  Spaced-lower, insert_front, insert_behind, erase_front, lower_bound_ge, predecessor_ge,
  predecessor-none, lower_bound-Spaced, lower_bound_behind, lower_bound_here, predecessor_here,
}
use deca_fs.Espresso.Allocator.{
  Reallocation, moved, refused, aborted, undefined, restore_merged_before, restore_at, restore,
}
use deca_fs.Espresso.Allocator.Release.{join, release}

-- The extent that `release` made of `a` is found from `a`, by one of the two lookups.
unfoldable pub Found : Extent → List Extent → Type 0
Found a es =
    ((g : Extent) × (lower_bound a es ≡ some g) × (g.offset ≡ a.offset))
    ⊎ ((g : Extent) × (predecessor a es ≡ some g))

unfoldable pub in_front : Extent → Reallocation → Reallocation
in_front e (moved a es) = moved a (e ∷ es)
in_front e (refused es) = refused (e ∷ es)
in_front e aborted = aborted
in_front e undefined = undefined

pub in_front_refused : (e : Extent) (es : List Extent) → in_front e (refused es) ≡ refused (e ∷ es)
unfolding in_front
in_front_refused e es = refl

pub release_empty : (a : Extent) (P : List Extent → Type 0) → P (join a []) → P (release a [])
unfolding release join
release_empty a P h = h

restore_at_behind :
    (a e g : Extent) (es : List Extent)
    → e.offset < a.offset
    → g.offset ≡ a.offset
    → restore_at a g (e ∷ es) ≡ in_front e (restore_at a g es)
unfolding restore_at in_front insert erase
restore_at_behind a e g es h q = ground arith

restore_merged_before_behind :
    (a e g : Extent) (es : List Extent)
    → e.offset < a.offset
    → e.offset < g.offset
    → predecessor a es ≡ some g
    → restore_merged_before a (e ∷ es) ≡ in_front e (restore_merged_before a es)
unfolding restore_merged_before in_front predecessor insert erase
restore_merged_before_behind a e g es h q p = ground arith

-- Nothing is left of the extent: its neighbour behind comes back as it was.
restore_at_joined :
    (a e : Extent) (es : List Extent)
    → 0 < a.size
    → 0 < e.size
    → e.offset ≡ end_of a
    → Spaced (suc (end_of e)) es
    → restore_at a (record a { size = a.size + e.size }) (record a { size = a.size + e.size } ∷ es)
      ≡ refused (e ∷ es)
unfolding restore_at
restore_at_joined a e es p q h s =
    let m : Extent = record a { size = a.size + e.size } in
    let rest : Extent = record { offset = end_of a; size = a.size + e.size - a.size } in
    ground (
      arith,
      insert_behind rest m es,
      insert_front rest es (Spaced-lower _ _ es (omega arith) s),
      erase_front m m (rest ∷ es) refl,
    )

restore_at_alone : (a : Extent) (es : List Extent) → restore_at a a (a ∷ es) ≡ refused es
unfolding restore_at
restore_at_alone a es = ground (arith, erase_front a a es refl)

restore_here :
    (a m : Extent) (es : List Extent)
    → m.offset ≡ a.offset
    → restore a (m ∷ es) ≡ restore_at a m (m ∷ es)
unfolding restore
restore_here a m es h = ground (arith, lower_bound_here a m es)

pub restore_front :
    (a : Extent) (es : List Extent)
    → 0 < a.size
    → Spaced (end_of a) es
    → restore a (join a es) ≡ refused es
unfolding join
restore_front a [] p s = restore_here a a [] refl ∙ restore_at_alone a []
restore_front a (e ∷ es) p s =
    let m : Extent = record a { size = a.size + e.size } in
    elim (Bool-cases (e.offset == end_of a)) [
      | inl t ↦ rw t (restore_here a m es refl ∙ restore_at_joined a e es p s.1 (ground arith) s.2)
      | inr f ↦ rw f (restore_here a a (e ∷ es) refl ∙ restore_at_alone a (e ∷ es))
    ]

restore_between :
    (a m : Extent) (es : List Extent)
    → m.offset < a.offset
    → Spaced (suc a.offset) es
    → restore a (m ∷ es) ≡ restore_merged_before a (m ∷ es)
unfolding restore
restore_between a m es h s = elim (Option-cases (lower_bound a es)) [
  | inl n ↦ ground (arith, lower_bound_behind a m es h)
  | inr (g, p) ↦
      ground (arith, lower_bound_behind a m es h, lower_bound-Spaced (suc a.offset) a g es s p)
]

restore_before_joined :
    (a e f : Extent) (es : List Extent)
    → 0 < a.size
    → 0 < e.size
    → 0 < f.size
    → end_of e ≡ a.offset
    → end_of a ≡ f.offset
    → Spaced (suc (end_of f)) es
    → let m : Extent = record { offset = e.offset; size = a.size + e.size + f.size } in
      restore_merged_before a (m ∷ es) ≡ refused (e ∷ f ∷ es)
unfolding restore_merged_before
restore_before_joined a e f es p q r h k s =
    let m : Extent = record { offset = e.offset; size = a.size + e.size + f.size } in
    let rest : Extent = record {
      offset = end_of a;
      size = m.size - a.size - (a.offset - m.offset);
    } in
    let front : Extent = record { offset = m.offset; size = a.offset - m.offset } in
    let s' : Spaced a.offset es = Spaced-lower _ _ es (omega arith) s in
    ground (
      arith,
      predecessor_here a m es (omega arith) (predecessor-none a es s'),
      insert_behind rest m es,
      insert_front rest es (Spaced-lower _ _ es (omega arith) s),
      erase_front m m (rest ∷ es) refl,
      insert_front front (f ∷ es) (omega arith, r, s),
    )

restore_before_alone :
    (a e : Extent) (es : List Extent)
    → 0 < a.size
    → 0 < e.size
    → end_of e ≡ a.offset
    → Spaced (suc (end_of a)) es
    → let m : Extent = record { offset = e.offset; size = a.size + e.size } in
      restore_merged_before a (m ∷ es) ≡ refused (e ∷ es)
unfolding restore_merged_before
restore_before_alone a e es p q h s =
    let m : Extent = record { offset = e.offset; size = a.size + e.size } in
    let front : Extent = record { offset = m.offset; size = a.offset - m.offset } in
    let s' : Spaced a.offset es = Spaced-lower _ _ es (omega arith) s in
    ground (
      arith,
      predecessor_here a m es (omega arith) (predecessor-none a es s'),
      erase_front m m es refl,
      insert_front front es (Spaced-lower _ _ es (omega arith) s),
    )

pub restore_joined :
    (a e : Extent) (es : List Extent)
    → 0 < a.size
    → 0 < e.size
    → end_of e ≡ a.offset
    → Spaced (end_of a) es
    → restore a (join (record { offset = e.offset; size = a.size + e.size }) es) ≡ refused (e ∷ es)
unfolding join
restore_joined a e [] p q h s =
    restore_between a _ [] (omega arith) tt ∙ restore_before_alone a e [] p q h tt
restore_joined a e (f ∷ fs) p q h s =
    let m : Extent = record { offset = e.offset; size = a.size + e.size } in
    elim (Bool-cases (f.offset == end_of m)) [
      | inl t ↦ rw t (
          restore_between a _ fs (omega arith) (Spaced-lower _ _ fs (omega arith) s.2)
          ∙ restore_before_joined a e f fs p q s.1 h (ground arith) s.2)
      | inr g ↦
          let s' : Spaced (suc (end_of a)) (f ∷ fs) = (ground arith, s.1, s.2) in
          rw g (
            restore_between a m (f ∷ fs) (omega arith) (Spaced-lower _ _ (f ∷ fs) (omega arith) s')
            ∙ restore_before_alone a e (f ∷ fs) p q h s')
    ]

-- The steps over an extent in front.
pub restore_behind :
    (a e : Extent) (es : List Extent)
    → end_of e < a.offset
    → 0 < e.size
    → Spaced (suc (end_of e)) es
    → Found a es
    → restore a (e ∷ es) ≡ in_front e (restore a es)
unfolding restore Found
restore_behind a e es h z s (inl (g, p, q)) =
    ground
      (arith, lower_bound_behind a e es (omega arith), restore_at_behind a e g es (omega arith) q)
restore_behind a e es h z s (inr (g, p)) = elim (Option-cases (lower_bound a es)) [
  | inl n ↦ ground (
    arith,
    lower_bound_behind a e es (omega arith),
    restore_merged_before_behind a e g es (omega arith) k p,
  )
  | inr (f, q) ↦ ground (
    arith,
    lower_bound_behind a e es (omega arith),
    restore_merged_before_behind a e g es (omega arith) k p,
    restore_at_behind a e f es (omega arith),
    lower_bound_ge a f es q,
  )
]
  where
    k : e.offset < g.offset
    k = let r = predecessor_ge (suc (end_of e)) a g es s p in omega arith
