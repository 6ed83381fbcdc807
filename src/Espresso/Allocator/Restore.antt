-- ===== src/Espresso/Allocator/Restore.antt =====
-- The clean-up of reallocate_chunk gives back the free set as it was before the deallocation.
use deca_fs.Prelude.{
  ℕ, suc, ◌+◌, ◌<◌, ◌≡◌, ◌∙◌, refl, dec_lt, ℕ_discrete, ap, List, [], ◌∷◌, arith, inl, inr,
  Bool-cases, ◌==◌,
}
use deca_fs.Espresso.Extents.{Extent, end_of, Spaced, Apart}
use deca_fs.Espresso.Extents.Laws.{
  Spaced-lower, lower_bound_behind, lower_bound_here, predecessor_behind,
}
use deca_fs.Espresso.Allocator.{refused, restore}
use deca_fs.Espresso.Allocator.Coalesce.{release-Spaced, Spaced-Apart}
use deca_fs.Espresso.Allocator.Release.{
  join, release, predecessor-some, release_front, release_touching, release_behind,
}
use deca_fs.Espresso.Allocator.CleanUp.{
  Found, in_front, in_front_refused, release_empty, restore_front, restore_joined, restore_behind,
}

Found-behind :
    (a e : Extent) (es : List Extent) → e.offset < a.offset → Found a es → Found a (e ∷ es)
unfolding Found
Found-behind a e es h (inl (g, p, q)) = inl (g, lower_bound_behind a e es h ∙ p, q)
Found-behind a e es h (inr (g, p)) = inr (g, predecessor_behind a e g es h p)

Found-join : (a : Extent) (es : List Extent) → Found a (join a es)
unfolding Found join
Found-join a [] = inl (a, lower_bound_here a a [] (omega arith), refl)
Found-join a (e ∷ es) =
    let m : Extent = record a { size = a.size + e.size } in
    elim (Bool-cases (e.offset == end_of a)) [
      | inl t ↦ rw t (inl (m, lower_bound_here a m es (omega arith), refl))
      | inr f ↦ rw f (inl (a, lower_bound_here a a (e ∷ es) (omega arith), refl))
    ]

Found-join_lower : (a m : Extent) (es : List Extent) → m.offset < a.offset → Found a (join m es)
unfolding Found join
Found-join_lower a m [] h = inr (predecessor-some a m [] h)
Found-join_lower a m (e ∷ es) h = elim (Bool-cases (e.offset == end_of m)) [
  | inl t ↦ rw t (inr (predecessor-some a _ es h))
  | inr f ↦ rw f (inr (predecessor-some a m (e ∷ es) h))
]

release-Found :
    (a : Extent) (lo : ℕ) (es : List Extent)
    → 0 < a.size
    → Spaced lo es
    → Apart a es
    → Found a (release a es)
release-Found a lo [] p s d = release_empty a (Found a) (Found-join a [])
release-Found a lo (e ∷ es) p s d = elim (dec_lt a.offset e.offset) [
  | yes h ↦ rw (release_front a e es h) (Found-join a (e ∷ es))
  | no h ↦ elim (ℕ_discrete (end_of e) a.offset) [
    | yes t ↦ rw (release_touching a e es t) (Found-join_lower a _ es (omega arith))
    | no t ↦ rw (release_behind a e es (omega arith)) (
        Found-behind a e (release a es) (omega arith)
          (release-Found a (suc (end_of e)) es p s.2 d.1))
  ]
]

pub restore-release :
    (a : Extent) (lo : ℕ) (es : List Extent)
    → 0 < a.size
    → Spaced lo es
    → Apart a es
    → restore a (release a es) ≡ refused es
restore-release a lo [] p s d =
    release_empty a (λ r. restore a r ≡ refused []) (restore_front a [] p tt)
restore-release a lo (e ∷ es) p s d = elim (dec_lt a.offset e.offset) [
  | yes h ↦ rw (release_front a e es h) (restore_front a (e ∷ es) p (omega arith, s.1, s.2))
  | no h ↦ elim (ℕ_discrete (end_of e) a.offset) [
    | yes t ↦ rw (release_touching a e es t) (
        restore_joined a e es p s.1 t
          (Spaced-Apart a es (Spaced-lower _ _ es (omega arith) s.2) d.1))
    | no t ↦ rw (release_behind a e es (omega arith)) (
        restore_behind a e (release a es) (omega arith) s.1
          (release-Spaced a (suc (end_of e)) es (omega arith) p s.2 d.1)
          (release-Found a (suc (end_of e)) es p s.2 d.1)
        ∙ ap (in_front e) (restore-release a (suc (end_of e)) es p s.2 d.1)
        ∙ in_front_refused e es)
  ]
]
