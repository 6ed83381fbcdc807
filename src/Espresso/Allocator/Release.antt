-- ===== src/Espresso/Allocator/Release.antt =====
-- What deallocate_chunk does to the free set: the extent comes back, joined with its neighbours.
use deca_fs.Prelude.{
  ℕ, suc, ◌+◌, ◌≤◌, ◌<◌, ◌≡◌, ◌∙◌, refl, Option-cases, dec_lt, sym, ap, List, [], ◌∷◌, none, some,
  false, Bool-cases, arith, inl, inr, ltb, ◌==◌, if◌then◌else◌,
}
use deca_fs.Espresso.Extents.{
  Extent, end_of, insert, erase, lower_bound, predecessor, Spaced, Apart,
}
use deca_fs.Espresso.Extents.Laws.{
  Spaced-lower, insert_front, insert_behind, erase_behind, lower_bound_ge, predecessor_ge,
  Spaced-erase, predecessor-erase,
}
use deca_fs.Espresso.Allocator.{merge_after, merge_before, coalesce, joins_after, deallocate_chunk}

-- The extent in front of all the others, joined with the first where they touch.
unfoldable pub join : Extent → List Extent → List Extent
join a [] = a ∷ []
join a (e ∷ es) =
    if e.offset == end_of a then record a { size = a.size + e.size } ∷ es else a ∷ e ∷ es

-- One pass along the list.
unfoldable pub release : Extent → List Extent → List Extent
unfolding join
release a [] = a ∷ []
release a (e ∷ es) =
    if ltb a.offset e.offset
    then join a (e ∷ es)
    else if end_of e == a.offset
    then join (record { offset = e.offset; size = a.size + e.size }) es
    else e ∷ release a es

merge_after_behind :
    (a e : Extent) (es : List Extent)
    → e.offset < a.offset
    → merge_after a (e ∷ es) ≡ ((merge_after a es).0, e ∷ (merge_after a es).1)
unfolding merge_after lower_bound
merge_after_behind a e es h = elim (Option-cases (lower_bound a es)) [
  | inl n ↦ ground arith
  | inr (g, p) ↦ ground (arith, lower_bound_ge a g es p, erase_behind g e es)
]

merge_after_offset : (a : Extent) (es : List Extent) → (merge_after a es).0.offset ≡ a.offset
unfolding merge_after
merge_after_offset a es = ground arith

deallocate_front :
    (a e : Extent) (es : List Extent)
    → a.offset < e.offset
    → 0 < a.size
    → end_of a ≤ e.offset
    → Spaced (suc (end_of e)) es
    → coalesce a (e ∷ es) ≡ join a (e ∷ es)
unfolding coalesce join lower_bound predecessor insert erase
deallocate_front a e [] h p q s = ground arith
deallocate_front a e (f ∷ fs) h p q s = ground arith

merge_before_behind :
    (a e g : Extent) (es : List Extent)
    → e.offset < a.offset
    → Spaced (suc (end_of e)) es
    → predecessor a es ≡ some g
    → merge_before a (e ∷ es) ≡ ((merge_before a es).0, e ∷ (merge_before a es).1)
unfolding merge_before predecessor
merge_before_behind a e g es h s p =
    ground (arith, predecessor_ge (suc (end_of e)) a g es s p, erase_behind g e es)

merge_before_offset :
    (a g : Extent) (lo : ℕ) (es : List Extent)
    → Spaced lo es
    → predecessor a es ≡ some g
    → lo ≤ a.offset
    → lo ≤ (merge_before a es).0.offset
unfolding merge_before
merge_before_offset a g lo es s p h = ground (arith, predecessor_ge lo a g es s p)

-- `predecessor` looks at the offset alone.
predecessor_offset :
    (a b : Extent) (es : List Extent) → a.offset ≡ b.offset → predecessor a es ≡ predecessor b es
unfolding predecessor
predecessor_offset a b [] h = refl
predecessor_offset a b (e ∷ es) h = ground (arith, predecessor_offset a b es h)

pub predecessor-some :
    (a f : Extent) (fs : List Extent)
    → f.offset < a.offset
    → (g : Extent) × (predecessor a (f ∷ fs) ≡ some g)
unfolding predecessor
predecessor-some a f fs h = elim (Option-cases (predecessor a fs)) [
  | inl n ↦ (f, ground arith)
  | inr (g, p) ↦ (g, ground arith)
]

merge_after-Spaced :
    (a : Extent) (lo : ℕ) (es : List Extent) → Spaced lo es → Spaced lo (merge_after a es).1
unfolding merge_after
merge_after-Spaced a lo es s = elim (Option-cases (lower_bound a es)) [
  | inl n ↦ ground arith
  | inr (g, p) ↦ ground (arith, Spaced-erase lo g es s)
]

predecessor-merge_after :
    (a : Extent) (lo : ℕ) (es : List Extent)
    → Spaced lo es
    → predecessor (merge_after a es).0 (merge_after a es).1 ≡ predecessor a es
unfolding merge_after
predecessor-merge_after a lo es s = elim (Option-cases (lower_bound a es)) [
  | inl n ↦ ground arith
  | inr (g, p) ↦ ground (
    arith,
    lower_bound_ge a g es p,
    predecessor-erase a g lo es (lower_bound_ge a g es p) s,
    predecessor_offset a (record a { size = a.size + g.size }) (erase g es),
  )
]

deallocate_behind :
    (a e f : Extent) (fs : List Extent)
    → end_of e ≤ a.offset
    → 0 < e.size
    → f.offset < a.offset
    → Spaced (suc (end_of e)) (f ∷ fs)
    → coalesce a (e ∷ f ∷ fs) ≡ e ∷ coalesce a (f ∷ fs)
unfolding coalesce
deallocate_behind a e f fs h z q s =
    let b = merge_after a (f ∷ fs) in
    let (g, p) = predecessor-some a f fs q in
    let p' = predecessor-merge_after a (suc (end_of e)) (f ∷ fs) s ∙ p in
    let s' = merge_after-Spaced a (suc (end_of e)) (f ∷ fs) s in
    ground (
      arith,
      merge_after_behind a e (f ∷ fs) (omega arith),
      merge_after_offset a (f ∷ fs),
      merge_before_behind b.0 e g b.1,
      merge_before_offset b.0 g (suc (end_of e)) b.1 s' p',
      insert_behind (merge_before b.0 b.1).0 e (merge_before b.0 b.1).1,
      p',
      s',
    )

deallocate_between :
    (a e f : Extent) (fs : List Extent)
    → end_of e ≤ a.offset
    → 0 < e.size
    → end_of a ≤ f.offset
    → 0 < a.size
    → Spaced (suc (end_of f)) fs
    → coalesce a (e ∷ f ∷ fs) ≡ release a (e ∷ f ∷ fs)
unfolding coalesce release lower_bound predecessor insert erase
deallocate_between a e f fs h z q p s =
    let both : Extent = record { offset = e.offset; size = a.size + f.size + e.size } in
    let right : Extent = record { offset = a.offset; size = a.size + f.size } in
    ground (
      arith,
      insert_front both fs (Spaced-lower (suc both.offset) _ fs (omega arith) s),
      insert_front right fs (Spaced-lower (suc right.offset) _ fs (omega arith) s),
    )

deallocate_last :
    (a e : Extent) → end_of e ≤ a.offset → 0 < e.size → coalesce a (e ∷ []) ≡ release a (e ∷ [])
unfolding coalesce release lower_bound predecessor insert erase
deallocate_last a e h z = ground arith

pub release_behind :
    (a e : Extent) (es : List Extent) → end_of e < a.offset → release a (e ∷ es) ≡ e ∷ release a es
unfolding release
release_behind a e es h = ground arith

pub release_touching :
    (a e : Extent) (es : List Extent)
    → end_of e ≡ a.offset
    → release a (e ∷ es) ≡ join (record { offset = e.offset; size = a.size + e.size }) es
unfolding release
release_touching a e es h = ground arith

deallocate_empty : (a : Extent) → coalesce a [] ≡ release a []
unfolding coalesce release lower_bound predecessor insert
deallocate_empty a = refl

pub release_front :
    (a e : Extent) (es : List Extent) → a.offset < e.offset → release a (e ∷ es) ≡ join a (e ∷ es)
unfolding release
release_front a e es h = ground arith

-- The two joins are one pass along the set.
pub coalesce-release :
    (a : Extent) (lo : ℕ) (free : List Extent)
    → 0 < a.size
    → Spaced lo free
    → Apart a free
    → coalesce a free ≡ release a free
coalesce-release a lo [] p s d = deallocate_empty a
coalesce-release a lo (e ∷ []) p s d = elim (dec_lt a.offset e.offset) [
  | yes h ↦ deallocate_front a e [] h p (omega arith) s.2 ∙ sym (release_front a e [] h)
  | no h ↦ deallocate_last a e (omega arith) s.1
]
coalesce-release a lo (e ∷ f ∷ fs) p s d =
    let ih = coalesce-release a (suc (end_of e)) (f ∷ fs) p s.2 d.1 in
    elim (dec_lt a.offset e.offset) [
      | yes h ↦
          deallocate_front a e (f ∷ fs) h p (omega arith) s.2 ∙ sym (release_front a e (f ∷ fs) h)
      | no h ↦ elim (dec_lt a.offset f.offset) [
        | yes q ↦ deallocate_between a e f fs (omega arith) s.1 (omega arith) p s.2.2
        | no q ↦
            deallocate_behind a e f fs (omega arith) s.1 (omega arith) s.2
            ∙ ap (◌∷◌ e) ih
            ∙ sym (release_behind a e (f ∷ fs) (omega arith))
      ]
    ]

pub coalesce_alone :
    (a : Extent) (free : List Extent)
    → joins_after a free ≡ false
    → deallocate_chunk a free ≡ some (coalesce a free)
unfolding deallocate_chunk coalesce joins_after merge_after
coalesce_alone a free h = elim (Option-cases (lower_bound a free)) [
  | inl n ↦ ground (arith, n)
  | inr (e, p) ↦ ground (arith, p, h)
]

-- Giving back an extent that is not empty and shares no byte with a well-spaced free set: where a
-- free extent starts at its end, this is undefined. Else it is one pass along the set: the extent goes
-- in its place and is joined with the free extent that ends at its start, if there is one.
pub deallocate_chunk-release :
    (a : Extent) (lo : ℕ) (free : List Extent)
    → 0 < a.size
    → Spaced lo free
    → Apart a free
    → deallocate_chunk a free ≡ (if joins_after a free then none else some (release a free))
unfolding deallocate_chunk
deallocate_chunk-release a lo free p s d = elim (Bool-cases (joins_after a free)) [
  | inl h ↦ ground (arith, h)
  | inr h ↦ ground (arith, h, coalesce_alone a free h, coalesce-release a lo free p s d)
]
