-- ===== src/Espresso/Storage/Invariant.antt =====
-- The layout of the data file: chunks and free extents share it out byte by byte.
use deca_fs.Prelude.{
  ℕ, ◌+◌, ◌-◌, ◌≤◌, ◌<◌, ◌^◌, ◌≡◌, ◌≢◌, ◌∙◌, ◌⊎◌, sym, List, none, some, ltb, if◌then◌else◌, arith,
}
use deca_fs.OrdMap.{find, assign, erase}
use deca_fs.OrdMap.Laws.{find-assign_self, find-assign_ne, find-erase_self, find-erase_ne}
use deca_fs.OrdMap.Order.{
  Sorted, Sorted-assign, Sorted-erase, total, total-assign_new, total-assign_old, total-erase,
}
use deca_fs.Espresso.Extents.{Extent, end_of, Spaced, Apart, cover, within}
use deca_fs.Espresso.Extents.Laws.{Apart-cover}
use deca_fs.Espresso.Descriptor.{
  Descriptor, descriptor_lt, Descriptor-discrete, descriptor_lt-IsStrictOrder as order,
}
use deca_fs.Espresso.Allocator.{coalesce}
use deca_fs.Espresso.Allocator.Coalesce.{coalesce-Spaced, cover-coalesce}

-- Of the first `limit` bytes of the data file each lies in one chunk or one free extent, and in no
-- more; no byte behind them lies in any. Their number is an int. Chunks are not empty, free extents neither, and no two free
-- extents touch. The metadata names each chunk once.
pub record IsLayout (limit : ℕ) (chunks : List (Descriptor × Extent)) (free : List Extent)
    : Type 0 where
  pub small : limit < 2 ^ 31
  pub sorted : Sorted descriptor_lt chunks
  pub spaced : Spaced 0 free
  pub nonempty : (c : Descriptor) (a : Extent) → find descriptor_lt c chunks ≡ some a → 0 < a.size
  pub shared_out : (b : ℕ) → cover b free + total (within b) chunks ≡ (if ltb b limit then 1 else 0)

total-find-le :
    (f : Extent → ℕ) (c : Descriptor) (a : Extent) (m : List (Descriptor × Extent))
    → Sorted descriptor_lt m
    → find descriptor_lt c m ≡ some a
    → f a ≤ total f m
total-find-le f c a m s h = omega (arith, total-erase order f c a m s h)

total-find-le₂ :
    (f : Extent → ℕ) (c e : Descriptor) (a b : Extent) (m : List (Descriptor × Extent))
    → Sorted descriptor_lt m
    → c ≢ e
    → find descriptor_lt c m ≡ some a
    → find descriptor_lt e m ≡ some b
    → f a + f b ≤ total f m
total-find-le₂ f c e a b m s n h k = omega (
  arith,
  total-erase order f c a m s h,
  total-find-le f e b (erase descriptor_lt c m) (Sorted-erase order c m s)
      (find-erase_ne order c e m n ∙ k),
)

module _ (limit : ℕ) (chunks : List (Descriptor × Extent)) (free : List Extent)
    (v : IsLayout limit chunks free) where
  -- A chunk is apart from the free extents.
  pub chunk-Apart :
      (c : Descriptor) (a : Extent) → find descriptor_lt c chunks ≡ some a → Apart a free
  chunk-Apart c a h =
      Apart-cover a free (v.nonempty c a h)
        (λ b. ground (arith, v.shared_out b, total-find-le (within b) c a chunks v.sorted h)) 0
        v.spaced

  -- Two chunks are apart.
  pub chunks_apart :
      (c e : Descriptor) (a b : Extent)
      → c ≢ e
      → find descriptor_lt c chunks ≡ some a
      → find descriptor_lt e chunks ≡ some b
      → (end_of a ≤ b.offset) ⊎ (end_of b ≤ a.offset)
  chunks_apart c e a b n h k = ground (
    arith,
    v.nonempty c a h,
    v.nonempty e b k,
    v.shared_out a.offset,
    v.shared_out b.offset,
    total-find-le₂ (within a.offset) c e a b chunks v.sorted n h k,
    total-find-le₂ (within b.offset) c e a b chunks v.sorted n h k,
  )

  -- A chunk lies within the first `limit` bytes.
  pub chunk_bounds :
      (c : Descriptor) (a : Extent) → find descriptor_lt c chunks ≡ some a → end_of a ≤ limit
  chunk_bounds c a h =
      let b = end_of a - 1 in
      ground
        (arith, v.nonempty c a h, v.shared_out b, total-find-le (within b) c a chunks v.sorted h)

  nonempty-assign :
      (c e : Descriptor) (a g : Extent)
      → 0 < a.size
      → find descriptor_lt e (assign descriptor_lt c a chunks) ≡ some g
      → 0 < g.size
  nonempty-assign c e a g p q = elim (Descriptor-discrete c e) [
    | yes same ↦ ground (arith, find-assign_self order c a chunks)
    | no other ↦ v.nonempty e g (sym (find-assign_ne order c e a chunks other) ∙ q)
  ]

  nonempty-erase :
      (c e : Descriptor) (g : Extent)
      → find descriptor_lt e (erase descriptor_lt c chunks) ≡ some g
      → 0 < g.size
  nonempty-erase c e g q = elim (Descriptor-discrete c e) [
    | yes same ↦ ground (arith, find-erase_self order c chunks)
    | no other ↦ v.nonempty e g (sym (find-erase_ne order c e chunks other) ∙ q)
  ]

  pub new_chunk-IsLayout :
      (c : Descriptor) (a : Extent) (free' : List Extent)
      → find descriptor_lt c chunks ≡ none
      → 0 < a.size
      → Spaced 0 free'
      → ((b : ℕ) → cover b free ≡ within b a + cover b free')
      → IsLayout limit (assign descriptor_lt c a chunks) free'
  new_chunk-IsLayout c a free' h p s e = record {
    small = v.small;
    sorted = Sorted-assign order c a chunks v.sorted;
    spaced = s;
    nonempty = λ d g. nonempty-assign c d a g p;
    shared_out =
        λ b. omega (arith, e b, v.shared_out b, total-assign_new order (within b) c a chunks h);
  }

  -- A chunk moves, and its old bytes and the old free set share out the same bytes as the new ones.
  pub moved_chunk-IsLayout :
      (c : Descriptor) (a a' : Extent) (free' : List Extent)
      → find descriptor_lt c chunks ≡ some a
      → 0 < a'.size
      → Spaced 0 free'
      → ((b : ℕ) → within b a' + cover b free' ≡ within b a + cover b free)
      → IsLayout limit (assign descriptor_lt c a' chunks) free'
  moved_chunk-IsLayout c a a' free' h p s e = record {
    small = v.small;
    sorted = Sorted-assign order c a' chunks v.sorted;
    spaced = s;
    nonempty = λ d g. nonempty-assign c d a' g p;
    shared_out = λ b.
        omega
          (arith, e b, v.shared_out b, total-assign_old order (within b) c a' a chunks v.sorted h);
  }

  pub deleted_chunk-IsLayout :
      (c : Descriptor) (a : Extent)
      → find descriptor_lt c chunks ≡ some a
      → IsLayout limit (erase descriptor_lt c chunks) (coalesce a free)
  deleted_chunk-IsLayout c a h = record {
    small = v.small;
    sorted = Sorted-erase order c chunks v.sorted;
    spaced = coalesce-Spaced a free (v.nonempty c a h) v.spaced (chunk-Apart c a h);
    nonempty = λ d g. nonempty-erase c d g;
    shared_out = λ b. omega (
      arith,
      v.shared_out b,
      total-erase order (within b) c a chunks v.sorted h,
      cover-coalesce b a free (v.nonempty c a h) v.spaced (chunk-Apart c a h),
    );
  }
