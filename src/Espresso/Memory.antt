-- ===== src/Espresso/Memory.antt =====
-- A data file in memory, which is reliable, and a node with two chunks on it, for the tests.
use deca_fs.Prelude.{
  ℕ, zero, suc, ◌+◌, ◌≤◌, ◌<◌, ◌≡◌, ◌⊎◌, ◌∙◌, refl, ap, List, [], ◌∷◌, some, ltb, ◌==◌,
  if◌then◌else◌, arith, take, length,
}
use deca_fs.OrdMap.{find}
use deca_fs.OrdMap.Order.{Sorted, total}
use deca_fs.Espresso.Extents.{Extent, cover, within}
use deca_fs.Espresso.Descriptor.{Descriptor, descriptor_lt}
use deca_fs.Espresso.Storage.{DataFile, Store}
use deca_fs.Espresso.Storage.Cases.{HasLayout}
use deca_fs.Espresso.Storage.Contents.{IsReliable}

-- A file that never ends: a byte at each offset.
abbrev pub cells : (ℕ → ℕ) → ℕ → ℕ → List ℕ
cells f p zero = []
cells f p (suc n) = f p ∷ cells f (p + 1) n

abbrev pub set : ℕ → ℕ → (ℕ → ℕ) → ℕ → ℕ
set p b f q = if q == p then b else f q

abbrev pub overlay : ℕ → List ℕ → (ℕ → ℕ) → ℕ → ℕ
overlay p [] f = f
overlay p (b ∷ bs) f = set p b (overlay (p + 1) bs f)

abbrev pub memory : DataFile
memory = record {
  File = ℕ → ℕ;
  read_at = λ f p n. some (cells f p n);
  write_at = λ f p bs. (some (length bs), overlay p bs f);
}

cells-set_apart :
    (p b q n : ℕ) (f : ℕ → ℕ) → (p < q) ⊎ (q + n ≤ p) → cells (set p b f) q n ≡ cells f q n
cells-set_apart p b q zero f h = refl
cells-set_apart p b q (suc n) f h = ground (arith, cells-set_apart p b (q + 1) n f)

cells-overlay_apart :
    (p q n : ℕ) (bs : List ℕ) (f : ℕ → ℕ)
    → (q + n ≤ p) ⊎ (p + length bs ≤ q)
    → cells (overlay p bs f) q n ≡ cells f q n
cells-overlay_apart p q n [] f h = refl
cells-overlay_apart p q n (b ∷ bs) f h =
    cells-set_apart p b q n (overlay (p + 1) bs f) (ground arith)
    ∙ cells-overlay_apart (p + 1) q n bs f (ground arith)

cells-overlay : (p : ℕ) (bs : List ℕ) (f : ℕ → ℕ) → cells (overlay p bs f) p (length bs) ≡ bs
cells-overlay p [] f = refl
cells-overlay p (b ∷ bs) f =
    let rest =
      cells-set_apart p b (p + 1) (length bs) (overlay (p + 1) bs f) (ground arith)
      ∙ cells-overlay (p + 1) bs f in
    ground (arith, rest)

take-cells : (f : ℕ → ℕ) (p n m : ℕ) → m ≤ n → take m (cells f p n) ≡ cells f p m
take-cells f p n zero h = refl
take-cells f p zero (suc m) h = absurd (omega arith)
take-cells f p (suc n) (suc m) h = ground (arith, take-cells f (p + 1) n m)

pub memory-IsReliable : IsReliable memory
memory-IsReliable = record {
  reads = λ f p n. (cells f p n, refl);
  read_prefix = λ f p n m xs e h. ground (arith, take-cells f p n m h, e);
  writes_all = λ f p bs. refl;
  read-write = λ f p bs. ap some (cells-overlay p bs f);
  read-write_apart = λ f p q n bs xs e l h. ap some (cells-overlay_apart p q n bs f h) ∙ e;
}

-- Two chunks of 10 bytes, and 80 bytes free behind them.
abbrev pub first : Descriptor
first = record { file_id = 1; stripe_id = 1; chunk_num = 1 }

abbrev pub second : Descriptor
second = record { file_id = 1; stripe_id = 1; chunk_num = 2 }

abbrev pub at_0 : Extent
at_0 = record { offset = 0; size = 10 }

abbrev pub at_10 : Extent
at_10 = record { offset = 10; size = 10 }

abbrev pub rest : Extent
rest = record { offset = 20; size = 80 }

abbrev pub node : Store (ℕ → ℕ)
node = record {
  file = λ i. i;
  metadata = (first, at_0) ∷ (second, at_10) ∷ [];
  free_extents = rest ∷ [];
}

node-Sorted : Sorted descriptor_lt node.metadata
unfolding descriptor_lt
node-Sorted = (refl, tt)

node-nonempty :
    (c : Descriptor) (a : Extent) → find descriptor_lt c node.metadata ≡ some a → 0 < a.size
unfolding find
node-nonempty c a h = ground arith

node-shared_out :
    (b : ℕ)
    → cover b node.free_extents + total (within b) node.metadata ≡ (if ltb b 100 then 1 else 0)
unfolding cover total
node-shared_out b = ground arith

pub node-HasLayout : HasLayout 100 node
node-HasLayout = record {
  small = omega arith;
  sorted = node-Sorted;
  spaced = omega arith;
  nonempty = node-nonempty;
  shared_out = node-shared_out;
}
