-- ===== src/Barista/Gathered/Keys.antt =====
-- The packets of one stripe in a map under operator< of file_chunk: it tells them apart by their chunk
-- numbers, as the order by file, stripe and number does.
use deca_fs.Prelude.{ℕ, ◌≡◌, ◌∙◌, refl, ap, List, [], ◌∷◌, arith, All, Bool-cases, inl, inr}
use deca_fs.OrdMap.{equiv, assign}
use deca_fs.OrdMap.Swap.{enter}
use deca_fs.Types.File.{FileChunk, file_chunk_lt, by_number}

abbrev pub InStripe : ℕ → ℕ → FileChunk → Type 0
InStripe f t c = (c.file_id ≡ f) × (c.stripe_id ≡ t)

module _ (f t : ℕ) where
  abbrev Packets : List (FileChunk × List ℕ) → Type 0
  Packets m = All (λ (x : FileChunk × List ℕ). InStripe f t x.0) m

  lt_same : (a b : FileChunk) → InStripe f t a → InStripe f t b → file_chunk_lt a b ≡ by_number a b
  unfolding file_chunk_lt by_number
  lt_same a b h k = ground (arith, h.0, h.1, k.0, k.1)

  assign_same :
      (c : FileChunk) (v : List ℕ) (m : List (FileChunk × List ℕ))
      → InStripe f t c
      → Packets m
      → assign file_chunk_lt c v m ≡ assign by_number c v m
  unfolding assign equiv
  assign_same c v [] h k = refl
  assign_same c v ((j, w) ∷ m) h k =
      ground (arith, lt_same c j h k.0, lt_same j c k.0 h, assign_same c v m h k.1)

  assign-Packets :
      (c : FileChunk) (v : List ℕ) (m : List (FileChunk × List ℕ))
      → InStripe f t c
      → Packets m
      → Packets (assign by_number c v m)
  unfolding assign
  assign-Packets c v [] h k = (h, tt)
  assign-Packets c v ((j, w) ∷ m) h k = elim (Bool-cases (equiv by_number j c)) [
    | inl s ↦ rw s (k.0, k.1)
    | inr d ↦ elim (Bool-cases (by_number c j)) [
      | inl b ↦ rw (d, b) (h, k)
      | inr a ↦ rw (d, a) (k.0, assign-Packets c v m h k.1)
    ]
  ]

  pub enter_same :
      (es m : List (FileChunk × List ℕ))
      → Packets es
      → Packets m
      → enter file_chunk_lt es m ≡ enter by_number es m
  unfolding enter
  enter_same [] m h k = refl
  enter_same ((c, v) ∷ es) m h k =
      ap (enter file_chunk_lt es) (assign_same c v m h.0 k)
      ∙ enter_same es (assign by_number c v m) h.1 (assign-Packets c v m h.0 k)
