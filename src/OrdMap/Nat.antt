-- ===== src/OrdMap/Nat.antt =====
-- The order of uint32_t keys.
use deca_fs.Prelude.{ltb, arith, ℕ, ◌≡◌, ◌≤◌, refl, true, false, List, [], ◌∷◌, some, dec_lt}
use deca_fs.OrdMap.{IsStrictOrder, equiv, find, last_key}
use deca_fs.OrdMap.Order.{After, Sorted}

ltb_trans : (a b c : ℕ) → ltb a b ≡ true → ltb b c ≡ true → ltb a c ≡ true
ltb_trans a b c h k = ground arith

ltb_connected : (a b : ℕ) → ltb a b ≡ false → ltb b a ≡ false → a ≡ b
ltb_connected a b h k = ground arith

pub ltb-IsStrictOrder : IsStrictOrder ltb
ltb-IsStrictOrder = record {
  irrefl = λ a. ground arith;
  lt_trans = ltb_trans;
  connected = ltb_connected;
}

last_key-above {ℓ} :
    {V : Type ℓ} (j : ℕ) (m : List (ℕ × V)) (v : V)
    → After ltb j m
    → (last : ℕ) × (last_key ((j, v) ∷ m) ≡ some last) × (j ≤ last)
unfolding last_key
last_key-above j [] v a = (j, refl, ground arith)
last_key-above j ((i, u) ∷ m) v (h, a) =
    let (last, p, q) = last_key-above i m u a in (last, p, ground arith)

-- In a map ordered by number no key is above the last one.
pub find-last_key {ℓ} :
    {V : Type ℓ} (m : List (ℕ × V)) (k : ℕ) (v : V)
    → Sorted ltb m
    → find ltb k m ≡ some v
    → (last : ℕ) × (last_key m ≡ some last) × (k ≤ last)
unfolding find equiv last_key
find-last_key [] k v s e = absurd (ground arith)
find-last_key ((j, w) ∷ []) k v s e = (j, refl, ground arith)
find-last_key ((j, w) ∷ (i, u) ∷ m) k v (s, t) e = elim (dec_lt j k) [
  | yes h ↦ find-last_key ((i, u) ∷ m) k v t (ground (arith, e))
  | no h ↦ let (last, p, q) = last_key-above j ((i, u) ∷ m) w (s, t) in (last, p, ground arith)
]
