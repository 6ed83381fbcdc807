-- ===== src/IoManager/Locate.antt =====
-- Where an offset lies: after the stripes or chunks that it passes.
use deca_fs.Prelude.{
  ℕ, zero, suc, ◌+◌, ◌-◌, ◌*◌, ◌%◌, ◌≤◌, ◌<◌, ◌^◌, ◌≡◌, true, false, ◌⊎◌, some, ltb, arith,
  Bool-cases, inl, inr,
}
use deca_fs.Prelude.Int.{word_mod, lt_int}
use deca_fs.IoManager.{locate, get_first, id_init}

locate_lem :
    (fuel size id offset : ℕ)
    → 0 < size
    → size < 2 ^ 31
    → offset < 2 ^ 31
    → offset < fuel
    → id + offset < word_mod
    → (k o : ℕ) × (locate fuel size id offset ≡ some (id + k, o))
      × (k * size + o ≡ offset)
      × (o ≤ size)
      × ((offset ≡ 0) ⊎ (0 < o))
unfolding locate
locate_lem zero size id offset z v u f w = absurd (omega arith)
locate_lem (suc fuel) size id offset z v u f w = elim (Bool-cases (ltb size offset)) [
  | inl more ↦
      let (k, o, e, a, b, c) =
        locate_lem fuel size ((id + 1) % word_mod) (offset - size) z v (omega arith) (ground arith)
          (ground arith) in
      let test : lt_int size offset ≡ true = ground (arith, more) in
      let less : (offset + (word_mod - size)) % word_mod ≡ offset - size = ground (arith, more) in
      let w' : (id + 1) % word_mod ≡ id + 1 = ground arith in
      let n : id + 1 + k ≡ id + suc k = omega arith in
      (suc k, o, ground (arith, e, n, test, less), grind arith, b, inr (ground (arith, c, more)))
  | inr done ↦
      let test : lt_int size offset ≡ false = ground (arith, done) in
      (0, offset, ground (arith, test), omega arith, ground arith, ground arith)
]

-- For a size from 1 to 2^31 - 1 and an offset that is no negative int, the loop of get_first_chunk and of
-- get_first_stripe ends. The id is 1 more than the number of whole sizes passed, and the offset that is
-- left is at most the size, and is 0 for the offset 0 only: at a border it is the whole size.
pub get_first_lem :
    (size offset : ℕ)
    → 0 < size
    → size < 2 ^ 31
    → offset < 2 ^ 31
    → (k o : ℕ) × (get_first size offset ≡ some (suc k, o))
      × (k * size + o ≡ offset)
      × (o ≤ size)
      × ((offset ≡ 0) ⊎ (0 < o))
unfolding get_first
get_first_lem size offset z v u =
    let (k, o, e, a, b, c) =
      locate_lem (suc offset) size id_init offset z v u (omega arith) (omega arith) in
    let n : 1 + k ≡ suc k = omega arith in (k, o, rw (← n) e, a, b, c)
