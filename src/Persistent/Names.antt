-- ===== src/Persistent/Names.antt =====
-- The order of std::string: as in a dictionary, a byte for a letter.
use deca_fs.Prelude.{
  ℕ, ◌≡◌, refl, List, [], ◌∷◌, Bool, true, false, ltb, if◌then◌else◌, arith, ℕ_discrete,
}
use deca_fs.OrdMap.{IsStrictOrder}

-- operator< of std::string
unfoldable pub name_lt : List ℕ → List ℕ → Bool
name_lt [] [] = false
name_lt [] (_ ∷ _) = true
name_lt (_ ∷ _) [] = false
name_lt (a ∷ s) (b ∷ t) =
    let rest = name_lt s t in if ltb a b then true else if ltb b a then false else rest

name_lt_irrefl : (s : List ℕ) → name_lt s s ≡ false
unfolding name_lt
name_lt_irrefl [] = refl
name_lt_irrefl (a ∷ s) = ground (arith, name_lt_irrefl s)

name_lt_trans : (r s t : List ℕ) → name_lt r s ≡ true → name_lt s t ≡ true → name_lt r t ≡ true
unfolding name_lt
name_lt_trans [] [] t h k = absurd (ground arith)
name_lt_trans [] (b ∷ s) [] h k = absurd (ground arith)
name_lt_trans [] (b ∷ s) (c ∷ t) h k = refl
name_lt_trans (a ∷ r) [] t h k = absurd (ground arith)
name_lt_trans (a ∷ r) (b ∷ s) [] h k = absurd (ground arith)
name_lt_trans (a ∷ r) (b ∷ s) (c ∷ t) h k = ground (arith, name_lt_trans r s t)

name_lt_connected : (s t : List ℕ) → name_lt s t ≡ false → name_lt t s ≡ false → s ≡ t
unfolding name_lt
name_lt_connected [] [] h k = refl
name_lt_connected [] (b ∷ t) h k = absurd (ground arith)
name_lt_connected (a ∷ s) [] h k = absurd (ground arith)
name_lt_connected (a ∷ s) (b ∷ t) h k = ground (arith, name_lt_connected s t)

pub name_lt-IsStrictOrder : IsStrictOrder name_lt
name_lt-IsStrictOrder = record {
  irrefl = name_lt_irrefl;
  lt_trans = name_lt_trans;
  connected = name_lt_connected;
}

pub name-discrete : Discrete (List ℕ)
name-discrete = hlevel ℕ_discrete
