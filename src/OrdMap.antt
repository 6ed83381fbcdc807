-- ===== src/OrdMap.antt =====
-- std::map and std::set as the sources use them: entries in the order of a comparator `lt`, two keys
-- being one when neither is before the other. An operation is that of the class by its name.
pub mod Laws
pub mod Order
pub mod Nat
pub mod Swap
use deca_fs.Prelude.{
  ◌≡◌, List, [], ◌∷◌, Option, none, some, Bool, true, false, not, ◌&&◌, if◌then◌else◌,
}

-- A strict total order, which std::map asks of its comparator.
pub record IsStrictOrder {ℓ} {K : Type ℓ} (lt : K → K → Bool) : Type ℓ where
  pub irrefl : (a : K) → lt a a ≡ false
  pub lt_trans : (a b c : K) → lt a b ≡ true → lt b c ≡ true → lt a c ≡ true
  pub connected : (a b : K) → lt a b ≡ false → lt b a ≡ false → a ≡ b

-- No key is before itself.
abbrev pub IsIrreflexive {ℓ} : {K : Type ℓ} → (K → K → Bool) → Type ℓ
IsIrreflexive {K} lt = (a : K) → lt a a ≡ false

module _ {ℓ} {K : Type ℓ} (lt : K → K → Bool) where
  -- Neither key is before the other.
  unfoldable pub equiv : K → K → Bool
  equiv a b = not (lt a b) && not (lt b a)

module _ {ℓ κ} {K : Type ℓ} {V : Type κ} (lt : K → K → Bool) where
  unfoldable pub find : K → List (K × V) → Option V
  find k [] = none
  find k ((j, v) ∷ m) = if equiv lt j k then some v else find k m

  -- `m[k] = v`
  unfoldable pub assign : K → V → List (K × V) → List (K × V)
  assign k v [] = (k, v) ∷ []
  assign k v ((j, w) ∷ m) =
      if equiv lt j k
      then (j, v) ∷ m
      else if lt k j
      then (k, v) ∷ (j, w) ∷ m
      else (j, w) ∷ assign k v m

  unfoldable pub erase : K → List (K × V) → List (K × V)
  erase k [] = []
  erase k ((j, v) ∷ m) = if equiv lt j k then erase k m else (j, v) ∷ erase k m

module _ {ℓ κ} {K : Type ℓ} {V : Type κ} where
  -- `m.rbegin()->first`
  unfoldable pub last_key : List (K × V) → Option K
  last_key [] = none
  last_key ((k, v) ∷ []) = some k
  last_key (e ∷ f ∷ m) = last_key (f ∷ m)
