-- ===== src/OrdMap/Laws.antt =====
-- The laws of the map operations under a strict total order, and one under any irreflexive comparator.
use deca_fs.Prelude.{◌≡◌, ◌≢◌, refl, List, [], ◌∷◌, none, some, Bool, true, false, arith}
use deca_fs.OrdMap.{IsStrictOrder, IsIrreflexive, equiv, find, assign, erase}

module _ {ℓ} {K : Type ℓ} {lt : K → K → Bool} (o : IsStrictOrder lt) where
  pub equiv_self : (a : K) → equiv lt a a ≡ true
  unfolding equiv
  equiv_self a = ground (arith, o.irrefl a)

  pub eq_of_equiv : (a b : K) → equiv lt a b ≡ true → a ≡ b
  unfolding equiv
  eq_of_equiv a b h = ground (arith, o.connected a b)

  pub equiv_ne : (a b : K) → a ≢ b → equiv lt a b ≡ false
  equiv_ne a b h = ground (arith, eq_of_equiv a b)

equiv_same {ℓ} :
    {K : Type ℓ} → (lt : K → K → Bool) → IsIrreflexive lt → (a : K) → equiv lt a a ≡ true
unfolding equiv
equiv_same lt o a = ground (arith, o a)

-- Under a comparator that is no order, but has no key before itself, what is assigned is found.
pub find-assign_irreflexive {ℓ κ} :
    {K : Type ℓ} {V : Type κ} (lt : K → K → Bool)
    → IsIrreflexive lt
    → (k : K) (v : V) (m : List (K × V)) → find lt k (assign lt k v m) ≡ some v
unfolding find assign
find-assign_irreflexive lt o k v [] = ground (arith, equiv_same lt o k)
find-assign_irreflexive lt o k v ((j, w) ∷ m) =
    ground (arith, equiv_same lt o k, find-assign_irreflexive lt o k v m)

module _ {ℓ κ} {K : Type ℓ} {V : Type κ} {lt : K → K → Bool} (o : IsStrictOrder lt) where
  pub find-assign_self : (k : K) (v : V) (m : List (K × V)) → find lt k (assign lt k v m) ≡ some v
  find-assign_self = find-assign_irreflexive lt o.irrefl

  pub find-assign_ne :
      (k j : K) (v : V) (m : List (K × V)) → k ≢ j → find lt j (assign lt k v m) ≡ find lt j m
  unfolding find assign
  find-assign_ne k j v [] h = ground (arith, equiv_ne o k j)
  find-assign_ne k j v ((i, w) ∷ m) h =
      ground (arith, equiv_ne o k j, eq_of_equiv o i k, find-assign_ne k j v m)

  pub find-erase_self : (k : K) (m : List (K × V)) → find lt k (erase lt k m) ≡ none
  unfolding find erase
  find-erase_self k [] = refl
  find-erase_self k ((j, w) ∷ m) = ground (arith, find-erase_self k m)

  pub find-erase_ne : (k j : K) (m : List (K × V)) → k ≢ j → find lt j (erase lt k m) ≡ find lt j m
  unfolding find erase
  find-erase_ne k j [] h = refl
  find-erase_ne k j ((i, w) ∷ m) h =
      ground (arith, eq_of_equiv o i k, equiv_ne o k j, find-erase_ne k j m)
