-- ===== src/OrdMap/Order.antt =====
-- The entries of a map stand in the order of their keys, each key once, and stay so.
use deca_fs.Prelude.{◌≡◌, refl, List, [], ◌∷◌, none, some, Bool, true, arith, ℕ, ◌+◌}
use deca_fs.OrdMap.{IsStrictOrder, equiv, find, assign, erase}
use deca_fs.OrdMap.Laws.{eq_of_equiv}

module _ {ℓ κ} {K : Type ℓ} {V : Type κ} (lt : K → K → Bool) where
  -- The keys rise from `k` on.
  abbrev pub After : K → List (K × V) → Type 0
  After k [] = Unit
  After k ((j, v) ∷ m) = (lt k j ≡ true) × After j m

  abbrev pub Sorted : List (K × V) → Type 0
  Sorted [] = Unit
  Sorted ((k, v) ∷ m) = After k m

module _ {ℓ κ} {K : Type ℓ} {V : Type κ} {lt : K → K → Bool} (o : IsStrictOrder lt) where
  pub After-lower : (i k : K) (m : List (K × V)) → lt i k ≡ true → After lt k m → After lt i m
  After-lower i k [] h a = tt
  After-lower i k ((j, v) ∷ m) h a = (o.lt_trans i k j h a.0, a.1)

  pub After-assign :
      (i k : K) (v : V) (m : List (K × V))
      → lt i k ≡ true
      → After lt i m
      → After lt i (assign lt k v m)
  unfolding assign equiv
  After-assign i k v [] h a = (h, tt)
  After-assign i k v ((j, w) ∷ m) h a = ground (arith, After-assign j k v m, o.connected j k)

  pub Sorted-assign : (k : K) (v : V) (m : List (K × V)) → Sorted lt m → Sorted lt (assign lt k v m)
  unfolding assign equiv
  Sorted-assign k v [] a = tt
  Sorted-assign k v ((j, w) ∷ m) a = ground (arith, After-assign j k v m, o.connected j k)

  pub After-erase : (i k : K) (m : List (K × V)) → After lt i m → After lt i (erase lt k m)
  unfolding erase
  After-erase i k [] a = tt
  After-erase i k ((j, w) ∷ m) a =
      ground (arith, After-erase i k m (After-lower i j m a.0 a.1), After-erase j k m a.1)

  pub Sorted-erase : (k : K) (m : List (K × V)) → Sorted lt m → Sorted lt (erase lt k m)
  unfolding erase
  Sorted-erase k [] a = tt
  Sorted-erase k ((j, w) ∷ []) a = ground arith
  Sorted-erase k ((j, w) ∷ (i, u) ∷ m) a =
      ground (arith, After-erase j k ((i, u) ∷ m) a, Sorted-erase k ((i, u) ∷ m) a.1)

  -- A key before all others is not in the map.
  pub find-After : (k : K) (m : List (K × V)) → After lt k m → find lt k m ≡ none
  unfolding find equiv
  find-After k [] a = refl
  find-After k ((j, v) ∷ m) a = ground (arith, find-After k m (After-lower k j m a.0 a.1))

  pub erase-After : (k : K) (m : List (K × V)) → After lt k m → erase lt k m ≡ m
  unfolding erase equiv
  erase-After k [] a = refl
  erase-After k ((j, v) ∷ m) a = ground (arith, erase-After k m (After-lower k j m a.0 a.1))

module _ {ℓ κ} {K : Type ℓ} {V : Type κ} where
  -- A measure of the values, summed over the map.
  unfoldable pub total : (V → ℕ) → List (K × V) → ℕ
  total f [] = 0
  total f ((k, v) ∷ m) = f v + total f m

module _ {ℓ κ} {K : Type ℓ} {V : Type κ} {lt : K → K → Bool} (o : IsStrictOrder lt) where
  pub total-assign_new :
      (f : V → ℕ) (k : K) (v : V) (m : List (K × V))
      → find lt k m ≡ none
      → total f (assign lt k v m) ≡ f v + total f m
  unfolding total find assign
  total-assign_new f k v [] h = refl
  total-assign_new f k v ((j, w) ∷ m) h = ground (arith, total-assign_new f k v m)

  pub total-assign_old :
      (f : V → ℕ) (k : K) (v w : V) (m : List (K × V))
      → Sorted lt m
      → find lt k m ≡ some w
      → total f (assign lt k v m) + f w ≡ f v + total f m
  unfolding total find assign equiv
  total-assign_old f k v w [] s h = cc
  total-assign_old f k v w ((j, u) ∷ []) s h = ground arith
  total-assign_old f k v w ((j, u) ∷ (i, x) ∷ m) s h = ground (
    arith,
    total-assign_old f k v w ((i, x) ∷ m) s.1,
    find-After o k ((i, x) ∷ m),
    o.lt_trans k j i,
  )

  pub total-erase :
      (f : V → ℕ) (k : K) (w : V) (m : List (K × V))
      → Sorted lt m
      → find lt k m ≡ some w
      → f w + total f (erase lt k m) ≡ total f m
  unfolding total find erase
  total-erase f k w [] s h = cc
  total-erase f k w ((j, u) ∷ []) s h = ground arith
  total-erase f k w ((j, u) ∷ (i, x) ∷ m) s h =
      ground (
        arith,
        total-erase f k w ((i, x) ∷ m) s.1,
        eq_of_equiv o j k,
        erase-After o j ((i, x) ∷ m) s,
      )
