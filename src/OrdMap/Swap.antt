-- ===== src/OrdMap/Swap.antt =====
-- A map does not remember in which order its entries came.
use mathlib.Core.List.{
  Perm, Permᴰ, Pairwise, Mem, mem-cons_self, not-mem-nil, eq-or-mem_of_mem-cons,
}
use mathlib.Core.List.Permᴰ
use mathlib.Core.Logic.Or
use mathlib.Core.Logic.{∥∥₁_elim}
use mathlib.Core.HLevel.{¬_prop}
use deca_fs.Prelude.{◌≡◌, ◌≢◌, ◌∙◌, refl, sym, ap, List, [], ◌∷◌, Bool, true, arith}
use deca_fs.OrdMap.{IsStrictOrder, equiv, assign}
use deca_fs.OrdMap.Order.{After, After-lower, Sorted}

module _ {ℓ κ} {K : Type ℓ} {V : Type κ} (lt : K → K → Bool) where
  -- The entries put into the map one after the other
  unfoldable pub enter : List (K × V) → List (K × V) → List (K × V)
  enter [] m = m
  enter ((k, v) ∷ es) m = enter es (assign lt k v m)

module _ {ℓ κ} {K : Type ℓ} {V : Type κ} {lt : K → K → Bool} (o : IsStrictOrder lt) where
  pub assign-assign_swap :
      (i j : K) (v w : V) (m : List (K × V))
      → i ≢ j
      → assign lt i v (assign lt j w m) ≡ assign lt j w (assign lt i v m)
  unfolding assign equiv
  assign-assign_swap i j v w [] h = ground (arith, o.connected i j, o.lt_trans i j i, o.irrefl i)
  assign-assign_swap i j v w ((k, u) ∷ m) h = ground (
    arith,
    assign-assign_swap i j v w m h,
    o.connected i j,
    o.connected i k,
    o.connected j k,
    o.connected k j,
    o.connected k i,
    o.lt_trans i j i,
    o.lt_trans i j k,
    o.lt_trans j i k,
    o.lt_trans k i j,
    o.lt_trans k j i,
    o.lt_trans i k j,
    o.lt_trans j k i,
    o.irrefl i,
  )

  -- No two entries have one key.
  abbrev pub Apart : List (K × V) → Type (ℓ ⊔ κ)
  Apart = Pairwise (λ (a b : K × V). a.0 ≢ b.0)

  enter_permᴰ :
      {es fs : List (K × V)} (m : List (K × V))
      → Permᴰ es fs
      → Apart es
      → enter lt es m ≡ enter lt fs m
  unfolding enter
  enter_permᴰ m Permᴰ.nil h = refl
  enter_permᴰ m (Permᴰ.cons {a = a} e p) (Pairwise.cons _ h) =
      rw (sym e) (enter_permᴰ (assign lt a.0 a.1 m) p h)
  enter_permᴰ m (Permᴰ.swap {a = a} {b = b} {l = l} e f) (Pairwise.cons d h) =
      rw (sym e, sym f)
        (ap (enter lt l) (assign-assign_swap b.0 a.0 b.1 a.1 m (λ q. d b mem-cons_self (sym q))))
  enter_permᴰ m (Permᴰ.trans p q) h =
      enter_permᴰ m p h
      ∙ enter_permᴰ m q (Permᴰ.pairwise (λ a b. ¬_prop) (λ a b n e. n (sym e)) p h)

  pub enter_perm :
      (set : IsSet (List (K × V))) (es fs m : List (K × V))
      → Perm es fs
      → Apart es
      → enter lt es m ≡ enter lt fs m
  enter_perm set es fs m p h =
      ∥∥₁_elim p (set (enter lt es m) (enter lt fs m)) (λ d. enter_permᴰ m d h)

  sorted_of_after : (k : K) (m : List (K × V)) → After lt k m → Sorted lt m
  sorted_of_after k [] a = tt
  sorted_of_after k ((j, w) ∷ m) (h, a) = a

  enter-assign :
      (k : K) (v : V) (es m : List (K × V))
      → After lt k es
      → enter lt es (assign lt k v m) ≡ assign lt k v (enter lt es m)
  unfolding enter
  enter-assign k v [] m a = refl
  enter-assign k v ((j, w) ∷ es) m (h, a) =
      ap (enter lt es) (assign-assign_swap j k w v m (λ q. ground (arith, h, o.irrefl j, q)))
      ∙ enter-assign k v es (assign lt j w m) (After-lower o k j es h a)

  assign-After : (k : K) (v : V) (m : List (K × V)) → After lt k m → assign lt k v m ≡ (k, v) ∷ m
  unfolding assign equiv
  assign-After k v [] a = refl
  assign-After k v ((j, w) ∷ m) (h, a) = ground (arith, o.lt_trans k j k, o.irrefl k)

  -- Entries in order are the map that they make.
  pub enter_sorted : (es : List (K × V)) → Sorted lt es → enter lt es [] ≡ es
  unfolding enter
  enter_sorted [] a = refl
  enter_sorted ((k, v) ∷ es) a =
      enter-assign k v es [] a
      ∙ ap (assign lt k v) (enter_sorted es (sorted_of_after k es a))
      ∙ assign-After k v es a

  ahead_of_member :
      (k : K) (e : K × V) (es : List (K × V)) → Mem e es → After lt k es → lt k e.0 ≡ true
  ahead_of_member k e [] m a = absurd (not-mem-nil m)
  ahead_of_member k e ((j, w) ∷ es) m (h, a) =
      Or.elim (hlevel) (eq-or-mem_of_mem-cons m) (λ q. rw q h)
        (λ m'. o.lt_trans k j e.0 h (ahead_of_member j e es m' a))

  pub Sorted-Apart : (es : List (K × V)) → Sorted lt es → Apart es
  Sorted-Apart [] a = Pairwise.nil
  Sorted-Apart ((k, v) ∷ es) a =
      Pairwise.cons (λ e m q. ground (arith, ahead_of_member k e es m a, o.irrefl k, q))
        (Sorted-Apart es (sorted_of_after k es a))
