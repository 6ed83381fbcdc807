-- ===== src/Types/Client.antt =====
-- lib/decafs_types/ip_address.h: who asks. An address is its text up to the terminator; a connection is
-- the address of its ConnectionToClient, with 0 for NULL.
use deca_fs.Prelude.{ℕ, ◌≡◌, ◌↔◌, Bool, true, ◌&&◌, ◌==◌, List, [], ◌∷◌, arith, false, refl}

pub record Client : Type 0 where
  pub ip : List ℕ
  pub user_id : ℕ
  pub ctc : ℕ

-- strcmp (a, b) == 0, operator== of ip_address
unfoldable pub same_ip : List ℕ → List ℕ → Bool
same_ip [] [] = true
same_ip (x ∷ xs) (y ∷ ys) = x == y && same_ip xs ys
same_ip _ _ = false

pub eq_of_same_ip : (a b : List ℕ) → same_ip a b ≡ true → a ≡ b
unfolding same_ip
eq_of_same_ip [] [] h = refl
eq_of_same_ip [] (y ∷ ys) h = cc
eq_of_same_ip (x ∷ xs) [] h = cc
eq_of_same_ip (x ∷ xs) (y ∷ ys) h = ground (arith, eq_of_same_ip xs ys)

pub same_ip_self : (a : List ℕ) → same_ip a a ≡ true
unfolding same_ip
same_ip_self [] = refl
same_ip_self (x ∷ xs) = ground (arith, same_ip_self xs)

-- operator== of client
unfoldable pub same_client : Client → Client → Bool
same_client a b = same_ip a.ip b.ip && a.user_id == b.user_id && a.ctc == b.ctc

pub same_client_iff : (a b : Client) → (same_client a b ≡ true) ↔ (a ≡ b)
unfolding same_client
same_client_iff a b =
    (λ h. ground (arith, eq_of_same_ip a.ip b.ip), λ h. ground (arith, same_ip_self a.ip))
