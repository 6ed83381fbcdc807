-- ===== src/IoManager/Erased/Entries.antt =====
-- The entries of a map of chunks once the chunks of a file are erased, one after the other.
use deca_fs.Prelude.{
  ℕ, ◌≡◌, ◌≢◌, ◌∙◌, inl, inr, refl, sym, All, ℕ_discrete, List, [], ◌∷◌, none, Bool, true, false,
  ◌||◌, ◌==◌, if◌then◌else◌, arith, Bool-cases,
}
use deca_fs.OrdMap.{IsIrreflexive, equiv, find, erase}
use deca_fs.Types.File.{FileChunk}
use deca_fs.IoManager.Deletes.{chunks_of}

abbrev pub Of : (FileChunk → Type 0) → List (FileChunk × ℕ) → Type 0
Of P m = All (λ (x : FileChunk × ℕ). P x.0) m

pub all_map :
    (P Q : FileChunk → Type 0) (m : List (FileChunk × ℕ))
    → ((c : FileChunk) → P c → Q c)
    → Of P m
    → Of Q m
all_map P Q [] f h = tt
all_map P Q ((c, v) ∷ m) f h = (f c h.0, all_map P Q m f h.1)

pub chunks_of-All :
    (f : ℕ) (m : List (FileChunk × ℕ)) → All (λ (c : FileChunk). c.file_id ≡ f) (chunks_of f m)
unfolding chunks_of
chunks_of-All f [] = tt
chunks_of-All f ((c, v) ∷ m) = elim (Bool-cases (c.file_id == f)) [
  | inl t ↦ rw t (ground (arith, t), chunks_of-All f m)
  | inr d ↦ rw d (chunks_of-All f m)
]

module _ (lt : FileChunk → FileChunk → Bool) where
  -- A chunk is one of those listed.
  unfoldable pub listed : List FileChunk → FileChunk → Bool
  listed [] e = false
  listed (c ∷ cs) e = equiv lt c e || listed cs e

  -- The map without the chunks listed
  unfoldable pub erase_all : List FileChunk → List (FileChunk × ℕ) → List (FileChunk × ℕ)
  erase_all [] m = m
  erase_all (c ∷ cs) m = erase_all cs (erase lt c m)

  swapped : (c j : FileChunk) → equiv lt j c ≡ false → equiv lt c j ≡ false
  unfolding equiv
  swapped c j d = ground (arith, d)

  pub erase_absent :
      (c : FileChunk) (m : List (FileChunk × ℕ)) → find lt c m ≡ none → erase lt c m ≡ m
  unfolding find erase
  erase_absent c [] n = refl
  erase_absent c ((j, w) ∷ m) n = ground (arith, n, erase_absent c m)

module _ (lt : FileChunk → FileChunk → Bool) (o : IsIrreflexive lt)
    (by_file : (a b : FileChunk) → equiv lt a b ≡ true → a.file_id ≡ b.file_id) where
  -- Every entry is found.
  pub present : (m : List (FileChunk × ℕ)) → Of (λ c. find lt c m ≢ none) m
  unfolding find equiv
  present [] = tt
  present ((c, v) ∷ m) = (
    ground (arith, o c),
    all_map (λ j. find lt j m ≢ none) (λ j. find lt j ((c, v) ∷ m) ≢ none) m
        (λ j h. ground (arith, h)) (present m),
  )

  pub listed_lem :
      (file_id : ℕ) (m : List (FileChunk × ℕ)) (e : FileChunk)
      → find lt e m ≢ none
      → e.file_id ≡ file_id
      → listed lt (chunks_of file_id m) e ≡ true
  unfolding listed chunks_of find
  listed_lem file_id [] e f h = absurd (f refl)
  listed_lem file_id ((c, v) ∷ m) e f h = elim (Bool-cases (equiv lt c e)) [
    | inl t ↦ ground (arith, t, by_file c e t, h)
    | inr d ↦ ground (arith, d, h, f, listed_lem file_id m e)
  ]

  -- The entries of a file that are listed are the only ones it has.
  abbrev pub Covered : ℕ → List FileChunk → FileChunk → Type 0
  Covered f cs c = c.file_id ≡ f → listed lt cs c ≡ true

  Covered-erase :
      (f : ℕ) (c : FileChunk) (cs : List FileChunk) (m : List (FileChunk × ℕ))
      → Of (Covered f (c ∷ cs)) m
      → Of (Covered f cs) (erase lt c m)
  unfolding erase listed
  Covered-erase f c cs [] h = tt
  Covered-erase f c cs ((j, w) ∷ m) h = elim (Bool-cases (equiv lt j c)) [
    | inl t ↦ rw t (Covered-erase f c cs m h.1)
    | inr d ↦
        let turned : equiv lt c j ≡ false = swapped lt c j d in
        rw d ((λ q. ground (arith, turned, h.0 q)), Covered-erase f c cs m h.1)
  ]

  erase_all-Covered :
      (f : ℕ) (cs : List FileChunk) (m : List (FileChunk × ℕ))
      → Of (Covered f cs) m
      → Of (λ c. c.file_id ≢ f) (erase_all lt cs m)
  unfolding erase_all listed
  erase_all-Covered f [] m h =
      all_map (Covered f []) (λ c. c.file_id ≢ f) m (λ c k q. ground (arith, k q)) h
  erase_all-Covered f (c ∷ cs) m h =
      erase_all-Covered f cs (erase lt c m) (Covered-erase f c cs m h)

  none_left :
      (f : ℕ) (e : FileChunk) (m : List (FileChunk × ℕ))
      → e.file_id ≡ f
      → Of (λ c. c.file_id ≢ f) m
      → find lt e m ≡ none
  unfolding find
  none_left f e [] q h = refl
  none_left f e ((c, v) ∷ m) q h = ground (arith, by_file c e, q, h.0, none_left f e m q h.1)

  find-erase_other :
      (c e : FileChunk) (m : List (FileChunk × ℕ))
      → c.file_id ≢ e.file_id
      → find lt e (erase lt c m) ≡ find lt e m
  unfolding find erase
  find-erase_other c e [] n = refl
  find-erase_other c e ((j, w) ∷ m) n =
      ground (arith, by_file j c, by_file j e, n, find-erase_other c e m n)

  find-erase_all_other :
      (f : ℕ) (e : FileChunk) (cs : List FileChunk) (m : List (FileChunk × ℕ))
      → e.file_id ≢ f
      → All (λ c. c.file_id ≡ f) cs
      → find lt e (erase_all lt cs m) ≡ find lt e m
  unfolding erase_all
  find-erase_all_other f e [] m n h = refl
  find-erase_all_other f e (c ∷ cs) m n h =
      find-erase_all_other f e cs (erase lt c m) n h.1
      ∙ find-erase_other c e m (λ q. n (sym q ∙ h.0))

  -- What is found once the listed chunks of a file are erased
  pub settled :
      (f : ℕ) (e : FileChunk) (cs : List FileChunk) (m : List (FileChunk × ℕ))
      → All (λ c. c.file_id ≡ f) cs
      → Of (Covered f cs) m
      → find lt e (erase_all lt cs m) ≡ (if e.file_id == f then none else find lt e m)
  settled f e cs m h k = elim (ℕ_discrete e.file_id f) [
    | yes q ↦ ground (arith, q, none_left f e (erase_all lt cs m) q (erase_all-Covered f cs m k))
    | no n ↦ ground (arith, n, find-erase_all_other f e cs m n h)
  ]
