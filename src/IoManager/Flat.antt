-- ===== src/IoManager/Flat.antt =====
-- The write of a stripe as one run of bytes, through chunks of a fixed size.
use deca_fs.Prelude.{
  ℕ, zero, suc, ◌+◌, ◌-◌, ◌*◌, ◌%◌, ◌<◌, ◌^◌, ◌≤◌, ◌≡◌, ◌≢◌, ◌⊎◌, ◌∙◌, inl, inr, ap, List, Bool,
  true, ◌&&◌, ltb, leb, ◌==◌, if◌then◌else◌, arith, length, take, drop, Bool-cases, dec_lt,
}
use deca_fs.Prelude.Int.{word_mod}
use deca_fs.OrdMap.{IsIrreflexive}
use deca_fs.Types.File.{FileChunk}
use deca_fs.IoManager.{Message, Io, finished, piece, write_loop, process_write_stripe}
use deca_fs.IoManager.Placed.Nodes.{IsPlaced}
use deca_fs.IoManager.Placed.Rounds.{write_loop_done}
use deca_fs.IoManager.Locate.{get_first_lem}
use deca_fs.IoManager.Stripes.{
  byte_at, byte_at-take, byte_at-drop, length-take_of, length-drop_of, stored, IsReachable, round,
  round_stored,
}

abbrev pub within : ℕ → ℕ → ℕ → Bool
within start count x = leb start x && ltb x (start + count)

-- Where the chunks i and k of a stripe start, one against the other.
Aligned : (size i k start other : ℕ) → Type 0
Aligned size i k start other =
    ((k < i) × (other + size ≤ start))
    ⊎ ((k ≡ i) × (other ≡ start))
    ⊎ ((i < k) × (start + size ≤ other))

further : (size k i : ℕ) → k < i → k * size + size ≤ i * size
further size k zero h = absurd (omega arith)
further size k (suc i) h = elim (dec_lt k i) [
  | yes g ↦ omega (arith, further size k i g)
  | no g ↦ let e : k ≡ i = omega arith in rw e (omega arith)
]

aligned : (size i k : ℕ) → Aligned size i k (i * size) (k * size)
unfolding Aligned
aligned size i k = elim (dec_lt k i) [
  | yes h ↦ inl (h, further size k i h)
  | no h ↦ elim (dec_lt i k) [
    | yes g ↦ inr (inr (g, further size i k g))
    | no g ↦ let e : k ≡ i = omega arith in inr (inl (e, ap (λ j. j * size) e))
  ]
]

-- What the first piece and the rest leave of a byte is what the whole leaves.
join :
    (size i k start other offset left p old : ℕ) (buf : List ℕ)
    → Aligned size i k start other
    → p < size
    → offset ≤ size
    → length buf ≡ left
    → let n = piece size offset left in
      (if within (start + size) (left - n) (other + p)
        then byte_at (other + p - (start + size)) (drop n buf)
        else if suc i == suc k && leb offset p && ltb p (offset + length (take n buf))
        then byte_at (p - offset) (take n buf)
        else old)
      ≡ (if within (start + offset) left (other + p)
          then byte_at (other + p - (start + offset)) buf
          else old)
unfolding Aligned
join size i k start other offset left p old buf a h g e =
    let n = piece size offset left in
    let l : length (take n buf) ≡ n = length-take_of n buf (ground arith) in
    elim a [
      | inl (x, y) ↦ ground (arith, l)
      | inr (inl (x, y)) ↦
          let at : other + p - (start + offset) ≡ p - offset = omega (arith, y) in
          ground (arith, l, at, byte_at-take (p - offset) n buf)
      | inr (inr (x, y)) ↦ elim (Bool-cases (ltb (size - offset) left)) [
        | inl more ↦
            let j = other + p - (start + size) in
            let at : size - offset + j ≡ other + p - (start + offset) = omega arith in
            let it : byte_at j (drop (size - offset) buf) ≡ byte_at (size - offset + j) buf =
              byte_at-drop j (size - offset) buf in
            ground (arith, l, more, ap (λ m. byte_at m buf) at, it)
        | inr all ↦ ground (arith, l, all)
      ]
    ]

module _ (lt : FileChunk → FileChunk → Bool) (delivers : Message → List Message → Bool)
    (o : IsIrreflexive lt) (always : (m : Message) (ms : List Message) → delivers m ms ≡ true)
    (request_id replica_request_id file_id stripe_id size : ℕ)
    (differ : request_id ≢ replica_request_id) (positive : 0 < size) where
  -- The stripe after a write of `left` bytes at `at`, against that before
  abbrev pub IsWritten : ℕ → ℕ → List ℕ → (ℕ → ℕ → ℕ) → Io → Io → Type 0
  IsWritten at left buf disk s s' =
      (id k p : ℕ)
      → (id ≡ request_id) ⊎ (id ≡ replica_request_id)
      → p < size
      → stored id file_id stripe_id s'.sent disk (suc k) p ≡ (
          if within at left (k * size + p)
          then byte_at (k * size + p - at) buf
          else stored id file_id stripe_id s.sent disk (suc k) p)

  pub write_loop_flat :
      (fuel left i offset chunks replicas : ℕ) (buf : List ℕ) (disk : ℕ → ℕ → ℕ) (s : Io)
      → IsPlaced s
      → IsReachable s
      → offset ≤ size
      → length buf ≡ left
      → left < fuel
      → (offset < size) ⊎ (suc left < fuel)
      → i + fuel + 1 < word_mod
      → (s' : Io) × (n : ℕ) × (m : ℕ) × (write_loop lt delivers request_id replica_request_id
            file_id stripe_id size fuel
            (suc i)
            offset
            buf
            left
            chunks
            replicas
            s
          ≡ finished (n, m) s')
        × IsPlaced s'
        × IsReachable s'
        × IsWritten (i * size + offset) left buf disk s s'
  write_loop_flat zero left i offset chunks replicas buf disk s p r g l f f' w =
      absurd (omega arith)
  write_loop_flat (suc fuel) zero i offset chunks replicas buf disk s p r g l f f' w = (
    s,
    chunks,
    replicas,
    write_loop_done lt delivers request_id replica_request_id file_id stripe_id size fuel (suc i)
        offset chunks replicas buf s,
    p,
    r,
    λ id k q _ _. ground arith,
  )
  write_loop_flat (suc fuel) (suc left) i offset chunks replicas buf disk s p r g l f f' w =
      let n = piece size offset (suc left) in
      let (t, node, replica, e, p', r', sent) =
        round lt delivers o always request_id replica_request_id file_id stripe_id size fuel (suc i)
          offset (suc left) chunks replicas buf s p r (omega arith) in
      let next : (suc i + 1) % word_mod ≡ suc (suc i) = omega arith in
      let (s', a, b, e', p'', r'', all) =
        write_loop_flat fuel (suc left - n) (suc i) 0 (chunks + 1) (replicas + 1) (drop n buf) disk
          t p' r' (omega arith) (length-drop_of n buf ∙ ap (λ m. m - n) l) (ground arith)
          (inl positive) (omega arith) in
      (
        s',
        a,
        b,
        e
            ∙ ap
                (λ c.
                  write_loop lt delivers request_id replica_request_id file_id stripe_id size fuel c
                    0 (drop n buf) (suc left - n) (chunks + 1) (replicas + 1) t)
                next
            ∙ e',
        p'',
        r'',
        λ id k q h u.
            let x = k * size + q in
            let old = stored id file_id stripe_id s.sent disk (suc k) q in
            let base : suc i * size + 0 ≡ i * size + size = omega arith in
            let this_round =
              ap (λ ms. stored id file_id stripe_id ms disk (suc k) q) sent
              ∙ round_stored lt delivers o always request_id replica_request_id file_id stripe_id
                  size id node replica (suc i) offset (suc k) q (take n buf) s.sent disk differ h in
            all id k q h u
            ∙ ap
                (λ z.
                  if within (suc i * size + 0) (suc left - n) x
                  then byte_at (x - (suc i * size + 0)) (drop n buf)
                  else z)
                this_round
            ∙ ap
                (λ c.
                  if within c (suc left - n) x
                  then byte_at (x - c) (drop n buf)
                  else if suc i == suc k && leb offset q && ltb q (offset + length (take n buf))
                  then byte_at (q - offset) (take n buf)
                  else old)
                base
            ∙ join size i k (i * size) (k * size) offset (suc left) q old buf (aligned size i k) u g
                l,
      )

at_most : (size k : ℕ) → 0 < size → k ≤ k * size
at_most size zero z = omega arith
at_most size (suc k) z = omega (arith, at_most size k z)

module _ (lt : FileChunk → FileChunk → Bool) (delivers : Message → List Message → Bool)
    (o : IsIrreflexive lt) (always : (m : Message) (ms : List Message) → delivers m ms ≡ true)
    (request_id replica_request_id file_id stripe_id size : ℕ)
    (differ : request_id ≢ replica_request_id) (positive : 0 < size) where
  -- Such a write ends in such a state.
  pub process_write_stripe_ends :
      (fuel stripe_size offset count : ℕ) (buf : List ℕ) (s : Io)
      → length buf ≡ count
      → IsPlaced s
      → IsReachable s
      → count ≤ stripe_size + offset
      → count + 1 < fuel
      → offset + fuel + 1 < word_mod
      → size < 2 ^ 31
      → offset < 2 ^ 31
      → (s' : Io) × (n : ℕ) × (m : ℕ) × (process_write_stripe lt delivers fuel request_id
            replica_request_id file_id stripe_id stripe_size size buf offset count s
          ≡ finished (n, m) s')
        × IsPlaced s'
        × IsReachable s'
  unfolding process_write_stripe
  process_write_stripe_ends fuel stripe_size offset count buf s l q r h f w small short =
      let (i, off, e, at, le, _) = get_first_lem size offset positive small short in
      let few = at_most size i positive in
      let (s', n, m, g, p', r', _) =
        write_loop_flat lt delivers o always request_id replica_request_id file_id stripe_id size
          differ positive fuel count i off 0 0 buf (λ k p. 0) s q r le l (omega arith)
          (inr (omega arith)) (omega (arith, few, at, w)) in
      (s', n, m, ground (arith, e, g), p', r')
