-- ===== src/IoManager/Placed/Nodes.antt =====
-- Where the copies of chunks are: the first two nodes hold chunks, the other two replicas.
use deca_fs.Prelude.{
  ℕ, ◌≡◌, All, ◌≢◌, ◌⊎◌, subst, List, [], ◌∷◌, none, some, Bool, arith, Option-cases, Bool-cases,
  inl, inr,
}
use deca_fs.OrdMap.{IsIrreflexive, equiv, find, assign}
use deca_fs.OrdMap.Laws.{find-assign_irreflexive}
use deca_fs.Types.File.{FileChunk}
use deca_fs.Volatile.{Volatile}
use deca_fs.Placement.{put_chunk, put_replica, choose}
use deca_fs.IoManager.{Io, ensure_chunk, ensure_replica, node_of}

abbrev pub IsChunkNode : ℕ → Type 0
IsChunkNode n = (n ≡ 1) ⊎ (n ≡ 2)

abbrev pub IsReplicaNode : ℕ → Type 0
IsReplicaNode n = (n ≡ 3) ⊎ (n ≡ 4)

-- All nodes that a map of chunks has
abbrev pub AllNodes : (ℕ → Type 0) → List (FileChunk × ℕ) → Type 0
AllNodes P m = All (λ (e : FileChunk × ℕ). P e.1) m

-- Every chunk of the maps is on a node of its kind.
pub record IsPlaced (s : Io) : Type 0 where
  pub chunks : AllNodes IsChunkNode s.chunk_to_node
  pub replicas : AllNodes IsReplicaNode s.chunk_to_replica_node

pub put_chunk-IsChunkNode : (c : ℕ) (v : Volatile) → IsChunkNode (put_chunk c v)
unfolding put_chunk choose
put_chunk-IsChunkNode c v = ground arith

pub put_replica-IsReplicaNode : (c : ℕ) (v : Volatile) → IsReplicaNode (put_replica c v)
unfolding put_replica choose
put_replica-IsReplicaNode c v = ground arith

module _ (lt : FileChunk → FileChunk → Bool) (P : ℕ → Type 0) where
  -- A node that is found is one of the map's.
  pub find-AllNodes :
      (c : FileChunk) (n : ℕ) (m : List (FileChunk × ℕ)) → find lt c m ≡ some n → AllNodes P m → P n
  unfolding find
  find-AllNodes c n [] e h = absurd (ground (arith, e))
  find-AllNodes c n ((j, w) ∷ m) e h = elim (Bool-cases (equiv lt j c)) [
    | inl t ↦ let it : w ≡ n = ground (arith, e, t) in subst P it h.0
    | inr d ↦ find-AllNodes c n m (ground (arith, e, d)) h.1
  ]

  AllNodes-assign :
      (c : FileChunk) (node : ℕ) (m : List (FileChunk × ℕ))
      → P node
      → AllNodes P m
      → AllNodes P (assign lt c node m)
  unfolding assign
  AllNodes-assign c node [] p h = (p, tt)
  AllNodes-assign c node ((j, w) ∷ m) p h = elim (Bool-cases (equiv lt j c)) [
    | inl t ↦ rw t (p, h.1)
    | inr d ↦ elim (Bool-cases (lt c j)) [
      | inl b ↦ rw (d, b) (p, h)
      | inr a ↦ rw (d, a) (h.0, AllNodes-assign c node m p h.1)
    ]
  ]

module _ (lt : FileChunk → FileChunk → Bool) where
  ensured_chunk :
      (c : FileChunk) (s : Io)
      → ((ensure_chunk lt c s).chunk_to_node ≡ s.chunk_to_node)
        ⊎ ((ensure_chunk lt c s).chunk_to_node
            ≡ assign lt c (put_chunk c.chunk_num s.volatile) s.chunk_to_node)
  unfolding ensure_chunk
  ensured_chunk c s = elim (Option-cases (find lt c s.chunk_to_node)) [
    | inl n ↦ inr (ground (arith, n))
    | inr (node, e) ↦ inl (ground (arith, e))
  ]

  ensured_replica :
      (c : FileChunk) (s : Io)
      → ((ensure_replica lt c s).chunk_to_replica_node ≡ s.chunk_to_replica_node)
        ⊎ ((ensure_replica lt c s).chunk_to_replica_node
            ≡ assign lt c (put_replica c.chunk_num s.volatile) s.chunk_to_replica_node)
  unfolding ensure_replica
  ensured_replica c s = elim (Option-cases (find lt c s.chunk_to_replica_node)) [
    | inl n ↦ inr (ground (arith, n))
    | inr (node, e) ↦ inl (ground (arith, e))
  ]

  -- The rest of the state is left alone.
  pub ensured_rest :
      (c : FileChunk) (s : Io)
      → ((ensure_chunk lt c s).chunk_to_replica_node ≡ s.chunk_to_replica_node)
        × ((ensure_replica lt c s).chunk_to_node ≡ s.chunk_to_node)
        × ((ensure_replica lt c (ensure_chunk lt c s)).connected ≡ s.connected)
        × ((ensure_replica lt c (ensure_chunk lt c s)).sent ≡ s.sent)
  unfolding ensure_chunk ensure_replica
  ensured_rest c s = (ground arith, ground arith, ground arith, ground arith)

module _ (lt : FileChunk → FileChunk → Bool) where
  all_of :
      (P : ℕ → Type 0) (c : FileChunk) (node : ℕ) (m m' : List (FileChunk × ℕ))
      → P node
      → (m' ≡ m) ⊎ (m' ≡ assign lt c node m)
      → AllNodes P m
      → AllNodes P m'
  all_of P c node m m' p (inl e) h = rw e h
  all_of P c node m m' p (inr e) h = rw e (AllNodes-assign lt P c node m p h)

  -- Once both copies of a chunk have a node, they have one of the right kind, and all others still do.
  pub ensure-IsPlaced :
      (c : FileChunk) (s : Io) → IsPlaced s → IsPlaced (ensure_replica lt c (ensure_chunk lt c s))
  ensure-IsPlaced c s p =
      let t = ensure_chunk lt c s in
      let (same, kept, _, _) = ensured_rest lt c s in
      let (_, kept', _, _) = ensured_rest lt c t in
      record {
        chunks = rw kept' (
            all_of IsChunkNode c (put_chunk c.chunk_num s.volatile) s.chunk_to_node t.chunk_to_node
              (put_chunk-IsChunkNode c.chunk_num s.volatile) (ensured_chunk lt c s) p.chunks);
        replicas =
            all_of IsReplicaNode c (put_replica c.chunk_num t.volatile) t.chunk_to_replica_node
              (ensure_replica lt c t).chunk_to_replica_node
              (put_replica-IsReplicaNode c.chunk_num t.volatile) (ensured_replica lt c t)
              (rw same p.replicas);
      }

module _ (lt : FileChunk → FileChunk → Bool) (o : IsIrreflexive lt) where
  ensured_some :
      (c : FileChunk) (s : Io)
      → (find lt c (ensure_replica lt c (ensure_chunk lt c s)).chunk_to_node ≢ none)
        × (find lt c (ensure_replica lt c (ensure_chunk lt c s)).chunk_to_replica_node ≢ none)
  unfolding ensure_chunk ensure_replica
  ensured_some c s = (
    ground
        (arith, find-assign_irreflexive lt o c (put_chunk c.chunk_num s.volatile) s.chunk_to_node),
    ground (
      arith,
      find-assign_irreflexive lt o c (put_replica c.chunk_num (ensure_chunk lt c s).volatile)
          s.chunk_to_replica_node,
      find-assign_irreflexive lt o c (put_replica c.chunk_num s.volatile) s.chunk_to_replica_node,
    ),
  )

  node_of_all :
      (P : ℕ → Type 0) (c : FileChunk) (m : List (FileChunk × ℕ))
      → find lt c m ≢ none
      → ((n : ℕ) → find lt c m ≡ some n → P n)
      → P (node_of lt c m)
  unfolding node_of
  node_of_all P c m ne h = elim (Option-cases (find lt c m)) [
    | inl n ↦ absurd (ne n)
    | inr (node, e) ↦
        let it : node ≡ elim (find lt c m) [ none ↦ 0 | some k ↦ k ] = ground (arith, e) in
        subst P it (h node e)
  ]

  -- The nodes of a chunk after ensure_chunk and ensure_replica.
  pub ensured_nodes :
      (c : FileChunk) (s : Io)
      → IsPlaced s
      → let t = ensure_replica lt c (ensure_chunk lt c s) in
        IsChunkNode (node_of lt c t.chunk_to_node)
        × IsReplicaNode (node_of lt c t.chunk_to_replica_node)
  ensured_nodes c s p =
      let t = ensure_replica lt c (ensure_chunk lt c s) in
      let q = ensure-IsPlaced lt c s p in
      let (a, b) = ensured_some c s in
      (
        node_of_all IsChunkNode c t.chunk_to_node a
            (λ n e. find-AllNodes lt IsChunkNode c n t.chunk_to_node e q.chunks),
        node_of_all IsReplicaNode c t.chunk_to_replica_node b
            (λ n e. find-AllNodes lt IsReplicaNode c n t.chunk_to_replica_node e q.replicas),
      )
