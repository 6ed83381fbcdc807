-- ===== src/Persistent/Invariant.antt =====
-- The two maps of the files agree, and every operation keeps them so.
use deca_fs.Prelude.{
  ℕ, ◌+◌, ◌%◌, ◌≤◌, ◌<◌, ◌≡◌, ◌≢◌, ◌⊎◌, List, [], ◌∷◌, some, ltb, inl, inr, arith, Bool-cases,
  ℕ_discrete,
}
use deca_fs.Prelude.Int.{word_mod}
use deca_fs.OrdMap.{equiv, find, last_key}
use deca_fs.OrdMap.Laws.{equiv_self}
use deca_fs.OrdMap.Order.{Sorted}
use deca_fs.OrdMap.Nat.{ltb-IsStrictOrder as order, find-last_key}
use deca_fs.Persistent.{Info, Persistent, get_new_file_id}
use deca_fs.Persistent.Names.{name_lt}

-- Each path leads to the entry of its own file, each entry is under its own id and its path leads to
-- it, and no id is 0 or beyond the last one given out.
pub record IsConsistent (p : Persistent) : Type 0 where
  pub named :
      (n : List ℕ) (id : ℕ)
      → find name_lt n p.pathname_to_file_id ≡ some id
      → (info : Info) × (find ltb id p.metadata ≡ some info) × (info.pathname ≡ n)
  pub filed :
      (id : ℕ) (info : Info)
      → find ltb id p.metadata ≡ some info
      → (info.file_id ≡ id) × (find name_lt info.pathname p.pathname_to_file_id ≡ some id)
  pub numbered :
      (id : ℕ) (info : Info)
      → find ltb id p.metadata ≡ some info
      → (0 < id) × (id < word_mod) × ((p.next_file_id ≡ 0) ⊎ (id ≤ p.next_file_id))
  pub last_word : p.next_file_id < word_mod
  pub in_order : Sorted ltb p.metadata

last_key-find :
    (m : List (ℕ × Info)) (k : ℕ) → last_key m ≡ some k → (info : Info) × (find ltb k m ≡ some info)
unfolding last_key find
last_key-find [] k e = absurd (ground arith)
last_key-find ((j, w) ∷ []) k e = (w, ground (arith, e, equiv_self order j))
last_key-find ((j, w) ∷ next ∷ m) k e = elim (Bool-cases (equiv ltb j k)) [
  | inl t ↦ (w, ground (arith, t))
  | inr f ↦ let (i, h) = last_key-find (next ∷ m) k e in (i, ground (arith, f, h))
]

-- The id handed out by a counter: the one after the last.
after_last :
    (p : Persistent) (last : ℕ)
    → last_key p.metadata ≡ some last
    → p.next_file_id ≡ 0
    → get_new_file_id p ≡ (last + 1) % word_mod
unfolding get_new_file_id
after_last p last e h = ground arith

after_next :
    (p : Persistent) → p.next_file_id ≢ 0 → get_new_file_id p ≡ (p.next_file_id + 1) % word_mod
unfolding get_new_file_id
after_next p h = ground arith

-- Unless the ids are used up, a new id is above every id in use.
pub new_id_above :
    (p : Persistent)
    → IsConsistent p
    → 0 < get_new_file_id p
    → (id : ℕ) (info : Info) → find ltb id p.metadata ≡ some info
    → id < get_new_file_id p
new_id_above p c w id info e =
    let (_, _, bound) = c.numbered id info e in
    let small = c.last_word in
    elim (ℕ_discrete p.next_file_id 0) [
      | yes z ↦
          let (last, l, le) = find-last_key p.metadata id info c.in_order e in
          let (i, f) = last_key-find p.metadata last l in
          let (_, last_small, _) = c.numbered last i f in
          let new = after_last p last l z in omega arith
      | no nz ↦ let new = after_next p nz in omega arith
    ]

pub new_id_small : (p : Persistent) → get_new_file_id p < word_mod
unfolding get_new_file_id
new_id_small p = ground arith
