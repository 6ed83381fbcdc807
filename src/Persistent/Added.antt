-- ===== src/Persistent/Added.antt =====
-- A new file and the agreement of the two maps.
use deca_fs.Prelude.{
  ℕ, ◌<◌, ◌≡◌, ◌≢◌, ◌∙◌, sym, ap, subst, List, none, some, ltb, inr, arith, ℕ_discrete,
}
use deca_fs.Prelude.Int.{word_mod}
use deca_fs.OrdMap.{find, assign}
use deca_fs.OrdMap.Laws.{find-assign_self, find-assign_ne}
use deca_fs.OrdMap.Order.{Sorted-assign}
use deca_fs.OrdMap.Nat.{ltb-IsStrictOrder as order}
use deca_fs.Persistent.{Info, Persistent}
use deca_fs.Persistent.Names.{name_lt, name-discrete, name_lt-IsStrictOrder as by_name}
use deca_fs.Persistent.Invariant.{IsConsistent}

pub some_inj {ℓ} : {A : Type ℓ} (a b : A) → some a ≡ some b → a ≡ b
some_inj a b h = ground (arith, h)

pub none-some {ℓ} : {A : Type ℓ} (a : A) → none ≢ some a
none-some a h = absurd (ground (arith, h))

-- A new file under a path that is not in use and an id above all others.
module _ (p : Persistent) (c : IsConsistent p) (info : Info)
    (unused : find name_lt info.pathname p.pathname_to_file_id ≡ none)
    (above : (id : ℕ) (old : Info) → find ltb id p.metadata ≡ some old → id < info.file_id)
    (positive : 0 < info.file_id) (small : info.file_id < word_mod) where
  abbrev pub with_file : Persistent
  with_file = record {
    pathname_to_file_id = assign name_lt info.pathname info.file_id p.pathname_to_file_id;
    metadata = assign ltb info.file_id info p.metadata;
    next_file_id = info.file_id;
  }

  added_named :
      (n : List ℕ) (id : ℕ)
      → find name_lt n (assign name_lt info.pathname info.file_id p.pathname_to_file_id) ≡ some id
      → (i : Info) × (find ltb id (assign ltb info.file_id info p.metadata) ≡ some i)
        × (i.pathname ≡ n)
  added_named n id e = elim (name-discrete info.pathname n) [
    | yes same ↦
        let it : info.file_id ≡ id = some_inj info.file_id id (
          sym (find-assign_self by_name info.pathname info.file_id p.pathname_to_file_id)
          ∙ ap
              (λ x.
                find name_lt x (assign name_lt info.pathname info.file_id p.pathname_to_file_id))
              same
          ∙ e) in
        (
          info,
          subst (λ x. find ltb x (assign ltb info.file_id info p.metadata) ≡ some info) it
              (find-assign_self order info.file_id info p.metadata),
          same,
        )
    | no other ↦
        let (i, f, g) = c.named n id (
          sym (find-assign_ne by_name info.pathname n info.file_id p.pathname_to_file_id other)
          ∙ e) in
        let lower = above id i f in
        (i, find-assign_ne order info.file_id id info p.metadata (λ h. omega arith) ∙ f, g)
  ]

  added_filed :
      (id : ℕ) (i : Info)
      → find ltb id (assign ltb info.file_id info p.metadata) ≡ some i
      → (i.file_id ≡ id)
        × (find name_lt i.pathname (assign name_lt info.pathname info.file_id p.pathname_to_file_id)
            ≡ some id)
  added_filed id i e = elim (ℕ_discrete info.file_id id) [
    | yes same ↦
        let it : info ≡ i = some_inj info i (
          sym (find-assign_self order info.file_id info p.metadata)
          ∙ ap (λ x. find ltb x (assign ltb info.file_id info p.metadata)) same
          ∙ e) in
        subst
          (λ (j : Info).
            (j.file_id ≡ id)
            × (find name_lt j.pathname
                  (assign name_lt info.pathname info.file_id p.pathname_to_file_id)
                ≡ some id))
          it
          (
            same,
            find-assign_self by_name info.pathname info.file_id p.pathname_to_file_id
                ∙ ap some same,
          )
    | no other ↦
        let old = sym (find-assign_ne order info.file_id id info p.metadata other) ∙ e in
        let (f, g) = c.filed id i old in
        (
          f,
          find-assign_ne by_name info.pathname i.pathname info.file_id p.pathname_to_file_id (λ h.
                none-some id (sym unused ∙ ap (λ n. find name_lt n p.pathname_to_file_id) h ∙ g))
              ∙ g,
        )
  ]

  pub added-IsConsistent : IsConsistent with_file
  added-IsConsistent = record {
    named = added_named;
    filed = added_filed;
    numbered = λ id i e. elim (ℕ_discrete info.file_id id) [
      | yes same ↦ (omega arith, omega arith, inr (omega arith))
      | no other ↦
          let old = sym (find-assign_ne order info.file_id id info p.metadata other) ∙ e in
          let (a, b, _) = c.numbered id i old in
          let lower = above id i old in (a, b, inr (omega arith))
    ];
    last_word = small;
    in_order = Sorted-assign order info.file_id info p.metadata c.in_order;
  }
