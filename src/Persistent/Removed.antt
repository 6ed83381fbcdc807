-- ===== src/Persistent/Removed.antt =====
-- A file reset or removed and the agreement of the two maps.
use deca_fs.Prelude.{
  ℕ, ◌≤◌, ◌<◌, ◌≡◌, ◌≢◌, ◌⊎◌, ◌∙◌, refl, sym, ap, subst, List, some, ltb, ℕ_discrete,
}
use deca_fs.Prelude.Int.{word_mod}
use deca_fs.OrdMap.{find, assign, erase}
use deca_fs.OrdMap.Laws.{find-assign_self, find-assign_ne, find-erase_self, find-erase_ne}
use deca_fs.OrdMap.Order.{Sorted-assign, Sorted-erase}
use deca_fs.OrdMap.Nat.{ltb-IsStrictOrder as order}
use deca_fs.Persistent.{Info, Persistent}
use deca_fs.Persistent.Names.{name_lt, name-discrete, name_lt-IsStrictOrder as by_name}
use deca_fs.Persistent.Invariant.{IsConsistent}
use deca_fs.Persistent.Added.{some_inj, none-some}
use deca_fs.Persistent.Outcomes.{without_file}

-- An entry that is set again, with its path and id as they were.
module _ (p : Persistent) (c : IsConsistent p) (id : ℕ) (old new : Info)
    (e : find ltb id p.metadata ≡ some old) (same_id : new.file_id ≡ old.file_id)
    (same_path : new.pathname ≡ old.pathname) where
  reset_find :
      (k : ℕ) (i : Info)
      → find ltb k (assign ltb id new p.metadata) ≡ some i
      → (j : Info) × (find ltb k p.metadata ≡ some j)
        × (i.file_id ≡ j.file_id)
        × (i.pathname ≡ j.pathname)
  reset_find k i h = elim (ℕ_discrete id k) [
    | yes same ↦
        let it : new ≡ i = some_inj new i (
          sym (find-assign_self order id new p.metadata)
          ∙ ap (λ x. find ltb x (assign ltb id new p.metadata)) same
          ∙ h) in
        (
          old,
          subst (λ x. find ltb x p.metadata ≡ some old) same e,
          sym (ap (λ (x : Info). x.file_id) it) ∙ same_id,
          sym (ap (λ (x : Info). x.pathname) it) ∙ same_path,
        )
    | no other ↦ (i, sym (find-assign_ne order id k new p.metadata other) ∙ h, refl, refl)
  ]

  reset_named :
      (n : List ℕ) (k : ℕ)
      → find name_lt n p.pathname_to_file_id ≡ some k
      → (i : Info) × (find ltb k (assign ltb id new p.metadata) ≡ some i) × (i.pathname ≡ n)
  reset_named n k h =
      let (i, f, g) = c.named n k h in
      elim (ℕ_discrete id k) [
        | yes same ↦
            let it = some_inj old i (sym e ∙ ap (λ x. find ltb x p.metadata) same ∙ f) in
            (
              new,
              subst (λ x. find ltb x (assign ltb id new p.metadata) ≡ some new) same
                  (find-assign_self order id new p.metadata),
              same_path ∙ ap (λ (x : Info). x.pathname) it ∙ g,
            )
        | no other ↦ (i, find-assign_ne order id k new p.metadata other ∙ f, g)
      ]

  pub reset-IsConsistent : IsConsistent (record p { metadata = assign ltb id new p.metadata })
  reset-IsConsistent = record {
    named = reset_named;
    filed = λ k i h.
        let (j, f, s, t) = reset_find k i h in
        let (a, b) = c.filed k j f in (s ∙ a, ap (λ n. find name_lt n p.pathname_to_file_id) t ∙ b);
    numbered = λ k i h. let (j, f, s, t) = reset_find k i h in c.numbered k j f;
    last_word = c.last_word;
    in_order = Sorted-assign order id new p.metadata c.in_order;
  }

-- An entry that is erased together with its path.
module _ (p : Persistent) (c : IsConsistent p) (id : ℕ) (info : Info)
    (e : find ltb id p.metadata ≡ some info) where
  left_named :
      (n : List ℕ) (k : ℕ)
      → find name_lt n (erase name_lt info.pathname p.pathname_to_file_id) ≡ some k
      → (i : Info) × (find ltb k (erase ltb id p.metadata) ≡ some i) × (i.pathname ≡ n)
  left_named n k h = elim (name-discrete info.pathname n) [
    | yes same ↦ absurd (
        none-some k (
          sym (find-erase_self by_name info.pathname p.pathname_to_file_id)
          ∙ ap (λ x. find name_lt x (erase name_lt info.pathname p.pathname_to_file_id)) same
          ∙ h))
    | no other ↦
        let old = sym (find-erase_ne by_name info.pathname n p.pathname_to_file_id other) ∙ h in
        let (i, f, g) = c.named n k old in
        let apart : id ≢ k = λ same. other (
          ap (λ (x : Info). x.pathname)
            (some_inj info i (sym e ∙ ap (λ x. find ltb x p.metadata) same ∙ f))
          ∙ g) in
        (i, find-erase_ne order id k p.metadata apart ∙ f, g)
  ]

  left_filed :
      (k : ℕ) (i : Info)
      → find ltb k (erase ltb id p.metadata) ≡ some i
      → (i.file_id ≡ k)
        × (find name_lt i.pathname (erase name_lt info.pathname p.pathname_to_file_id) ≡ some k)
  left_filed k i h = elim (ℕ_discrete id k) [
    | yes same ↦ absurd (
        none-some i (
          sym (find-erase_self order id p.metadata)
          ∙ ap (λ x. find ltb x (erase ltb id p.metadata)) same
          ∙ h))
    | no other ↦
        let (a, b) = c.filed k i (sym (find-erase_ne order id k p.metadata other) ∙ h) in
        let apart : info.pathname ≢ i.pathname = λ same. other (
          some_inj id k (
            sym (c.filed id info e).1 ∙ ap (λ n. find name_lt n p.pathname_to_file_id) same ∙ b)) in
        (a, find-erase_ne by_name info.pathname i.pathname p.pathname_to_file_id apart ∙ b)
  ]

  left_numbered :
      (k : ℕ) (i : Info)
      → find ltb k (erase ltb id p.metadata) ≡ some i
      → (0 < k) × (k < word_mod) × ((p.next_file_id ≡ 0) ⊎ (k ≤ p.next_file_id))
  left_numbered k i h = elim (ℕ_discrete id k) [
    | yes same ↦ absurd (
        none-some i (
          sym (find-erase_self order id p.metadata)
          ∙ ap (λ x. find ltb x (erase ltb id p.metadata)) same
          ∙ h))
    | no other ↦ c.numbered k i (sym (find-erase_ne order id k p.metadata other) ∙ h)
  ]

  pub without-IsConsistent : IsConsistent (without_file id info p)
  without-IsConsistent = record {
    named = left_named;
    filed = left_filed;
    numbered = left_numbered;
    last_word = c.last_word;
    in_order = Sorted-erase order id p.metadata c.in_order;
  }
