-- ===== src/Blockparty/Tables.antt =====
-- What the writes of Store do to the lookups: parties by their id, members by their party.
use text.Mathlib.TextEquality.{eq_iff}
use mathlib.Core.List.{append-nil}
use blitzpool.Prelude.{
  some_eq, none-some, ◌≡◌, refl, sym, ap, ◌∙◌, true, false, not, List, [], ◌∷◌, ◌++◌, map, none,
  some, String, str_eq, if◌then◌else◌, arith, Bool-cases, Option-cases, inl, inr, ◌⊎◌, ◌≢◌,
}
use blitzpool.Coinbase.Weight.{Address}
use blitzpool.Blockparty.Store.{
  BlockpartyGroup, BlockpartyMember, Parties, select, find_group, members_of, is_row, find_member,
  replace_group, replace_member,
}
use blitzpool.Blockparty.Selects.{
  option_map, or_last, first_of-map, first_of-append, first_of-holds, select-map, select-map_same,
  select-append, select-select,
}

pub eq_of-str_eq : (a b : String) → str_eq a b ≡ true → a ≡ b
eq_of-str_eq a b h = (eq_iff a b).0 h

pub str_eq_of-eq : {a b : String} → a ≡ b → str_eq a b ≡ true
str_eq_of-eq {a} {b} h = (eq_iff a b).1 h

pub ne_of-str_eq : (a b : String) → str_eq a b ≡ false → a ≢ b
ne_of-str_eq a b h e = ground (arith, eq_iff a b)

pub str_eq_of-ne : (a b : String) → a ≢ b → str_eq a b ≡ false
str_eq_of-ne a b h = ground (arith, eq_iff a b, h)

pub replace_group-id : (g h : BlockpartyGroup) → (replace_group g h).id ≡ h.id
replace_group-id g h = elim (Bool-cases (str_eq h.id g.id)) [
  | inl e ↦ rw e (sym (eq_of-str_eq h.id g.id e))
  | inr e ↦ rw e refl
]

-- A saved row stands in the place of the old one.
pub find_group-save :
    (i : String) (g : BlockpartyGroup) (gs : List BlockpartyGroup)
    → find_group i (map (replace_group g) gs) ≡ option_map (replace_group g) (find_group i gs)
unfolding find_group
find_group-save i g gs =
    first_of-map (λ h. str_eq h.id i) (replace_group g)
      (λ h. ap (λ k. str_eq k i) (replace_group-id g h)) gs

pub find_group-insert :
    (i : String) (gs : List BlockpartyGroup) (g : BlockpartyGroup)
    → find_group i (gs ++ g ∷ [])
      ≡ or_last (find_group i gs) (if str_eq g.id i then some g else none)
unfolding find_group
find_group-insert i gs g = first_of-append (λ h. str_eq h.id i) gs g

pub find_group-id :
    (i : String) (gs : List BlockpartyGroup) {g : BlockpartyGroup}
    → find_group i gs ≡ some g
    → g.id ≡ i
unfolding find_group
find_group-id i gs {g} h = eq_of-str_eq g.id i (first_of-holds (λ h. str_eq h.id i) gs h)

-- What a lookup finds after a save: the saved row, or what it found before.
pub found_after_save :
    (g : BlockpartyGroup) (i : String) (gs : List BlockpartyGroup) {h : BlockpartyGroup}
    → find_group i (map (replace_group g) gs) ≡ some h
    → ((h ≡ g) × (g.id ≡ i)) ⊎ ((find_group i gs ≡ some h) × (h.id ≢ g.id))
found_after_save g i gs {h} found = elim (Option-cases (find_group i gs)) [
  | inl e ↦
      absurd
        (none-some (sym (find_group-save i g gs ∙ ap (option_map (replace_group g)) e) ∙ found))
  | inr (k, e) ↦
      let saved : replace_group g k ≡ h =
        some_eq (sym (find_group-save i g gs ∙ ap (option_map (replace_group g)) e) ∙ found) in
      elim (Bool-cases (str_eq k.id g.id)) [
        | inl same ↦
            inl (sym (rw same at saved), sym (eq_of-str_eq k.id g.id same) ∙ find_group-id i gs e)
        | inr other ↦
            let kept : k ≡ h = rw other at saved in
            inr (e ∙ ap some kept, λ c. ne_of-str_eq k.id g.id other (ap (λ r. r.id) kept ∙ c))
      ]
]

pub find_member-is_row :
    (i : String) (a : Address) (ms : List BlockpartyMember) {m : BlockpartyMember}
    → find_member i a ms ≡ some m
    → (m.group_id ≡ i) × (m.address ≡ a)
unfolding find_member
find_member-is_row i a ms {m} h =
    let row : is_row i a m ≡ true = first_of-holds (is_row i a) ms h in
    ground (arith, row, eq_iff m.group_id i, eq_iff m.address a)

pub replace_member-group : (m n : BlockpartyMember) → (replace_member m n).group_id ≡ n.group_id
replace_member-group m n = ground (arith, eq_iff n.group_id m.group_id, eq_iff n.address m.address)

pub replace_member-address : (m n : BlockpartyMember) → (replace_member m n).address ≡ n.address
replace_member-address m n =
    ground (arith, eq_iff n.group_id m.group_id, eq_iff n.address m.address)

module _ (i : String) (m : BlockpartyMember) (ms : List BlockpartyMember) where
  pub members_of-save :
      members_of i (map (replace_member m) ms) ≡ map (replace_member m) (members_of i ms)
  unfolding members_of
  members_of-save =
      select-map (λ n. str_eq n.group_id i) (replace_member m)
        (λ n. ap (λ k. str_eq k i) (replace_member-group m n)) ms

  replace_other :
      (n : BlockpartyMember) → m.group_id ≢ i → str_eq n.group_id i ≡ true → replace_member m n ≡ n
  replace_other n other h =
      let apart : str_eq n.group_id m.group_id ≡ false =
        str_eq_of-ne n.group_id m.group_id (λ e. other (sym e ∙ eq_of-str_eq n.group_id i h)) in
      rw apart refl

  -- The members of the other parties stay as they are.
  pub members_of-save_other :
      m.group_id ≢ i → members_of i (map (replace_member m) ms) ≡ members_of i ms
  unfolding members_of
  members_of-save_other other =
      select-map_same (λ n. str_eq n.group_id i) (replace_member m)
        (λ n. ap (λ k. str_eq k i) (replace_member-group m n)) (λ n h. replace_other n other h) ms

  pub members_of-insert_other : m.group_id ≢ i → members_of i (ms ++ m ∷ []) ≡ members_of i ms
  unfolding members_of
  members_of-insert_other other =
      let apart : str_eq m.group_id i ≡ false = str_eq_of-ne m.group_id i other in
      select-append (λ n. str_eq n.group_id i) ms m ∙ rw apart (append-nil (members_of i ms))

  pub members_of-delete_other :
      m.group_id ≢ i
      → members_of i (select (λ n. not (is_row m.group_id m.address n)) ms) ≡ members_of i ms
  unfolding members_of
  members_of-delete_other other =
      select-select (λ n. str_eq n.group_id i) (λ n. not (is_row m.group_id m.address n))
        (λ n h.
          let apart : str_eq n.group_id m.group_id ≡ false =
            str_eq_of-ne n.group_id m.group_id (λ e. other (sym e ∙ eq_of-str_eq n.group_id i h)) in
          rw apart refl)
        ms

pub found_after_insert :
    (g : BlockpartyGroup) (i : String) (gs : List BlockpartyGroup) {h : BlockpartyGroup}
    → find_group i (gs ++ g ∷ []) ≡ some h
    → (find_group i gs ≡ some h) ⊎ ((h ≡ g) × (g.id ≡ i))
found_after_insert g i gs {h} found = elim (Option-cases (find_group i gs)) [
  | inr (k, e) ↦ inl (
      e
      ∙ sym (ap (λ o. or_last o (if str_eq g.id i then some g else none)) e)
      ∙ sym (find_group-insert i gs g)
      ∙ found)
  | inl e ↦
      let new : (if str_eq g.id i then some g else none) ≡ some h =
        sym (ap (λ o. or_last o (if str_eq g.id i then some g else none)) e)
        ∙ sym (find_group-insert i gs g)
        ∙ found in
      elim (Bool-cases (str_eq g.id i)) [
        | inl same ↦ inr (sym (some_eq (rw same at new)), eq_of-str_eq g.id i same)
        | inr other ↦ absurd (none-some (rw other at new))
      ]
]

pub member_in_party :
    (i : String) (a : Address) (s : Parties) {m : BlockpartyMember}
    → find_member i a s.members ≡ some m
    → m.group_id ≡ i
member_in_party i a s found = (find_member-is_row i a s.members found).0

-- What becomes of a row where another version of a row is saved.
pub save_moves :
    (i : String) (g h k : BlockpartyGroup) (gs : List BlockpartyGroup)
    → find_group g.id gs ≡ some g
    → h.id ≡ g.id
    → find_group i gs ≡ some k
    → ((find_group i (map (replace_group h) gs) ≡ some h) × (k ≡ g))
      ⊎ (find_group i (map (replace_group h) gs) ≡ some k)
save_moves i g h k gs old same found =
    let now : find_group i (map (replace_group h) gs) ≡ some (replace_group h k) =
      find_group-save i h gs ∙ ap (option_map (replace_group h)) found in
    elim (Bool-cases (str_eq k.id h.id)) [
      | inl e ↦
          let named : i ≡ g.id = sym (find_group-id i gs found) ∙ eq_of-str_eq k.id h.id e ∙ same in
          inl (
            now ∙ ap (λ b. some (if b then h else k)) e,
            some_eq (sym found ∙ ap (λ n. find_group n gs) named ∙ old),
          )
      | inr e ↦ inr (now ∙ ap (λ b. some (if b then h else k)) e)
    ]
