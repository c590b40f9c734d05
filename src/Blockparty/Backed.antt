-- ===== src/Blockparty/Backed.antt =====
-- The consents of the members in src/services/blockparty.service.ts against a table of members: what
-- a write of one row does to them.
use text.Mathlib.TextEquality.{eq_iff}
use blitzpool.Prelude.{
  true-false, none-some, some_eq, ℕ, ◌≡◌, refl, sym, ap, ◌∙◌, Bool, true, false, ◌&&◌, not, List,
  [], ◌∷◌, ◌++◌, map, Option, none, some, String, str_eq, if◌then◌else◌, arith, Bool-cases,
  Option-cases, inl, inr,
}
use blitzpool.Coinbase.Weight.{Address}
use blitzpool.Blockparty.Store.{
  BlockpartyMember, find_member, is_row, replace_member, first_of, select,
}
use blitzpool.Blockparty.Service.{is_confirmed}
use blitzpool.Blockparty.Selects.{option_map, or_last, first_of-map, first_of-append}
use blitzpool.Blockparty.Tables.{find_member-is_row, replace_member-group, replace_member-address}
use blitzpool.Blockparty.Consents.{Consents, set_at}

-- Who is confirmed in the table has consented to the percentage that the table has.
abbrev pub Backed : List BlockpartyMember → Consents → Type 0
Backed ms c =
    (i : String) (a : Address) (m : BlockpartyMember)
    → find_member i a ms ≡ some m
    → is_confirmed m ≡ true
    → c i a ≡ some m.percent_bp

pub find_member-save :
    (i : String) (a : Address) (m : BlockpartyMember) (ms : List BlockpartyMember)
    → find_member i a (map (replace_member m) ms)
      ≡ option_map (replace_member m) (find_member i a ms)
unfolding find_member
find_member-save i a m ms =
    first_of-map (is_row i a) (replace_member m)
      (λ n.
        ap (λ k. str_eq k i && str_eq (replace_member m n).address a) (replace_member-group m n)
        ∙ ap (λ b. str_eq n.group_id i && str_eq b a) (replace_member-address m n))
      ms

-- The key of a row that was found.
pub found_key :
    (i j : String) (a b : Address) (ms : List BlockpartyMember) {n : BlockpartyMember}
    → find_member i a ms ≡ some n
    → is_row j b n ≡ (str_eq j i && str_eq b a)
found_key i j a b ms {n} found =
    let (own, named) = find_member-is_row i a ms found in
    ap (λ k. str_eq k j && str_eq n.address b) own
    ∙ ap (λ k. str_eq i j && str_eq k b) named
    ∙ ground (arith, eq_iff i j, eq_iff j i, eq_iff a b, eq_iff b a)

keys_of :
    (id : String) (b : Address) (i : String) (a : Address)
    → str_eq id i && str_eq b a ≡ true
    → (id ≡ i) × (b ≡ a)
keys_of id b i a same = (ground (arith, same, eq_iff id i), ground (arith, same, eq_iff b a))

kept : (o : Option BlockpartyMember) {k : BlockpartyMember} → or_last o none ≡ some k → o ≡ some k
kept none h = h
kept (some n) h = h

-- A row of one key has no other.
apart_key :
    (id : String) (b : Address) (i : String) (a : Address) (n : BlockpartyMember)
    → str_eq id i && str_eq b a ≡ false
    → is_row i a n ≡ true
    → is_row id b n ≡ false
apart_key id b i a n other row =
    let (own, named) = keys_of n.group_id n.address i a row in
    ap (λ k. str_eq k id && str_eq n.address b) own
    ∙ ap (λ k. str_eq i id && str_eq k b) named
    ∙ ground (arith, other, eq_iff i id, eq_iff id i, eq_iff a b, eq_iff b a)

module _ {ℓ} {A : Type ℓ} (p q : A → Bool) where
  pub first_of-dropped :
      ((x : A) → p x ≡ true → q x ≡ false) → (xs : List A) → first_of p (select q xs) ≡ none
  first_of-dropped none_kept [] = refl
  first_of-dropped none_kept (x ∷ xs) = elim (Bool-cases (q x)) [
    | inr e ↦ rw e (first_of-dropped none_kept xs)
    | inl e ↦ elim (Bool-cases (p x)) [
      | inl k ↦ absurd (true-false (sym e ∙ none_kept x k))
      | inr k ↦ rw (e, k) (first_of-dropped none_kept xs)
    ]
  ]

  pub first_of-kept :
      ((x : A) → p x ≡ true → q x ≡ true) → (xs : List A) → first_of p (select q xs) ≡ first_of p xs
  first_of-kept all_kept [] = refl
  first_of-kept all_kept (x ∷ xs) = elim (Bool-cases (p x)) [
    | inl e ↦ rw (all_kept x e, e) refl
    | inr e ↦ elim (Bool-cases (q x)) [
      | inl k ↦ rw (k, e) (first_of-kept all_kept xs)
      | inr k ↦ rw (k, e) (first_of-kept all_kept xs)
    ]
  ]

module _ (ms : List BlockpartyMember) (c : Consents) (backed : Backed ms c) (m : BlockpartyMember)
    (id : String) (b : Address) (own : m.group_id ≡ id) (named : m.address ≡ b) (v : Option ℕ) where
  -- A row is saved whose consent, if it has one, is entered.
  pub save-Backed :
      (is_confirmed m ≡ true → v ≡ some m.percent_bp)
      → Backed (map (replace_member m) ms) (set_at id b v c)
  save-Backed right i a k found confirmed = elim (Option-cases (find_member i a ms)) [
    | inl e ↦
        absurd (
          none-some
            (sym (find_member-save i a m ms ∙ ap (option_map (replace_member m)) e) ∙ found))
    | inr (n, e) ↦
        let key : is_row m.group_id m.address n ≡ (str_eq id i && str_eq b a) =
          ap (λ x. is_row x m.address n) own
          ∙ ap (λ x. is_row id x n) named
          ∙ found_key i id a b ms e in
        let saved : replace_member m n ≡ k =
          some_eq
            (sym (find_member-save i a m ms ∙ ap (option_map (replace_member m)) e) ∙ found) in
        elim (Bool-cases (str_eq id i && str_eq b a)) [
          | inl same ↦
              let is : m ≡ k = rw (key, same) at saved in
              rw same (right (ap is_confirmed is ∙ confirmed) ∙ ap (λ r. some r.percent_bp) is)
          | inr other ↦
              let is : n ≡ k = rw (key, other) at saved in
              rw other (backed i a k (e ∙ ap some is) confirmed)
        ]
  ]

  pub insert-Backed :
      find_member id b ms ≡ none
      → (is_confirmed m ≡ true → v ≡ some m.percent_bp)
      → Backed (ms ++ m ∷ []) (set_at id b v c)
  unfolding find_member
  insert-Backed new right i a k found confirmed =
      let at : or_last (first_of (is_row i a) ms) (if is_row i a m then some m else none) ≡ some k =
        sym (first_of-append (is_row i a) ms m) ∙ found in
      let key : is_row i a m ≡ (str_eq id i && str_eq b a) =
        ap (λ x. str_eq x i && str_eq m.address a) own
        ∙ ap (λ x. str_eq id i && str_eq x a) named in
      elim (Bool-cases (str_eq id i && str_eq b a)) [
        | inl same ↦
            let (party, address) = keys_of id b i a same in
            let none_there : first_of (is_row i a) ms ≡ none =
              ap (λ x. first_of (is_row x a) ms) (sym party)
              ∙ ap (λ x. first_of (is_row id x) ms) (sym address)
              ∙ new in
            let is : m ≡ k = some_eq (rw (none_there, key, same) at at) in
            rw same (right (ap is_confirmed is ∙ confirmed) ∙ ap (λ r. some r.percent_bp) is)
        | inr other ↦
            rw other
              (backed i a k (kept (first_of (is_row i a) ms) (rw (key, other) at at)) confirmed)
      ]

pub delete-Backed :
    (ms : List BlockpartyMember) (c : Consents) (id : String) (b : Address)
    → Backed ms c
    → Backed (select (λ n. not (is_row id b n)) ms) (set_at id b none c)
unfolding find_member
delete-Backed ms c id b backed i a k found confirmed =
    elim (Bool-cases (str_eq id i && str_eq b a)) [
      | inl same ↦
          let (party, address) = keys_of id b i a same in
          absurd (
            none-some (
              sym (
                first_of-dropped (is_row i a) (λ n. not (is_row id b n))
                  (λ n row.
                    ap not (ap (λ x. is_row x b n) party ∙ ap (λ x. is_row i x n) address ∙ row))
                  ms)
              ∙ found))
      | inr other ↦ rw other (
          backed i a k
            (sym (
                first_of-kept (is_row i a) (λ n. not (is_row id b n))
                  (λ n row. ap not (apart_key id b i a n other row)) ms)
              ∙ found)
            confirmed)
    ]
