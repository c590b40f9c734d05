-- ===== src/Blockparty/Selects.antt =====
-- The first row, and the rows, of a table for which a test holds: the lookups of
-- src/services/blockparty.service.ts.
use blitzpool.Prelude.{
  some_eq, ◌≡◌, refl, sym, ap, ◌∙◌, Bool, true, List, [], ◌∷◌, ◌++◌, map, Option, none, some,
  if◌then◌else◌, Bool-cases, inl, inr,
}
use blitzpool.Blockparty.Store.{first_of, select}

abbrev pub option_map {ℓ} : {A : Type ℓ} → (A → A) → Option A → Option A
option_map f none = none
option_map f (some a) = some (f a)

abbrev pub or_last {ℓ} : {A : Type ℓ} → Option A → Option A → Option A
or_last none d = d
or_last (some a) d = some a

module _ {ℓ} {A : Type ℓ} (p : A → Bool) where
  -- An update that a test does not see.
  pub first_of-map :
      (f : A → A)
      → ((a : A) → p (f a) ≡ p a)
      → (xs : List A) → first_of p (map f xs) ≡ option_map f (first_of p xs)
  first_of-map f keeps [] = refl
  first_of-map f keeps (x ∷ xs) = elim (Bool-cases (p x)) [
    | inl e ↦ rw (keeps x, e) refl
    | inr e ↦ rw (keeps x, e) (first_of-map f keeps xs)
  ]

  pub first_of-append :
      (xs : List A) (y : A)
      → first_of p (xs ++ y ∷ []) ≡ or_last (first_of p xs) (if p y then some y else none)
  first_of-append [] y = refl
  first_of-append (x ∷ xs) y = elim (Bool-cases (p x)) [
    | inl e ↦ rw e refl
    | inr e ↦ rw e (first_of-append xs y)
  ]

  pub first_of-holds : (xs : List A) {x : A} → first_of p xs ≡ some x → p x ≡ true
  first_of-holds [] h = cc
  first_of-holds (y ∷ ys) h = elim (Bool-cases (p y)) [
    | inl e ↦ sym (ap p (some_eq (rw e at h))) ∙ e
    | inr e ↦ first_of-holds ys (rw e at h)
  ]

  pub select-map :
      (f : A → A)
      → ((a : A) → p (f a) ≡ p a)
      → (xs : List A) → select p (map f xs) ≡ map f (select p xs)
  select-map f keeps [] = refl
  select-map f keeps (x ∷ xs) = elim (Bool-cases (p x)) [
    | inl e ↦ rw (keeps x, e) (ap (◌∷◌ (f x)) (select-map f keeps xs))
    | inr e ↦ rw (keeps x, e) (select-map f keeps xs)
  ]

  -- An update that changes nothing that is selected.
  pub select-map_same :
      (f : A → A)
      → ((a : A) → p (f a) ≡ p a)
      → ((a : A) → p a ≡ true → f a ≡ a)
      → (xs : List A) → select p (map f xs) ≡ select p xs
  select-map_same f keeps same [] = refl
  select-map_same f keeps same (x ∷ xs) = elim (Bool-cases (p x)) [
    | inl e ↦ rw (keeps x, e, same x e) (ap (◌∷◌ x) (select-map_same f keeps same xs))
    | inr e ↦ rw (keeps x, e) (select-map_same f keeps same xs)
  ]

  pub select-append :
      (xs : List A) (y : A) → select p (xs ++ y ∷ []) ≡ select p xs ++ (if p y then y ∷ [] else [])
  select-append [] y = elim (Bool-cases (p y)) [ inl e ↦ rw e refl | inr e ↦ rw e refl ]
  select-append (x ∷ xs) y = elim (Bool-cases (p x)) [
    | inl e ↦ rw e (ap (◌∷◌ x) (select-append xs y))
    | inr e ↦ rw e (select-append xs y)
  ]

  -- What is deleted was not selected.
  pub select-select :
      (q : A → Bool)
      → ((a : A) → p a ≡ true → q a ≡ true)
      → (xs : List A) → select p (select q xs) ≡ select p xs
  select-select q keeps [] = refl
  select-select q keeps (x ∷ xs) = elim (Bool-cases (p x)) [
    | inl e ↦ rw (keeps x e, e) (ap (◌∷◌ x) (select-select q keeps xs))
    | inr e ↦ elim (Bool-cases (q x)) [
      | inl k ↦ rw (k, e) (select-select q keeps xs)
      | inr k ↦ rw (k, e) (select-select q keeps xs)
    ]
  ]
