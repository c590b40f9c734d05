-- ===== src/Blockparty/Routing.antt =====
-- The cache of administrators of src/services/blockparty.service.ts against its tables: which party a
-- share is routed to.
use text.Mathlib.TextPositions.{eq_refl}
use blitzpool.Prelude.{
  none-some, some_eq, ◌≡◌, refl, sym, ap, ◌∙◌, List, [], ◌∷◌, ◌++◌, map, none, some, str_eq,
  if◌then◌else◌, Bool-cases, inl, inr, All, All-append,
}
use blitzpool.Coinbase.Weight.{Address}
use blitzpool.Blockparty.Store.{
  BlockpartyStatus, BlockpartyGroup, CacheEntry, Parties, cache_get, find_group, replace_group,
}
use blitzpool.Blockparty.Service.{
  rebuild_cache, live_groups, fill_admins, cache_entry_of, is_dissolved,
}
use blitzpool.Blockparty.Routes.{is_routable, is_pending}
use blitzpool.Blockparty.Tables.{find_group-save, find_group-insert, eq_of-str_eq, replace_group-id}
use blitzpool.Blockparty.Selects.{option_map, or_last}

-- Ids are distinct: every row is found by its id.
abbrev pub IsKeyed : List BlockpartyGroup → Type 0
IsKeyed gs = All (λ g. find_group g.id gs ≡ some g) gs

-- Two statuses that the share path treats alike.
abbrev pub Alike : BlockpartyStatus → BlockpartyStatus → Type 0
Alike a b = (is_routable a ≡ is_routable b) × (is_pending a ≡ is_pending b)

-- An entry names a party of its administrator's, in a status like the party's.
abbrev pub Names : Address → CacheEntry → List BlockpartyGroup → Type 0
Names a e gs =
    (g : BlockpartyGroup) × (find_group e.group_id gs ≡ some g)
    × (g.admin_address ≡ a)
    × Alike e.status g.status

abbrev pub CacheAgrees : List (Address × CacheEntry) → List BlockpartyGroup → Type 0
CacheAgrees cache gs = (a : Address) (e : CacheEntry) → cache_get a cache ≡ some e → Names a e gs

All-to {ℓ} :
    {A : Type ℓ} (P Q : A → Type 0) (f : A → A)
    → ((a : A) → P a → Q (f a))
    → (xs : List A) → All P xs
    → All Q (map f xs)
All-to P Q f keep [] h = tt
All-to P Q f keep (x ∷ xs) h = (keep x h.0, All-to P Q f keep xs h.1)

All-weaken {ℓ} :
    {A : Type ℓ} (P Q : A → Type 0) → ((a : A) → P a → Q a) → (xs : List A) → All P xs → All Q xs
All-weaken P Q keep [] h = tt
All-weaken P Q keep (x ∷ xs) h = (keep x h.0, All-weaken P Q keep xs h.1)

pub save-IsKeyed :
    (g : BlockpartyGroup) (gs : List BlockpartyGroup)
    → IsKeyed gs
    → IsKeyed (map (replace_group g) gs)
save-IsKeyed g gs h =
    All-to (λ k. find_group k.id gs ≡ some k)
      (λ k. find_group k.id (map (replace_group g) gs) ≡ some k) (replace_group g)
      (λ k found.
        ap (λ n. find_group n (map (replace_group g) gs)) (replace_group-id g k)
        ∙ find_group-save k.id g gs
        ∙ ap (option_map (replace_group g)) found)
      gs h

pub insert-IsKeyed :
    (g : BlockpartyGroup) (gs : List BlockpartyGroup)
    → find_group g.id gs ≡ none
    → IsKeyed gs
    → IsKeyed (gs ++ g ∷ [])
insert-IsKeyed g gs new h =
    All-append (λ k. find_group k.id (gs ++ g ∷ []) ≡ some k) gs (g ∷ [])
      (All-weaken (λ k. find_group k.id gs ≡ some k) (λ k. find_group k.id (gs ++ g ∷ []) ≡ some k)
        (λ k found.
          find_group-insert k.id gs g
          ∙ ap (λ o. or_last o (if str_eq g.id k.id then some g else none)) found)
        gs h)
      (
        find_group-insert g.id gs g
            ∙ ap (λ o. or_last o (if str_eq g.id g.id then some g else none)) new
            ∙ ap (λ b. if b then some g else none) (eq_refl g.id),
        tt,
      )

live-All :
    (P : BlockpartyGroup → Type 0) (gs : List BlockpartyGroup) → All P gs → All P (live_groups gs)
live-All P [] h = tt
live-All P (g ∷ gs) h = elim (Bool-cases (is_dissolved g.status)) [
  | inl e ↦ rw e (live-All P gs h.1)
  | inr e ↦ rw e (h.0, live-All P gs h.1)
]

module _ (gs : List BlockpartyGroup) where
  pub set-CacheAgrees :
      (a : Address) (e : CacheEntry) (cache : List (Address × CacheEntry))
      → Names a e gs
      → CacheAgrees cache gs
      → CacheAgrees ((a, e) ∷ cache) gs
  unfolding cache_get
  set-CacheAgrees a e cache here h b f hit = elim (Bool-cases (str_eq a b)) [
    | inl k ↦ rw (sym (eq_of-str_eq a b k), sym (some_eq (rw k at hit))) here
    | inr k ↦ h b f (rw k at hit)
  ]

  pub fill-CacheAgrees :
      (live : List BlockpartyGroup) (cache : List (Address × CacheEntry))
      → All (λ g. find_group g.id gs ≡ some g) live
      → CacheAgrees cache gs
      → CacheAgrees (fill_admins live cache) gs
  unfolding fill_admins
  fill-CacheAgrees [] cache h k = k
  fill-CacheAgrees (g ∷ live) cache h k = fill-CacheAgrees live (cache_entry_of g ∷ cache) h.1 (
      set-CacheAgrees g.admin_address (record { group_id = g.id; status = g.status }) cache
        (g, h.0, refl, (refl, refl)) k)

  pub empty-CacheAgrees : CacheAgrees [] gs
  unfolding cache_get
  empty-CacheAgrees a e hit = absurd (none-some hit)

pub rebuild-CacheAgrees :
    (s : Parties) → IsKeyed s.groups → CacheAgrees (rebuild_cache s).admin_cache s.groups
unfolding rebuild_cache
rebuild-CacheAgrees s keyed =
    fill-CacheAgrees s.groups (live_groups s.groups) []
      (live-All (λ g. find_group g.id s.groups ≡ some g) s.groups keyed)
      (empty-CacheAgrees s.groups)
