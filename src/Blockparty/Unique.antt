-- ===== src/Blockparty/Unique.antt =====
-- The addresses of the members of src/services/blockparty.service.ts.
use blitzpool.Prelude.{
  none-some, some_eq, ◌≡◌, refl, sym, ap, ◌∙◌, Bool, true, false, List, [], ◌∷◌, ◌++◌, map, none,
  some, String, str_eq, if◌then◌else◌, arith, Bool-cases, inl, inr,
}
use blitzpool.Coinbase.Weight.{Address}
use blitzpool.Blockparty.Store.{
  BlockpartyMember, Parties, find_by_address, find_member, is_row, first_of, select, replace_member,
  insert_member, save_member, delete_member, save_group, insert_group, cache_admin,
}
use blitzpool.Blockparty.Service.{BlockpartyService, rebuild_cache}
use blitzpool.Blockparty.Writes.{
  Write, promoted, followed, hinted, ended, shared, opened, joined, left, edited, answered, rebuilt,
  recorded, Writes-keep,
}
use blitzpool.Blockparty.Calls.{Reached}
use blitzpool.Blockparty.Refinement.{Runs-Writes}
use blitzpool.Blockparty.Tables.{
  replace_member-address, eq_of-str_eq, str_eq_of-ne, ne_of-str_eq, find_member-is_row,
}
use blitzpool.Blockparty.Selects.{first_of-map, first_of-append, option_map, or_last}

abbrev pub IsDistinct : List BlockpartyMember → Type 0
IsDistinct [] = Unit
IsDistinct (m ∷ ms) = (find_by_address m.address ms ≡ none) × IsDistinct ms

none-map :
    (m : BlockpartyMember) (a : Address) (ms : List BlockpartyMember)
    → find_by_address a ms ≡ none
    → find_by_address a (map (replace_member m) ms) ≡ none
unfolding find_by_address
none-map m a ms h =
    first_of-map (λ n. str_eq n.address a) (replace_member m)
      (λ n. ap (λ b. str_eq b a) (replace_member-address m n)) ms
    ∙ ap (option_map (replace_member m)) h

map-IsDistinct :
    (m : BlockpartyMember) (ms : List BlockpartyMember)
    → IsDistinct ms
    → IsDistinct (map (replace_member m) ms)
map-IsDistinct m [] h = tt
map-IsDistinct m (n ∷ ms) h = (
  ap (λ a. find_by_address a (map (replace_member m) ms)) (replace_member-address m n)
      ∙ none-map m n.address ms h.0,
  map-IsDistinct m ms h.1,
)

none-select :
    (p : BlockpartyMember → Bool) (a : Address) (ms : List BlockpartyMember)
    → find_by_address a ms ≡ none
    → find_by_address a (select p ms) ≡ none
unfolding find_by_address
none-select p a [] h = refl
none-select p a (m ∷ ms) h = elim (Bool-cases (str_eq m.address a)) [
  | inl e ↦ absurd (none-some (sym (rw e at h)))
  | inr e ↦ elim (Bool-cases (p m)) [
    | inl k ↦ rw (k, e) (none-select p a ms (rw e at h))
    | inr k ↦ rw k (none-select p a ms (rw e at h))
  ]
]

select-IsDistinct :
    (p : BlockpartyMember → Bool) (ms : List BlockpartyMember)
    → IsDistinct ms
    → IsDistinct (select p ms)
select-IsDistinct p [] h = tt
select-IsDistinct p (m ∷ ms) h = elim (Bool-cases (p m)) [
  | inl e ↦ rw e (none-select p m.address ms h.0, select-IsDistinct p ms h.1)
  | inr e ↦ rw e (select-IsDistinct p ms h.1)
]

append-IsDistinct :
    (m : BlockpartyMember) (ms : List BlockpartyMember)
    → find_by_address m.address ms ≡ none
    → IsDistinct ms
    → IsDistinct (ms ++ m ∷ [])
unfolding find_by_address
append-IsDistinct m [] new h = (refl, tt)
append-IsDistinct m (n ∷ ms) new h = elim (Bool-cases (str_eq n.address m.address)) [
  | inl e ↦ absurd (none-some (sym (rw e at new)))
  | inr e ↦
      let apart : str_eq m.address n.address ≡ false =
        str_eq_of-ne m.address n.address (λ c. ne_of-str_eq n.address m.address e (sym c)) in
      (
        first_of-append (λ k. str_eq k.address n.address) ms m
            ∙ ap (λ b. or_last (find_by_address n.address ms) (if b then some m else none)) apart
            ∙ ap (λ o. or_last o none) h.0,
        append-IsDistinct m ms (rw e at new) h.1,
      )
]

pub Write-IsDistinct : (s t : Parties) → Write s t → IsDistinct s.members → IsDistinct t.members
unfolding cache_admin rebuild_cache insert_member save_member delete_member save_group insert_group
Write-IsDistinct s t (promoted g old at e) h = rw e h
Write-IsDistinct s t (followed g st old may e) h = rw e h
Write-IsDistinct s t (hinted g hint old e) h = rw e h
Write-IsDistinct s t (ended now g old e) h = rw e h
Write-IsDistinct s t (shared now a entry g st hit old may e) h = rw e h
Write-IsDistinct s t (opened g new at e) h = rw e h
Write-IsDistinct s t (joined m new IsOpen-at e) h = rw e (append-IsDistinct m s.members new h)
Write-IsDistinct s t (left m IsOpen-at e) h = rw e (select-IsDistinct _ s.members h)
Write-IsDistinct s t (edited m IsOpen-at e) h = rw e (map-IsDistinct m s.members h)
Write-IsDistinct s t (answered m old row same e) h = rw e (map-IsDistinct m s.members h)
Write-IsDistinct s t (rebuilt e) h = rw e h
Write-IsDistinct s t (recorded row e) h = rw e h

-- A row is the one that its address finds.
pub by_row :
    (i : String) (a : Address) (ms : List BlockpartyMember) {m : BlockpartyMember}
    → IsDistinct ms
    → find_member i a ms ≡ some m
    → find_by_address a ms ≡ some m
unfolding find_member find_by_address
by_row i a [] h found = absurd (none-some found)
by_row i a (n ∷ ms) {m} h found = elim (Bool-cases (is_row i a n)) [
  | inl e ↦
      let named : str_eq n.address a ≡ true = ground (arith, e) in
      rw named (ap some (some_eq (rw e at found)))
  | inr e ↦
      let later : first_of (is_row i a) ms ≡ some m = rw e at found in
      elim (Bool-cases (str_eq n.address a)) [
        | inl k ↦ absurd (
            none-some (
              sym (ap (λ b. find_by_address b ms) (sym (eq_of-str_eq n.address a k)) ∙ h.0)
              ∙ by_row i a ms h.1 later))
        | inr k ↦ rw k (by_row i a ms h.1 later)
      ]
]

-- After any calls, an address is in at most one party.
pub member_unique :
    (service : BlockpartyService) (s : Parties) (i j : String) (a : Address)
    {m n : BlockpartyMember}
    → Reached service s
    → find_member i a s.members ≡ some m
    → find_member j a s.members ≡ some n
    → i ≡ j
member_unique service s i j a r in_i in_j =
    let distinct =
      Writes-keep (λ u. IsDistinct u.members) Write-IsDistinct (Runs-Writes service r) tt in
    let same =
      some_eq (sym (by_row i a s.members distinct in_i) ∙ by_row j a s.members distinct in_j) in
    sym (find_member-is_row i a s.members in_i).0
    ∙ ap (λ m. m.group_id) same
    ∙ (find_member-is_row j a s.members in_j).0
