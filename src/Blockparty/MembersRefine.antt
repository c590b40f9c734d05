-- ===== src/Blockparty/MembersRefine.antt =====
-- The writes that the calls on the members of a party make, in src/services/blockparty.service.ts.
use blitzpool.Prelude.{
  ℕ, ◌≡◌, refl, ap, ◌∙◌, ◌&&◌, List, [], ◌∷◌, ◌++◌, Option, none, some, String, str_eq,
  if◌then◌else◌, Bool-cases, inl, inr,
}
use blitzpool.Address.{normalize_btc_address}
use blitzpool.Coinbase.Weight.{Address}
use blitzpool.Blockparty.Store.{
  BlockpartyGroup, BlockpartyMember, Parties, find_group, members_of, insert_group, insert_member,
  delete_member, find_member,
}
use blitzpool.Blockparty.Checks.{require_admin_token}
use blitzpool.Blockparty.Service.{BlockpartyService, recompute_status}
use blitzpool.Blockparty.Membership.{
  CreateParams, MemberInput, create_group, add_member, remove_member, update_splits, promote,
  edit_members, edits_of, check_create, check_add, check_remove, check_update, admin_row,
}
use blitzpool.Blockparty.Consent.{
  reset_found, is_none, wiped, reset_member_onboarding, check_mark, marked, mark_member_confirmed,
  check_confirm, confirm_as_member,
}
use blitzpool.Blockparty.Life.{update_rental_provider_hint, cleaned}
use blitzpool.Blockparty.Granted.{
  require_admin_token-found, check_create-new, check_add-found, check_remove-found,
  check_update-found, check_mark-found, check_confirm-found,
}
use blitzpool.Blockparty.Tables.{str_eq_of-eq, member_in_party, find_group-insert}
use blitzpool.Blockparty.Selects.{or_last}
use blitzpool.Blockparty.Writes.{
  hinted, opened, joined, left, Writes, done, also, one-Write, append-Writes,
}
use blitzpool.Blockparty.Service.{recompute_status}
use blitzpool.Blockparty.Agreed.{members_of-own}
use blitzpool.Blockparty.Refines.{
  answered_by-Writes, found_by_own, IsOpen-at, recompute-Writes, rebuild-Writes, promote-Writes,
  edit_members-Writes, answered-Writes,
}

pub found_new :
    (g : BlockpartyGroup) (s : Parties)
    → find_group g.id s.groups ≡ none
    → find_group g.id (s.groups ++ g ∷ []) ≡ some g
found_new g s unknown =
    find_group-insert g.id s.groups g
    ∙ ap (λ o. or_last o (if str_eq g.id g.id then some g else none)) unknown
    ∙ ap (λ b. if b then some g else none) (str_eq_of-eq {a = g.id} {b = g.id} refl)

module _ (service : BlockpartyService) (s : Parties) where
  pub create-Writes :
      (now : ℕ) (id admin_token : String) (params : CreateParams)
      → find_group id s.groups ≡ none
      → Writes s (create_group service now id admin_token params s).0
  unfolding create_group insert_group
  create-Writes now id admin_token params fresh =
      answered_by-Writes s (check_create service s id admin_token params) _ λ g granted.
        let (own, is_draft, new, _) = check_create-new service s id admin_token params granted in
        let m = admin_row service now params g in
        let s' = insert_group g s in
        let unknown : find_group g.id s.groups ≡ none =
          ap (λ n. find_group n s.groups) own ∙ fresh in
        rebuild-Writes g.id (insert_member m s') (
          also (one-Write (opened g unknown is_draft refl))
            (joined m new (g, found_new g s unknown, rw is_draft refl) refl))

  pub add-Writes :
      (id : String) (input : MemberInput) (token : Option String)
      → Writes s (add_member service id input token s).0
  unfolding add_member insert_member
  add-Writes id input token =
      answered_by-Writes s (check_add service s id input token) _ λ x granted.
        let (found, editable, own, new) = check_add-found service s id input token granted in
        let added = insert_member x.1 s in
        let promoted = promote x.0 x.0.status added in
        rebuild-Writes id (recompute_status id promoted) (
          append-Writes
            (append-Writes (one-Write (joined x.1 new (IsOpen-at s x.0 found editable own) refl))
              (promote-Writes x.0 x.0.status added (found_by_own id s found) refl))
            (recompute-Writes id promoted))

  pub remove-Writes :
      (id : String) (address : Address) (token : Option String)
      → Writes s (remove_member service id address token s).0
  unfolding remove_member
  remove-Writes id address token =
      answered_by-Writes s (check_remove service s id address token) _ λ m granted.
        let (row, (g, found, editable)) = check_remove-found service s id address token granted in
        let own = member_in_party id (normalize_btc_address address) s row in
        let removed = delete_member m s in
        rebuild-Writes id (recompute_status id removed) (
          append-Writes (one-Write (left m (IsOpen-at s g found editable own) refl))
            (recompute-Writes id removed))

  pub update-Writes :
      (now : ℕ) (id : String) (us : List MemberInput) (token : Option String)
      → Writes s (update_splits service now id us token s).0
  unfolding update_splits
  update-Writes now id us token =
      answered_by-Writes s (check_update service s id us token) _ λ x granted.
        let (found, editable) = check_update-found service s id us token granted in
        let edits = edits_of x.1 [] in
        let rows = members_of id s.members in
        append-Writes
          (edit_members-Writes id now x.0.admin_address edits rows s (members_of-own id s.members)
            (x.0, found, editable))
          (recompute-Writes id (edit_members now x.0.admin_address edits rows s))

  pub reset_found-Writes :
      (id : String) (a : Address) (o : Option BlockpartyMember)
      → find_member id a s.members ≡ o
      → Writes s (reset_found id o s)
  reset_found-Writes id a none found = done
  reset_found-Writes id a (some m) found =
      elim (Bool-cases (is_none m.member_token_hash && is_none m.confirmed_at)) [
        | inl e ↦ rw e done
        | inr e ↦ rw e (answered-Writes id a (wiped m) m s found refl refl refl)
      ]

  pub reset-Writes :
      (id : String) (address : Address) → Writes s (reset_member_onboarding id address s).0
  unfolding reset_member_onboarding
  reset-Writes id address =
      let a = normalize_btc_address address in
      answered_by-Writes s _ _ λ _ _. reset_found-Writes id a (find_member id a s.members) refl

  pub mark-Writes :
      (now : ℕ) (minted id : String) (address : Address)
      → Writes s (mark_member_confirmed service now minted id address s).0
  unfolding mark_member_confirmed
  mark-Writes now minted id address = answered_by-Writes s (check_mark s id address) _ λ m granted.
      answered-Writes id (normalize_btc_address address) (marked service now minted m) m s
        (check_mark-found service s id address granted) refl refl refl

  pub confirm-Writes :
      (now : ℕ) (id : String) (address : Address) (token : Option String)
      → Writes s (confirm_as_member service now id address token s).0
  unfolding confirm_as_member
  confirm-Writes now id address token =
      answered_by-Writes s (check_confirm service s id address token) _ λ m granted.
        elim (Bool-cases (is_none m.confirmed_at)) [
          | inl e ↦ rw e (
              answered-Writes id (normalize_btc_address address)
                (record m { confirmed_at = some now }) m s
                (check_confirm-found service s id address token granted) refl refl refl)
          | inr e ↦ rw e done
        ]

  pub hint-Writes :
      (id : String) (hint token : Option String)
      → Writes s (update_rental_provider_hint service id hint token s).0
  unfolding update_rental_provider_hint
  hint-Writes id hint token =
      answered_by-Writes s (require_admin_token service.hash_token s id token) _ λ g granted.
        one-Write (
          hinted g (cleaned hint)
            (found_by_own id s (require_admin_token-found service.hash_token s id token granted))
            refl)
