-- ===== src/Blockparty/MembersAgreed.antt =====
-- The calls on the members of a party in src/services/blockparty.service.ts: whether its members have
-- agreed where it is ready.
use blitzpool.Prelude.{
  none-some, ℕ, ◌≡◌, refl, sym, ap, ◌∙◌, ◌&&◌, List, [], Option, none, some, String, Bool-cases,
  inl, inr, ◌≢◌,
}
use blitzpool.Address.{normalize_btc_address}
use blitzpool.Coinbase.Weight.{Address}
use blitzpool.Blockparty.Store.{
  draft, ready, BlockpartyMember, Parties, find_group, members_of, insert_group, insert_member,
  save_member, delete_member, find_member,
}
use blitzpool.Blockparty.Checks.{require_admin_token}
use blitzpool.Blockparty.Service.{BlockpartyService, all_confirmed, recompute_status}
use blitzpool.Blockparty.Membership.{
  CreateParams, MemberInput, create_group, add_member, remove_member, update_splits, promote,
  edit_members, edits_of, check_create, check_add, check_remove, check_update, admin_row,
}
use blitzpool.Blockparty.Consent.{
  reset_found, is_none, wiped, reset_member_onboarding, check_mark, marked, mark_member_confirmed,
  check_confirm, confirm_as_member,
}
use blitzpool.Blockparty.Life.{update_rental_provider_hint, cleaned}
use blitzpool.Blockparty.Granted.{
  require_admin_token-found, check_create-new, check_add-found, check_remove-found,
  check_mark-found, check_confirm-found,
}
use blitzpool.Blockparty.Tables.{
  find_group-id, members_of-insert_other, found_after_insert, member_in_party,
}
use blitzpool.Blockparty.Agreed.{
  save_member-Others, insert_member-Others, delete_member-Others, promote-Others, members_of-own,
  edit_members-Others, resave-AllAgreed, rebuild-AllAgreed, others_of_all,
}
use blitzpool.Blockparty.Ready.{answered_by-keeps, AllAgreed, recompute-AllAgreed}

pub draft_ready : draft ≢ ready
draft_ready e = cc

module _ (service : BlockpartyService) (s : Parties) (agreed : AllAgreed s) where
  pub create-AllAgreed :
      (now : ℕ) (id admin_token : String) (params : CreateParams)
      → find_group id s.groups ≡ none
      → AllAgreed (create_group service now id admin_token params s).0
  unfolding create_group insert_group insert_member
  create-AllAgreed now id admin_token params fresh =
      answered_by-keeps AllAgreed s (check_create service s id admin_token params) _ agreed
        λ g granted.
          let (own, is_draft, _, _) = check_create-new service s id admin_token params granted in
          let m = admin_row service now params g in
          rebuild-AllAgreed (insert_member m (insert_group g s)) λ i k found is_ready.
            elim (found_after_insert g i s.groups found) [
              | inl old ↦
                  ap all_confirmed (
                    members_of-insert_other i m s.members (λ e.
                      none-some (sym fresh ∙ ap (λ n. find_group n s.groups) (sym own ∙ e) ∙ old)))
                  ∙ agreed i k old is_ready
              | inr (e, _) ↦
                  absurd (draft_ready (sym is_draft ∙ sym (ap (λ r. r.status) e) ∙ is_ready))
            ]

  pub add-AllAgreed :
      (id : String) (input : MemberInput) (token : Option String)
      → AllAgreed (add_member service id input token s).0
  unfolding add_member
  add-AllAgreed id input token =
      answered_by-keeps AllAgreed s (check_add service s id input token) _ agreed λ x granted.
        let (_, _, own, _) = check_add-found service s id input token granted in
        let added = insert_member x.1 s in
        let promoted = promote x.0 x.0.status added in
        rebuild-AllAgreed (recompute_status id promoted) (
          recompute-AllAgreed promoted id (
            promote-Others added id x.0 x.0.status
              (insert_member-Others s id x.1 own (others_of_all s id agreed))))

  pub remove-AllAgreed :
      (id : String) (address : Address) (token : Option String)
      → AllAgreed (remove_member service id address token s).0
  unfolding remove_member
  remove-AllAgreed id address token =
      answered_by-keeps AllAgreed s (check_remove service s id address token) _ agreed λ m granted.
        let (found, _) = check_remove-found service s id address token granted in
        let removed = delete_member m s in
        rebuild-AllAgreed (recompute_status id removed) (
          recompute-AllAgreed removed id (
            delete_member-Others s id m (member_in_party id (normalize_btc_address address) s found)
              (others_of_all s id agreed)))

  pub update-AllAgreed :
      (now : ℕ) (id : String) (us : List MemberInput) (token : Option String)
      → AllAgreed (update_splits service now id us token s).0
  unfolding update_splits
  update-AllAgreed now id us token =
      answered_by-keeps AllAgreed s (check_update service s id us token) _ agreed λ x granted.
        let edits = edits_of x.1 [] in
        let rows = members_of id s.members in
        recompute-AllAgreed (edit_members now x.0.admin_address edits rows s) id (
          edit_members-Others id now x.0.admin_address edits rows s (members_of-own id s.members)
            (others_of_all s id agreed))

  -- A row of a party is saved, and the status follows.
  pub saved_row-AllAgreed :
      (id : String) (m : BlockpartyMember)
      → m.group_id ≡ id
      → AllAgreed (recompute_status id (save_member m s))
  saved_row-AllAgreed id m own =
      recompute-AllAgreed (save_member m s) id
        (save_member-Others s id m own (others_of_all s id agreed))

  pub reset_found-AllAgreed :
      (id : String) (a : Address) (o : Option BlockpartyMember)
      → find_member id a s.members ≡ o
      → AllAgreed (reset_found id o s)
  reset_found-AllAgreed id a none found = agreed
  reset_found-AllAgreed id a (some m) found =
      elim (Bool-cases (is_none m.member_token_hash && is_none m.confirmed_at)) [
        | inl e ↦ rw e agreed
        | inr e ↦ rw e (saved_row-AllAgreed id (wiped m) (member_in_party id a s found))
      ]

  pub reset-AllAgreed :
      (id : String) (address : Address) → AllAgreed (reset_member_onboarding id address s).0
  unfolding reset_member_onboarding
  reset-AllAgreed id address =
      let a = normalize_btc_address address in
      answered_by-keeps AllAgreed s _ _ agreed
        λ _ _. reset_found-AllAgreed id a (find_member id a s.members) refl

  pub mark-AllAgreed :
      (now : ℕ) (minted id : String) (address : Address)
      → AllAgreed (mark_member_confirmed service now minted id address s).0
  unfolding mark_member_confirmed
  mark-AllAgreed now minted id address =
      answered_by-keeps AllAgreed s (check_mark s id address) _ agreed λ m granted.
        saved_row-AllAgreed id (marked service now minted m) (
          member_in_party id (normalize_btc_address address) s
            (check_mark-found service s id address granted))

  pub confirm-AllAgreed :
      (now : ℕ) (id : String) (address : Address) (token : Option String)
      → AllAgreed (confirm_as_member service now id address token s).0
  unfolding confirm_as_member
  confirm-AllAgreed now id address token =
      answered_by-keeps AllAgreed s (check_confirm service s id address token) _ agreed λ m granted.
        elim (Bool-cases (is_none m.confirmed_at)) [
          | inl e ↦ rw e (
              saved_row-AllAgreed id (record m { confirmed_at = some now })
                (member_in_party id (normalize_btc_address address) s
                  (check_confirm-found service s id address token granted)))
          | inr e ↦ rw e agreed
        ]

  pub hint-AllAgreed :
      (id : String) (hint token : Option String)
      → AllAgreed (update_rental_provider_hint service id hint token s).0
  unfolding update_rental_provider_hint
  hint-AllAgreed id hint token =
      answered_by-keeps AllAgreed s (require_admin_token service.hash_token s id token) _ agreed
        λ g granted.
          let found = require_admin_token-found service.hash_token s id token granted in
          resave-AllAgreed s (record g { rental_provider_hint = cleaned hint }) g
            (ap (λ n. find_group n s.groups) (find_group-id id s.groups found) ∙ found) refl agreed
