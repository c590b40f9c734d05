-- ===== src/Blockparty/Joined.antt =====
-- createGroup, addMember and removeMember of src/services/blockparty.service.ts on the consents: who
-- comes into a party, and who leaves it.
use blitzpool.Prelude.{
  none-some, true-false, ℕ, ◌≡◌, refl, sym, ap, ◌∙◌, false, List, [], ◌∷◌, Option, none, some,
  String, str_eq, arith, Bool-cases, inl, inr,
}
use blitzpool.Address.{normalize_btc_address}
use blitzpool.Coinbase.Weight.{Address}
use blitzpool.Blockparty.Store.{
  BlockpartyStatus, draft, confirming, ready, active, dissolved, BlockpartyGroup, BlockpartyMember,
  Parties, find_member, find_by_address, save_group, insert_group, insert_member, delete_member,
}
use blitzpool.Blockparty.Checks.{ok}
use blitzpool.Blockparty.Service.{BlockpartyService, rebuild_cache, is_confirmed, recompute_status}
use blitzpool.Blockparty.Membership.{
  CreateParams, MemberInput, promote, check_create, admin_row, create_group, check_add, add_member,
  check_remove, remove_member,
}
use blitzpool.Blockparty.Calls.{creates, adds, removes}
use blitzpool.Blockparty.Tables.{find_member-is_row}
use blitzpool.Blockparty.Granted.{check_create-new, check_add-found, check_remove-found}
use blitzpool.Blockparty.Paid.{recompute-members}
use blitzpool.Blockparty.Consents.{Consents, set_at, after_call}
use blitzpool.Blockparty.Backed.{insert-Backed, delete-Backed}
use blitzpool.Blockparty.Consented.{BackedIn, answered-Backed, with_members}

-- An address that is in no party is in this one.
no_member :
    (id : String) (b : Address) (ms : List BlockpartyMember)
    → find_by_address b ms ≡ none
    → find_member id b ms ≡ none
unfolding find_member find_by_address
no_member id b [] h = refl
no_member id b (m ∷ ms) h = elim (Bool-cases (str_eq m.address b)) [
  | inl e ↦ absurd (none-some (sym (rw e at h)))
  | inr e ↦ rw e (ground (arith, no_member id b ms (rw e at h)))
]

promote-members :
    (g : BlockpartyGroup) (st : BlockpartyStatus) (s : Parties)
    → (promote g st s).members ≡ s.members
unfolding save_group
promote-members g draft s = refl
promote-members g confirming s = refl
promote-members g ready s = refl
promote-members g active s = refl
promote-members g dissolved s = refl

module _ (service : BlockpartyService) (s : Parties) where
  create-address :
      (id token : String) (params : CreateParams) {g : BlockpartyGroup}
      → check_create service s id token params ≡ ok g
      → g.admin_address ≡ normalize_btc_address params.admin_address
  unfolding check_create
  create-address id token params h = ground arith

  add-asked :
      (id : String) (input : MemberInput) (token : Option String)
      {x : BlockpartyGroup × BlockpartyMember}
      → check_add service s id input token ≡ ok x
      → (x.1.address ≡ normalize_btc_address input.address) × (is_confirmed x.1 ≡ false)
  unfolding check_add
  add-asked id input token h = ground arith

module _ (service : BlockpartyService) (s : Parties) (c : Consents) (backed : BackedIn c s) where
  pub create-Backed :
      (now : ℕ) (id token : String) (params : CreateParams)
      → BackedIn
          (after_call service (creates now id token params) s c)
          (create_group service now id token params s).0
  unfolding after_call create_group insert_group insert_member rebuild_cache
  create-Backed now id token params =
      let b = normalize_btc_address params.admin_address in
      answered-Backed s (check_create service s id token params) _ _ c backed λ g granted.
        let (own, _, new, _) = check_create-new service s id token params granted in
        let named : g.admin_address ≡ b = create-address service s id token params granted in
        insert-Backed s.members c backed (admin_row service now params g) id b own named
          (some params.admin_percent_bp)
          (no_member id b s.members (ap (λ x. find_by_address x s.members) (sym named) ∙ new))
          (λ _. refl)

  pub add-Backed :
      (id : String) (input : MemberInput) (token : Option String)
      → BackedIn
          (after_call service (adds id input token) s c)
          (add_member service id input token s).0
  unfolding after_call add_member insert_member rebuild_cache
  add-Backed id input token =
      let b = normalize_btc_address input.address in
      answered-Backed s (check_add service s id input token) _ _ c backed λ x granted.
        let (_, _, own, new) = check_add-found service s id input token granted in
        let (named, unasked) = add-asked service s id input token granted in
        let added = insert_member x.1 s in
        let promoted = promote x.0 x.0.status added in
        with_members (set_at id b none c) (rebuild_cache (recompute_status id promoted))
          (recompute-members id promoted ∙ promote-members x.0 x.0.status added)
          (insert-Backed s.members c backed x.1 id b own named none
            (no_member id b s.members (ap (λ y. find_by_address y s.members) (sym named) ∙ new))
            (λ k. absurd (true-false (sym k ∙ unasked))))

  pub remove-Backed :
      (id : String) (address : Address) (token : Option String)
      → BackedIn
          (after_call service (removes id address token) s c)
          (remove_member service id address token s).0
  unfolding after_call remove_member delete_member rebuild_cache
  remove-Backed id address token =
      let b = normalize_btc_address address in
      answered-Backed s (check_remove service s id address token) _ _ c backed λ m granted.
        let (found, _) = check_remove-found service s id address token granted in
        let (own, named) = find_member-is_row id b s.members found in
        let removed = delete_member m s in
        with_members (set_at id b none c) (rebuild_cache (recompute_status id removed))
          (recompute-members id removed) (rw (own, named) (delete-Backed s.members c id b backed))
