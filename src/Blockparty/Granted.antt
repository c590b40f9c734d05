-- ===== src/Blockparty/Granted.antt =====
-- What is known where a call of src/services/blockparty.service.ts is not refused.
use blitzpool.Prelude.{ℕ, ◌≡◌, refl, true, false, List, Option, none, some, String, arith}
use blitzpool.Coinbase.Weight.{Address}
use blitzpool.Address.{normalize_btc_address}
use blitzpool.Blockparty.Store.{
  draft, BlockpartyGroup, BlockpartyMember, Parties, find_group, find_member, find_by_address,
  find_by_admin,
}
use blitzpool.Blockparty.Checks.{
  Answer, ok, err, require_admin_token, assert_editable, is_editable, ◌>>=◌,
  assert_splits_sum_valid,
}
use blitzpool.Blockparty.Service.{BlockpartyService}
use blitzpool.Blockparty.Membership.{
  CreateParams, MemberInput, check_create, check_add, check_remove, check_update,
}
use blitzpool.Blockparty.Consent.{check_mark, check_confirm}
use blitzpool.Blockparty.Life.{check_transition, check_dissolve, may_confirm, is_cooling}

module _ (hash : String → String) (s : Parties) (id : String) (token : Option String) where
  pub require_admin_token-found :
      {g : BlockpartyGroup}
      → require_admin_token hash s id token ≡ ok g
      → find_group id s.groups ≡ some g
  unfolding require_admin_token
  require_admin_token-found h = ground arith

assert_editable-is_editable :
    (g : BlockpartyGroup) → assert_editable g ≡ ok tt → is_editable g.status ≡ true
unfolding assert_editable
assert_editable-is_editable g h = ground arith

-- Where the second call of two answers, the first one has.
both_granted {ℓ κ} :
    {V : Type ℓ} {W : Type κ} {answer : W} (first : Answer V) (rest : V → Answer W)
    → (first >>= rest) ≡ ok answer
    → (value : V) × (first ≡ ok value) × (rest value ≡ ok answer)
both_granted (err e) rest h = cc
both_granted (ok value) rest h = (value, refl, h)

module _ (service : BlockpartyService) (s : Parties) (id : String) where
  pub check_create-new :
      (admin_token : String) (params : CreateParams) {g : BlockpartyGroup}
      → check_create service s id admin_token params ≡ ok g
      → (g.id ≡ id)
        × (g.status ≡ draft)
        × (find_by_address g.admin_address s.members ≡ none)
        × (find_by_admin g.admin_address s.groups ≡ none)
  unfolding check_create
  check_create-new admin_token params h = ground arith

  pub check_add-found :
      (input : MemberInput) (token : Option String) {x : BlockpartyGroup × BlockpartyMember}
      → check_add service s id input token ≡ ok x
      → (find_group id s.groups ≡ some x.0)
        × (is_editable x.0.status ≡ true)
        × (x.1.group_id ≡ id)
        × (find_by_address x.1.address s.members ≡ none)
  unfolding check_add assert_editable require_admin_token
  check_add-found input token h = ground arith

  pub check_remove-found :
      (address : Address) (token : Option String) {m : BlockpartyMember}
      → check_remove service s id address token ≡ ok m
      → (find_member id (normalize_btc_address address) s.members ≡ some m)
        × ((g : BlockpartyGroup) × (find_group id s.groups ≡ some g)
            × (is_editable g.status ≡ true))
  unfolding check_remove
  check_remove-found address token h =
      let (g, granted, rest) =
        both_granted (require_admin_token service.hash_token s id token) _ h in
      let (t, editable, rest') = both_granted (assert_editable g) _ rest in
      (
        ground arith,
        (
          g,
          require_admin_token-found service.hash_token s id token granted,
          assert_editable-is_editable g editable,
        ),
      )

  pub check_update-found :
      (us : List MemberInput) (token : Option String) {x : BlockpartyGroup × List MemberInput}
      → check_update service s id us token ≡ ok x
      → (find_group id s.groups ≡ some x.0) × (is_editable x.0.status ≡ true)
  unfolding check_update assert_editable require_admin_token
  check_update-found us token h = ground arith

  pub check_mark-found :
      (address : Address) {m : BlockpartyMember}
      → check_mark s id address ≡ ok m
      → find_member id (normalize_btc_address address) s.members ≡ some m
  unfolding check_mark
  check_mark-found address h = ground arith

  pub check_confirm-found :
      (address : Address) (token : Option String) {m : BlockpartyMember}
      → check_confirm service s id address token ≡ ok m
      → find_member id (normalize_btc_address address) s.members ≡ some m
  unfolding check_confirm
  check_confirm-found address token h = ground arith

  pub check_transition-found :
      (token : Option String) {g : BlockpartyGroup}
      → check_transition service s id token ≡ ok g
      → (find_group id s.groups ≡ some g)
        × (may_confirm g.status ≡ true)
        × (assert_splits_sum_valid s id ≡ ok tt)
  unfolding check_transition require_admin_token
  check_transition-found token h = ground arith

  pub check_dissolve-found :
      (now : ℕ) (token : Option String) {g : BlockpartyGroup}
      → check_dissolve service now s id token ≡ ok g
      → (find_group id s.groups ≡ some g) × (is_cooling now g g.status ≡ false)
  unfolding check_dissolve require_admin_token
  check_dissolve-found now token h = ground arith
