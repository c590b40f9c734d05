-- ===== src/Blockparty/Membership.antt =====
-- createGroup, addMember, removeMember and updateSplits of src/services/blockparty.service.ts.
use blitzpool.Prelude.{
  ℕ, Bool, true, false, ◌&&◌, ◌||◌, not, List, [], ◌∷◌, Option, none, some, String, str_eq, leb,
  ◌==◌, if◌then◌else◌,
}
use blitzpool.Text.{trim_text, to_lower, is_empty, text_length, has_char}
use blitzpool.Address.{normalize_btc_address}
use blitzpool.Coinbase.Weight.{Address}
use blitzpool.Blockparty.Store.{
  BlockpartyStatus, draft, confirming, ready, active, dissolved, BlockpartyGroup, BlockpartyMember,
  MemberRole, admin, member, Parties, cache_get, find_by_name, find_by_admin, find_by_address,
  find_member, members_of, save_group, insert_group, insert_member, save_member, delete_member,
}
use blitzpool.Blockparty.Checks.{
  invalid_name, invalid_address, name_taken, admin_address_taken, address_in_blockparty,
  admin_cannot_rejoin, email_not_verified, not_member, admin_cannot_be_removed, Answer, ok, ◌>>=◌,
  ◌>>◌, require, present, absent, require_admin_token, assert_editable, assert_percent_bp_in_range,
  assert_not_in_pplns_group, assert_email_shape,
}
use blitzpool.Blockparty.Service.{BlockpartyService, answered_by, rebuild_cache, recompute_status}

pub record CreateParams : Type 0 where
  pub name : String
  pub admin_address : Address
  pub admin_email : String
  pub admin_percent_bp : ℕ

pub record MemberInput : Type 0 where
  pub address : Address
  pub percent_bp : ℕ

-- `[\x00-\x1f\x7f]`.
abbrev is_control : ℕ → Bool
is_control c = leb c 31 || c == 127

assert_name : String → Answer (Unit {0})
assert_name n = do
  require (not (is_empty n) && leb 3 (text_length n) && leb (text_length n) 64) invalid_name
  require (not (has_char is_control n)) invalid_name

abbrev pub role_of_admin : MemberRole → Bool
role_of_admin admin = true
role_of_admin member = false

-- A draft is promoted by its first member.
abbrev pub promote : BlockpartyGroup → BlockpartyStatus → Parties → Parties
promote g draft s = save_group (record g { status = confirming }) s
promote g confirming s = s
promote g ready s = s
promote g active s = s
promote g dissolved s = s

-- The percentages by address: of two for one address, the later counts.
unfoldable pub edits_of : List MemberInput → List (Address × ℕ) → List (Address × ℕ)
edits_of [] edits = edits
edits_of (u ∷ us) edits = edits_of us ((u.address, u.percent_bp) ∷ edits)

abbrev pub edited_percent : Option ℕ → ℕ → ℕ
edited_percent none old = old
edited_percent (some new) old = new

-- The administrator's edit is his consent; the others are asked again.
unfoldable pub edit_member : ℕ → Address → List (Address × ℕ) → BlockpartyMember → BlockpartyMember
edit_member now admin_address edits m = record m {
  percent_bp = edited_percent (cache_get m.address edits) m.percent_bp;
  confirmed_at = if str_eq m.address admin_address then some now else none;
}

unfoldable pub edit_members :
    ℕ → Address → List (Address × ℕ) → List BlockpartyMember → Parties → Parties
edit_members now admin_address edits [] s = s
edit_members now admin_address edits (m ∷ ms) s =
    edit_members now admin_address edits ms (save_member (edit_member now admin_address edits m) s)

normalize_updates : List MemberInput → Answer (List MemberInput)
normalize_updates [] = ok []
normalize_updates (u ∷ us) = do
  require (not (is_empty (normalize_btc_address u.address))) invalid_address
  assert_percent_bp_in_range u.percent_bp
  rest ← normalize_updates us
  ok (record { address = normalize_btc_address u.address; percent_bp = u.percent_bp } ∷ rest)

has_member : Address → List BlockpartyMember → Bool
has_member a [] = false
has_member a (m ∷ ms) = str_eq m.address a || has_member a ms

assert_all_members : List BlockpartyMember → List MemberInput → Answer (Unit {0})
assert_all_members all [] = ok tt
assert_all_members all (u ∷ us) = do
  require (has_member u.address all) not_member
  assert_all_members all us

module _ (service : BlockpartyService) where
  -- The administrator's address, and the row of the party.
  unfoldable pub check_create : Parties → String → String → CreateParams → Answer BlockpartyGroup
  unfolding assert_name
  check_create s id admin_token params = do
    let name = trim_text params.name
    let address = normalize_btc_address params.admin_address
    assert_name name
    require (not (is_empty address)) invalid_address
    assert_email_shape params.admin_email
    assert_percent_bp_in_range params.admin_percent_bp
    absent (find_by_name name s.groups) name_taken
    absent (find_by_admin address s.groups) admin_address_taken
    absent (find_by_address address s.members) address_in_blockparty
    assert_not_in_pplns_group service.in_pplns_group address
    ok (record {
      id = id;
      name = name;
      admin_address = address;
      admin_token_hash = service.hash_token admin_token;
      status = draft;
      last_share_at = none;
      rental_provider_hint = none;
      dissolved_at = none;
    })

  abbrev pub admin_row : ℕ → CreateParams → BlockpartyGroup → BlockpartyMember
  admin_row now params g = record {
    group_id = g.id;
    address = g.admin_address;
    email = to_lower (trim_text params.admin_email);
    percent_bp = params.admin_percent_bp;
    role = admin;
    confirmed_at = some now;
    member_token_hash = none;
  }

  unfoldable pub create_group :
      ℕ → String → String → CreateParams → Parties → Parties × Answer (BlockpartyGroup × String)
  create_group now id admin_token params s =
      answered_by s (check_create s id admin_token params) λ g. (
        rebuild_cache (insert_member (admin_row now params g) (insert_group g s)),
        (g, admin_token),
      )

  unfoldable pub check_add :
      Parties → String → MemberInput → Option String → Answer (BlockpartyGroup × BlockpartyMember)
  check_add s id input token = do
    group ← require_admin_token service.hash_token s id token
    assert_editable group
    let address = normalize_btc_address input.address
    require (not (is_empty address)) invalid_address
    require (not (str_eq address group.admin_address)) admin_cannot_rejoin
    assert_percent_bp_in_range input.percent_bp
    absent (find_by_address address s.members) address_in_blockparty
    assert_not_in_pplns_group service.in_pplns_group address
    email ← present (service.get_verified address) email_not_verified
    ok (
      group,
      record {
        group_id = id;
        address = address;
        email = to_lower email;
        percent_bp = input.percent_bp;
        role = member;
        confirmed_at = none;
        member_token_hash = none;
      },
    )

  unfoldable pub add_member :
      String → MemberInput → Option String → Parties → Parties × Answer BlockpartyMember
  add_member id input token s =
      answered_by s (check_add s id input token) λ x.
        (rebuild_cache (recompute_status id (promote x.0 x.0.status (insert_member x.1 s))), x.1)

  unfoldable pub check_remove : Parties → String → Address → Option String → Answer BlockpartyMember
  check_remove s id address token = do
    group ← require_admin_token service.hash_token s id token
    assert_editable group
    require (not (is_empty (normalize_btc_address address))) invalid_address
    m ← present (find_member id (normalize_btc_address address) s.members) not_member
    require (not (role_of_admin m.role)) admin_cannot_be_removed
    ok m

  unfoldable pub remove_member :
      String → Address → Option String → Parties → Parties × Answer (Unit {0})
  remove_member id address token s =
      answered_by s (check_remove s id address token)
        λ m. (rebuild_cache (recompute_status id (delete_member m s)), tt)

  -- The party and the percentages; the transaction writes nothing where it throws.
  unfoldable pub check_update :
      Parties
      → String
      → List MemberInput
      → Option String
      → Answer (BlockpartyGroup × List MemberInput)
  unfolding normalize_updates assert_all_members has_member
  check_update s id updates token = do
    group ← require_admin_token service.hash_token s id token
    assert_editable group
    normalized ← normalize_updates updates
    assert_all_members (members_of id s.members) normalized
    ok (group, normalized)

  unfoldable pub update_splits :
      ℕ → String → List MemberInput → Option String → Parties → Parties × Answer (Unit {0})
  unfolding edits_of edit_members edit_member
  update_splits now id updates token s = answered_by s (check_update s id updates token) λ x. (
    recompute_status id
        (edit_members now x.0.admin_address (edits_of x.1 []) (members_of id s.members) s),
    tt,
  )
