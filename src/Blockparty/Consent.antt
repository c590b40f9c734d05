-- ===== src/Blockparty/Consent.antt =====
-- resetMemberOnboarding, markMemberConfirmed and confirmAsMember of
-- src/services/blockparty.service.ts: what a member agrees to.
use blitzpool.Prelude.{ℕ, Bool, true, false, ◌&&◌, not, Option, none, some, String, if◌then◌else◌}
use blitzpool.Text.{is_empty}
use blitzpool.Address.{normalize_btc_address}
use blitzpool.Coinbase.Weight.{Address}
use blitzpool.Blockparty.Store.{BlockpartyMember, Parties, find_member, save_member}
use blitzpool.Blockparty.Checks.{
  invalid_address, not_member, Answer, ◌>>=◌, ◌>>◌, require, present, require_member_token,
}
use blitzpool.Blockparty.Service.{BlockpartyService, answered_by, recompute_status}

abbrev pub is_none {ℓ} : {A : Type ℓ} → Option A → Bool
is_none none = true
is_none (some a) = false

abbrev pub or_else {ℓ} : {A : Type ℓ} → Option A → A → Option A
or_else none b = some b
or_else (some a) b = some a

abbrev pub wiped : BlockpartyMember → BlockpartyMember
wiped m = record m { member_token_hash = none; confirmed_at = none }

abbrev pub reset_found : String → Option BlockpartyMember → Parties → Parties
reset_found id none s = s
reset_found id (some m) s =
    if is_none m.member_token_hash && is_none m.confirmed_at
    then s
    else recompute_status id (save_member (wiped m) s)

unfoldable pub reset_member_onboarding : String → Address → Parties → Parties × Answer (Unit {0})
reset_member_onboarding id address s =
    answered_by s (require (not (is_empty (normalize_btc_address address))) invalid_address)
      λ _. (reset_found id (find_member id (normalize_btc_address address) s.members) s, tt)

unfoldable pub check_mark : Parties → String → Address → Answer BlockpartyMember
check_mark s id address = do
  require (not (is_empty (normalize_btc_address address))) invalid_address
  present (find_member id (normalize_btc_address address) s.members) not_member

module _ (service : BlockpartyService) where
  -- A token is minted where the member has none.
  abbrev pub marked : ℕ → String → BlockpartyMember → BlockpartyMember
  marked now minted m = record m {
    member_token_hash = or_else m.member_token_hash (service.hash_token minted);
    confirmed_at = or_else m.confirmed_at now;
  }

  unfoldable pub mark_member_confirmed :
      ℕ → String → String → Address → Parties → Parties × Answer (Option String)
  unfolding check_mark
  mark_member_confirmed now minted id address s = answered_by s (check_mark s id address) λ m. (
    recompute_status id (save_member (marked now minted m) s),
    if is_none m.member_token_hash then some minted else none,
  )

  unfoldable pub check_confirm :
      Parties → String → Address → Option String → Answer BlockpartyMember
  check_confirm s id address token = do
    _ ← require_member_token service.hash_token s id (normalize_btc_address address) token
    present (find_member id (normalize_btc_address address) s.members) not_member

  abbrev pub confirm_found : ℕ → String → BlockpartyMember → Parties → Parties
  confirm_found now id m s =
      if is_none m.confirmed_at
      then recompute_status id (save_member (record m { confirmed_at = some now }) s)
      else s

  unfoldable pub confirm_as_member :
      ℕ → String → Address → Option String → Parties → Parties × Answer (Unit {0})
  confirm_as_member now id address token s =
      answered_by s (check_confirm s id address token) λ m. (confirm_found now id m s, tt)
