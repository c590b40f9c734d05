-- ===== src/Blockparty/Calls.antt =====
-- The calls of src/services/blockparty.service.ts that write, and the histories that they make.
use blitzpool.Prelude.{ℕ, ◌≡◌, List, Option, none, String}
use blitzpool.Coinbase.Weight.{Address}
use blitzpool.Blockparty.Store.{Parties, find_group, no_parties}
use blitzpool.Blockparty.Service.{BlockpartyService}
use blitzpool.Blockparty.Membership.{
  CreateParams, MemberInput, create_group, add_member, remove_member, update_splits,
}
use blitzpool.Blockparty.Consent.{reset_member_onboarding, mark_member_confirmed, confirm_as_member}
use blitzpool.Blockparty.Life.{
  update_rental_provider_hint, transition_to_confirming, dissolve_group, on_share_accepted,
}
use blitzpool.Blockparty.Blocks.{BlockFound, on_block_found}

pub data Call : Type 0 where
  creates : (now : ℕ) (id admin_token : String) → CreateParams → Call
  adds : (id : String) → MemberInput → (token : Option String) → Call
  removes : (id : String) (address : Address) (token : Option String) → Call
  updates : (now : ℕ) (id : String) → List MemberInput → (token : Option String) → Call
  resets : (id : String) (address : Address) → Call
  marks : (now : ℕ) (minted id : String) (address : Address) → Call
  confirms : (now : ℕ) (id : String) (address : Address) (token : Option String) → Call
  hints : (id : String) (hint token : Option String) → Call
  transitions : (id : String) (token : Option String) → Call
  dissolves : (now : ℕ) (id : String) (token : Option String) → Call
  shares : (now : ℕ) (address : Address) → Call
  finds : (now : ℕ) → BlockFound → Call

-- The generated id of a new party is the id of no other.
abbrev pub IsFresh : Call → Parties → Type 0
IsFresh (creates now id admin_token params) s = find_group id s.groups ≡ none
IsFresh _ s = Unit

module _ (service : BlockpartyService) where
  unfoldable pub perform : Call → Parties → Parties
  perform (creates now id admin_token params) s =
      (create_group service now id admin_token params s).0
  perform (adds id input token) s = (add_member service id input token s).0
  perform (removes id address token) s = (remove_member service id address token s).0
  perform (updates now id us token) s = (update_splits service now id us token s).0
  perform (resets id address) s = (reset_member_onboarding id address s).0
  perform (marks now minted id address) s =
      (mark_member_confirmed service now minted id address s).0
  perform (confirms now id address token) s = (confirm_as_member service now id address token s).0
  perform (hints id hint token) s = (update_rental_provider_hint service id hint token s).0
  perform (transitions id token) s = (transition_to_confirming service id token s).0
  perform (dissolves now id token) s = (dissolve_group service now id token s).0
  perform (shares now address) s = on_share_accepted now address s
  perform (finds now b) s = (on_block_found service now b s).0

  -- Any calls, one after the other.
  pub data Runs (s : Parties) : Parties → Type 0 where
    here : Runs s s
    next : {t u : Parties} → Runs s t → (c : Call) → IsFresh c t → u ≡ perform c t → Runs s u

-- What calls make of a service that starts with empty tables.
abbrev pub Reached : BlockpartyService → Parties → Type 0
Reached service s = Runs service no_parties s
