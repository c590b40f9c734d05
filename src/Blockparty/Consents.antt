-- ===== src/Blockparty/Consents.antt =====
-- What the members of the parties in src/services/blockparty.service.ts have consented to: an account
-- of the calls and of their answers, kept apart from the column confirmedAt.
use blitzpool.Prelude.{
  ℕ, Bool, true, false, ◌&&◌, Option, none, some, String, str_eq, if◌then◌else◌,
}
use blitzpool.Address.{normalize_btc_address}
use blitzpool.Coinbase.Weight.{Address}
use blitzpool.Blockparty.Store.{BlockpartyGroup, BlockpartyMember, Parties, find_group, find_member}
use blitzpool.Blockparty.Checks.{Answer, ok, err}
use blitzpool.Blockparty.Service.{BlockpartyService}
use blitzpool.Blockparty.Membership.{create_group, add_member, remove_member, update_splits}
use blitzpool.Blockparty.Consent.{reset_member_onboarding, mark_member_confirmed, confirm_as_member}
use blitzpool.Blockparty.Calls.{
  Call, creates, adds, removes, updates, resets, marks, confirms, hints, transitions, dissolves,
  shares, finds, Runs, here, next,
}

-- The percentage that an address has consented to in a party, if to any.
abbrev pub Consents : Type 0
Consents = String → Address → Option ℕ

abbrev pub is_ok {ℓ} : {A : Type ℓ} → Answer A → Bool
is_ok (ok a) = true
is_ok (err e) = false

abbrev pub percent_in : Option BlockpartyMember → Option ℕ
percent_in none = none
percent_in (some m) = some m.percent_bp

abbrev pub set_at : String → Address → Option ℕ → Consents → Consents
set_at id b v old i a = if str_eq id i && str_eq b a then v else old i a

-- The administrator consents to what he gives himself; the others have to be asked.
abbrev pub own_edit : Address → Option BlockpartyGroup → Option BlockpartyMember → Option ℕ
own_edit a none row = none
own_edit a (some g) row = if str_eq a g.admin_address then percent_in row else none

abbrev pub edited_at : String → Option BlockpartyGroup → Consents → Parties → Consents
edited_at id g old t i a =
    if str_eq id i then own_edit a g (find_member id a t.members) else old i a

-- A call that is refused changes no consent.
abbrev pub if_answered {ℓ} :
    {A : Type ℓ} → Parties × Answer A → (Parties → Consents) → Consents → Consents
if_answered (t, ok a) new old = new t
if_answered (t, err e) new old = old

module _ (service : BlockpartyService) where
  -- Who opens a party consents to his percentage, and a member to the one that he has, by accepting
  -- or with his token. A change of the percentages ends the consents of a party, and joining, leaving
  -- or being reset that of a member.
  unfoldable pub after_call : Call → Parties → Consents → Consents
  after_call (creates now id token params) s old =
      if_answered (create_group service now id token params s)
        (λ _.
          set_at id (normalize_btc_address params.admin_address) (some params.admin_percent_bp) old)
        old
  after_call (adds id input token) s old =
      if_answered (add_member service id input token s)
        (λ _. set_at id (normalize_btc_address input.address) none old) old
  after_call (removes id address token) s old =
      if_answered (remove_member service id address token s)
        (λ _. set_at id (normalize_btc_address address) none old) old
  after_call (updates now id us token) s old =
      if_answered (update_splits service now id us token s)
        (edited_at id (find_group id s.groups) old) old
  after_call (resets id address) s old =
      if_answered (reset_member_onboarding id address s)
        (λ _. set_at id (normalize_btc_address address) none old) old
  after_call (marks now minted id address) s old =
      let a = normalize_btc_address address in
      if_answered (mark_member_confirmed service now minted id address s)
        (λ _. set_at id a (percent_in (find_member id a s.members)) old) old
  after_call (confirms now id address token) s old =
      let a = normalize_btc_address address in
      if_answered (confirm_as_member service now id address token s)
        (λ _. set_at id a (percent_in (find_member id a s.members)) old) old
  after_call (hints id hint token) s old = old
  after_call (transitions id token) s old = old
  after_call (dissolves now id token) s old = old
  after_call (shares now address) s old = old
  after_call (finds now b) s old = old

  unfoldable pub consents : {s t : Parties} → Runs service s t → Consents
  consents here i a = none
  consents (next {t} r c fresh e) i a = after_call c t (consents r) i a
