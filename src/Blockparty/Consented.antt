-- ===== src/Blockparty/Consented.antt =====
-- Every call of src/services/blockparty.service.ts on the consents: who is confirmed has consented to
-- his percentage.
use blitzpool.Prelude.{
  none-some, some_eq, ℕ, ◌≡◌, refl, sym, ap, ◌∙◌, true, ◌&&◌, List, Option, none, some, String,
  str_eq, arith, Bool-cases, inl, inr,
}
use blitzpool.Address.{normalize_btc_address}
use blitzpool.Coinbase.Weight.{Address}
use blitzpool.Blockparty.Store.{BlockpartyMember, Parties, find_member, save_member}
use blitzpool.Blockparty.Checks.{Answer, ok, err}
use blitzpool.Blockparty.Service.{BlockpartyService, answered_by, is_confirmed, recompute_status}
use blitzpool.Blockparty.Consent.{
  is_none, wiped, reset_found, reset_member_onboarding, check_mark, marked, mark_member_confirmed,
  check_confirm, confirm_as_member,
}
use blitzpool.Blockparty.Calls.{resets, marks, confirms}
use blitzpool.Blockparty.Tables.{find_member-is_row, eq_of-str_eq}
use blitzpool.Blockparty.Granted.{check_mark-found, check_confirm-found}
use blitzpool.Blockparty.Paid.{recompute-members}
use blitzpool.Blockparty.Consents.{Consents, percent_in, set_at, if_answered, after_call}
use blitzpool.Blockparty.Backed.{Backed, save-Backed}

abbrev pub BackedIn : Consents → Parties → Type 0
BackedIn c t = Backed t.members c

-- A call that is refused keeps the members and the consents; another has its own.
pub answered-Backed {ℓ κ} :
    {A : Type ℓ} {B : Type κ} (s : Parties) (r : Answer A) (write : A → Parties × B)
    (new : Parties → Consents) (old : Consents)
    → BackedIn old s
    → ((a : A) → r ≡ ok a → BackedIn (new (write a).0) (write a).0)
    → BackedIn (if_answered (answered_by s r write) new old) (answered_by s r write).0
answered-Backed s (err e) write new old h k = h
answered-Backed s (ok a) write new old h k = k a refl

-- The members are all that counts.
pub with_members :
    (c : Consents) {ms : List BlockpartyMember} (t : Parties)
    → t.members ≡ ms
    → Backed ms c
    → BackedIn c t
with_members c t same h = rw same h

unconfirmed :
    (m : BlockpartyMember)
    → is_none m.member_token_hash && is_none m.confirmed_at ≡ true
    → ¬ (is_confirmed m ≡ true)
unconfirmed m h k = ground arith

module _ (service : BlockpartyService) (s : Parties) (c : Consents) (backed : BackedIn c s) where
  -- A row with a new consent, or with none, is saved, and the status follows.
  saved_row-Backed :
      (id : String) (b : Address) (m n : BlockpartyMember) (v : Option ℕ)
      → find_member id b s.members ≡ some m
      → n.group_id ≡ m.group_id
      → n.address ≡ m.address
      → (is_confirmed n ≡ true → v ≡ some n.percent_bp)
      → BackedIn (set_at id b v c) (recompute_status id (save_member n s))
  unfolding save_member
  saved_row-Backed id b m n v found party address right =
      let (own, named) = find_member-is_row id b s.members found in
      with_members (set_at id b v c) (recompute_status id (save_member n s))
        (recompute-members id (save_member n s))
        (save-Backed s.members c backed n id b (party ∙ own) (address ∙ named) v right)

  -- An entry for a row that is as it should be.
  entered-Backed :
      (id : String) (b : Address) (v : Option ℕ)
      → ((m : BlockpartyMember)
          → find_member id b s.members ≡ some m
          → is_confirmed m ≡ true
          → v ≡ some m.percent_bp)
      → BackedIn (set_at id b v c) s
  entered-Backed id b v right i a k found confirmed =
      elim (Bool-cases (str_eq id i && str_eq b a)) [
        | inl same ↦
            let party : id ≡ i = eq_of-str_eq id i (ground (arith, same)) in
            let address : b ≡ a = eq_of-str_eq b a (ground (arith, same)) in
            rw same (
              right k
                (ap (λ x. find_member x b s.members) party
                  ∙ ap (λ x. find_member i x s.members) address
                  ∙ found)
                confirmed)
        | inr other ↦ rw other (backed i a k found confirmed)
      ]

  reset_found-Backed :
      (id : String) (b : Address) (o : Option BlockpartyMember)
      → find_member id b s.members ≡ o
      → BackedIn (set_at id b none c) (reset_found id o s)
  reset_found-Backed id b none found =
      entered-Backed id b none (λ m there _. absurd (none-some (sym found ∙ there)))
  reset_found-Backed id b (some m) found =
      elim (Bool-cases (is_none m.member_token_hash && is_none m.confirmed_at)) [
        | inl e ↦ rw e (
            entered-Backed id b none λ n there confirmed.
              absurd (unconfirmed m e (ap is_confirmed (some_eq (sym found ∙ there)) ∙ confirmed)))
        | inr e ↦ rw e (saved_row-Backed id b m (wiped m) none found refl refl (λ k. cc))
      ]

  pub reset-Backed :
      (id : String) (address : Address)
      → BackedIn
          (after_call service (resets id address) s c)
          (reset_member_onboarding id address s).0
  unfolding after_call reset_member_onboarding
  reset-Backed id address =
      let b = normalize_btc_address address in
      answered-Backed s _ _ _ c backed
        λ _ _. reset_found-Backed id b (find_member id b s.members) refl

  pub mark-Backed :
      (now : ℕ) (minted id : String) (address : Address)
      → BackedIn
          (after_call service (marks now minted id address) s c)
          (mark_member_confirmed service now minted id address s).0
  unfolding after_call mark_member_confirmed
  mark-Backed now minted id address =
      let b = normalize_btc_address address in
      answered-Backed s (check_mark s id address) _ _ c backed λ m granted.
        let found = check_mark-found service s id address granted in
        saved_row-Backed id b m (marked service now minted m)
          (percent_in (find_member id b s.members)) found refl refl (λ _. ap percent_in found)

  pub confirm-Backed :
      (now : ℕ) (id : String) (address : Address) (token : Option String)
      → BackedIn
          (after_call service (confirms now id address token) s c)
          (confirm_as_member service now id address token s).0
  unfolding after_call confirm_as_member
  confirm-Backed now id address token =
      let b = normalize_btc_address address in
      answered-Backed s (check_confirm service s id address token) _ _ c backed λ m granted.
        let found = check_confirm-found service s id address token granted in
        let v = percent_in (find_member id b s.members) in
        elim (Bool-cases (is_none m.confirmed_at)) [
          | inl e ↦ rw e (
              saved_row-Backed id b m (record m { confirmed_at = some now }) v found refl refl
                (λ _. ap percent_in found))
          | inr e ↦ rw e (entered-Backed id b v (λ n there _. ap percent_in there))
        ]
