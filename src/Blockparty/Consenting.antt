-- ===== src/Blockparty/Consenting.antt =====
-- The histories of src/services/blockparty.service.ts on the consents: the calls that leave the
-- members as they are, and any calls one after the other.
use blitzpool.Prelude.{
  none-some, some_eq, ℕ, ◌≡◌, refl, sym, ap, ◌∙◌, true, List, [], ◌∷◌, Option, none, some, String,
  str_eq, Bool-cases, Option-cases, inl, inr, ◌&&◌, arith,
}
use blitzpool.Text.{is_empty}
use blitzpool.Address.{normalize_btc_address}
use blitzpool.Coinbase.Weight.{Address}
use blitzpool.Blockparty.Store.{
  BlockpartyStatus, draft, confirming, ready, active, dissolved, BlockpartyGroup, BlockpartyMember,
  CacheEntry, Parties, cache_get, find_group, find_member, members_of, save_group, cache_admin,
}
use blitzpool.Blockparty.Service.{
  BlockpartyService, rebuild_cache, is_confirmed, every_confirmed, all_confirmed,
}
use blitzpool.Blockparty.Life.{
  check_transition, check_dissolve, transition_to_confirming, dissolve_found, dissolve_group,
  share_in_group, share_to_found, share_to_cached, on_share_accepted, update_rental_provider_hint,
}
use blitzpool.Blockparty.Checks.{require_admin_token}
use blitzpool.Blockparty.Blocks.{BlockFound, on_block_found, find_block}
use blitzpool.Blockparty.Calls.{
  Call, creates, adds, removes, updates, resets, marks, confirms, hints, transitions, dissolves,
  shares, finds, perform, here, next, Reached,
}
use blitzpool.Blockparty.Ready.{answered_by-keeps}
use blitzpool.Blockparty.Paid.{start-members}
use blitzpool.Blockparty.Consents.{Consents, after_call, consents}
use blitzpool.Blockparty.Consented.{
  BackedIn, with_members, reset-Backed, mark-Backed, confirm-Backed,
}
use blitzpool.Blockparty.Joined.{create-Backed, add-Backed, remove-Backed}
use blitzpool.Blockparty.Edits.{update-Backed}

-- The members are those of another state.
abbrev KeepsMembers : Parties → Parties → Type 0
KeepsMembers s t = t.members ≡ s.members

dissolve_found-members :
    (now : ℕ) (st : BlockpartyStatus) (g : BlockpartyGroup) (s : Parties)
    → KeepsMembers s (dissolve_found now st g s)
unfolding save_group rebuild_cache
dissolve_found-members now dissolved g s = refl
dissolve_found-members now draft g s = refl
dissolve_found-members now confirming g s = refl
dissolve_found-members now ready g s = refl
dissolve_found-members now active g s = refl

share_in-members :
    (now : ℕ) (a : Address) (st : BlockpartyStatus) (g : BlockpartyGroup) (s : Parties)
    → KeepsMembers s (share_in_group now a st g s)
unfolding save_group cache_admin
share_in-members now a dissolved g s = refl
share_in-members now a draft g s = refl
share_in-members now a confirming g s = refl
share_in-members now a ready g s = refl
share_in-members now a active g s = refl

share_found-members :
    (now : ℕ) (a : Address) (o : Option BlockpartyGroup) (s : Parties)
    → KeepsMembers s (share_to_found now a o s)
share_found-members now a none s = refl
share_found-members now a (some g) s = share_in-members now a g.status g s

share_cached-members :
    (now : ℕ) (a : Address) (o : Option CacheEntry) (s : Parties)
    → KeepsMembers s (share_to_cached now a o s)
share_cached-members now a none s = refl
share_cached-members now a (some e) s = share_found-members now a (find_group e.group_id s.groups) s

share-members :
    (now : ℕ) (address : Address) (s : Parties) → KeepsMembers s (on_share_accepted now address s)
unfolding on_share_accepted
share-members now address s =
    let a = normalize_btc_address address in
    elim (Bool-cases (is_empty a)) [
      | inl e ↦ rw e refl
      | inr e ↦ rw e (share_cached-members now a (cache_get a s.admin_cache) s)
    ]

module _ (service : BlockpartyService) (s : Parties) where
  hint-members :
      (id : String) (hint token : Option String)
      → KeepsMembers s (update_rental_provider_hint service id hint token s).0
  unfolding update_rental_provider_hint save_group
  hint-members id hint token =
      answered_by-keeps (KeepsMembers s) s (require_admin_token service.hash_token s id token) _
        refl λ _ _. refl

  transition-members :
      (id : String) (token : Option String)
      → KeepsMembers s (transition_to_confirming service id token s).0
  unfolding transition_to_confirming
  transition-members id token =
      answered_by-keeps (KeepsMembers s) s (check_transition service s id token) _ refl
        λ g _. start-members g.status g id s

  dissolve-members :
      (now : ℕ) (id : String) (token : Option String)
      → KeepsMembers s (dissolve_group service now id token s).0
  unfolding dissolve_group
  dissolve-members now id token =
      answered_by-keeps (KeepsMembers s) s (check_dissolve service now s id token) _ refl
        λ g _. dissolve_found-members now g.status g s

  block-members : (now : ℕ) (b : BlockFound) → KeepsMembers s (on_block_found service now b s).0
  unfolding on_block_found
  block-members now b = elim (Option-cases (find_block b.group_id b.block_hash s.history)) [
    | inl e ↦ rw e refl
    | inr (o, e) ↦ rw e refl
  ]

  module _ (c : Consents) (backed : BackedIn c s) where
    kept-Backed : (t : Parties) → KeepsMembers s t → BackedIn c t
    kept-Backed t same = with_members c t same backed

    perform-Backed : (call : Call) → BackedIn (after_call service call s c) (perform service call s)
    unfolding perform after_call
    perform-Backed (creates now id token params) =
        create-Backed service s c backed now id token params
    perform-Backed (adds id input token) = add-Backed service s c backed id input token
    perform-Backed (removes id address token) = remove-Backed service s c backed id address token
    perform-Backed (updates now id us token) = update-Backed service s c backed now id us token
    perform-Backed (resets id address) = reset-Backed service s c backed id address
    perform-Backed (marks now minted id address) =
        mark-Backed service s c backed now minted id address
    perform-Backed (confirms now id address token) =
        confirm-Backed service s c backed now id address token
    perform-Backed (hints id hint token) =
        kept-Backed (update_rental_provider_hint service id hint token s).0
          (hint-members id hint token)
    perform-Backed (transitions id token) =
        kept-Backed (transition_to_confirming service id token s).0 (transition-members id token)
    perform-Backed (dissolves now id token) =
        kept-Backed (dissolve_group service now id token s).0 (dissolve-members now id token)
    perform-Backed (shares now address) =
        kept-Backed (on_share_accepted now address s) (share-members now address s)
    perform-Backed (finds now b) =
        kept-Backed (on_block_found service now b s).0 (block-members now b)

-- After any calls, who is confirmed has consented.
pub Reached-Backed :
    (service : BlockpartyService) {s : Parties} (r : Reached service s)
    → BackedIn (consents service r) s
unfolding consents find_member
Reached-Backed service here i a k found confirmed = absurd (none-some found)
Reached-Backed service (next {t} r c fresh e) i a k found confirmed =
    perform-Backed service t (consents service r) (Reached-Backed service r) c i a k
      (ap (λ x. find_member i a x.members) (sym e) ∙ found) confirmed

-- Where all members of a party are confirmed, each of them is.
pub every_confirmed-found :
    (i : String) (a : Address) (ms : List BlockpartyMember) (m : BlockpartyMember)
    → every_confirmed (members_of i ms) ≡ true
    → find_member i a ms ≡ some m
    → is_confirmed m ≡ true
unfolding members_of find_member
every_confirmed-found i a [] m all found = absurd (none-some found)
every_confirmed-found i a (n ∷ ms) m all found = elim (Bool-cases (str_eq n.group_id i)) [
  | inr e ↦ every_confirmed-found i a ms m (rw e at all) (rw e at found)
  | inl e ↦
      let both : is_confirmed n && every_confirmed (members_of i ms) ≡ true = rw e at all in
      elim (Bool-cases (str_eq n.address a)) [
        | inl k ↦ ap is_confirmed (sym (some_eq (rw (e, k) at found))) ∙ ground (arith, both)
        | inr k ↦ every_confirmed-found i a ms m (ground (arith, both)) (rw (e, k) at found)
      ]
]

pub all-every_confirmed :
    (ms : List BlockpartyMember) → all_confirmed ms ≡ true → every_confirmed ms ≡ true
all-every_confirmed [] h = refl
all-every_confirmed (m ∷ ms) h = h
