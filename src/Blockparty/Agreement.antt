-- ===== src/Blockparty/Agreement.antt =====
-- Calls of src/services/blockparty.service.ts and the agreement of the members of a party.
use blitzpool.Prelude.{
  none-some, ℕ, ◌≡◌, true, Option, none, some, String, Bool-cases, Option-cases, inl, inr, ◌≢◌, ◌⊎◌,
  sym, ap, ◌∙◌,
}
use blitzpool.Address.{normalize_btc_address}
use blitzpool.Text.{is_empty}
use blitzpool.Coinbase.Weight.{Address}
use blitzpool.Blockparty.Store.{
  BlockpartyStatus, draft, confirming, ready, active, dissolved, BlockpartyGroup, CacheEntry,
  Parties, cache_get, find_group, find_member, members_of, save_group, no_parties,
}
use blitzpool.Blockparty.Service.{BlockpartyService, rebuild_cache, all_confirmed, recompute_status}
use blitzpool.Blockparty.Consents.{percent_in, consents}
use blitzpool.Blockparty.Consenting.{Reached-Backed, every_confirmed-found, all-every_confirmed}
use blitzpool.Blockparty.Life.{
  start_confirming, check_transition, check_dissolve, share_saved, transition_to_confirming,
  dissolve_found, dissolve_group, share_in_group, share_to_found, share_to_cached,
  on_share_accepted,
}
use blitzpool.Blockparty.Blocks.{BlockFound, on_block_found, find_block}
use blitzpool.Blockparty.Calls.{
  Call, creates, adds, removes, updates, resets, marks, confirms, hints, transitions, dissolves,
  shares, finds, IsFresh, perform, Runs, here, next, Reached,
}
use blitzpool.Blockparty.Agreed.{save-AllAgreed, rebuild-AllAgreed, cached-AllAgreed, others_of_all}
use blitzpool.Blockparty.Ready.{answered_by-keeps, AllAgreed, recompute-AllAgreed}
use blitzpool.Blockparty.MembersAgreed.{
  create-AllAgreed, add-AllAgreed, remove-AllAgreed, update-AllAgreed, reset-AllAgreed,
  mark-AllAgreed, confirm-AllAgreed, hint-AllAgreed,
}

module _ (service : BlockpartyService) (s : Parties) (agreed : AllAgreed s) where
  start_over :
      (g : BlockpartyGroup) (id : String)
      → AllAgreed (recompute_status id (save_group (record g { status = confirming }) s))
  start_over g id =
      let g' = record g { status = confirming } in
      recompute-AllAgreed (save_group g' s) id
        (others_of_all (save_group g' s) id (save-AllAgreed s g' (λ e. cc) agreed))

  dissolved_now :
      (now : ℕ) (g : BlockpartyGroup)
      → AllAgreed
          (rebuild_cache (save_group (record g { status = dissolved; dissolved_at = some now }) s))
  dissolved_now now g =
      let g' = record g { status = dissolved; dissolved_at = some now } in
      rebuild-AllAgreed (save_group g' s) (save-AllAgreed s g' (λ e. cc) agreed)

  start-AllAgreed :
      (st : BlockpartyStatus) (g : BlockpartyGroup) (id : String)
      → AllAgreed (start_confirming st g id s)
  start-AllAgreed confirming g id = agreed
  start-AllAgreed ready g id = agreed
  start-AllAgreed draft g id = start_over g id
  start-AllAgreed active g id = start_over g id
  start-AllAgreed dissolved g id = start_over g id

  transition-AllAgreed :
      (id : String) (token : Option String)
      → AllAgreed (transition_to_confirming service id token s).0
  unfolding transition_to_confirming
  transition-AllAgreed id token =
      answered_by-keeps AllAgreed s (check_transition service s id token) _ agreed
        λ g _. start-AllAgreed g.status g id

  dissolve_found-AllAgreed :
      (now : ℕ) (st : BlockpartyStatus) (g : BlockpartyGroup)
      → AllAgreed (dissolve_found now st g s)
  dissolve_found-AllAgreed now dissolved g = agreed
  dissolve_found-AllAgreed now draft g = dissolved_now now g
  dissolve_found-AllAgreed now confirming g = dissolved_now now g
  dissolve_found-AllAgreed now ready g = dissolved_now now g
  dissolve_found-AllAgreed now active g = dissolved_now now g

  dissolve-AllAgreed :
      (now : ℕ) (id : String) (token : Option String)
      → AllAgreed (dissolve_group service now id token s).0
  unfolding dissolve_group
  dissolve-AllAgreed now id token =
      answered_by-keeps AllAgreed s (check_dissolve service now s id token) _ agreed
        λ g _. dissolve_found-AllAgreed now g.status g

  share_saved-AllAgreed :
      (now : ℕ) (a : Address) (st : BlockpartyStatus) (g : BlockpartyGroup)
      → st ≢ ready
      → AllAgreed (share_saved now a st g s)
  share_saved-AllAgreed now a st g unready =
      let g' = record g { status = st; last_share_at = some now } in
      cached-AllAgreed (save_group g' s) a (record { group_id = g.id; status = st })
        (save-AllAgreed s g' unready agreed)

  share_in-AllAgreed :
      (now : ℕ) (a : Address) (st : BlockpartyStatus) (g : BlockpartyGroup)
      → AllAgreed (share_in_group now a st g s)
  share_in-AllAgreed now a dissolved g = agreed
  share_in-AllAgreed now a draft g = share_saved-AllAgreed now a draft g (λ e. cc)
  share_in-AllAgreed now a confirming g = share_saved-AllAgreed now a confirming g (λ e. cc)
  share_in-AllAgreed now a ready g = share_saved-AllAgreed now a active g (λ e. cc)
  share_in-AllAgreed now a active g = share_saved-AllAgreed now a active g (λ e. cc)

  share_found-AllAgreed :
      (now : ℕ) (a : Address) (o : Option BlockpartyGroup) → AllAgreed (share_to_found now a o s)
  share_found-AllAgreed now a none = agreed
  share_found-AllAgreed now a (some g) = share_in-AllAgreed now a g.status g

  share_cached-AllAgreed :
      (now : ℕ) (a : Address) (o : Option CacheEntry) → AllAgreed (share_to_cached now a o s)
  share_cached-AllAgreed now a none = agreed
  share_cached-AllAgreed now a (some e) =
      share_found-AllAgreed now a (find_group e.group_id s.groups)

  share-AllAgreed : (now : ℕ) (address : Address) → AllAgreed (on_share_accepted now address s)
  unfolding on_share_accepted
  share-AllAgreed now address =
      let a = normalize_btc_address address in
      elim (Bool-cases (is_empty a)) [
        | inl e ↦ rw e agreed
        | inr e ↦ rw e (share_cached-AllAgreed now a (cache_get a s.admin_cache))
      ]

  block-AllAgreed : (now : ℕ) (b : BlockFound) → AllAgreed (on_block_found service now b s).0
  unfolding on_block_found
  block-AllAgreed now b = elim (Option-cases (find_block b.group_id b.block_hash s.history)) [
    | inl e ↦ rw e agreed
    | inr (o, e) ↦ rw e agreed
  ]

  perform-AllAgreed : (c : Call) → IsFresh c s → AllAgreed (perform service c s)
  unfolding perform
  perform-AllAgreed (creates now id token params) fresh =
      create-AllAgreed service s agreed now id token params fresh
  perform-AllAgreed (adds id input token) _ = add-AllAgreed service s agreed id input token
  perform-AllAgreed (removes id address token) _ =
      remove-AllAgreed service s agreed id address token
  perform-AllAgreed (updates now id us token) _ = update-AllAgreed service s agreed now id us token
  perform-AllAgreed (resets id address) _ = reset-AllAgreed service s agreed id address
  perform-AllAgreed (marks now minted id address) _ =
      mark-AllAgreed service s agreed now minted id address
  perform-AllAgreed (confirms now id address token) _ =
      confirm-AllAgreed service s agreed now id address token
  perform-AllAgreed (hints id hint token) _ = hint-AllAgreed service s agreed id hint token
  perform-AllAgreed (transitions id token) _ = transition-AllAgreed id token
  perform-AllAgreed (dissolves now id token) _ = dissolve-AllAgreed now id token
  perform-AllAgreed (shares now address) _ = share-AllAgreed now address
  perform-AllAgreed (finds now b) _ = block-AllAgreed now b

Runs-AllAgreed :
    (service : BlockpartyService) {s t : Parties} → Runs service s t → AllAgreed s → AllAgreed t
Runs-AllAgreed service here h = h
Runs-AllAgreed service (next {t} r c fresh e) h =
    rw e (perform-AllAgreed service t (Runs-AllAgreed service r h) c fresh)

none-AllAgreed : AllAgreed no_parties
unfolding find_group
none-AllAgreed i g found is_ready = absurd (none-some found)

-- After any calls, a party that is ready has members, every one of them is confirmed, and each has
-- consented to the percentage that he has: since he joined, since the percentages of the party were
-- last changed, and since he was last reset, he accepted it (confirmAsMember), or it was marked as
-- accepted (markMemberConfirmed), or, if he is the administrator, he set it.
pub ready-all_confirmed :
    (service : BlockpartyService) {s : Parties} (i : String) (a : Address) {g : BlockpartyGroup}
    (r : Reached service s)
    → find_group i s.groups ≡ some g
    → g.status ≡ ready
    → (all_confirmed (members_of i s.members) ≡ true)
      × ((find_member i a s.members ≡ none)
          ⊎ (consents service r i a ≡ percent_in (find_member i a s.members)))
ready-all_confirmed service {s} i a {g} r found is_ready =
    let all = Runs-AllAgreed service r none-AllAgreed i g found is_ready in
    (
      all,
      elim (Option-cases (find_member i a s.members)) [
        | inl e ↦ inl e
        | inr (m, e) ↦
            let confirmed =
              every_confirmed-found i a s.members m
                (all-every_confirmed (members_of i s.members) all) e in
            inr (Reached-Backed service r i a m e confirmed ∙ sym (ap percent_in e))
      ],
    )
