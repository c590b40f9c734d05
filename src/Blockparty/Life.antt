-- ===== src/Blockparty/Life.antt =====
-- updateRentalProviderHint, transitionToConfirming, dissolveGroup and onShareAccepted of
-- src/services/blockparty.service.ts.
use blitzpool.Prelude.{
  ℕ, ◌-◌, Bool, true, false, not, Option, none, some, String, ltb, if◌then◌else◌,
}
use blitzpool.Text.{trim_text, is_empty, first_chars}
use blitzpool.Address.{normalize_btc_address}
use blitzpool.Coinbase.Weight.{Address}
use blitzpool.Blockparty.Store.{
  BlockpartyStatus, draft, confirming, ready, active, dissolved, BlockpartyGroup, CacheEntry,
  Parties, cache_get, find_group, save_group, cache_admin,
}
use blitzpool.Blockparty.Checks.{
  invalid_state, dissolve_cooldown, Answer, ok, ◌>>=◌, ◌>>◌, require, require_admin_token,
  assert_splits_sum_valid, dissolve_cooldown_ms,
}
use blitzpool.Blockparty.Service.{BlockpartyService, answered_by, rebuild_cache, recompute_status}

-- An empty hint is none.
abbrev pub cleaned : Option String → Option String
cleaned none = none
cleaned (some h) = let c = first_chars 64 (trim_text h) in if is_empty c then none else some c

abbrev pub may_confirm : BlockpartyStatus → Bool
may_confirm draft = true
may_confirm confirming = true
may_confirm ready = true
may_confirm active = false
may_confirm dissolved = false

-- A party that is past the transition stays as it is.
abbrev pub start_confirming : BlockpartyStatus → BlockpartyGroup → String → Parties → Parties
start_confirming confirming g id s = s
start_confirming ready g id s = s
start_confirming draft g id s =
    recompute_status id (save_group (record g { status = confirming }) s)
start_confirming active g id s =
    recompute_status id (save_group (record g { status = confirming }) s)
start_confirming dissolved g id s =
    recompute_status id (save_group (record g { status = confirming }) s)

-- `group.lastShareAt ?? 0`.
abbrev pub last_share : Option ℕ → ℕ
last_share none = 0
last_share (some t) = t

-- A clock behind the last share has elapsed less than the cooldown too.
abbrev pub is_cooling : ℕ → BlockpartyGroup → BlockpartyStatus → Bool
is_cooling now g active = ltb (now - last_share g.last_share_at) dissolve_cooldown_ms
is_cooling now g draft = false
is_cooling now g confirming = false
is_cooling now g ready = false
is_cooling now g dissolved = false

abbrev pub dissolve_found : ℕ → BlockpartyStatus → BlockpartyGroup → Parties → Parties
dissolve_found now dissolved g s = s
dissolve_found now draft g s =
    rebuild_cache (save_group (record g { status = dissolved; dissolved_at = some now }) s)
dissolve_found now confirming g s =
    rebuild_cache (save_group (record g { status = dissolved; dissolved_at = some now }) s)
dissolve_found now ready g s =
    rebuild_cache (save_group (record g { status = dissolved; dissolved_at = some now }) s)
dissolve_found now active g s =
    rebuild_cache (save_group (record g { status = dissolved; dissolved_at = some now }) s)

abbrev pub share_saved : ℕ → Address → BlockpartyStatus → BlockpartyGroup → Parties → Parties
share_saved now a st g s =
    cache_admin a (record { group_id = g.id; status = st })
      (save_group (record g { status = st; last_share_at = some now }) s)

-- The first share to a ready party starts it.
abbrev pub share_in_group : ℕ → Address → BlockpartyStatus → BlockpartyGroup → Parties → Parties
share_in_group now a dissolved g s = s
share_in_group now a draft g s = share_saved now a draft g s
share_in_group now a confirming g s = share_saved now a confirming g s
share_in_group now a ready g s = share_saved now a active g s
share_in_group now a active g s = share_saved now a active g s

abbrev pub share_to_found : ℕ → Address → Option BlockpartyGroup → Parties → Parties
share_to_found now a none s = s
share_to_found now a (some g) s = share_in_group now a g.status g s

abbrev pub share_to_cached : ℕ → Address → Option CacheEntry → Parties → Parties
share_to_cached now a none s = s
share_to_cached now a (some e) s = share_to_found now a (find_group e.group_id s.groups) s

unfoldable pub on_share_accepted : ℕ → Address → Parties → Parties
on_share_accepted now address s =
    let a = normalize_btc_address address in
    if is_empty a then s else share_to_cached now a (cache_get a s.admin_cache) s

module _ (service : BlockpartyService) where
  unfoldable pub update_rental_provider_hint :
      String → Option String → Option String → Parties → Parties × Answer BlockpartyGroup
  update_rental_provider_hint id hint token s =
      answered_by s (require_admin_token service.hash_token s id token)
        λ g. let g' = record g { rental_provider_hint = cleaned hint } in (save_group g' s, g')

  unfoldable pub check_transition : Parties → String → Option String → Answer BlockpartyGroup
  check_transition s id token = do
    g ← require_admin_token service.hash_token s id token
    require (may_confirm g.status) invalid_state
    assert_splits_sum_valid s id
    ok g

  unfoldable pub transition_to_confirming :
      String → Option String → Parties → Parties × Answer (Unit {0})
  transition_to_confirming id token s =
      answered_by s (check_transition s id token) λ g. (start_confirming g.status g id s, tt)

  unfoldable pub check_dissolve : ℕ → Parties → String → Option String → Answer BlockpartyGroup
  check_dissolve now s id token = do
    g ← require_admin_token service.hash_token s id token
    require (not (is_cooling now g g.status)) dissolve_cooldown
    ok g

  unfoldable pub dissolve_group : ℕ → String → Option String → Parties → Parties × Answer (Unit {0})
  dissolve_group now id token s =
      answered_by s (check_dissolve now s id token) λ g. (dissolve_found now g.status g s, tt)
