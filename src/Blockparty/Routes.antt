-- ===== src/Blockparty/Routes.antt =====
-- The lookups of src/services/blockparty.service.ts that the share path reads from the caches.
use blitzpool.Prelude.{
  ℕ, Bool, true, false, List, [], ◌∷◌, Option, none, some, String, if◌then◌else◌,
}
use blitzpool.Text.{is_empty}
use blitzpool.Address.{normalize_btc_address}
use blitzpool.Coinbase.Weight.{Address}
use blitzpool.Blockparty.Store.{
  BlockpartyStatus, draft, confirming, ready, active, dissolved, CacheEntry, Parties, cache_get,
}

unfoldable pub get_group_id_for_address : Address → Parties → Option String
get_group_id_for_address address s = cache_get (normalize_btc_address address) s.address_cache

abbrev pub id_of : Option CacheEntry → Option String
id_of none = none
id_of (some e) = some e.group_id

unfoldable pub get_group_id_for_admin_address : Address → Parties → Option String
get_group_id_for_admin_address address s =
    id_of (cache_get (normalize_btc_address address) s.admin_cache)

abbrev pub is_routable : BlockpartyStatus → Bool
is_routable ready = true
is_routable active = true
is_routable draft = false
is_routable confirming = false
is_routable dissolved = false

abbrev pub is_pending : BlockpartyStatus → Bool
is_pending draft = true
is_pending confirming = true
is_pending ready = false
is_pending active = false
is_pending dissolved = false

abbrev pub routed : Option CacheEntry → Option String
routed none = none
routed (some e) = if is_routable e.status then some e.group_id else none

unfoldable pub get_routable_group_id_for_admin : Address → Parties → Option String
get_routable_group_id_for_admin address s =
    routed (cache_get (normalize_btc_address address) s.admin_cache)

pub record FeeRoute : Type 0 where
  pub address : Address
  pub percent : ℕ

abbrev pub fee_routed : Address → Option CacheEntry → Option (List FeeRoute)
fee_routed fee_address none = none
fee_routed fee_address (some e) =
    if is_pending e.status
    then some (record { address = fee_address; percent = 100 } ∷ [])
    else none

-- A missing address is the empty text.
unfoldable pub get_pending_party_fee_route : Address → Address → Parties → Option (List FeeRoute)
get_pending_party_fee_route fee_address address s =
    let normalized = normalize_btc_address address in
    if is_empty address
    then none
    else if is_empty fee_address
    then none
    else if is_empty normalized
    then none
    else fee_routed fee_address (cache_get normalized s.admin_cache)
