-- ===== src/Blockparty/Service.antt =====
-- The operations of src/services/blockparty.service.ts on its tables and caches. A call is given the
-- state and returns the new one with its answer. Time, the generated ids and tokens are arguments.
use blitzpool.Prelude.{
  ℕ, Bool, true, false, ◌&&◌, List, [], ◌∷◌, Option, none, some, String, if◌then◌else◌,
}
use blitzpool.Coinbase.Weight.{Address}
use blitzpool.Coinbase.Input.{Percent}
use blitzpool.Blockparty.Store.{
  BlockpartyStatus, confirming, ready, dissolved, BlockpartyGroup, BlockpartyMember, CacheEntry,
  Parties, find_group, members_of, save_group, cache_admin,
}
use blitzpool.Blockparty.Checks.{Answer, ok, err}

-- The settings of the service and the other parts that it asks: the hash of a token, whether an
-- address is in a group of the share window's, the verified e-mail address of an address.
pub record BlockpartyService : Type 0 where
  pub hash_token : String → String
  pub in_pplns_group : Address → Bool
  pub get_verified : Address → Option String
  pub fee_address : Address
  pub fee_percent : Percent
  pub min_payout_sats : ℕ

-- A call reads and refuses first, and writes where nothing is refused.
abbrev pub answered_by {ℓ κ} :
    {A : Type ℓ} {B : Type κ} → Parties → Answer A → (A → Parties × B) → Parties × Answer B
answered_by s (err e) write = (s, err e)
answered_by s (ok a) write = ((write a).0, ok (write a).1)

pub is_dissolved : BlockpartyStatus → Bool
is_dissolved dissolved = true
is_dissolved _ = false

abbrev pub live_groups : List BlockpartyGroup → List BlockpartyGroup
live_groups [] = []
live_groups (g ∷ gs) = let rest = live_groups gs in if is_dissolved g.status then rest else g ∷ rest

-- The maps are filled in the order of the rows, so the last row of an address counts.
fill_addresses :
    List BlockpartyGroup → List BlockpartyMember → List (Address × String) → List (Address × String)
fill_addresses live [] cache = cache
fill_addresses live (m ∷ ms) cache =
    fill_addresses live ms (elim (find_group m.group_id live) [
      | none ↦ cache
      | some g ↦ (m.address, m.group_id) ∷ cache
    ])

abbrev pub cache_entry_of : BlockpartyGroup → Address × CacheEntry
cache_entry_of g = (g.admin_address, record { group_id = g.id; status = g.status })

unfoldable pub fill_admins :
    List BlockpartyGroup → List (Address × CacheEntry) → List (Address × CacheEntry)
fill_admins [] cache = cache
fill_admins (g ∷ gs) cache = fill_admins gs (cache_entry_of g ∷ cache)

unfoldable pub rebuild_cache : Parties → Parties
unfolding is_dissolved fill_addresses fill_admins
rebuild_cache s =
    let live = live_groups s.groups in
    record s { address_cache = fill_addresses live s.members []; admin_cache = fill_admins live [] }

abbrev pub is_confirmed : BlockpartyMember → Bool
is_confirmed m = elim m.confirmed_at [ none ↦ false | some t ↦ true ]

abbrev pub every_confirmed : List BlockpartyMember → Bool
every_confirmed [] = true
every_confirmed (m ∷ ms) = is_confirmed m && every_confirmed ms

abbrev pub all_confirmed : List BlockpartyMember → Bool
all_confirmed [] = false
all_confirmed (m ∷ ms) = every_confirmed (m ∷ ms)

abbrev pub target_status : List BlockpartyMember → BlockpartyStatus
target_status ms = if all_confirmed ms then ready else confirming

-- The new status is saved and cached.
abbrev pub set_status : BlockpartyGroup → BlockpartyStatus → Parties → Parties
set_status g st s =
    cache_admin g.admin_address (record { group_id = g.id; status = st })
      (save_group (record g { status = st }) s)

-- A party whose status follows its members is confirming or ready; it is saved where that changes.
unfoldable pub follow_members :
    BlockpartyStatus → BlockpartyStatus → BlockpartyGroup → Parties → Parties
follow_members confirming confirming g s = s
follow_members confirming ready g s = set_status g ready s
follow_members ready ready g s = s
follow_members ready confirming g s = set_status g confirming s
follow_members _ _ g s = s

abbrev pub recompute_found : String → Option BlockpartyGroup → Parties → Parties
recompute_found i none s = s
recompute_found i (some g) s = follow_members g.status (target_status (members_of i s.members)) g s

unfoldable pub recompute_status : String → Parties → Parties
recompute_status i s = recompute_found i (find_group i s.groups) s
