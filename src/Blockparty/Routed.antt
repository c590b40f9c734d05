-- ===== src/Blockparty/Routed.antt =====
-- The lookups of src/services/blockparty.service.ts on the share path, after any calls.
use blitzpool.Prelude.{
  none-some, some_eq, ◌≡◌, refl, sym, ap, ◌∙◌, true, List, [], Option, none, some, String, arith,
  Bool-cases, inl, inr, ◌⊎◌,
}
use blitzpool.Coinbase.Weight.{Address}
use blitzpool.Address.{normalize_btc_address}
use blitzpool.Blockparty.Store.{
  BlockpartyStatus, draft, confirming, ready, active, dissolved, BlockpartyGroup, CacheEntry,
  Parties, cache_get, find_group, save_group, insert_group, insert_member, save_member,
  delete_member, cache_admin,
}
use blitzpool.Blockparty.Service.{BlockpartyService, rebuild_cache}
use blitzpool.Blockparty.Routes.{
  is_routable, is_pending, routed, fee_routed, get_routable_group_id_for_admin,
  get_pending_party_fee_route, FeeRoute,
}
use blitzpool.Blockparty.Writes.{
  Write, promoted, followed, hinted, ended, shared, opened, joined, left, edited, answered, rebuilt,
  recorded, Writes-keep,
}
use blitzpool.Blockparty.Calls.{Reached}
use blitzpool.Blockparty.Refinement.{Runs-Writes}
use blitzpool.Blockparty.Tables.{find_group-id}
use blitzpool.Blockparty.Routing.{
  IsKeyed, Alike, CacheAgrees, save-IsKeyed, insert-IsKeyed, empty-CacheAgrees, rebuild-CacheAgrees,
}
use blitzpool.Blockparty.Cached.{save-CacheAgrees, recache-CacheAgrees, insert-CacheAgrees}

-- What the share path needs of the service.
abbrev pub IsRouted : Parties → Type 0
IsRouted s = IsKeyed s.groups × CacheAgrees s.admin_cache s.groups

Alike-draft : (st : BlockpartyStatus) → st ≡ draft → Alike st confirming
Alike-draft st e = rw e (refl, refl)

ended-IsRouted :
    (s : Parties) (h : BlockpartyGroup)
    → IsKeyed s.groups
    → IsRouted (rebuild_cache (save_group h s))
unfolding save_group rebuild_cache
ended-IsRouted s h keyed = (
  save-IsKeyed h s.groups keyed,
  rebuild-CacheAgrees (save_group h s) (save-IsKeyed h s.groups keyed),
)

Write-IsRouted : (s t : Parties) → Write s t → IsRouted s → IsRouted t
unfolding cache_admin rebuild_cache insert_member save_member delete_member save_group insert_group
Write-IsRouted s t (promoted g old at e) (keyed, agrees) =
    let h = record g { status = confirming } in
    rw e (
      save-IsKeyed h s.groups keyed,
      save-CacheAgrees s.groups s.admin_cache g h old refl refl (Alike-draft g.status at) agrees,
    )
Write-IsRouted s t (followed g st old may e) (keyed, agrees) =
    let h = record g { status = st } in
    rw e (
      save-IsKeyed h s.groups keyed,
      recache-CacheAgrees s.groups s.admin_cache g h g.admin_address old refl refl refl agrees,
    )
Write-IsRouted s t (hinted g hint old e) (keyed, agrees) =
    let h = record g { rental_provider_hint = hint } in
    rw e (
      save-IsKeyed h s.groups keyed,
      save-CacheAgrees s.groups s.admin_cache g h old refl refl (refl, refl) agrees,
    )
Write-IsRouted s t (ended now g old e) (keyed, agrees) =
    rw e (ended-IsRouted s (record g { status = dissolved; dissolved_at = some now }) keyed)
Write-IsRouted s t (shared now a entry g st hit old may e) (keyed, agrees) =
    let h = record g { status = st; last_share_at = some now } in
    let (k, at, named, _) = agrees a entry hit in
    let own : a ≡ g.admin_address =
      sym named ∙ ap (λ r. r.admin_address) (some_eq (sym at ∙ old)) in
    rw e (
      save-IsKeyed h s.groups keyed,
      recache-CacheAgrees s.groups s.admin_cache g h a
          (ap (λ n. find_group n s.groups) (find_group-id entry.group_id s.groups old) ∙ old) refl
          refl own agrees,
    )
Write-IsRouted s t (opened g new at e) (keyed, agrees) =
    rw e (insert-IsKeyed g s.groups new keyed, insert-CacheAgrees s.groups s.admin_cache g agrees)
Write-IsRouted s t (joined m new IsOpen-at e) h = rw e h
Write-IsRouted s t (left m IsOpen-at e) h = rw e h
Write-IsRouted s t (edited m IsOpen-at e) h = rw e h
Write-IsRouted s t (answered m old row same e) h = rw e h
Write-IsRouted s t (rebuilt e) (keyed, agrees) = rw e (keyed, rebuild-CacheAgrees s keyed)
Write-IsRouted s t (recorded row e) h = rw e h

pub Reached-IsRouted : (service : BlockpartyService) {s : Parties} → Reached service s → IsRouted s
Reached-IsRouted service r =
    Writes-keep IsRouted Write-IsRouted (Runs-Writes service r) (tt, empty-CacheAgrees [])

routable_cases : (st : BlockpartyStatus) → is_routable st ≡ true → (st ≡ ready) ⊎ (st ≡ active)
routable_cases st h = ground arith

pending_cases : (st : BlockpartyStatus) → is_pending st ≡ true → (st ≡ draft) ⊎ (st ≡ confirming)
pending_cases st h = ground arith

routed-hit :
    (o : Option CacheEntry) {i : String}
    → routed o ≡ some i
    → (e : CacheEntry) × (o ≡ some e) × (e.group_id ≡ i) × (is_routable e.status ≡ true)
routed-hit none h = absurd (none-some h)
routed-hit (some e) h = elim (Bool-cases (is_routable e.status)) [
  | inl k ↦ (e, refl, some_eq (rw k at h), k)
  | inr k ↦ absurd (none-some (rw k at h))
]

fee_routed-hit :
    (fee : Address) (o : Option CacheEntry) {r : List FeeRoute}
    → fee_routed fee o ≡ some r
    → (e : CacheEntry) × (o ≡ some e) × (is_pending e.status ≡ true)
fee_routed-hit fee none h = absurd (none-some h)
fee_routed-hit fee (some e) h = elim (Bool-cases (is_pending e.status)) [
  | inl k ↦ (e, refl, k)
  | inr k ↦ absurd (none-some (rw k at h))
]

-- After any calls, the shares of an address are routed to a party only if the table has that party
-- with this address as its administrator's, and it is ready or active.
pub routed_to :
    (service : BlockpartyService) (s : Parties) (address : Address) {i : String}
    → Reached service s
    → get_routable_group_id_for_admin address s ≡ some i
    → (g : BlockpartyGroup) × (find_group i s.groups ≡ some g)
      × (g.admin_address ≡ normalize_btc_address address)
      × ((g.status ≡ ready) ⊎ (g.status ≡ active))
unfolding get_routable_group_id_for_admin
routed_to service s address {i} r route =
    let a = normalize_btc_address address in
    let (e, hit, named, routable) = routed-hit (cache_get a s.admin_cache) route in
    let (g, at, own, like) = (Reached-IsRouted service r).1 a e hit in
    (
      g,
      ap (λ n. find_group n s.groups) (sym named) ∙ at,
      own,
      routable_cases g.status (sym like.0 ∙ routable),
    )

-- After any calls, the block of an address goes to the pool's fee address instead only if the
-- address is the administrator's of a party in the table that is still a draft or confirming.
pub pending_fee_route_of :
    (service : BlockpartyService) (s : Parties) (address : Address) {route : List FeeRoute}
    → Reached service s
    → get_pending_party_fee_route service.fee_address address s ≡ some route
    → (i : String) × (g : BlockpartyGroup) × (find_group i s.groups ≡ some g)
      × (g.admin_address ≡ normalize_btc_address address)
      × ((g.status ≡ draft) ⊎ (g.status ≡ confirming))
unfolding get_pending_party_fee_route
pending_fee_route_of service s address {route} r h =
    let a = normalize_btc_address address in
    let hit : fee_routed service.fee_address (cache_get a s.admin_cache) ≡ some route =
      ground (arith, h) in
    let (e, at_a, pending) = fee_routed-hit service.fee_address (cache_get a s.admin_cache) hit in
    let (g, at, own, like) = (Reached-IsRouted service r).1 a e at_a in
    (e.group_id, g, at, own, pending_cases g.status (sym like.1 ∙ pending))
