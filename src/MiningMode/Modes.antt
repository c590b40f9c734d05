-- ===== src/MiningMode/Modes.antt =====
-- The mode of an address in src/services/mining-mode.service.ts against the tables of the parties.
use blitzpool.Prelude.{
  ◌≡◌, refl, sym, ap, ◌∙◌, ℕ, Bool, true, false, Option, none, some, String, none-some, some_eq,
  Bool-cases, inl, inr,
}
use blitzpool.Text.{is_empty}
use blitzpool.Address.{normalize_btc_address}
use blitzpool.Coinbase.Weight.{Address}
use blitzpool.Coinbase.Input.{has}
use blitzpool.Blockparty.Store.{BlockpartyGroup, CacheEntry, cache_get, find_group}
use blitzpool.Blockparty.Service.{BlockpartyService}
use blitzpool.Blockparty.Routes.{get_group_id_for_admin_address, id_of}
use blitzpool.Blockparty.Calls.{Reached}
use blitzpool.Blockparty.Routed.{Reached-IsRouted}
use blitzpool.Pplns.Books.{read_window_by_address}
use blitzpool.MiningMode.{
  MiningMode, solo, pplns, group_solo, blockparty, in_group, Mining, truthy, active_group, detected,
  marked_mode, get_marker, compute_mode,
}

detected-party :
    (party group : Option String) (in_window : Bool) {i : String}
    → detected party group in_window ≡ in_group blockparty i
    → party ≡ some i
detected-party (some j) group in_window h = ap (λ r. r.mode_group_id) h
detected-party none (some j) in_window h =
    let e : group_solo ≡ blockparty = ap (λ r. r.mode) h in cc
detected-party none none true h = let e : pplns ≡ blockparty = ap (λ r. r.mode) h in cc
detected-party none none false h = let e : solo ≡ blockparty = ap (λ r. r.mode) h in cc

marked_mode-party :
    (mark : Option MiningMode) (party group : Option String) (in_window : Bool) {i : String}
    → marked_mode mark party group in_window ≡ in_group blockparty i
    → party ≡ some i
marked_mode-party none party group w h = detected-party party group w h
marked_mode-party (some solo) party group w h = let e : solo ≡ blockparty = ap (λ r. r.mode) h in cc
marked_mode-party (some pplns) party group w h =
    let e : pplns ≡ blockparty = ap (λ r. r.mode) h in cc
marked_mode-party (some blockparty) party group w h = detected-party party group w h
marked_mode-party (some group_solo) party (some j) w h =
    let e : group_solo ≡ blockparty = ap (λ r. r.mode) h in cc
marked_mode-party (some group_solo) party none w h = detected-party party none w h

truthy-some : (o : Option String) {i : String} → truthy o ≡ some i → o ≡ some i
truthy-some none h = h
truthy-some (some j) h = elim (Bool-cases (is_empty j)) [
  | inl e ↦ absurd (none-some (rw e at h))
  | inr e ↦ rw e at h
]

id_of-entry :
    (o : Option CacheEntry) {i : String}
    → id_of o ≡ some i
    → (e : CacheEntry) × (o ≡ some e) × (e.group_id ≡ i)
id_of-entry none h = absurd (none-some h)
id_of-entry (some e) h = (e, refl, some_eq h)

-- After any calls of the blockparty service, an address mines for a party, marked or not, only if the
-- table has that party with this address as its administrator's.
pub mode_of_party :
    (service : BlockpartyService) (now : ℕ) (a : Address) (s : Mining) {i : String}
    → Reached service s.parties
    → compute_mode now a s ≡ in_group blockparty i
    → (g : BlockpartyGroup) × (find_group i s.parties.groups ≡ some g)
      × (g.admin_address ≡ normalize_btc_address a)
unfolding compute_mode get_group_id_for_admin_address
mode_of_party service now a s {i} r h =
    let o = id_of (cache_get (normalize_btc_address a) s.parties.admin_cache) in
    let named : o ≡ some i = truthy-some o (
      marked_mode-party (get_marker now a s.markers) (truthy o)
        (active_group (s.get_group_for_address a)) (has a (read_window_by_address s.window)) h) in
    let (e, hit, id) =
      id_of-entry (cache_get (normalize_btc_address a) s.parties.admin_cache) named in
    let (g, at, own, like) = (Reached-IsRouted service r).1 (normalize_btc_address a) e hit in
    (g, ap (λ n. find_group n s.parties.groups) (sym id) ∙ at, own)
