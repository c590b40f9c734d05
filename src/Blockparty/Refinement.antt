-- ===== src/Blockparty/Refinement.antt =====
-- The calls of src/services/blockparty.service.ts, each against the writes that Writes allows.
use blitzpool.Prelude.{
  true-false, ℕ, ◌≡◌, refl, sym, true, Option, none, some, String, Bool-cases, Option-cases, inl,
  inr,
}
use blitzpool.Address.{normalize_btc_address}
use blitzpool.Text.{is_empty}
use blitzpool.Coinbase.Weight.{Address}
use blitzpool.Blockparty.Store.{
  BlockpartyStatus, draft, confirming, ready, active, dissolved, BlockpartyGroup, CacheEntry,
  Parties, cache_get, find_group, save_group,
}
use blitzpool.Blockparty.Service.{BlockpartyService}
use blitzpool.Blockparty.Life.{
  start_confirming, may_confirm, check_transition, check_dissolve, transition_to_confirming,
  dissolve_found, dissolve_group, share_in_group, share_to_found, share_to_cached,
  on_share_accepted,
}
use blitzpool.Blockparty.Blocks.{block_row, BlockFound, on_block_found, find_block}
use blitzpool.Blockparty.Calls.{
  Call, creates, adds, removes, updates, resets, marks, confirms, hints, transitions, dissolves,
  shares, finds, IsFresh, perform, Runs, here, next,
}
use blitzpool.Blockparty.Granted.{check_transition-found, check_dissolve-found}
use blitzpool.Blockparty.Writes.{
  promoted, ended, shared, recorded, Writes, done, one-Write, append-Writes,
}
use blitzpool.Blockparty.Refines.{answered_by-Writes, found_by_own, recompute-Writes}
use blitzpool.Blockparty.MembersRefine.{
  create-Writes, add-Writes, remove-Writes, update-Writes, reset-Writes, mark-Writes,
  confirm-Writes, hint-Writes,
}

module _ (service : BlockpartyService) (s : Parties) where
  start-Writes :
      (st : BlockpartyStatus) (g : BlockpartyGroup) (id : String)
      → find_group g.id s.groups ≡ some g
      → g.status ≡ st
      → may_confirm st ≡ true
      → Writes s (start_confirming st g id s)
  start-Writes confirming g id found at may = done
  start-Writes ready g id found at may = done
  start-Writes draft g id found at may =
      append-Writes (one-Write (promoted g found at refl))
        (recompute-Writes id (save_group (record g { status = confirming }) s))
  start-Writes active g id found at may = absurd (true-false (sym may))
  start-Writes dissolved g id found at may = absurd (true-false (sym may))

  transition-Writes :
      (id : String) (token : Option String)
      → Writes s (transition_to_confirming service id token s).0
  unfolding transition_to_confirming
  transition-Writes id token =
      answered_by-Writes s (check_transition service s id token) _ λ g granted.
        let (found, may, _) = check_transition-found service s id token granted in
        start-Writes g.status g id (found_by_own id s found) refl may

  dissolve_found-Writes :
      (now : ℕ) (st : BlockpartyStatus) (g : BlockpartyGroup)
      → find_group g.id s.groups ≡ some g
      → Writes s (dissolve_found now st g s)
  dissolve_found-Writes now dissolved g found = done
  dissolve_found-Writes now draft g found = one-Write (ended now g found refl)
  dissolve_found-Writes now confirming g found = one-Write (ended now g found refl)
  dissolve_found-Writes now ready g found = one-Write (ended now g found refl)
  dissolve_found-Writes now active g found = one-Write (ended now g found refl)

  dissolve-Writes :
      (now : ℕ) (id : String) (token : Option String)
      → Writes s (dissolve_group service now id token s).0
  unfolding dissolve_group
  dissolve-Writes now id token =
      answered_by-Writes s (check_dissolve service now s id token) _ λ g granted.
        dissolve_found-Writes now g.status g
          (found_by_own id s (check_dissolve-found service s id now token granted).0)

  share_in-Writes :
      (now : ℕ) (a : Address) (e : CacheEntry) (st : BlockpartyStatus) (g : BlockpartyGroup)
      → cache_get a s.admin_cache ≡ some e
      → find_group e.group_id s.groups ≡ some g
      → g.status ≡ st
      → Writes s (share_in_group now a st g s)
  share_in-Writes now a e dissolved g hit found at = done
  share_in-Writes now a e draft g hit found at =
      one-Write (shared now a e g draft hit found (rw at refl) refl)
  share_in-Writes now a e confirming g hit found at =
      one-Write (shared now a e g confirming hit found (rw at refl) refl)
  share_in-Writes now a e ready g hit found at =
      one-Write (shared now a e g active hit found (rw at refl) refl)
  share_in-Writes now a e active g hit found at =
      one-Write (shared now a e g active hit found (rw at refl) refl)

  share_found-Writes :
      (now : ℕ) (a : Address) (e : CacheEntry) (o : Option BlockpartyGroup)
      → cache_get a s.admin_cache ≡ some e
      → find_group e.group_id s.groups ≡ o
      → Writes s (share_to_found now a o s)
  share_found-Writes now a e none hit found = done
  share_found-Writes now a e (some g) hit found = share_in-Writes now a e g.status g hit found refl

  share_cached-Writes :
      (now : ℕ) (a : Address) (o : Option CacheEntry)
      → cache_get a s.admin_cache ≡ o
      → Writes s (share_to_cached now a o s)
  share_cached-Writes now a none hit = done
  share_cached-Writes now a (some e) hit =
      share_found-Writes now a e (find_group e.group_id s.groups) hit refl

  share-Writes : (now : ℕ) (address : Address) → Writes s (on_share_accepted now address s)
  unfolding on_share_accepted
  share-Writes now address =
      let a = normalize_btc_address address in
      elim (Bool-cases (is_empty a)) [
        | inl e ↦ rw e done
        | inr e ↦ rw e (share_cached-Writes now a (cache_get a s.admin_cache) refl)
      ]

  block-Writes : (now : ℕ) (b : BlockFound) → Writes s (on_block_found service now b s).0
  unfolding on_block_found
  block-Writes now b = elim (Option-cases (find_block b.group_id b.block_hash s.history)) [
    | inl e ↦ rw e (one-Write (recorded (block_row service now b s) refl))
    | inr (o, e) ↦ rw e done
  ]

  -- Every call, refused or not, is a sequence of allowed writes; a new party has a new id.
  pub perform-Writes : (c : Call) → IsFresh c s → Writes s (perform service c s)
  unfolding perform
  perform-Writes (creates now id token params) fresh =
      create-Writes service s now id token params fresh
  perform-Writes (adds id input token) _ = add-Writes service s id input token
  perform-Writes (removes id address token) _ = remove-Writes service s id address token
  perform-Writes (updates now id us token) _ = update-Writes service s now id us token
  perform-Writes (resets id address) _ = reset-Writes service s id address
  perform-Writes (marks now minted id address) _ = mark-Writes service s now minted id address
  perform-Writes (confirms now id address token) _ = confirm-Writes service s now id address token
  perform-Writes (hints id hint token) _ = hint-Writes service s id hint token
  perform-Writes (transitions id token) _ = transition-Writes id token
  perform-Writes (dissolves now id token) _ = dissolve-Writes now id token
  perform-Writes (shares now address) _ = share-Writes now address
  perform-Writes (finds now b) _ = block-Writes now b

pub Runs-Writes : (service : BlockpartyService) {s t : Parties} → Runs service s t → Writes s t
Runs-Writes service here = done
Runs-Writes service (next {t} r c fresh e) =
    rw e (append-Writes (Runs-Writes service r) (perform-Writes service t c fresh))
