-- ===== src/Blockparty/Paid.antt =====
-- What a block of a party is worth to its members: transitionToConfirming, getPayoutDistribution and
-- onBlockFound of src/services/blockparty.service.ts.
use text.Mathlib.TextPositions.{eq_refl}
use blitzpool.Prelude.{
  ℕ, ◌≡◌, refl, ap, ◌∙◌, true, List, [], ◌∷◌, map, Option, none, some, String, arith, Option-cases,
  inl, inr,
}
use blitzpool.Prelude.Sort.{sum_of}
use blitzpool.Coinbase.Input.{is_set}
use blitzpool.Coinbase.Build.Emission.{emitted}
use blitzpool.Coinbase.Blockparty.Sums.{total_bp, blockparty-exact}
use blitzpool.Blockparty.Store.{
  BlockpartyStatus, draft, confirming, ready, active, dissolved, BlockpartyGroup, BlockpartyMember,
  BlockpartyBlock, Parties, find_group, members_of, save_group, cache_admin, first_of,
}
use blitzpool.Blockparty.Checks.{Answer, ok, err, assert_splits_sum_valid}
use blitzpool.Blockparty.Service.{
  BlockpartyService, answered_by, target_status, follow_members, recompute_found, recompute_status,
}
use blitzpool.Blockparty.Life.{check_transition, transition_to_confirming, start_confirming}
use blitzpool.Blockparty.Blocks.{
  share_of, get_payout_distribution, payout_input, BlockFound, on_block_found, block_row,
  insert_block, find_block, is_block,
}
use blitzpool.Blockparty.Granted.{check_transition-found}
use blitzpool.Blockparty.Selects.{first_of-append}

total_bp-shares :
    (ms : List BlockpartyMember) → total_bp (map share_of ms) ≡ sum_of (λ m. m.percent_bp) ms
total_bp-shares [] = refl
total_bp-shares (m ∷ ms) = omega (arith, total_bp-shares ms)

valid-total :
    (s : Parties) (i : String)
    → assert_splits_sum_valid s i ≡ ok tt
    → sum_of (λ m. m.percent_bp) (members_of i s.members) ≡ 10000
unfolding assert_splits_sum_valid
valid-total s i h = ground (arith, h)

follow-members :
    (st tg : BlockpartyStatus) (g : BlockpartyGroup) (s : Parties)
    → (follow_members st tg g s).members ≡ s.members
unfolding follow_members save_group cache_admin
follow-members draft tg g s = refl
follow-members active tg g s = refl
follow-members dissolved tg g s = refl
follow-members confirming draft g s = refl
follow-members confirming confirming g s = refl
follow-members confirming ready g s = refl
follow-members confirming active g s = refl
follow-members confirming dissolved g s = refl
follow-members ready draft g s = refl
follow-members ready confirming g s = refl
follow-members ready ready g s = refl
follow-members ready active g s = refl
follow-members ready dissolved g s = refl

pub recompute-members : (i : String) (s : Parties) → (recompute_status i s).members ≡ s.members
unfolding recompute_status
recompute-members i s = found_members (find_group i s.groups)
  where
    found_members : (o : Option BlockpartyGroup) → (recompute_found i o s).members ≡ s.members
    found_members none = refl
    found_members (some g) = follow-members g.status (target_status (members_of i s.members)) g s

pub start-members :
    (st : BlockpartyStatus) (g : BlockpartyGroup) (i : String) (s : Parties)
    → (start_confirming st g i s).members ≡ s.members
unfolding save_group
start-members confirming g i s = refl
start-members ready g i s = refl
start-members draft g i s = recompute-members i (save_group (record g { status = confirming }) s)
start-members active g i s = recompute-members i (save_group (record g { status = confirming }) s)
start-members dissolved g i s =
    recompute-members i (save_group (record g { status = confirming }) s)

abbrev started : String → Parties → BlockpartyGroup → Parties × Unit {0}
started id s g = (start_confirming g.status g id s, tt)

granted-payout :
    (service : BlockpartyService) (s : Parties) (id : String) (token : Option String) (reward : ℕ)
    (r : Answer BlockpartyGroup)
    → is_set service.fee_address ≡ true
    → check_transition service s id token ≡ r
    → (answered_by s r (started id s)).1 ≡ ok tt
    → emitted (get_payout_distribution service id reward (answered_by s r (started id s)).0).payouts
      ≡ reward
unfolding get_payout_distribution
granted-payout service s id token reward (err e) set granted h = cc
granted-payout service s id token reward (ok g) set granted h =
    let (_, _, valid) = check_transition-found service s id token granted in
    let s' = start_confirming g.status g id s in
    let total : total_bp (map share_of (members_of id s'.members)) ≡ 10000 =
      ap (λ ms. total_bp (map share_of (members_of id ms))) (start-members g.status g id s)
      ∙ total_bp-shares (members_of id s.members)
      ∙ valid-total s id valid in
    blockparty-exact (payout_input service id reward s') (omega (arith, total)) set

-- Where transitionToConfirming answers with no error and a fee address is set, the outputs of a
-- block of the party are worth the block reward exactly.
pub transition-payout_exact :
    (service : BlockpartyService) (s : Parties) (id : String) (token : Option String) (reward : ℕ)
    → is_set service.fee_address ≡ true
    → (transition_to_confirming service id token s).1 ≡ ok tt
    → emitted
        (get_payout_distribution service id reward
          (transition_to_confirming service id token s).0).payouts
      ≡ reward
unfolding transition_to_confirming get_payout_distribution
transition-payout_exact service s id token reward set h =
    granted-payout service s id token reward (check_transition service s id token) set refl h

repeated :
    (service : BlockpartyService) (now : ℕ) (b : BlockFound) (s : Parties) {row : BlockpartyBlock}
    → find_block b.group_id b.block_hash s.history ≡ some row
    → on_block_found service now b s ≡ (s, none)
unfolding on_block_found
repeated service now b s found = ap (λ o. insert_block o (block_row service now b s) s) found

recorded_block :
    (service : BlockpartyService) (now : ℕ) (b : BlockFound) (s : Parties)
    → (row : BlockpartyBlock) × (find_block b.group_id b.block_hash
          (on_block_found service now b s).0.history
        ≡ some row)
unfolding on_block_found find_block
recorded_block service now b s =
    elim (Option-cases (first_of (is_block b.group_id b.block_hash) s.history)) [
      | inl e ↦ (
        block_row service now b s,
        rw e (
            first_of-append (is_block b.group_id b.block_hash) s.history (block_row service now b s)
            ∙ rw (e, eq_refl b.group_id, eq_refl b.block_hash) refl),
      )
      | inr (old, e) ↦ (old, rw e e)
    ]

-- A block is recorded once: whatever was recorded for a block of a party, a second call for the
-- same party and block hash changes nothing and answers that there is no new row.
pub on_block_found-twice :
    (service : BlockpartyService) (now later : ℕ) (b c : BlockFound) (s : Parties)
    → c.group_id ≡ b.group_id
    → c.block_hash ≡ b.block_hash
    → on_block_found service later c (on_block_found service now b s).0
      ≡ ((on_block_found service now b s).0, none)
on_block_found-twice service now later b c s same_party same_hash =
    let t = (on_block_found service now b s).0 in
    let (row, found) = recorded_block service now b s in
    let again : find_block c.group_id c.block_hash t.history ≡ some row =
      ap (λ i. find_block i c.block_hash t.history) same_party
      ∙ ap (λ h. find_block b.group_id h t.history) same_hash
      ∙ found in
    repeated service later c t again
