-- ===== src/Blockparty/Tests.antt =====
-- A party of src/services/blockparty.service.ts at concrete inputs.
use blitzpool.Prelude.{
  ℕ, ◌≡◌, refl, true, false, [], ◌∷◌, Option, none, some, String, inl, inr, ◌⊎◌,
}
use blitzpool.Coinbase.Build.Emission.{emitted}
use blitzpool.Coinbase.Blockparty.{
  build_blockparty_distribution, split_block, split_members, split_member, miner_cut,
  member_entries, fee_entry,
}
use blitzpool.Prelude.Int.{◌-ℤ◌}
use blitzpool.Text.{trim_text, to_lower, text_length, has_char, is_space, is_empty}
use blitzpool.Address.{normalize_btc_address}
use blitzpool.Blockparty.Store.{
  BlockpartyStatus, draft, confirming, ready, active, dissolved, BlockpartyGroup, BlockpartyMember,
  Parties, find_group, find_by_name, find_by_admin, find_by_address, find_member, members_of,
  save_group, insert_group, insert_member, save_member, cache_admin, cache_get, no_parties, member,
}
use blitzpool.Blockparty.Checks.{
  verify_token, require_admin_token, assert_editable, assert_percent_bp_in_range,
  assert_splits_sum_valid, assert_not_in_pplns_group, assert_email_shape, is_email, ok,
}
use blitzpool.Blockparty.Service.{
  BlockpartyService, rebuild_cache, recompute_status, follow_members, fill_admins, all_confirmed,
}
use blitzpool.Blockparty.Membership.{
  create_group, add_member, check_create, check_add, update_splits, check_update, edits_of,
  edit_members, edit_member,
}
use blitzpool.Blockparty.Consent.{check_mark, mark_member_confirmed}
use blitzpool.Blockparty.Life.{
  on_share_accepted, check_transition, transition_to_confirming, dissolve_group,
}
use blitzpool.Blockparty.Calls.{
  Call, creates, adds, updates, marks, shares, perform, here, next, Reached,
}
use blitzpool.Blockparty.Routes.{
  get_group_id_for_admin_address, get_routable_group_id_for_admin, get_pending_party_fee_route,
}
use blitzpool.Blockparty.Blocks.{get_payout_distribution}
use blitzpool.Blockparty.Writes.{Writes}
use blitzpool.Blockparty.Refinement.{perform-Writes}
use blitzpool.Blockparty.Consents.{percent_in, after_call, consents}
use blitzpool.Blockparty.Agreement.{ready-all_confirmed}
use blitzpool.Blockparty.Lifecycle.{Lives, Runs-Lives}
use blitzpool.Blockparty.Unique.{member_unique}
use blitzpool.Blockparty.Frozen.{payout_frozen}
use blitzpool.Blockparty.Routed.{routed_to, pending_fee_route_of}
use blitzpool.Blockparty.Progress.{OthersConfirmed, last_consent-ready, dissolve_group-active}
use blitzpool.Blockparty.Paid.{transition-payout_exact}

abbrev pub club : BlockpartyService
club = record {
  hash_token = λ t. t;
  in_pplns_group = λ a. false;
  get_verified = λ a. some "mate@pool.org";
  fee_address = "bc1qpool";
  fee_percent = record { num = 2; den = 1 };
  min_payout_sats = 5000;
}

abbrev opening : Call
opening = creates 10 "p" "key" (record {
  name = "rental";
  admin_address = "bc1qadmin";
  admin_email = "admin@pool.org";
  admin_percent_bp = 6000;
})

abbrev joining : Call
joining = adds "p" (record { address = " BC1QMATE"; percent_bp = 4000 }) (some "key")

abbrev with_admin : Parties
with_admin = perform club opening no_parties

abbrev with_mate : Parties
with_mate = perform club joining with_admin

abbrev agreed : Parties
agreed = perform club (marks 20 "mate-key" "p" "bc1qmate") with_mate

abbrev pub started : Parties
started = perform club (shares 30 "bc1qadmin") agreed

-- The party as it stands in a status.
abbrev party : BlockpartyStatus → Option ℕ → BlockpartyGroup
party st last = record {
  id = "p";
  name = "rental";
  admin_address = "bc1qadmin";
  admin_token_hash = "key";
  status = st;
  last_share_at = last;
  rental_provider_hint = none;
  dissolved_at = none;
}

-- A call whose run a test sees through.
run_call : Call → Parties → Parties
unfolding perform create_group check_create find_group find_by_name find_by_admin find_by_address
    insert_group insert_member rebuild_cache trim_text to_lower text_length has_char is_space
    normalize_btc_address assert_email_shape assert_percent_bp_in_range assert_not_in_pplns_group
    is_email add_member check_add require_admin_token verify_token assert_editable save_group
    recompute_status follow_members members_of mark_member_confirmed check_mark find_member
    save_member cache_admin on_share_accepted cache_get fill_admins
run_call c s = perform club c s

opening-run : find_group "p" with_admin.groups ≡ some (party draft none)
unfolding run_call
opening-run = refl

joining-run : find_group "p" with_mate.groups ≡ some (party confirming none)
unfolding run_call
joining-run = refl

agreed-run : find_group "p" agreed.groups ≡ some (party ready none)
unfolding run_call
agreed-run = refl

started-run : find_group "p" started.groups ≡ some (party active (some 30))
unfolding run_call
started-run = refl

with_mate-Reached : Reached club with_mate
unfolding run_call
with_mate-Reached = next (next here opening refl refl) joining tt refl

agreed-Reached : Reached club agreed
agreed-Reached = next with_mate-Reached (marks 20 "mate-key" "p" "bc1qmate") tt refl

pub started-Reached : Reached club started
started-Reached = next agreed-Reached (shares 30 "bc1qadmin") tt refl

perform-Writes_example : Writes with_admin with_mate
perform-Writes_example = perform-Writes club with_admin joining tt

ready-all_confirmed_example :
    (all_confirmed (members_of "p" agreed.members) ≡ true)
    × ((find_member "p" "bc1qmate" agreed.members ≡ none)
        ⊎ (consents club agreed-Reached "p" "bc1qmate"
            ≡ percent_in (find_member "p" "bc1qmate" agreed.members)))
ready-all_confirmed_example = ready-all_confirmed club "p" "bc1qmate" agreed-Reached agreed-run refl

-- A change of the percentages after that.
abbrev changing : Call
changing =
    updates 25 "p"
      (record { address = "bc1qmate"; percent_bp = 3000 }
        ∷ record { address = "bc1qadmin"; percent_bp = 7000 }
        ∷ [])
      (some "key")

changed-Reached : Reached club (perform club changing agreed)
changed-Reached = next agreed-Reached changing tt refl

changing-run :
    (consents club changed-Reached "p" "bc1qmate" ≡ none)
    × (consents club changed-Reached "p" "bc1qadmin" ≡ some 7000)
unfolding consents after_call update_splits check_update edits_of edit_members edit_member run_call
    changed-Reached agreed-Reached
changing-run = (refl, refl)

-- Before the mark the second member has consented to nothing, and the first to what he set.
consents-run :
    (consents club with_mate-Reached "p" "bc1qmate" ≡ none)
    × (consents club with_mate-Reached "p" "bc1qadmin" ≡ some 6000)
    × (consents club agreed-Reached "p" "bc1qmate" ≡ some 4000)
unfolding consents after_call run_call with_mate-Reached agreed-Reached
consents-run = (refl, refl, refl)

Runs-Lives_example : Lives "p" (party confirming none) started
Runs-Lives_example =
    Runs-Lives club "p" joining-run (
      next (next here (marks 20 "mate-key" "p" "bc1qmate") tt refl) (shares 30 "bc1qadmin") tt refl)

abbrev mate : Option ℕ → Option String → BlockpartyMember
mate confirmed hash = record {
  group_id = "p";
  address = "bc1qmate";
  email = "mate@pool.org";
  percent_bp = 4000;
  role = member;
  confirmed_at = confirmed;
  member_token_hash = hash;
}

agreed_mate : find_member "p" "bc1qmate" agreed.members ≡ some (mate (some 20) (some "mate-key"))
unfolding run_call
agreed_mate = refl

member_unique_example : ◌≡◌ {A = String} "p" "p"
member_unique_example =
    member_unique club agreed "p" "p" "bc1qmate" agreed-Reached agreed_mate agreed_mate

payout_frozen_example :
    get_payout_distribution club "p" 1000000 (perform club joining started)
    ≡ get_payout_distribution club "p" 1000000 started
payout_frozen_example =
    payout_frozen club "p" 1000000 started (perform club joining started) started-Reached
      started-run (inl refl) (next here joining tt refl)

started_route : get_routable_group_id_for_admin "BC1QADMIN" started ≡ some "p"
unfolding run_call get_routable_group_id_for_admin
started_route = refl

pub started_admin : get_group_id_for_admin_address "bc1qadmin" started ≡ some "p"
unfolding run_call get_group_id_for_admin_address
started_admin = refl

routed_to_example :
    (g : BlockpartyGroup) × (find_group "p" started.groups ≡ some g)
    × (g.admin_address ≡ normalize_btc_address "BC1QADMIN")
    × ((g.status ≡ ready) ⊎ (g.status ≡ active))
routed_to_example = routed_to club started "BC1QADMIN" started-Reached started_route

mate_route :
    get_pending_party_fee_route club.fee_address "bc1qadmin" with_mate
    ≡ some (record { address = "bc1qpool"; percent = 100 } ∷ [])
unfolding run_call get_pending_party_fee_route
mate_route = refl

pending_fee_route_of_example :
    (i : String) × (g : BlockpartyGroup) × (find_group i with_mate.groups ≡ some g)
    × (g.admin_address ≡ normalize_btc_address "bc1qadmin")
    × ((g.status ≡ draft) ⊎ (g.status ≡ confirming))
pending_fee_route_of_example =
    pending_fee_route_of club with_mate "bc1qadmin" with_mate-Reached mate_route

mate_row :
    find_member "p" (normalize_btc_address "bc1qmate") with_mate.members ≡ some (mate none none)
unfolding run_call
mate_row = refl

others_confirmed :
    OthersConfirmed (normalize_btc_address "bc1qmate") (members_of "p" with_mate.members)
unfolding run_call
others_confirmed = (inr refl, (inl refl, tt))

mate_given : is_empty (normalize_btc_address "bc1qmate") ≡ false
unfolding run_call
mate_given = refl

last_consent-ready_example :
    find_group "p" (mark_member_confirmed club 20 "mate-key" "p" "bc1qmate" with_mate).0.groups
    ≡ some (party ready none)
last_consent-ready_example =
    last_consent-ready club with_mate "p" 20 "mate-key" "bc1qmate" joining-run (inl refl) mate_given
      mate_row others_confirmed

key_verified : verify_token club.hash_token "key" "key" ≡ true
unfolding run_call
key_verified = refl

dissolve_group-active_example :
    let (s', answer) = dissolve_group club 604800030 "p" (some "key") started in
    (answer ≡ ok tt)
    × (find_group "p" s'.groups
        ≡ some (record (party dissolved (some 30)) { dissolved_at = some 604800030 }))
dissolve_group-active_example =
    dissolve_group-active club 604800030 started "p" "key" started-run refl refl key_verified

mate_transition : (transition_to_confirming club "p" (some "key") with_mate).1 ≡ ok tt
unfolding run_call transition_to_confirming check_transition assert_splits_sum_valid
mate_transition = refl

transition-payout_exact_example :
    emitted
      (get_payout_distribution club "p" 1000000
        (transition_to_confirming club "p" (some "key") with_mate).0).payouts
    ≡ 1000000
transition-payout_exact_example =
    transition-payout_exact club with_mate "p" (some "key") 1000000 refl mate_transition

-- A party whose percentages add up to more than a hundred is ready as soon as its members agree,
-- and its block would pay out more than it is worth.
abbrev overfull : Parties
overfull = perform club (marks 20 "mate-key" "p" "bc1qmate") (
    perform club (adds "p" (record { address = "bc1qmate"; percent_bp = 10000 }) (some "key"))
      with_admin)

overfull-run :
    (find_group "p" overfull.groups ≡ some (party ready none))
    × (emitted (get_payout_distribution club "p" 1000000 overfull).payouts ≡ 1568000)
unfolding run_call get_payout_distribution build_blockparty_distribution split_block split_members
    split_member miner_cut member_entries fee_entry ◌-ℤ◌
overfull-run = (refl, refl)
