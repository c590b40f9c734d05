-- ===== src/Blockparty/Frozen.antt =====
-- The deal of a party of src/services/blockparty.service.ts that is active or dissolved: who its
-- members are and at which percentages, and what a block pays them.
use mathlib.Core.Path.{ap₂}
use blitzpool.Prelude.{
  none-some, some_eq, true-false, ℕ, ◌≡◌, refl, sym, ap, ◌∙◌, true, false, List, [], ◌∷◌, map, none,
  some, String, str_eq, arith, Bool-cases, inl, inr, ◌≢◌, ◌⊎◌,
}
use blitzpool.Coinbase.Weight.{Address}
use blitzpool.Blockparty.Store.{
  BlockpartyStatus, active, dissolved, BlockpartyGroup, BlockpartyMember, Parties, find_group,
  find_member, find_by_address, members_of, is_row, replace_member, insert_member, save_member,
  delete_member, save_group, insert_group, cache_admin,
}
use blitzpool.Blockparty.Checks.{is_editable}
use blitzpool.Blockparty.Service.{BlockpartyService, rebuild_cache}
use blitzpool.Blockparty.Blocks.{share_of, get_payout_distribution}
use blitzpool.Coinbase.Blockparty.{BlockpartyMemberInput, build_blockparty_distribution}
use blitzpool.Blockparty.Writes.{
  Write, promoted, followed, hinted, ended, shared, opened, joined, left, edited, answered, rebuilt,
  recorded, IsOpen, Writes-keep,
}
use blitzpool.Blockparty.Calls.{Runs, Reached}
use blitzpool.Blockparty.Refinement.{Runs-Writes}
use blitzpool.Blockparty.Lifecycle.{may_become, Write-Lives}
use blitzpool.Blockparty.Unique.{IsDistinct, Write-IsDistinct}
use blitzpool.Blockparty.Tables.{
  members_of-save_other, members_of-insert_other, members_of-delete_other, find_member-is_row,
}

-- The members of a party with their percentages, as a block is split by them.
abbrev pub deal_of : String → Parties → List BlockpartyMemberInput
deal_of i s = map share_of (members_of i s.members)

-- A party in a status that takes no more edits.
abbrev pub IsClosed : String → Parties → Type 0
IsClosed i s =
    (g : BlockpartyGroup) × (find_group i s.groups ≡ some g) × (is_editable g.status ≡ false)

closed_status :
    (a b : BlockpartyStatus) → is_editable a ≡ false → may_become a b ≡ true → is_editable b ≡ false
closed_status a b h k = ground arith

closed_open : (i j : String) (s : Parties) → IsClosed i s → IsOpen j s → j ≢ i
closed_open i j s (g, at, shut) (h, at', opens) e =
    let same : g ≡ h = some_eq (sym at ∙ ap (λ n. find_group n s.groups) (sym e) ∙ at') in
    true-false (sym opens ∙ ap (λ r. is_editable r.status) (sym same) ∙ shut)

Write-IsClosed : (i : String) (s t : Parties) → Write s t → IsClosed i s → IsClosed i t
Write-IsClosed i s t w (g, at, shut) =
    let (h, at', leads, _) = Write-Lives i g s t at w in
    (h, at', closed_status g.status h.status shut leads)

is_row-found :
    (i : String) (a : Address) (n : BlockpartyMember)
    → is_row i a n ≡ true
    → find_member i a (n ∷ []) ≡ some n
unfolding find_member
is_row-found i a n e = rw e refl

-- A row that is saved with its percentage leaves the deals as they are.
module _ (i : String) (m : BlockpartyMember) where
  kept_away :
      (ms : List BlockpartyMember)
      → find_by_address m.address ms ≡ none
      → map share_of (members_of i (map (replace_member m) ms)) ≡ map share_of (members_of i ms)
  unfolding members_of find_by_address
  kept_away [] h = refl
  kept_away (n ∷ ms) h = elim (Bool-cases (str_eq n.address m.address)) [
    | inl e ↦ absurd (none-some (sym (rw e at h)))
    | inr e ↦
        let untouched : replace_member m n ≡ n = ground (arith, e) in
        let later = kept_away ms (rw e at h) in
        elim (Bool-cases (str_eq n.group_id i)) [
          | inl k ↦ rw (untouched, k) (ap (◌∷◌ (share_of n)) later)
          | inr k ↦ rw (untouched, k) later
        ]
  ]

  answered-deal :
      (old : BlockpartyMember) (ms : List BlockpartyMember)
      → IsDistinct ms
      → find_member m.group_id m.address ms ≡ some old
      → m.percent_bp ≡ old.percent_bp
      → map share_of (members_of i (map (replace_member m) ms)) ≡ map share_of (members_of i ms)
  unfolding members_of find_member
  answered-deal old [] h found same = refl
  answered-deal old (n ∷ ms) h found same = elim (Bool-cases (is_row m.group_id m.address n)) [
    | inl e ↦
        let first : n ≡ old = some_eq (rw e at found) in
        let at : (n.group_id ≡ m.group_id) × (n.address ≡ m.address) =
          find_member-is_row m.group_id m.address (n ∷ [])
            (is_row-found m.group_id m.address n e) in
        let later = kept_away ms (ap (λ a. find_by_address a ms) (sym at.1) ∙ h.0) in
        let share : share_of m ≡ share_of n = cc (at.1, same, ap (λ r. r.percent_bp) first) in
        elim (Bool-cases (str_eq n.group_id i)) [
          | inl k ↦
              let k' : str_eq m.group_id i ≡ true = ap (λ g. str_eq g i) (sym at.0) ∙ k in
              rw (e, k, k') (ap₂ ◌∷◌ share later)
          | inr k ↦
              let k' : str_eq m.group_id i ≡ false = ap (λ g. str_eq g i) (sym at.0) ∙ k in
              rw (e, k, k') later
        ]
    | inr e ↦
        let later = answered-deal old ms h.1 (rw e at found) same in
        elim (Bool-cases (str_eq n.group_id i)) [
          | inl k ↦ rw (e, k) (ap (◌∷◌ (share_of n)) later)
          | inr k ↦ rw (e, k) later
        ]
  ]

abbrev IsFrozen : String → List BlockpartyMemberInput → Parties → Type 0
IsFrozen i deal s = IsClosed i s × IsDistinct s.members × (deal_of i s ≡ deal)

Write-deal :
    (i : String) (s t : Parties)
    → Write s t
    → IsClosed i s
    → IsDistinct s.members
    → deal_of i t ≡ deal_of i s
unfolding cache_admin rebuild_cache insert_member save_member delete_member save_group insert_group
Write-deal i s t (promoted g old at e) h d = rw e refl
Write-deal i s t (followed g st old may e) h d = rw e refl
Write-deal i s t (hinted g hint old e) h d = rw e refl
Write-deal i s t (ended now g old e) h d = rw e refl
Write-deal i s t (shared now a entry g st hit old may e) h d = rw e refl
Write-deal i s t (opened g new at e) h d = rw e refl
Write-deal i s t (joined m new opens e) h d =
    rw e (
      ap (map share_of)
        (members_of-insert_other i m s.members (closed_open i m.group_id s h opens)))
Write-deal i s t (left m opens e) h d =
    rw e (
      ap (map share_of)
        (members_of-delete_other i m s.members (closed_open i m.group_id s h opens)))
Write-deal i s t (edited m opens e) h d =
    rw e
      (ap (map share_of) (members_of-save_other i m s.members (closed_open i m.group_id s h opens)))
Write-deal i s t (answered m old row same e) h d = rw e (answered-deal i m old s.members d row same)
Write-deal i s t (rebuilt e) h d = rw e refl
Write-deal i s t (recorded row e) h d = rw e refl

Write-IsFrozen :
    (i : String) (deal : List BlockpartyMemberInput) (s t : Parties)
    → Write s t
    → IsFrozen i deal s
    → IsFrozen i deal t
Write-IsFrozen i deal s t w (shut, distinct, same) = (
  Write-IsClosed i s t w shut,
  Write-IsDistinct s t w distinct,
  Write-deal i s t w shut distinct ∙ same,
)

closed : (st : BlockpartyStatus) → (st ≡ active) ⊎ (st ≡ dissolved) → is_editable st ≡ false
closed st (inl e) = ap is_editable e
closed st (inr e) = ap is_editable e

-- Once a party is active or dissolved its deal is frozen: whatever calls follow, a block pays its
-- members, and the pool, what it would have paid them then.
pub payout_frozen :
    (service : BlockpartyService) (i : String) (reward : ℕ) {g : BlockpartyGroup} (s t : Parties)
    → Reached service s
    → find_group i s.groups ≡ some g
    → (g.status ≡ active) ⊎ (g.status ≡ dissolved)
    → Runs service s t
    → get_payout_distribution service i reward t ≡ get_payout_distribution service i reward s
unfolding get_payout_distribution
payout_frozen service i reward {g} s t r found shut later =
    let distinct =
      Writes-keep (λ u. IsDistinct u.members) Write-IsDistinct (Runs-Writes service r) tt in
    let frozen =
      Writes-keep (IsFrozen i (deal_of i s)) (Write-IsFrozen i (deal_of i s))
        (Runs-Writes service later) ((g, found, closed g.status shut), distinct, refl) in
    ap
      (λ ms. build_blockparty_distribution (record {
        members = ms;
        block_reward_sats = reward;
        pool_fee_address = service.fee_address;
        pool_fee_percent = service.fee_percent;
        min_payout_sats = service.min_payout_sats;
      }))
      frozen.2
