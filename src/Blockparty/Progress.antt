-- ===== src/Blockparty/Progress.antt =====
-- What brings a party of src/services/blockparty.service.ts on: the last consent
-- (markMemberConfirmed) and the end after a silence (dissolveGroup).
use blitzpool.Prelude.{
  ℕ, ◌-◌, ◌≡◌, refl, sym, ap, ◌∙◌, Bool, true, false, List, [], ◌∷◌, map, Option, none, some,
  String, str_eq, if◌then◌else◌, ltb, Bool-cases, inl, inr, ◌⊎◌, All,
}
use blitzpool.Coinbase.Weight.{Address}
use blitzpool.Address.{normalize_btc_address}
use blitzpool.Text.{is_empty}
use blitzpool.Blockparty.Store.{
  BlockpartyStatus, draft, confirming, ready, active, dissolved, BlockpartyGroup, BlockpartyMember,
  Parties, find_group, find_member, members_of, is_row, save_member, save_group, cache_admin,
  replace_member, replace_group,
}
use blitzpool.Blockparty.Checks.{
  ok, err, dissolve_cooldown, dissolve_cooldown_ms, require_admin_token, verify_token,
}
use blitzpool.Blockparty.Service.{
  BlockpartyService, rebuild_cache, is_confirmed, every_confirmed, all_confirmed, target_status,
  follow_members, recompute_found, recompute_status,
}
use blitzpool.Blockparty.Consent.{check_mark, marked, mark_member_confirmed, or_else}
use blitzpool.Blockparty.Life.{check_dissolve, dissolve_group, last_share}
use blitzpool.Blockparty.Tables.{
  find_group-id, find_group-save, find_member-is_row, members_of-save, str_eq_of-eq,
}
use blitzpool.Blockparty.Selects.{option_map}
use blitzpool.Blockparty.Agreed.{members_of-own}

-- All but one have agreed.
abbrev pub OthersConfirmed : Address → List BlockpartyMember → Type 0
OthersConfirmed a ms = All (λ n. (n.address ≡ a) ⊎ (is_confirmed n ≡ true)) ms

replaced_own :
    (m n : BlockpartyMember)
    → n.group_id ≡ m.group_id
    → n.address ≡ m.address
    → replace_member m n ≡ m
replaced_own m n same_party same_address =
    rw
      (
        str_eq_of-eq {a = n.group_id} {b = m.group_id} same_party,
        str_eq_of-eq {a = n.address} {b = m.address} same_address,
      )
      refl

replaced-confirmed :
    (m n : BlockpartyMember)
    → is_confirmed m ≡ true
    → is_confirmed n ≡ true
    → is_confirmed (replace_member m n) ≡ true
replaced-confirmed m n h k = elim (Bool-cases (is_row m.group_id m.address n)) [
  | inl e ↦ rw e h
  | inr e ↦ rw e k
]

replace-every_confirmed :
    (m : BlockpartyMember) (ms : List BlockpartyMember)
    → is_confirmed m ≡ true
    → All (λ n. n.group_id ≡ m.group_id) ms
    → OthersConfirmed m.address ms
    → every_confirmed (map (replace_member m) ms) ≡ true
replace-every_confirmed m [] h own others = refl
replace-every_confirmed m (n ∷ ms) h own others =
    let here : is_confirmed (replace_member m n) ≡ true = elim others.0 [
      | inl e ↦ ap is_confirmed (replaced_own m n own.0 e) ∙ h
      | inr e ↦ replaced-confirmed m n h e
    ] in
    rw here (replace-every_confirmed m ms h own.1 others.1)

all_confirmed-map :
    (m : BlockpartyMember) (ms : List BlockpartyMember) {first : BlockpartyMember}
    → find_member m.group_id m.address ms ≡ some first
    → every_confirmed (map (replace_member m) (members_of m.group_id ms)) ≡ true
    → all_confirmed (map (replace_member m) (members_of m.group_id ms)) ≡ true
unfolding members_of find_member
all_confirmed-map m [] found h = cc
all_confirmed-map m (n ∷ ms) found h = elim (Bool-cases (str_eq n.group_id m.group_id)) [
  | inl e ↦ rw e (rw e at h)
  | inr e ↦ rw e (all_confirmed-map m ms (rw e at found) (rw e at h))
]

abbrev pub FollowsMembers : BlockpartyStatus → Type 0
FollowsMembers st = (st ≡ confirming) ⊎ (st ≡ ready)

follow-ready :
    (st : BlockpartyStatus) (g : BlockpartyGroup) (s : Parties)
    → FollowsMembers st
    → g.status ≡ st
    → find_group g.id s.groups ≡ some g
    → find_group g.id (follow_members st ready g s).groups ≡ some (record g { status = ready })
unfolding follow_members save_group cache_admin
follow-ready confirming g s h at found =
    let g' = record g { status = ready } in
    find_group-save g.id g' s.groups
    ∙ ap (option_map (replace_group g')) found
    ∙ ap (λ t. some (if t then g' else g)) (str_eq_of-eq {a = g.id} {b = g.id} refl)
follow-ready ready g s h at found = found ∙ ap some (cc at)
follow-ready draft g s h at found = absurd (elim h [ inl e ↦ cc | inr e ↦ cc ])
follow-ready active g s h at found = absurd (elim h [ inl e ↦ cc | inr e ↦ cc ])
follow-ready dissolved g s h at found = absurd (elim h [ inl e ↦ cc | inr e ↦ cc ])

-- The status of the party of a saved row, where all of its members have agreed now.
saved_row-ready :
    (i : String) (s : Parties) {g : BlockpartyGroup}
    → find_group i s.groups ≡ some g
    → FollowsMembers g.status
    → all_confirmed (members_of i s.members) ≡ true
    → find_group i (recompute_status i s).groups ≡ some (record g { status = ready })
unfolding recompute_status
saved_row-ready i s {g} found follows agreed =
    let own : g.id ≡ i = find_group-id i s.groups found in
    let target : target_status (members_of i s.members) ≡ ready = rw agreed refl in
    let now =
      follow-ready g.status g s follows refl (ap (λ n. find_group n s.groups) own ∙ found) in
    ap (λ o. find_group i (recompute_found i o s).groups) found
    ∙ ap (λ st. find_group i (follow_members g.status st g s).groups) target
    ∙ ap (λ n. find_group n (follow_members g.status ready g s).groups) (sym own)
    ∙ now

abbrev is_some : Option ℕ → Bool
is_some o = elim o [ none ↦ false | some t ↦ true ]

or_else-confirmed : (o : Option ℕ) (now : ℕ) → is_some (or_else o now) ≡ true
or_else-confirmed none now = refl
or_else-confirmed (some t) now = refl

all_confirmed-at :
    (m : BlockpartyMember) (i : String) (ms : List BlockpartyMember) {first : BlockpartyMember}
    → m.group_id ≡ i
    → find_member i m.address ms ≡ some first
    → every_confirmed (map (replace_member m) (members_of i ms)) ≡ true
    → all_confirmed (map (replace_member m) (members_of i ms)) ≡ true
all_confirmed-at m i ms {first} own row every = rw (sym own) (
    all_confirmed-map m ms {first = first} (ap (λ n. find_member n m.address ms) own ∙ row)
      (ap (λ n. every_confirmed (map (replace_member m) (members_of n ms))) own ∙ every))

module _ (service : BlockpartyService) (s : Parties) (id : String) where
  -- When all the others of a confirming or ready party have agreed, the consent of the last member
  -- makes the party ready.
  pub last_consent-ready :
      (now : ℕ) (minted : String) (address : Address) {g : BlockpartyGroup} {m : BlockpartyMember}
      → find_group id s.groups ≡ some g
      → FollowsMembers g.status
      → is_empty (normalize_btc_address address) ≡ false
      → find_member id (normalize_btc_address address) s.members ≡ some m
      → OthersConfirmed (normalize_btc_address address) (members_of id s.members)
      → find_group id (mark_member_confirmed service now minted id address s).0.groups
        ≡ some (record g { status = ready })
  unfolding mark_member_confirmed check_mark save_member
  last_consent-ready now minted address {g} {m} found follows given_address row others =
      let a = normalize_btc_address address in
      let (own, named) = find_member-is_row id a s.members row in
      let m' = marked service now minted m in
      let confirmed : is_confirmed m' ≡ true = or_else-confirmed m.confirmed_at now in
      let every =
        replace-every_confirmed m' (members_of id s.members) confirmed
          (rw own (members_of-own id s.members)) (rw named others) in
      let agreed : all_confirmed (members_of id (map (replace_member m') s.members)) ≡ true =
        ap all_confirmed (members_of-save id m' s.members)
        ∙ all_confirmed-at m' id s.members own (ap (λ x. find_member id x s.members) named ∙ row)
            every in
      rw (given_address, row) (saved_row-ready id (save_member m' s) found follows agreed)

-- The dissolution of an active party, asked for with the administrator's token, is refused while
-- its last share is less than seven days back, and leaves the party as it is; from then on the
-- party is dissolved.
pub dissolve_group-active :
    (service : BlockpartyService) (now : ℕ) (s : Parties) (id t : String) {g : BlockpartyGroup}
    → find_group id s.groups ≡ some g
    → g.status ≡ active
    → is_empty t ≡ false
    → verify_token service.hash_token t g.admin_token_hash ≡ true
    → let cooling = ltb (now - last_share g.last_share_at) dissolve_cooldown_ms in
      let (s', answer) = dissolve_group service now id (some t) s in
      (answer ≡ (if cooling then err dissolve_cooldown else ok tt))
      × (find_group id s'.groups
          ≡ some (if cooling then g else record g { status = dissolved; dissolved_at = some now }))
unfolding dissolve_group check_dissolve require_admin_token rebuild_cache save_group
dissolve_group-active service now s id t {g} found at given_token verified =
    let own : g.id ≡ id = find_group-id id s.groups found in
    let g' = record g { status = dissolved; dissolved_at = some now } in
    let after : find_group id (map (replace_group g') s.groups) ≡ some g' =
      find_group-save id g' s.groups
      ∙ ap (option_map (replace_group g')) found
      ∙ ap (λ b. some (if b then g' else g)) (str_eq_of-eq {a = g.id} {b = g.id} refl) in
    elim (Bool-cases (ltb (now - last_share g.last_share_at) dissolve_cooldown_ms)) [
      | inl e ↦ simp (given_token, found, verified, at, e) (refl, refl)
      | inr e ↦ simp (given_token, found, verified, at, e) (refl, after)
    ]
