-- ===== src/Blockparty/Ready.antt =====
-- The status that follows the members in src/services/blockparty.service.ts (recomputeStatus): who
-- has agreed in a party that is ready.
use blitzpool.Prelude.{
  some_eq, none-some, ◌≡◌, refl, sym, ap, ◌∙◌, true, List, Option, none, some, String, str_eq,
  arith, Bool-cases, inl, inr, ◌⊎◌, ◌≢◌,
}
use blitzpool.Blockparty.Store.{
  BlockpartyStatus, draft, confirming, ready, active, dissolved, BlockpartyGroup, BlockpartyMember,
  Parties, find_group, members_of, save_group, cache_admin,
}
use blitzpool.Blockparty.Checks.{Answer, ok, err}
use blitzpool.Blockparty.Service.{
  answered_by, all_confirmed, target_status, set_status, follow_members, recompute_found,
  recompute_status,
}
use blitzpool.Blockparty.Tables.{find_group-id, eq_of-str_eq, ne_of-str_eq, found_after_save}

-- A call that is refused changes nothing; another has its writes.
pub answered_by-keeps {ℓ κ} :
    {A : Type ℓ} {B : Type κ} (P : Parties → Type 0) (s : Parties) (r : Answer A)
    (write : A → Parties × B)
    → P s
    → ((a : A) → r ≡ ok a → P (write a).0)
    → P (answered_by s r write).0
answered_by-keeps P s (err e) write h k = h
answered_by-keeps P s (ok a) write h k = k a refl

-- Every member of the party, if it is ready, has agreed.
abbrev pub ReadyAgreed : String → Parties → Type 0
ReadyAgreed i s =
    (g : BlockpartyGroup)
    → find_group i s.groups ≡ some g
    → g.status ≡ ready
    → all_confirmed (members_of i s.members) ≡ true

abbrev pub AllAgreed : Parties → Type 0
AllAgreed s = (i : String) → ReadyAgreed i s

-- The same of every party but one.
abbrev pub OthersAgreed : String → Parties → Type 0
OthersAgreed j s = (i : String) → i ≢ j → ReadyAgreed i s

abbrev IsNotReady : BlockpartyStatus → Type 0
IsNotReady st = st ≢ ready

-- The party at hand, and the others.
all_agreed : (s : Parties) (j : String) → ReadyAgreed j s → OthersAgreed j s → AllAgreed s
all_agreed s j at_j others i = elim (Bool-cases (str_eq i j)) [
  | inl e ↦ rw (eq_of-str_eq i j e) at_j
  | inr e ↦ others i (ne_of-str_eq i j e)
]

confirming_ready : confirming ≢ ready
confirming_ready e = cc

target_known :
    (ms : List BlockpartyMember)
    → ¬ ((target_status ms ≡ draft) ⊎ (target_status ms ≡ active) ⊎ (target_status ms ≡ dissolved))
target_known ms h = ground arith

target-agreed : (ms : List BlockpartyMember) → target_status ms ≡ ready → all_confirmed ms ≡ true
target-agreed ms h = elim (Bool-cases (all_confirmed ms)) [
  | inl e ↦ e
  | inr e ↦ absurd (confirming_ready (rw e at h))
]

module _ (s : Parties) (j : String) where
  -- A party that is saved with another status than ready.
  pub save-OthersAgreed :
      (g : BlockpartyGroup)
      → IsNotReady g.status
      → OthersAgreed j s
      → OthersAgreed j (save_group g s)
  unfolding save_group
  save-OthersAgreed g unready h i other k found is_ready =
      elim (found_after_save g i s.groups found) [
        | inl (e, _) ↦ absurd (unready (sym (ap (λ r. r.status) e) ∙ is_ready))
        | inr (old, _) ↦ h i other k old is_ready
      ]

  -- The status of the party itself is saved.
  save_own-OthersAgreed :
      (g : BlockpartyGroup) → g.id ≡ j → OthersAgreed j s → OthersAgreed j (save_group g s)
  unfolding save_group
  save_own-OthersAgreed g own h i other k found is_ready =
      elim (found_after_save g i s.groups found) [
        | inl (_, e) ↦ absurd (other (sym e ∙ own))
        | inr (old, _) ↦ h i other k old is_ready
      ]

  unchanged-AllAgreed :
      {g : BlockpartyGroup}
      → find_group j s.groups ≡ some g
      → IsNotReady g.status
      → OthersAgreed j s
      → AllAgreed s
  unchanged-AllAgreed found unready others =
      all_agreed s j
        (λ k at_k is_ready.
          absurd (unready (ap (λ r. r.status) (some_eq (sym found ∙ at_k)) ∙ is_ready)))
        others

  -- The status that is saved is right for the members.
  set_status-AllAgreed :
      (g : BlockpartyGroup) (st : BlockpartyStatus)
      → find_group j s.groups ≡ some g
      → (st ≡ ready → all_confirmed (members_of j s.members) ≡ true)
      → OthersAgreed j s
      → AllAgreed (set_status g st s)
  unfolding save_group cache_admin
  set_status-AllAgreed g st found right others =
      let own : g.id ≡ j = find_group-id j s.groups found in
      all_agreed (set_status g st s) j
        (λ k at_k is_ready. elim (found_after_save (record g { status = st }) j s.groups at_k) [
          | inl (e, _) ↦ right (sym (ap (λ r. r.status) e) ∙ is_ready)
          | inr (old, other) ↦ absurd (other (ap (λ r. r.id) (some_eq (sym old ∙ found))))
        ])
        (save_own-OthersAgreed (record g { status = st }) own others)

  follow-AllAgreed :
      (g : BlockpartyGroup) (st tg : BlockpartyStatus)
      → find_group j s.groups ≡ some g
      → g.status ≡ st
      → target_status (members_of j s.members) ≡ tg
      → OthersAgreed j s
      → AllAgreed (follow_members st tg g s)
  unfolding follow_members
  follow-AllAgreed g confirming confirming found at te others =
      unchanged-AllAgreed found (rw at (λ e. cc)) others
  follow-AllAgreed g confirming ready found at te others =
      set_status-AllAgreed g ready found (λ _. target-agreed (members_of j s.members) te) others
  follow-AllAgreed g ready ready found at te others =
      all_agreed s j (λ _ _ _. target-agreed (members_of j s.members) te) others
  follow-AllAgreed g ready confirming found at te others =
      set_status-AllAgreed g confirming found (λ e. cc) others
  follow-AllAgreed g draft tg found at te others =
      unchanged-AllAgreed found (rw at (λ e. cc)) others
  follow-AllAgreed g active tg found at te others =
      unchanged-AllAgreed found (rw at (λ e. cc)) others
  follow-AllAgreed g dissolved tg found at te others =
      unchanged-AllAgreed found (rw at (λ e. cc)) others
  follow-AllAgreed g confirming draft found at te others =
      unchanged-AllAgreed found (rw at (λ e. cc)) others
  follow-AllAgreed g confirming active found at te others =
      unchanged-AllAgreed found (rw at (λ e. cc)) others
  follow-AllAgreed g confirming dissolved found at te others =
      unchanged-AllAgreed found (rw at (λ e. cc)) others
  follow-AllAgreed g ready draft found at te others =
      absurd (target_known (members_of j s.members) (inl te))
  follow-AllAgreed g ready active found at te others =
      absurd (target_known (members_of j s.members) (inr (inl te)))
  follow-AllAgreed g ready dissolved found at te others =
      absurd (target_known (members_of j s.members) (inr (inr te)))

  recompute_found-AllAgreed :
      (o : Option BlockpartyGroup)
      → find_group j s.groups ≡ o
      → OthersAgreed j s
      → AllAgreed (recompute_found j o s)
  recompute_found-AllAgreed none found others =
      all_agreed s j (λ k at_k _. absurd (none-some (sym found ∙ at_k))) others
  recompute_found-AllAgreed (some g) found others =
      follow-AllAgreed g g.status (target_status (members_of j s.members)) found refl refl others

  -- Whatever was written of the party's members before, its status fits them afterwards.
  pub recompute-AllAgreed : OthersAgreed j s → AllAgreed (recompute_status j s)
  unfolding recompute_status
  recompute-AllAgreed others = recompute_found-AllAgreed (find_group j s.groups) refl others
