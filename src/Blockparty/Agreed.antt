-- ===== src/Blockparty/Agreed.antt =====
-- Every call of src/services/blockparty.service.ts on the agreement of the members of a party.
use blitzpool.Prelude.{
  ℕ, ◌≡◌, sym, ap, ◌∙◌, List, [], ◌∷◌, some, String, str_eq, Bool-cases, inl, inr, ◌≢◌, All,
}
use blitzpool.Coinbase.Weight.{Address}
use blitzpool.Blockparty.Store.{
  BlockpartyStatus, draft, confirming, ready, active, dissolved, BlockpartyGroup, BlockpartyMember,
  CacheEntry, Parties, find_group, members_of, save_group, insert_member, save_member,
  delete_member, cache_admin,
}
use blitzpool.Blockparty.Service.{rebuild_cache, all_confirmed}
use blitzpool.Blockparty.Membership.{promote, edit_member, edit_members}
use blitzpool.Blockparty.Tables.{
  members_of-save_other, members_of-insert_other, members_of-delete_other, eq_of-str_eq,
  found_after_save,
}
use blitzpool.Blockparty.Ready.{AllAgreed, OthersAgreed, save-OthersAgreed}

-- What a write to the members of one party leaves of the others.
module _ (s : Parties) (j : String) where
  pub save_member-Others :
      (m : BlockpartyMember) → m.group_id ≡ j → OthersAgreed j s → OthersAgreed j (save_member m s)
  unfolding save_member
  save_member-Others m own h i other g found is_ready =
      ap all_confirmed (members_of-save_other i m s.members (λ e. other (sym e ∙ own)))
      ∙ h i other g found is_ready

  pub insert_member-Others :
      (m : BlockpartyMember)
      → m.group_id ≡ j
      → OthersAgreed j s
      → OthersAgreed j (insert_member m s)
  unfolding insert_member
  insert_member-Others m own h i other g found is_ready =
      ap all_confirmed (members_of-insert_other i m s.members (λ e. other (sym e ∙ own)))
      ∙ h i other g found is_ready

  pub delete_member-Others :
      (m : BlockpartyMember)
      → m.group_id ≡ j
      → OthersAgreed j s
      → OthersAgreed j (delete_member m s)
  unfolding delete_member
  delete_member-Others m own h i other g found is_ready =
      ap all_confirmed (members_of-delete_other i m s.members (λ e. other (sym e ∙ own)))
      ∙ h i other g found is_ready

  pub promote-Others :
      (g : BlockpartyGroup) (st : BlockpartyStatus)
      → OthersAgreed j s
      → OthersAgreed j (promote g st s)
  promote-Others g draft h = save-OthersAgreed s j (record g { status = confirming }) (λ e. cc) h
  promote-Others g confirming h = h
  promote-Others g ready h = h
  promote-Others g active h = h
  promote-Others g dissolved h = h

pub members_of-own :
    (j : String) (ms : List BlockpartyMember) → All (λ m. m.group_id ≡ j) (members_of j ms)
unfolding members_of
members_of-own j [] = tt
members_of-own j (m ∷ ms) = elim (Bool-cases (str_eq m.group_id j)) [
  | inl e ↦ rw e (eq_of-str_eq m.group_id j e, members_of-own j ms)
  | inr e ↦ rw e (members_of-own j ms)
]

module _ (j : String) (now : ℕ) (a : Address) (edits : List (Address × ℕ)) where
  pub edit_members-Others :
      (ms : List BlockpartyMember) (s : Parties)
      → All (λ m. m.group_id ≡ j) ms
      → OthersAgreed j s
      → OthersAgreed j (edit_members now a edits ms s)
  unfolding edit_members edit_member
  edit_members-Others [] s own h = h
  edit_members-Others (m ∷ ms) s own h =
      edit_members-Others ms (save_member (edit_member now a edits m) s) own.1
        (save_member-Others s j (edit_member now a edits m) own.0 h)

-- A saved party that is not ready, or a write that the tables do not see.
module _ (s : Parties) where
  pub save-AllAgreed :
      (g : BlockpartyGroup) → g.status ≢ ready → AllAgreed s → AllAgreed (save_group g s)
  unfolding save_group
  save-AllAgreed g unready h i k found is_ready = elim (found_after_save g i s.groups found) [
    | inl (e, _) ↦ absurd (unready (sym (ap (λ r. r.status) e) ∙ is_ready))
    | inr (old, _) ↦ h i k old is_ready
  ]

  -- A party that is saved with the status that it had.
  pub resave-AllAgreed :
      (g h : BlockpartyGroup)
      → find_group g.id s.groups ≡ some h
      → h.status ≡ g.status
      → AllAgreed s
      → AllAgreed (save_group g s)
  unfolding save_group
  resave-AllAgreed g h old same agreed i k found is_ready =
      elim (found_after_save g i s.groups found) [
        | inl (e, own) ↦
            agreed i h (sym (ap (λ n. find_group n s.groups) own) ∙ old)
              (same ∙ sym (ap (λ r. r.status) e) ∙ is_ready)
        | inr (before, _) ↦ agreed i k before is_ready
      ]

  pub rebuild-AllAgreed : AllAgreed s → AllAgreed (rebuild_cache s)
  unfolding rebuild_cache
  rebuild-AllAgreed h = h

  pub cached-AllAgreed :
      (a : Address) (e : CacheEntry) → AllAgreed s → AllAgreed (cache_admin a e s)
  unfolding cache_admin
  cached-AllAgreed a e h = h

  pub others_of_all : (j : String) → AllAgreed s → OthersAgreed j s
  others_of_all j h i _ = h i
