-- ===== src/Blockparty/Refines.antt =====
-- The calls of src/services/blockparty.service.ts against the writes that Writes allows.
use blitzpool.Prelude.{ℕ, ◌≡◌, refl, ap, ◌∙◌, true, List, [], ◌∷◌, Option, none, some, String, All}
use blitzpool.Coinbase.Weight.{Address}
use blitzpool.Blockparty.Store.{
  BlockpartyStatus, draft, confirming, ready, active, dissolved, BlockpartyGroup, BlockpartyMember,
  Parties, find_group, members_of, save_member, find_member,
}
use blitzpool.Blockparty.Checks.{Answer, ok, err, is_editable}
use blitzpool.Blockparty.Service.{rebuild_cache, recompute_status}
use blitzpool.Blockparty.Membership.{promote, edit_member, edit_members}
use blitzpool.Blockparty.Tables.{find_group-id, find_member-is_row}
use blitzpool.Blockparty.Writes.{
  promoted, followed, edited, answered, rebuilt, Writes, done, also, IsOpen, one-Write,
  append-Writes,
}
use blitzpool.Blockparty.Service.{
  answered_by, target_status, follow_members, recompute_found, recompute_status,
}

-- A call that is refused writes nothing.
pub answered_by-Writes {ℓ κ} :
    {A : Type ℓ} {B : Type κ} (s : Parties) (r : Answer A) (write : A → Parties × B)
    → ((a : A) → r ≡ ok a → Writes s (write a).0)
    → Writes s (answered_by s r write).0
answered_by-Writes s (err e) write k = done
answered_by-Writes s (ok a) write k = k a refl

pub found_by_own :
    (i : String) (s : Parties) {g : BlockpartyGroup}
    → find_group i s.groups ≡ some g
    → find_group g.id s.groups ≡ some g
found_by_own i s found = ap (λ n. find_group n s.groups) (find_group-id i s.groups found) ∙ found

pub IsOpen-at :
    {i j : String} (s : Parties) (g : BlockpartyGroup)
    → find_group i s.groups ≡ some g
    → is_editable g.status ≡ true
    → j ≡ i
    → IsOpen j s
IsOpen-at s g found editable e = (g, ap (λ n. find_group n s.groups) e ∙ found, editable)

module _ (j : String) (s : Parties) where
  follow-Writes :
      (g : BlockpartyGroup) (st tg : BlockpartyStatus)
      → find_group g.id s.groups ≡ some g
      → g.status ≡ st
      → Writes s (follow_members st tg g s)
  unfolding follow_members
  follow-Writes g confirming ready found at = one-Write (followed g ready found (rw at refl) refl)
  follow-Writes g ready confirming found at =
      one-Write (followed g confirming found (rw at refl) refl)
  follow-Writes g confirming confirming found at = done
  follow-Writes g ready ready found at = done
  follow-Writes g draft tg found at = done
  follow-Writes g active tg found at = done
  follow-Writes g dissolved tg found at = done
  follow-Writes g confirming draft found at = done
  follow-Writes g confirming active found at = done
  follow-Writes g confirming dissolved found at = done
  follow-Writes g ready draft found at = done
  follow-Writes g ready active found at = done
  follow-Writes g ready dissolved found at = done

  recompute_found-Writes :
      (o : Option BlockpartyGroup) → find_group j s.groups ≡ o → Writes s (recompute_found j o s)
  recompute_found-Writes none found = done
  recompute_found-Writes (some g) found =
      follow-Writes g g.status (target_status (members_of j s.members)) (found_by_own j s found)
        refl

  pub recompute-Writes : Writes s (recompute_status j s)
  unfolding recompute_status
  recompute-Writes = recompute_found-Writes (find_group j s.groups) refl

  pub rebuild-Writes : {r : Parties} → Writes r s → Writes r (rebuild_cache s)
  rebuild-Writes ws = also ws (rebuilt refl)

pub promote-Writes :
    (g : BlockpartyGroup) (st : BlockpartyStatus) (s : Parties)
    → find_group g.id s.groups ≡ some g
    → g.status ≡ st
    → Writes s (promote g st s)
promote-Writes g draft s found at = one-Write (promoted g found at refl)
promote-Writes g confirming s found at = done
promote-Writes g ready s found at = done
promote-Writes g active s found at = done
promote-Writes g dissolved s found at = done

module _ (j : String) (now : ℕ) (a : Address) (edits : List (Address × ℕ)) where
  pub edit_members-Writes :
      (ms : List BlockpartyMember) (s : Parties)
      → All (λ m. m.group_id ≡ j) ms
      → IsOpen j s
      → Writes s (edit_members now a edits ms s)
  unfolding edit_members edit_member save_member
  edit_members-Writes [] s own opens = done
  edit_members-Writes (m ∷ ms) s own opens =
      append-Writes (one-Write (edited (edit_member now a edits m) (rw own.0 opens) refl))
        (edit_members-Writes ms (save_member (edit_member now a edits m) s) own.1 opens)

-- A row of a party is saved with the percentage that it had, and the status follows.
pub answered-Writes :
    (i : String) (a : Address) (m old : BlockpartyMember) (s : Parties)
    → find_member i a s.members ≡ some old
    → m.group_id ≡ old.group_id
    → m.address ≡ old.address
    → m.percent_bp ≡ old.percent_bp
    → Writes s (recompute_status i (save_member m s))
answered-Writes i a m old s found same_party same_address same_percent =
    let (own, named) = find_member-is_row i a s.members found in
    append-Writes
      (one-Write (
        answered m old
          (ap (λ n. find_member n m.address s.members) (same_party ∙ own)
            ∙ ap (λ n. find_member i n s.members) (same_address ∙ named)
            ∙ found)
          same_percent refl))
      (recompute-Writes i (save_member m s))
