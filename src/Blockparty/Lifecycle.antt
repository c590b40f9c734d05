-- ===== src/Blockparty/Lifecycle.antt =====
-- The life of a party of src/services/blockparty.service.ts: the order of its statuses.
use blitzpool.Prelude.{
  ◌≡◌, refl, sym, ap, ◌∙◌, Bool, true, false, none, some, String, str_eq, if◌then◌else◌, arith, inl,
  inr,
}
use blitzpool.Blockparty.Store.{
  BlockpartyStatus, draft, confirming, ready, active, dissolved, BlockpartyGroup, Parties,
  find_group, save_group, insert_group, insert_member, save_member, delete_member, cache_admin,
}
use blitzpool.Blockparty.Service.{BlockpartyService, rebuild_cache}
use blitzpool.Blockparty.Writes.{
  Write, promoted, followed, hinted, ended, shared, opened, joined, left, edited, answered, rebuilt,
  recorded, Writes, done, also, may_follow, may_share,
}
use blitzpool.Blockparty.Calls.{Runs}
use blitzpool.Blockparty.Refinement.{Runs-Writes}
use blitzpool.Blockparty.Tables.{save_moves, find_group-id, find_group-insert}
use blitzpool.Blockparty.Selects.{or_last}

-- What a status may turn into in any time: no way leads back to a draft, an active party only ends,
-- and a dissolved one stays dissolved.
abbrev pub may_become : BlockpartyStatus → BlockpartyStatus → Bool
may_become draft _ = true
may_become confirming draft = false
may_become confirming _ = true
may_become ready draft = false
may_become ready _ = true
may_become active active = true
may_become active dissolved = true
may_become active _ = false
may_become dissolved dissolved = true
may_become dissolved _ = false

may_become_refl : (a : BlockpartyStatus) → may_become a a ≡ true
may_become_refl draft = refl
may_become_refl confirming = refl
may_become_refl ready = refl
may_become_refl active = refl
may_become_refl dissolved = refl

may_become_trans :
    (a b c : BlockpartyStatus)
    → may_become a b ≡ true
    → may_become b c ≡ true
    → may_become a c ≡ true
may_become_trans a b c h k = ground arith

may_follow-become : (a b : BlockpartyStatus) → may_follow a b ≡ true → may_become a b ≡ true
may_follow-become a b h = ground arith

may_share-become : (a b : BlockpartyStatus) → may_share a b ≡ true → may_become a b ≡ true
may_share-become a b h = ground arith

may_become-dissolved : (a : BlockpartyStatus) → may_become a dissolved ≡ true
may_become-dissolved a = ground arith

-- A party is still there, with its administrator, in a status that its status leads to.
abbrev pub Lives : String → BlockpartyGroup → Parties → Type 0
Lives i k t =
    (g : BlockpartyGroup) × (find_group i t.groups ≡ some g)
    × (may_become k.status g.status ≡ true)
    × (g.admin_address ≡ k.admin_address)

module _ (i : String) (k : BlockpartyGroup) (s : Parties)
    (found : find_group i s.groups ≡ some k) where
  Lives-on : (t : Parties) → t.groups ≡ s.groups → Lives i k t
  Lives-on t same = (k, ap (find_group i) same ∙ found, may_become_refl k.status, refl)

  save-Lives :
      (g h : BlockpartyGroup)
      → find_group g.id s.groups ≡ some g
      → h.id ≡ g.id
      → h.admin_address ≡ g.admin_address
      → may_become g.status h.status ≡ true
      → Lives i k (save_group h s)
  unfolding save_group
  save-Lives g h old same admin_kept leads = elim (save_moves i g h k s.groups old same found) [
    | inl (now, e) ↦ (
      h,
      now,
      ap (λ r. may_become r.status h.status) e ∙ leads,
      admin_kept ∙ sym (ap (λ r. r.admin_address) e),
    )
    | inr now ↦ (k, now, may_become_refl k.status, refl)
  ]

  insert-Lives : (g : BlockpartyGroup) → Lives i k (insert_group g s)
  unfolding insert_group
  insert-Lives g = (
    k,
    find_group-insert i s.groups g
        ∙ ap (λ o. or_last o (if str_eq g.id i then some g else none)) found,
    may_become_refl k.status,
    refl,
  )

pub Write-Lives :
    (i : String) (k : BlockpartyGroup) (s t : Parties)
    → find_group i s.groups ≡ some k
    → Write s t
    → Lives i k t
unfolding cache_admin rebuild_cache insert_member save_member delete_member
Write-Lives i k s t found (promoted g old at e) = rw e (
    save-Lives i k s found g (record g { status = confirming }) old refl refl
      (ap (λ st. may_become st confirming) at))
Write-Lives i k s t found (followed g st old may e) = rw e (
    save-Lives i k s found g (record g { status = st }) old refl refl
      (may_follow-become g.status st may))
Write-Lives i k s t found (hinted g hint old e) = rw e (
    save-Lives i k s found g (record g { rental_provider_hint = hint }) old refl refl
      (may_become_refl g.status))
Write-Lives i k s t found (ended now g old e) = rw e (
    save-Lives i k s found g (record g { status = dissolved; dissolved_at = some now }) old refl
      refl (may_become-dissolved g.status))
Write-Lives i k s t found (shared now a entry g st hit old may e) = rw e (
    save-Lives i k s found g (record g { status = st; last_share_at = some now })
      (ap (λ n. find_group n s.groups) (find_group-id entry.group_id s.groups old) ∙ old) refl refl
      (may_share-become g.status st may))
Write-Lives i k s t found (opened g new at e) = rw e (insert-Lives i k s found g)
Write-Lives i k s t found (joined m new IsOpen-at e) = Lives-on i k s found t (ap (λ r. r.groups) e)
Write-Lives i k s t found (left m IsOpen-at e) = Lives-on i k s found t (ap (λ r. r.groups) e)
Write-Lives i k s t found (edited m IsOpen-at e) = Lives-on i k s found t (ap (λ r. r.groups) e)
Write-Lives i k s t found (answered m old row same e) =
    Lives-on i k s found t (ap (λ r. r.groups) e)
Write-Lives i k s t found (rebuilt e) = Lives-on i k s found t (ap (λ r. r.groups) e)
Write-Lives i k s t found (recorded row e) = Lives-on i k s found t (ap (λ r. r.groups) e)

pub Writes-Lives :
    (i : String) (k : BlockpartyGroup) {s t : Parties}
    → find_group i s.groups ≡ some k
    → Writes s t
    → Lives i k t
Writes-Lives i k {s} found done = Lives-on i k s found s refl
Writes-Lives i k found (also {t} {u} ws w) =
    let (g, at, leads, admin_kept) = Writes-Lives i k found ws in
    let (h, at', leads', admin_kept') = Write-Lives i g t u at w in
    (h, at', may_become_trans k.status g.status h.status leads leads', admin_kept' ∙ admin_kept)

-- Whatever calls follow, refused or not, a party stays in the table under its administrator, and
-- its status keeps to the order of a life: no way leads back to a draft, an active party can only
-- be dissolved, and a dissolved one stays dissolved.
pub Runs-Lives :
    (service : BlockpartyService) (i : String) {k : BlockpartyGroup} {s t : Parties}
    → find_group i s.groups ≡ some k
    → Runs service s t
    → Lives i k t
Runs-Lives service i {k} found r = Writes-Lives i k found (Runs-Writes service r)
