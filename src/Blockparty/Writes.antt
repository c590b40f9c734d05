-- ===== src/Blockparty/Writes.antt =====
-- The specification of what src/services/blockparty.service.ts may write: each write to its tables
-- and caches with the condition under which it is allowed.
use blitzpool.Prelude.{ℕ, ◌≡◌, Bool, true, false, [], ◌∷◌, ◌++◌, Option, none, some, String}
use blitzpool.Coinbase.Weight.{Address}
use blitzpool.Blockparty.Store.{
  BlockpartyStatus, draft, confirming, ready, active, dissolved, BlockpartyGroup, BlockpartyMember,
  BlockpartyBlock, CacheEntry, Parties, cache_get, find_group, find_by_address, find_member,
  save_group, insert_group, insert_member, save_member, delete_member,
}
use blitzpool.Blockparty.Checks.{is_editable}
use blitzpool.Blockparty.Service.{rebuild_cache, set_status}
use blitzpool.Blockparty.Life.{share_saved}

-- How the status of a party follows its members.
abbrev pub may_follow : BlockpartyStatus → BlockpartyStatus → Bool
may_follow draft confirming = true
may_follow confirming ready = true
may_follow ready confirming = true
may_follow _ _ = false

-- The status of a party before and after a share.
abbrev pub may_share : BlockpartyStatus → BlockpartyStatus → Bool
may_share ready active = true
may_share active active = true
may_share draft draft = true
may_share confirming confirming = true
may_share _ _ = false

-- The party of a row is there, and its deal may still be changed.
abbrev pub IsOpen : String → Parties → Type 0
IsOpen i s =
    (g : BlockpartyGroup) × (find_group i s.groups ≡ some g) × (is_editable g.status ≡ true)

pub data Write (s t : Parties) : Type 0 where
  -- A draft is promoted; the cache is not told.
  promoted :
      (g : BlockpartyGroup)
      → find_group g.id s.groups ≡ some g
      → g.status ≡ draft
      → t ≡ save_group (record g { status = confirming }) s
      → Write s t
  followed :
      (g : BlockpartyGroup) (st : BlockpartyStatus)
      → find_group g.id s.groups ≡ some g
      → may_follow g.status st ≡ true
      → t ≡ set_status g st s
      → Write s t
  hinted :
      (g : BlockpartyGroup) (hint : Option String)
      → find_group g.id s.groups ≡ some g
      → t ≡ save_group (record g { rental_provider_hint = hint }) s
      → Write s t
  ended :
      (now : ℕ) (g : BlockpartyGroup)
      → find_group g.id s.groups ≡ some g
      → t ≡ rebuild_cache (save_group (record g { status = dissolved; dissolved_at = some now }) s)
      → Write s t
  shared :
      (now : ℕ) (a : Address) (e : CacheEntry) (g : BlockpartyGroup) (st : BlockpartyStatus)
      → cache_get a s.admin_cache ≡ some e
      → find_group e.group_id s.groups ≡ some g
      → may_share g.status st ≡ true
      → t ≡ share_saved now a st g s
      → Write s t
  opened :
      (g : BlockpartyGroup)
      → find_group g.id s.groups ≡ none
      → g.status ≡ draft
      → t ≡ insert_group g s
      → Write s t
  joined :
      (m : BlockpartyMember)
      → find_by_address m.address s.members ≡ none
      → IsOpen m.group_id s
      → t ≡ insert_member m s
      → Write s t
  left : (m : BlockpartyMember) → IsOpen m.group_id s → t ≡ delete_member m s → Write s t
  -- Another percentage, while the deal is open.
  edited : (m : BlockpartyMember) → IsOpen m.group_id s → t ≡ save_member m s → Write s t
  -- Consent, given or taken back, for the percentage as it is.
  answered :
      (m old : BlockpartyMember)
      → find_member m.group_id m.address s.members ≡ some old
      → m.percent_bp ≡ old.percent_bp
      → t ≡ save_member m s
      → Write s t
  rebuilt : t ≡ rebuild_cache s → Write s t
  recorded : (row : BlockpartyBlock) → t ≡ record s { history = s.history ++ row ∷ [] } → Write s t

pub data Writes (s : Parties) : Parties → Type 0 where
  done : Writes s s
  also : {t u : Parties} → Writes s t → Write t u → Writes s u

pub one-Write : {s t : Parties} → Write s t → Writes s t
one-Write w = also done w

pub append-Writes : {s t u : Parties} → Writes s t → Writes t u → Writes s u
append-Writes ws done = ws
append-Writes ws (also vs w) = also (append-Writes ws vs) w

-- What every write keeps, any writes keep.
pub Writes-keep :
    (P : Parties → Type 0)
    → ((s t : Parties) → Write s t → P s → P t)
    → {s t : Parties} → Writes s t
    → P s
    → P t
Writes-keep P keep done h = h
Writes-keep P keep (also {t} {u} ws w) h = keep t u w (Writes-keep P keep ws h)
