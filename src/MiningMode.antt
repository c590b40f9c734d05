-- ===== src/MiningMode.antt =====
-- MinerActiveModeService and MiningModeService of src/services/miner-active-mode.service.ts and
-- src/services/mining-mode.service.ts: in which mode an address mines, from the mark that its last
-- share left, or else from the blockparties, the groups and the share window. Redis is there, and is
-- a map whose entries end at a time; the clock is an argument.
pub mod Marks
pub mod Modes
mod Tests
use blitzpool.Prelude.{
  ℕ, ◌+◌, ◌-◌, Bool, true, false, ◌&&◌, List, [], ◌∷◌, Option, none, some, String, str_eq, ltb,
  if◌then◌else◌,
}
use blitzpool.Text.{is_empty}
use blitzpool.Coinbase.Weight.{Address}
use blitzpool.Coinbase.Input.{has}
use blitzpool.Blockparty.Store.{Parties, cache_get}
use blitzpool.Blockparty.Routes.{get_group_id_for_admin_address}
use blitzpool.Pplns.{ShareWindow}
use blitzpool.Pplns.Books.{read_window_by_address}

pub data MiningMode : Type 0 where
  solo pplns group_solo blockparty : MiningMode

abbrev pub same_mode : MiningMode → MiningMode → Bool
same_mode solo solo = true
same_mode pplns pplns = true
same_mode group_solo group_solo = true
same_mode blockparty blockparty = true
same_mode _ _ = false

pub record MiningModeResult : Type 0 where
  pub mode : MiningMode
  pub mode_group_id : Option String

-- What the group service has of an address.
pub record GroupCacheEntry : Type 0 where
  pub group_id : String
  pub group_active : Bool

pub record LastMark : Type 0 where
  pub mode : MiningMode
  pub refreshed_at : ℕ

pub record Marker : Type 0 where
  pub mode : MiningMode
  pub ends_at : ℕ

pub record MinerActiveModeService : Type 0 where
  pub redis : List (Address × Marker)
  pub last_mark : List (Address × LastMark)

abbrev pub marker_ttl_ms : ℕ
marker_ttl_ms = 300000

abbrev pub refresh_interval_ms : ℕ
refresh_interval_ms = 60000

-- A clock behind the last mark has not waited either.
abbrev pub is_recent : ℕ → MiningMode → Option LastMark → Bool
is_recent now m none = false
is_recent now m (some l) = same_mode l.mode m && ltb (now - l.refreshed_at) refresh_interval_ms

abbrev pub write_mark : ℕ → Address → MiningMode → MinerActiveModeService → MinerActiveModeService
write_mark now a m s = record {
  redis = (a, record { mode = m; ends_at = now + marker_ttl_ms }) ∷ s.redis;
  last_mark = (a, record { mode = m; refreshed_at = now }) ∷ s.last_mark;
}

unfoldable pub mark : ℕ → Address → MiningMode → MinerActiveModeService → MinerActiveModeService
mark now a m s =
    if is_empty a
    then s
    else if is_recent now m (cache_get a s.last_mark)
    then s
    else write_mark now a m s

abbrev pub live : ℕ → Option Marker → Option MiningMode
live now none = none
live now (some k) = if ltb now k.ends_at then some k.mode else none

unfoldable pub get_marker : ℕ → Address → MinerActiveModeService → Option MiningMode
get_marker now a s = if is_empty a then none else live now (cache_get a s.redis)

-- An id that is not the empty text.
abbrev pub truthy : Option String → Option String
truthy none = none
truthy (some i) = if is_empty i then none else some i

abbrev pub active_group : Option GroupCacheEntry → Option String
active_group none = none
active_group (some g) = if g.group_active then some g.group_id else none

abbrev pub in_mode : MiningMode → MiningModeResult
in_mode m = record { mode = m; mode_group_id = none }

abbrev pub in_group : MiningMode → String → MiningModeResult
in_group m i = record { mode = m; mode_group_id = some i }

-- Without a mark: a party comes before a group, and a group before the share window.
abbrev pub detected : Option String → Option String → Bool → MiningModeResult
detected (some i) group in_window = in_group blockparty i
detected none (some i) in_window = in_group group_solo i
detected none none in_window = if in_window then in_mode pplns else in_mode solo

-- A mark of a party or a group counts while the party or the group is there.
abbrev pub marked_mode : Option MiningMode → Option String → Option String → Bool → MiningModeResult
marked_mode none party group in_window = detected party group in_window
marked_mode (some solo) party group in_window = in_mode solo
marked_mode (some pplns) party group in_window = in_mode pplns
marked_mode (some blockparty) party group in_window = detected party group in_window
marked_mode (some group_solo) party (some i) in_window = in_group group_solo i
marked_mode (some group_solo) party none in_window = detected party none in_window

pub record Mining : Type 0 where
  pub markers : MinerActiveModeService
  pub parties : Parties
  pub window : ShareWindow
  pub get_group_for_address : Address → Option GroupCacheEntry

unfoldable pub compute_mode : ℕ → Address → Mining → MiningModeResult
compute_mode now a s =
    marked_mode (get_marker now a s.markers) (truthy (get_group_id_for_admin_address a s.parties))
      (active_group (s.get_group_for_address a)) (has a (read_window_by_address s.window))

pub record CachedMode : Type 0 where
  pub result : MiningModeResult
  pub valid_until : ℕ

abbrev pub mode_cache_ttl_ms : ℕ
mode_cache_ttl_ms = 30000

abbrev pub valid_mode : ℕ → Option CachedMode → Option MiningModeResult
valid_mode now none = none
valid_mode now (some c) = if ltb now c.valid_until then some c.result else none

abbrev pub mode_or_compute :
    ℕ
    → Address
    → Mining
    → Option MiningModeResult
    → List (Address × CachedMode)
    → List (Address × CachedMode) × MiningModeResult
mode_or_compute now a s (some r) cache = (cache, r)
mode_or_compute now a s none cache =
    let r = compute_mode now a s in
    ((a, record { result = r; valid_until = now + mode_cache_ttl_ms }) ∷ cache, r)

unfoldable pub get_mode :
    ℕ
    → Address
    → Mining
    → List (Address × CachedMode)
    → List (Address × CachedMode) × MiningModeResult
get_mode now a s cache = mode_or_compute now a s (valid_mode now (cache_get a cache)) cache

-- `invalidate`.
unfoldable pub invalidate_mode : Address → List (Address × CachedMode) → List (Address × CachedMode)
invalidate_mode a [] = []
invalidate_mode a ((b, c) ∷ cache) =
    let rest = invalidate_mode a cache in if str_eq b a then rest else (b, c) ∷ rest
