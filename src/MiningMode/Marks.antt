-- ===== src/MiningMode/Marks.antt =====
-- How long a mark of src/services/miner-active-mode.service.ts lasts, which is not written anew at
-- every share.
use text.Mathlib.TextPositions.{eq_refl}
use blitzpool.Prelude.{
  ℕ, ◌+◌, ◌-◌, ◌<◌, ◌≡◌, refl, ap, ◌∙◌, Bool, true, false, ◌&&◌, [], Option, none, some, str_eq,
  ltb, ltb→lt, lt→ltb, Bool-cases, inl, inr, arith,
}
use blitzpool.Text.{is_empty}
use blitzpool.Coinbase.Weight.{Address}
use blitzpool.Blockparty.Store.{cache_get}
use blitzpool.MiningMode.{
  MiningMode, same_mode, LastMark, Marker, MinerActiveModeService, is_recent, write_mark, mark,
  live, get_marker,
}

abbrev marker_of : Option LastMark → Option Marker
marker_of none = none
marker_of (some l) = some (record { mode = l.mode; ends_at = l.refreshed_at + 300000 })

-- The map of Redis has what the last marks say.
abbrev IsSynced : MinerActiveModeService → Type 0
IsSynced s = (a : Address) → cache_get a s.redis ≡ marker_of (cache_get a s.last_mark)

pub data Marked : MinerActiveModeService → Type 0 where
  unmarked : Marked (record { redis = []; last_mark = [] })
  also_marked :
      {s : MinerActiveModeService} (now : ℕ) (a : Address) (m : MiningMode)
      → Marked s
      → Marked (mark now a m s)

same_mode-eq : (l m : MiningMode) → same_mode l m ≡ true → l ≡ m
same_mode-eq l m h = ground arith

written-IsSynced :
    (now : ℕ) (a : Address) (m : MiningMode) (s : MinerActiveModeService)
    → IsSynced s
    → IsSynced (write_mark now a m s)
unfolding cache_get
written-IsSynced now a m s h b = elim (Bool-cases (str_eq a b)) [
  | inl e ↦ simp e refl
  | inr e ↦ simp e (h b)
]

mark-IsSynced :
    (now : ℕ) (a : Address) (m : MiningMode) (s : MinerActiveModeService)
    → IsSynced s
    → IsSynced (mark now a m s)
unfolding mark
mark-IsSynced now a m s h = elim (Bool-cases (is_empty a)) [
  | inl e ↦ rw e h
  | inr e ↦ elim (Bool-cases (is_recent now m (cache_get a s.last_mark))) [
    | inl k ↦ rw (e, k) h
    | inr k ↦ rw (e, k) (written-IsSynced now a m s h)
  ]
]

Marked-IsSynced : {s : MinerActiveModeService} → Marked s → IsSynced s
unfolding cache_get
Marked-IsSynced unmarked a = refl
Marked-IsSynced (also_marked {s} now b m r) a = mark-IsSynced now b m s (Marked-IsSynced r) a

both_true : (x y : Bool) → (x && y) ≡ true → (x ≡ true) × (y ≡ true)
both_true true true h = (refl, refl)
both_true true false h = cc
both_true false y h = cc

recent_lives :
    (now later : ℕ) (m : MiningMode) (o : Option LastMark)
    → is_recent now m o ≡ true
    → later < now + 240000
    → live later (marker_of o) ≡ some m
recent_lives now later m none h soon = cc
recent_lives now later m (some l) h soon =
    let (same, recent) = both_true (same_mode l.mode m) (ltb (now - l.refreshed_at) 60000) h in
    let waited : now - l.refreshed_at < 60000 = ltb→lt (now - l.refreshed_at) 60000 recent in
    let young : later < l.refreshed_at + 300000 = omega (arith, waited, soon) in
    simp (lt→ltb later (l.refreshed_at + 300000) young) (ap some (same_mode-eq l.mode m same))

-- After any marks, a share marks its address with its mode for four minutes, whether or not the
-- mark is written anew.
pub mark_lasts :
    (s : MinerActiveModeService) (now later : ℕ) (a : Address) (m : MiningMode)
    → Marked s
    → is_empty a ≡ false
    → later < now + 240000
    → get_marker later a (mark now a m s) ≡ some m
unfolding mark get_marker cache_get
mark_lasts s now later a m r given_address soon =
    elim (Bool-cases (is_recent now m (cache_get a s.last_mark))) [
      | inl k ↦
          simp (given_address, k)
            (ap (live later) (Marked-IsSynced r a)
              ∙ recent_lives now later m (cache_get a s.last_mark) k soon)
      | inr k ↦
          simp (given_address, k, eq_refl a, lt→ltb later (now + 300000) (omega (arith, soon))) refl
    ]
