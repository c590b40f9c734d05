-- ===== src/Sv2/Extranonce/Exhausted.antt =====
-- The search of `allocate` for a free prefix, in src/models/sv2/sv2-extranonce-manager.ts.
use native.Mathlib.Nat.{zero-add, suc-add}
use blitzpool.Prelude.{
  ℕ, zero, suc, ◌+◌, ◌-◌, ◌≤◌, ◌<◌, ◌≡◌, ap, true, false, List, Option, none, some, ltb,
  if◌then◌else◌, arith, Bool-cases, inl, inr, ◌∙◌, ge→ltb, ltb→lt, ltb→ge,
}
use blitzpool.Sv2.Extranonce.{
  Sv2ExtranonceManager, mem, prefix_of, find_free, next_local, allocate, allocate_as, allocate_free,
}

-- The prefix after `k` steps of the loop.
after_steps : ℕ → ℕ → ℕ → ℕ
after_steps max_prefix zero p = p
after_steps max_prefix (suc k) p = after_steps max_prefix k (next_local max_prefix p)

-- If the loop ends on a used prefix, so is each one that it went over.
find_free-used :
    (attempts max_prefix : ℕ) (used : List ℕ) (p k : ℕ)
    → mem (find_free attempts max_prefix used p) used ≡ true
    → k ≤ attempts
    → mem (after_steps max_prefix k p) used ≡ true
unfolding find_free after_steps
find_free-used zero max_prefix used p zero h k_le = h
find_free-used zero max_prefix used p (suc k) h k_le = elim k_le [ ]
find_free-used (suc attempts) max_prefix used p zero h k_le = ground arith
find_free-used (suc attempts) max_prefix used p (suc k) h k_le = elim (Bool-cases (mem p used)) [
  | inl taken ↦
      find_free-used attempts max_prefix used (next_local max_prefix p) k (rw taken at h)
        (omega (arith, k_le))
  | inr free ↦ absurd (contradiction free h)
]
  where
    contradiction :
        mem p used ≡ false
        → mem
            (if mem p used then find_free attempts max_prefix used (next_local max_prefix p) else p)
            used
          ≡ true
        → ⊥
    contradiction e f = ground arith

-- In as many steps as the partition has prefixes the loop comes by each.
reach_up : (max_prefix k p : ℕ) → p + k ≤ max_prefix → after_steps max_prefix k p ≡ p + k
unfolding after_steps next_local
reach_up max_prefix zero p h = omega arith
reach_up max_prefix (suc k) p h =
    rw (ge→ltb max_prefix (p + 1) (omega arith))
      (reach_up max_prefix k (p + 1) (omega arith) ∙ omega arith)

wrap : (max_prefix : ℕ) → next_local max_prefix max_prefix ≡ 1
unfolding next_local
wrap max_prefix = ground arith

after_wrap :
    (max_prefix j : ℕ) → after_steps max_prefix (suc j) max_prefix ≡ after_steps max_prefix j 1
unfolding after_steps
after_wrap max_prefix j = ap (after_steps max_prefix j) (wrap max_prefix)

after_steps-add :
    (max_prefix j k p : ℕ)
    → after_steps max_prefix (j + k) p ≡ after_steps max_prefix k (after_steps max_prefix j p)
unfolding after_steps
after_steps-add max_prefix zero k p = rw zero-add
after_steps-add max_prefix (suc j) k p =
    rw (suc-add j k) (after_steps-add max_prefix j k (next_local max_prefix p))

-- Below the start the loop comes after it has wrapped round.
reach_down :
    (max_prefix p q : ℕ)
    → p ≤ max_prefix
    → 1 ≤ q
    → q < p
    → after_steps max_prefix (max_prefix - p + suc (q - 1)) p ≡ q
reach_down max_prefix p q hp hq lt =
    rw
      (
        after_steps-add max_prefix (max_prefix - p) (suc (q - 1)) p,
        reach_up max_prefix (max_prefix - p) p (omega arith),
        top,
        after_wrap max_prefix (q - 1),
      )
      (reach_up max_prefix (q - 1) 1 (omega arith) ∙ omega arith)
  where
    top : p + (max_prefix - p) ≡ max_prefix
    top = omega arith

failed :
    (channel : ℕ) (m : Sv2ExtranonceManager) (o : Option ℕ)
    → allocate_as channel m o ≡ none
    → mem (find_free (m.max_prefix + 1) m.max_prefix m.used_prefixes m.next_prefix) m.used_prefixes
      ≡ true
unfolding allocate_free
failed channel m none e = ground arith
failed channel m (some p) e = cc

all_used :
    (max_prefix : ℕ) (used : List ℕ) (p q : ℕ)
    → p ≤ max_prefix
    → 1 ≤ q
    → q ≤ max_prefix
    → mem (find_free (max_prefix + 1) max_prefix used p) used ≡ true
    → mem q used ≡ true
all_used max_prefix used p q hp hq lq h = elim (Bool-cases (ltb q p)) [
  | inl e ↦ rw (reach_down max_prefix p q hp hq (ltb→lt q p e)) at (
      find_free-used (max_prefix + 1) max_prefix used p (max_prefix - p + suc (q - 1)) h
        (omega (arith, ltb→lt q p e)))
  | inr e ↦
      rw (up (ltb→ge q p e)) at
        (find_free-used (max_prefix + 1) max_prefix used p (q - p) h (omega arith))
]
  where
    up : p ≤ q → after_steps max_prefix (q - p) p ≡ q
    up le = reach_up max_prefix (q - p) p (omega arith) ∙ omega arith

-- An allocation for a new channel fails only if every prefix from 1 to the last of the partition
-- is in use.
pub allocate-exhausted :
    (channel : ℕ) (m : Sv2ExtranonceManager) (q : ℕ)
    → m.next_prefix ≤ m.max_prefix
    → allocate channel m ≡ none
    → 1 ≤ q
    → q ≤ m.max_prefix
    → mem q m.used_prefixes ≡ true
unfolding allocate
allocate-exhausted channel m q start e hq lq =
    all_used m.max_prefix m.used_prefixes m.next_prefix q start hq lq
      (failed channel m (prefix_of channel m.allocated_prefixes) e)
