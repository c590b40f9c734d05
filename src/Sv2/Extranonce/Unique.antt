-- ===== src/Sv2/Extranonce/Unique.antt =====
-- The prefixes in use, in src/models/sv2/sv2-extranonce-manager.ts, under sequences of calls.
use blitzpool.Prelude.{
  ℕ, ◌+◌, ◌≡◌, refl, sym, ◌∙◌, true, false, not, ◌&&◌, List, [], ◌∷◌, map, Option, none, some, ◌==◌,
  arith, Bool-cases, inl, inr,
}
use blitzpool.Sv2.Codec.{Bytes}
use blitzpool.Sv2.Extranonce.{
  Sv2ExtranonceManager, new_manager, mem, remove, prefix_of, forget, find_free, next_local,
  allocate, release, allocate_free, allocate_as, release_as,
}

abbrev pub prefixes : List (ℕ × ℕ) → List ℕ
prefixes = map (λ e. e.1)

abbrev pub Distinct : List ℕ → Type 0
Distinct [] = Unit {0}
Distinct (p ∷ ps) = (mem p ps ≡ false) × Distinct ps

-- The prefixes of the channels are distinct, and they are the ones in use.
pub record IsConsistent (m : Sv2ExtranonceManager) : Type 0 where
  pub distinct : Distinct (prefixes m.allocated_prefixes)
  pub in_use : (p : ℕ) → mem p m.used_prefixes ≡ mem p (prefixes m.allocated_prefixes)

mem-remove : (q p : ℕ) (used : List ℕ) → mem q (remove p used) ≡ (mem q used && not (p == q))
unfolding mem remove
mem-remove q p [] = refl
mem-remove q p (b ∷ bs) = ground (arith, mem-remove q p bs)

prefix_of-mem : (c p : ℕ) (m : List (ℕ × ℕ)) → prefix_of c m ≡ some p → mem p (prefixes m) ≡ true
unfolding mem prefix_of
prefix_of-mem c p [] e = cc
prefix_of-mem c p ((d, r) ∷ m) e = ground (arith, prefix_of-mem c p m)

mem-forget :
    (q c p : ℕ) (m : List (ℕ × ℕ))
    → Distinct (prefixes m)
    → prefix_of c m ≡ some p
    → mem q (prefixes (forget c m)) ≡ (mem q (prefixes m) && not (p == q))
unfolding mem forget prefix_of
mem-forget q c p [] h e = cc
mem-forget q c p ((d, r) ∷ m) h e = ground (arith, prefix_of-mem c p m, mem-forget q c p m)

mem-forget-false :
    (q c : ℕ) (m : List (ℕ × ℕ))
    → mem q (prefixes m) ≡ false
    → mem q (prefixes (forget c m)) ≡ false
unfolding mem forget
mem-forget-false q c [] h = refl
mem-forget-false q c ((d, r) ∷ m) h = ground (arith, mem-forget-false q c m)

Distinct-forget :
    (c : ℕ) (m : List (ℕ × ℕ)) → Distinct (prefixes m) → Distinct (prefixes (forget c m))
unfolding forget
Distinct-forget c [] h = tt
Distinct-forget c ((d, r) ∷ m) h = ground (arith, Distinct-forget c m, mem-forget-false r c m)

allocate_new :
    (channel p : ℕ) (m : Sv2ExtranonceManager)
    → IsConsistent m
    → mem p m.used_prefixes ≡ false
    → IsConsistent (record m {
      next_prefix = next_local m.max_prefix p;
      allocated_prefixes = (channel, p) ∷ m.allocated_prefixes;
      used_prefixes = p ∷ m.used_prefixes;
    })
unfolding mem
allocate_new channel p m h free = record {
  distinct = (sym (h.in_use p) ∙ free, h.distinct);
  in_use = λ q. ground (arith, h.in_use q);
}

-- Of a result of `allocate`: it keeps the invariant, and the channel has the prefix that it shows.
abbrev pub AfterAllocate : Option (Bytes × Sv2ExtranonceManager) → Type 0
AfterAllocate none = Unit {0}
AfterAllocate (some (bytes, m)) = IsConsistent m

allocate_as-IsConsistent :
    (channel : ℕ) (m : Sv2ExtranonceManager) (o : Option ℕ)
    → IsConsistent m
    → AfterAllocate (allocate_as channel m o)
unfolding allocate_free
allocate_as-IsConsistent channel m (some p) h = h
allocate_as-IsConsistent channel m none h =
    let p = find_free (m.max_prefix + 1) m.max_prefix m.used_prefixes m.next_prefix in
    elim (Bool-cases (mem p m.used_prefixes)) [
      | inl used ↦ rw used tt
      | inr free ↦ rw free (allocate_new channel p m h free)
    ]

-- An allocation keeps the prefixes of the channels distinct.
pub allocate-IsConsistent :
    (channel : ℕ) (m : Sv2ExtranonceManager) → IsConsistent m → AfterAllocate (allocate channel m)
unfolding allocate
allocate-IsConsistent channel m = allocate_as-IsConsistent channel m _

release_as-IsConsistent :
    (channel : ℕ) (m : Sv2ExtranonceManager) (o : Option ℕ)
    → prefix_of channel m.allocated_prefixes ≡ o
    → IsConsistent m
    → IsConsistent (release_as channel m o)
release_as-IsConsistent channel m none e h = h
release_as-IsConsistent channel m (some p) e h = record {
  distinct = Distinct-forget channel m.allocated_prefixes h.distinct;
  in_use = λ q.
      mem-remove q p m.used_prefixes
      ∙ rw (h.in_use q) (sym (mem-forget q channel p m.allocated_prefixes h.distinct e));
}

-- So does a release, which frees the prefix of its channel and no other.
pub release-IsConsistent :
    (channel : ℕ) (m : Sv2ExtranonceManager) → IsConsistent m → IsConsistent (release channel m)
unfolding release
release-IsConsistent channel m = release_as-IsConsistent channel m _ refl

new_manager-IsConsistent : (prefix_size total : ℕ) → IsConsistent (new_manager prefix_size total)
unfolding new_manager mem
new_manager-IsConsistent prefix_size total = record { distinct = tt; in_use = λ p. refl }

pub data Call : Type 0 where
  allocates releases : ℕ → Call

-- A call that throws changes nothing.
abbrev pub or_unchanged :
    Sv2ExtranonceManager → Option (Bytes × Sv2ExtranonceManager) → Sv2ExtranonceManager
or_unchanged m none = m
or_unchanged m (some (bytes, m')) = m'

unfoldable pub run_calls : Sv2ExtranonceManager → List Call → Sv2ExtranonceManager
run_calls m [] = m
run_calls m (allocates c ∷ cs) = run_calls (or_unchanged m (allocate c m)) cs
run_calls m (releases c ∷ cs) = run_calls (release c m) cs

unchanged-IsConsistent :
    (m : Sv2ExtranonceManager) (o : Option (Bytes × Sv2ExtranonceManager))
    → IsConsistent m
    → AfterAllocate o
    → IsConsistent (or_unchanged m o)
unchanged-IsConsistent m none h k = h
unchanged-IsConsistent m (some (bytes, m')) h k = k

run_calls-IsConsistent :
    (m : Sv2ExtranonceManager) (cs : List Call) → IsConsistent m → IsConsistent (run_calls m cs)
unfolding run_calls
run_calls-IsConsistent m [] h = h
run_calls-IsConsistent m (allocates c ∷ cs) h =
    run_calls-IsConsistent (or_unchanged m (allocate c m)) cs
      (unchanged-IsConsistent m _ h (allocate-IsConsistent c m h))
run_calls-IsConsistent m (releases c ∷ cs) h =
    run_calls-IsConsistent (release c m) cs (release-IsConsistent c m h)

same_channel :
    (c d p : ℕ) (m : List (ℕ × ℕ))
    → Distinct (prefixes m)
    → prefix_of c m ≡ some p
    → prefix_of d m ≡ some p
    → c ≡ d
unfolding prefix_of
same_channel c d p [] h e f = cc
same_channel c d p ((b, r) ∷ m) h e f =
    ground (arith, same_channel c d p m h.1, prefix_of-mem c p m, prefix_of-mem d p m)

-- After any calls on a new manager, two channels that have the same prefix are one channel.
pub run_calls_unique :
    (prefix_size total : ℕ) (cs : List Call) (c d p : ℕ)
    → prefix_of c (run_calls (new_manager prefix_size total) cs).allocated_prefixes ≡ some p
    → prefix_of d (run_calls (new_manager prefix_size total) cs).allocated_prefixes ≡ some p
    → c ≡ d
run_calls_unique prefix_size total cs c d p =
    same_channel c d p _
      (run_calls-IsConsistent _ cs (new_manager-IsConsistent prefix_size total)).distinct
