-- ===== src/Prelude/Pick.antt =====
-- The best element of a list with what stands before and behind it: what a stable sort followed by
-- a look at one of its ends finds.
use blitzpool.Prelude.{
  ◌≡◌, ap, Bool, true, false, ◌&&◌, List, [], ◌∷◌, ◌++◌, Option, none, some, arith, if◌then◌else◌,
  All,
}

module _ {A : Type 0} (fits : A → Bool) (beats : A → A → Bool) where
  pub choose : A → List A → Option (List A × A × List A) → Option (List A × A × List A)
  choose c cs none = if fits c then some ([], c, cs) else none
  choose c cs (some (before, m, behind)) =
      if fits c && beats c m then some ([], c, cs) else some (c ∷ before, m, behind)

  -- Of the elements that fit, the one that no later one is kept against: `beats c m` says that `c`
  -- is taken although the later `m` is at hand.
  unfoldable pub split_best : List A → Option (List A × A × List A)
  unfolding choose
  split_best [] = none
  split_best (c ∷ cs) = choose c cs (split_best cs)

  abbrev pub Splits : List A → Option (List A × A × List A) → Type 0
  Splits xs none = All (λ a. fits a ≡ false) xs
  Splits xs (some (before, m, behind)) = (xs ≡ before ++ m ∷ behind) × (fits m ≡ true)

  choose-Splits :
      (c : A) (cs : List A) (r : Option (List A × A × List A))
      → Splits cs r
      → Splits (c ∷ cs) (choose c cs r)
  unfolding choose
  choose-Splits c cs none h = ground arith
  choose-Splits c cs (some (before, m, behind)) h = ground (arith, ap (◌∷◌ c) h.0)

  -- It is an element that fits, in its place; there is none only if none fits.
  pub split_best-Splits : (xs : List A) → Splits xs (split_best xs)
  unfolding split_best
  split_best-Splits [] = tt
  split_best-Splits (c ∷ cs) = choose-Splits c cs (split_best cs) (split_best-Splits cs)
