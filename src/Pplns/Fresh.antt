-- ===== src/Pplns/Fresh.antt =====
-- The addresses of the history rows of a block in src/services/pplns.service.ts: which ones are new.
use text.Mathlib.TextEquality.{eq_iff}
use blitzpool.Prelude.{
  ℕ, ◌≡◌, refl, sym, ap, ◌∙◌, Bool, true, false, ◌||◌, ◌&&◌, not, List, [], ◌∷◌, ◌++◌, str_eq,
  arith, Bool-cases, inl, inr,
}
use blitzpool.Coinbase.Weight.{Address}
use blitzpool.Pplns.Books.{is_among, unemitted, late_arrivals, keys}

-- Each address is none of those that were seen before it.
abbrev pub AllFresh : List Address → List Address → Type 0
AllFresh seen [] = Unit
AllFresh seen (a ∷ rest) = (is_among a seen ≡ false) × AllFresh (a ∷ seen) rest

-- An address twice.
unfoldable pub repeats : List Address → Bool
repeats [] = false
repeats (a ∷ rest) = is_among a rest || repeats rest

pub unemitted-AllFresh : (seen all : List Address) → AllFresh seen (unemitted seen all)
unfolding unemitted
unemitted-AllFresh seen [] = tt
unemitted-AllFresh seen (a ∷ rest) = elim (Bool-cases (is_among a seen)) [
  | inl e ↦ rw e (unemitted-AllFresh seen rest)
  | inr e ↦ rw e (e, unemitted-AllFresh (a ∷ seen) rest)
]

-- Only what was seen counts, not in which order.
unfoldable pub Alike : List Address → List Address → Type 0
Alike seen others = (a : Address) → is_among a seen ≡ is_among a others

pub AllFresh-Alike :
    (seen others all : List Address) → Alike seen others → AllFresh seen all → AllFresh others all
unfolding Alike is_among
AllFresh-Alike seen others [] alike h = tt
AllFresh-Alike seen others (a ∷ rest) alike h = (
  sym (alike a) ∙ h.0,
  AllFresh-Alike (a ∷ seen) (a ∷ others) rest (λ b. ap (λ t. str_eq a b || t) (alike b)) h.1,
)

-- The seen addresses after a list of them.
abbrev pub seen_after : List Address → List Address → List Address
seen_after seen [] = seen
seen_after seen (a ∷ rest) = seen_after (a ∷ seen) rest

pub AllFresh-append :
    (seen all more : List Address)
    → AllFresh seen all
    → AllFresh (seen_after seen all) more
    → AllFresh seen (all ++ more)
AllFresh-append seen [] more h k = k
AllFresh-append seen (a ∷ rest) more h k = (h.0, AllFresh-append (a ∷ seen) rest more h.1 k)

pub swap_or : (x y z : Bool) → x || (y || z) ≡ y || (x || z)
swap_or x y z = ground arith

pub among_moved :
    (a : Address) (b : Address) (all seen : List Address)
    → is_among a (all ++ b ∷ seen) ≡ is_among a (b ∷ all ++ seen)
unfolding is_among
among_moved a b [] seen = refl
among_moved a b (c ∷ all) seen =
    ap (λ t. str_eq c a || t) (among_moved a b all seen)
    ∙ swap_or (str_eq c a) (str_eq b a) (is_among a (all ++ seen))

pub seen_after-Alike :
    (seen all : List Address) (a : Address)
    → is_among a (all ++ seen) ≡ is_among a (seen_after seen all)
unfolding is_among
seen_after-Alike seen [] a = refl
seen_after-Alike seen (b ∷ all) a =
    sym (among_moved a b all seen) ∙ seen_after-Alike (b ∷ seen) all a

-- Two lists that hold the same, behind one list.
pub among_append :
    (a : Address) (all seen others : List Address)
    → ((b : Address) → is_among b seen ≡ is_among b others)
    → (b : Address) → is_among b (all ++ seen) ≡ is_among b (all ++ others)
unfolding is_among
among_append a [] seen others same b = same b
among_append a (c ∷ all) seen others same b =
    ap (λ t. str_eq c b || t) (among_append a all seen others same b)

pub among-append :
    (a : Address) (all more : List Address)
    → is_among a (all ++ more) ≡ is_among a all || is_among a more
unfolding is_among
among-append a [] more = refl
among-append a (b ∷ all) more = ground (arith, among-append a all more)

among_equal :
    (a b : Address) (seen : List Address) → str_eq b a ≡ true → is_among b seen ≡ is_among a seen
among_equal a b seen h = ap (λ c. is_among c seen) ((eq_iff b a).0 h)

-- An address is among the addresses that are left where it was there and was not seen.
pub among-unemitted :
    (a : Address) (seen all : List Address)
    → is_among a (unemitted seen all) ≡ is_among a all && not (is_among a seen)
unfolding unemitted is_among
among-unemitted a seen [] = refl
among-unemitted a seen (b ∷ all) = elim (Bool-cases (str_eq b a)) [
  | inl same ↦
      let equal = among_equal a b seen same in
      elim (Bool-cases (is_among b seen)) [
        | inl e ↦ rw e (ground (arith, same, equal, e, among-unemitted a seen all))
        | inr e ↦ rw e (ground (arith, same, equal, e))
      ]
  | inr other ↦ elim (Bool-cases (is_among b seen)) [
    | inl e ↦ rw e (ground (arith, other, among-unemitted a seen all))
    | inr e ↦ rw e (ground (arith, other, among-unemitted a (b ∷ seen) all))
  ]
]

pub among-late_arrivals :
    (a : Address) (considered : List Address) (window : List (Address × ℕ))
    → is_among a (late_arrivals considered window)
      ≡ is_among a (keys window) && not (is_among a considered)
unfolding late_arrivals is_among
among-late_arrivals a considered [] = refl
among-late_arrivals a considered ((b, d) ∷ window) =
    let later = among-late_arrivals a considered window in
    elim (Bool-cases (str_eq b a)) [
      | inl same ↦
          let equal = among_equal a b considered same in
          elim (Bool-cases (is_among b considered)) [
            | inl e ↦ rw e (ground (arith, same, equal, e, later))
            | inr e ↦ rw e (ground (arith, same, equal, e))
          ]
      | inr other ↦ elim (Bool-cases (is_among b considered)) [
        | inl e ↦ rw e (ground (arith, other, later))
        | inr e ↦ rw e (ground (arith, other, later))
      ]
    ]
