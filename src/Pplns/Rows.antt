-- ===== src/Pplns/Rows.antt =====
-- When the rows of a block can be written: the unique index of the history of
-- src/services/pplns.service.ts, and the addresses that applyDistribution writes rows for.
use mathlib.Core.List.{append-nil, append_assoc}
use blitzpool.Prelude.{
  ℕ, ◌≡◌, refl, sym, ap, ◌∙◌, false, ◌||◌, ◌&&◌, not, List, [], ◌∷◌, ◌++◌, some, str_eq, arith,
}
use blitzpool.Coinbase.Weight.{Address}
use blitzpool.Coinbase.Input.{CoinbaseDistributionEntry}
use blitzpool.Pplns.Block.{is_processed}
use blitzpool.Pplns.Books.{
  PayoutRow, Snapshot, coinbase_rows, pending_rows, history_rows, has_row, insert_rows, is_among,
  unemitted, late_arrivals, addresses, keys,
}
use blitzpool.Pplns.Fresh.{
  AllFresh, unemitted-AllFresh, Alike, AllFresh-Alike, seen_after, AllFresh-append,
  seen_after-Alike, among_append, among-append, among-unemitted, among-late_arrivals,
}

-- The addresses of the rows of a block.
abbrev pub row_addresses : List PayoutRow → List Address
row_addresses [] = []
row_addresses (r ∷ rs) = r.address ∷ row_addresses rs

abbrev pub AtHeight : ℕ → List PayoutRow → Type 0
AtHeight height [] = Unit
AtHeight height (r ∷ rs) = (r.block_height ≡ height) × AtHeight height rs

pub has_row-last :
    (height : ℕ) (a : Address) (history : List PayoutRow) (r : PayoutRow)
    → r.block_height ≡ height
    → has_row height a (history ++ r ∷ []) ≡ str_eq r.address a || has_row height a history
unfolding has_row
has_row-last height a [] r h = ground (arith, h)
has_row-last height a (q ∷ qs) r h = ground (arith, has_row-last height a qs r h)

-- Rows of one height are written where their addresses are fresh at that height.
insert_rows-fresh :
    (height : ℕ) (rows history : List PayoutRow) (seen : List Address)
    → AtHeight height rows
    → ((a : Address) → has_row height a history ≡ is_among a seen)
    → AllFresh seen (row_addresses rows)
    → insert_rows rows history ≡ some (history ++ rows)
unfolding insert_rows is_among
insert_rows-fresh height [] history seen at same h = ap some (sym (append-nil history))
insert_rows-fresh height (r ∷ rows) history seen at same h =
    let new : has_row r.block_height r.address history ≡ false =
      ap (λ n. has_row n r.address history) at.0 ∙ same r.address ∙ h.0 in
    let later =
      insert_rows-fresh height rows (history ++ r ∷ []) (r.address ∷ seen) at.1
        (λ a. has_row-last height a history r at.0 ∙ ap (λ t. str_eq r.address a || t) (same a))
        h.1 in
    rw new (later ∙ ap some (append_assoc history (r ∷ []) rows))

unprocessed :
    (height : ℕ) (a : Address) (history : List PayoutRow)
    → is_processed height history ≡ false
    → has_row height a history ≡ is_among a []
unfolding has_row is_processed is_among
unprocessed height a [] h = refl
unprocessed height a (r ∷ rs) h = ground (arith, h, unprocessed height a rs)

coinbase-AtHeight :
    (height : ℕ) (es : List CoinbaseDistributionEntry) (rest : List PayoutRow)
    → AtHeight height rest
    → AtHeight height (coinbase_rows height es ++ rest)
coinbase-AtHeight height [] rest h = h
coinbase-AtHeight height (e ∷ es) rest h = (refl, coinbase-AtHeight height es rest h)

pending-AtHeight :
    (height : ℕ) (all : List Address) (rest : List PayoutRow)
    → AtHeight height rest
    → AtHeight height (pending_rows height all ++ rest)
pending-AtHeight height [] rest h = h
pending-AtHeight height (a ∷ all) rest h = (refl, pending-AtHeight height all rest h)

pending-AtHeight_all : (height : ℕ) (all : List Address) → AtHeight height (pending_rows height all)
pending-AtHeight_all height [] = tt
pending-AtHeight_all height (a ∷ all) = (refl, pending-AtHeight_all height all)

coinbase-addresses :
    (height : ℕ) (es : List CoinbaseDistributionEntry) (rest : List PayoutRow)
    → row_addresses (coinbase_rows height es ++ rest) ≡ addresses es ++ row_addresses rest
coinbase-addresses height [] rest = refl
coinbase-addresses height (e ∷ es) rest = ap (◌∷◌ e.address) (coinbase-addresses height es rest)

pending-addresses :
    (height : ℕ) (all : List Address) (rest : List PayoutRow)
    → row_addresses (pending_rows height all ++ rest) ≡ all ++ row_addresses rest
pending-addresses height [] rest = refl
pending-addresses height (a ∷ all) rest = ap (◌∷◌ a) (pending-addresses height all rest)

pending-addresses_all :
    (height : ℕ) (all : List Address) → row_addresses (pending_rows height all) ≡ all
pending-addresses_all height [] = refl
pending-addresses_all height (a ∷ all) = ap (◌∷◌ a) (pending-addresses_all height all)

module _ (height : ℕ) (s : Snapshot) (window : List (Address × ℕ)) where
  abbrev changed_rows : List Address
  changed_rows = unemitted (addresses s.distribution) (keys s.balance_after)

  abbrev late_rows : List Address
  late_rows =
      unemitted (changed_rows ++ addresses s.distribution)
        (late_arrivals s.considered_addresses window)

  history_rows-addresses :
      row_addresses (history_rows height s window)
      ≡ addresses s.distribution ++ (changed_rows ++ late_rows)
  unfolding history_rows
  history_rows-addresses =
      coinbase-addresses height s.distribution
        (pending_rows height changed_rows ++ pending_rows height late_rows)
      ∙ ap (λ l. addresses s.distribution ++ l)
          (pending-addresses height changed_rows (pending_rows height late_rows)
            ∙ ap (λ l. changed_rows ++ l) (pending-addresses_all height late_rows))

  -- No two rows of a block have one address, if no two outputs have.
  pub history_rows-AllFresh :
      AllFresh [] (addresses s.distribution)
      → AllFresh [] (row_addresses (history_rows height s window))
  unfolding Alike
  history_rows-AllFresh apart =
      let emitted = addresses s.distribution in
      let seen_emitted : Alike emitted (seen_after [] emitted) =
        λ a. ap (is_among a) (sym (append-nil emitted)) ∙ seen_after-Alike [] emitted a in
      let changed_fresh : AllFresh (seen_after [] emitted) changed_rows =
        AllFresh-Alike emitted (seen_after [] emitted) changed_rows seen_emitted
          (unemitted-AllFresh emitted (keys s.balance_after)) in
      let late_fresh : AllFresh (seen_after (seen_after [] emitted) changed_rows) late_rows =
        AllFresh-Alike (changed_rows ++ emitted) (seen_after (seen_after [] emitted) changed_rows)
          late_rows
          (λ a.
            among_append a changed_rows emitted (seen_after [] emitted) seen_emitted a
            ∙ seen_after-Alike (seen_after [] emitted) changed_rows a)
          (unemitted-AllFresh (changed_rows ++ emitted)
            (late_arrivals s.considered_addresses window)) in
      rw history_rows-addresses (
        AllFresh-append [] emitted (changed_rows ++ late_rows) apart
          (AllFresh-append (seen_after [] emitted) changed_rows late_rows changed_fresh late_fresh))

  -- Who has a row of a block.
  pub history_rows-among :
      (a : Address)
      → is_among a (row_addresses (history_rows height s window))
        ≡ is_among a (addresses s.distribution)
          || is_among a (keys s.balance_after)
          || (is_among a (keys window) && not (is_among a s.considered_addresses))
  history_rows-among a =
      let emitted = is_among a (addresses s.distribution) in
      let late = is_among a (keys window) && not (is_among a s.considered_addresses) in
      let changed_in : is_among a changed_rows ≡ is_among a (keys s.balance_after) && not emitted =
        among-unemitted a (addresses s.distribution) (keys s.balance_after) in
      ap (is_among a) history_rows-addresses
      ∙ among-append a (addresses s.distribution) (changed_rows ++ late_rows)
      ∙ ap (λ t. emitted || t) (among-append a changed_rows late_rows)
      ∙ ground (
        arith,
        changed_in,
        among-unemitted a (changed_rows ++ addresses s.distribution)
            (late_arrivals s.considered_addresses window),
        among-append a changed_rows (addresses s.distribution),
        among-late_arrivals a s.considered_addresses window,
      )

  pub history_rows-AtHeight : AtHeight height (history_rows height s window)
  unfolding history_rows
  history_rows-AtHeight =
      coinbase-AtHeight height s.distribution
        (pending_rows height changed_rows ++ pending_rows height late_rows)
        (pending-AtHeight height changed_rows (pending_rows height late_rows)
          (pending-AtHeight_all height late_rows))

  -- The rows of a block that has none yet are written, if no two outputs have one address.
  pub history_rows-written :
      (history : List PayoutRow)
      → is_processed height history ≡ false
      → AllFresh [] (addresses s.distribution)
      → insert_rows (history_rows height s window) history
        ≡ some (history ++ history_rows height s window)
  history_rows-written history new apart =
      insert_rows-fresh height (history_rows height s window) history [] history_rows-AtHeight
        (λ a. unprocessed height a history new) (history_rows-AllFresh apart)
