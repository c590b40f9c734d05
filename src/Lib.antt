-- ===== src/Lib.antt =====
-- blitzpool is a Bitcoin mining pool. This library models how it divides a block and books it, how
-- the members of a blockparty agree on their parts, and how it talks Stratum V2, and proves what
-- makes those parts correct.
--
-- Parts, and the files of the repository that they model:
--
-- * Coinbase (src/services/coinbase-distribution.ts): buildCoinbaseDistribution makes the outputs
--   of a block and the new ledger from the shares of a round and the old ledger. Weight holds the
--   constants and outputWeightForAddress with its cache; Miner is MinerComputation with the two
--   writes made to one, grant and cut; Input is the input, the result, what is set aside for the
--   fee and the finder, and phases 1 and 2; Share is how phases 5a and 5b give an amount to the
--   active miners; Cap is the solvency cap, phase 5a.5; Build composes them, from the eligible
--   miners (phase 3) and the weight budget (phase 4) to the entries (phase 6), in the order of the
--   code and with its fallbacks. The modules below Build are proofs: Trim of the budget, Settle of
--   phases 5a to 5b, Emission of the sum of the outputs, Ledger and
--   Neutral of the claims of the miners, and Claims of whose claims they are: it reads them from
--   the shares and the balances of the input.
-- * Coinbase.Blockparty (src/services/blockparty-distribution.ts): the split by fixed percentages,
--   which makes the same entries.
-- * Blockparty (src/services/blockparty.service.ts, with the entities in src/ORM/blockparty): the
--   parties, which agree on the percentages that Coinbase.Blockparty splits by. Store is the tables
--   and the caches, Checks what is refused, Service the settings, rebuildCache and recomputeStatus;
--   Membership is createGroup, addMember, removeMember and updateSplits; Consent is
--   resetMemberOnboarding, markMemberConfirmed and confirmAsMember; Life is
--   updateRentalProviderHint, transitionToConfirming, dissolveGroup and onShareAccepted; Routes is
--   what Stratum asks, Blocks is getPayoutDistribution and onBlockFound. Calls runs any of them.
--   Consents is an account of who has consented to which percentage, kept from the calls and their
--   answers alone. Writes is the specification, Refinement takes the calls to it, and Lifecycle, Unique, Frozen
--   and Routed are about the writes alone. Selects, Tables,
--   Granted, Ready, Agreed, MembersAgreed, Agreement, Backed, Consented, Joined, Edits, Consenting, Refines, MembersRefine, Routing, Cached,
--   Progress and Paid are proofs too.
-- * Address and Text (src/utils/btc-address.utils.ts): normalizeBtcAddress, and the functions of a
--   text that these services use.
-- * DustSweep (src/services/dust-sweep.service.ts): sweepPplnsPairs cancels abandoned credits and
--   debits of the ledger that the coinbase distribution reads. Rows, Pair, Rounds and Ledger are
--   proofs.
-- * MiningMode (src/services/miner-active-mode.service.ts, src/services/mining-mode.service.ts): the
--   mode that an address mines in, from the mark of its last share, and from Blockparty, the groups
--   and the window of Pplns. Marks and Modes are proofs.
-- * Pplns (src/services/pplns.service.ts): the share window, whose sums by address are the shares
--   that the coinbase distribution gets: recordShare, trimWindow, recalculateWindow and sumBuckets.
--   What Redis keeps is a record. Sums, Exact and Shares are proofs. Pplns.Block is onBlockFound,
--   which books a block in the ledger and the history (src/ORM/pplns-balance), from the snapshot
--   that buildDistribution left or from the window; Books is the ledger and the history. Booked,
--   Fresh, Rows, Repeated, Replay, Balances and Booking are proofs.
-- * ResultCache (src/utils/inflight-result-cache.ts): InflightResultCache, which keeps the
--   distributions that Pplns.Block builds and lets callers share a running build. Builds has the
--   cache and its builds as a step relation; Single and Fresh are proofs.
-- * Sv2.Codec (src/models/sv2/sv2-binary-codec.ts): BufferReader and BufferWriter; Capacity is the
--   growth of the buffer, Roundtrip has one law for each of the field types.
-- * Sv2.Messages (src/models/sv2/sv2-messages.ts, sv2-extended-messages.ts, sv2-jdp-messages.ts,
--   sv2-tdp-messages.ts): each message as a record, its serializer and its parser, on the codec.
-- * Sv2.Frame (src/models/sv2/sv2-frame.ts): the frame header, and Reader, which is Sv2FrameReader
--   and Sv2FrameWriter. A pass of the reader's loop is a step for the header and a step for the
--   payload. Pieces, Feed, Chunks, Lengths and Written are proofs. The cipher is a parameter, two
--   functions on a state, since each use of a key counts up its nonce.
-- * Sv2.Extranonce (src/models/sv2/sv2-extranonce-manager.ts): Sv2ExtranonceManager, which gives
--   the channels of the Stratum V2 side their prefixes. Unique and Exhausted are proofs.
--
-- Prelude has what these share: integers over the native naturals with the laws that omega reads
-- (Int), Boolean tests (Tests), lists (Lists), a stable sort (Sort), the best element of a list in
-- its place (Pick).
--
-- State and effects: a Map is a list of pairs, in the order of insertion, or with the last write in
-- front where the code only looks keys up; an exception or a fallback is `none`, an object that the code changes in place is a record that is passed on. Of the sweep,
-- the clock and the outcome of each transaction are a parameter, an event for each round. What the
-- package bitcoin-address-validation says of an address is a parameter. So are, for a blockparty, the
-- hash of a token, the verified e-mail address of an address and whether it is in a group; the
-- clock, a new id and a new token are arguments of a call. Calls run one at a time. A table with a
-- unique index is a list of rows in the order of their insertion. Of upper case, a text has the
-- ASCII letters.
--
-- Numbers: sats and share counts are exact. The code computes with doubles; the model has no
-- rounding of `shares / totalShares` or of `feePercent / 100`, whose product the code rounds down.
--
-- Fuel: the sweep has as many rounds as it has credits and debits, and ends by its own test before
-- they run out. The search for a free prefix has the bound of the code, one attempt more than there
-- are prefixes. The frame reader's loop has two rounds for each byte of the buffer, of which a header
-- takes six. The growth of a buffer is given one round more than the bytes that are needed.
--
-- Not modelled: sockets, the noise handshake, the database, HTTP, notifications, statistics,
-- migrations, log lines and the percentages for display; of the sweep, the group balances and the
-- schedule; of the share window, its migration from an older form and calls of Redis that fail; of
-- the block-found handler, how Redis stores a snapshot, the build that it may overtake and database
-- errors other than the unique index's; of the marks, calls of Redis that fail; of the blockparties,
-- the listings, and the stamps that only order rows. The invitations that lead to markMemberConfirmed, the groups of the share window, the
-- channels of Stratum V2 and the variable difficulty are left out too.
pub mod Prelude
pub mod Address
pub mod Blockparty
pub mod Coinbase
pub mod DustSweep
pub mod MiningMode
pub mod Pplns
pub mod ResultCache
pub mod Sv2
pub mod Text
