-- ===== src/Blockparty/Blocks.antt =====
-- getPayoutDistribution and onBlockFound of src/services/blockparty.service.ts.
use blitzpool.Prelude.{ℕ, Bool, ◌&&◌, List, [], ◌∷◌, ◌++◌, map, Option, none, some, String, str_eq}
use blitzpool.Coinbase.Blockparty.{
  BlockpartyMemberInput, BlockpartyDistributionInput, BlockpartyDistributionResult,
  build_blockparty_distribution,
}
use blitzpool.Blockparty.Store.{BlockpartyMember, BlockpartyBlock, Parties, first_of, members_of}
use blitzpool.Blockparty.Service.{BlockpartyService}

abbrev pub share_of : BlockpartyMember → BlockpartyMemberInput
share_of m = record { address = m.address; percent_bp = m.percent_bp }

pub record BlockFound : Type 0 where
  pub group_id : String
  pub block_height : ℕ
  pub block_hash : String
  pub coinbase_value_sats : ℕ
  pub found_at : Option ℕ

abbrev pub at_or : Option ℕ → ℕ → ℕ
at_or none now = now
at_or (some t) now = t

-- The unique index on the party and the block hash.
abbrev pub is_block : String → String → BlockpartyBlock → Bool
is_block id hash b = str_eq b.group_id id && str_eq b.block_hash hash

unfoldable pub find_block : String → String → List BlockpartyBlock → Option BlockpartyBlock
find_block id hash = first_of (is_block id hash)

-- `historyRepo.save`: a second row for a block is refused with code 23505, and that is no error.
abbrev pub insert_block :
    Option BlockpartyBlock → BlockpartyBlock → Parties → Parties × Option BlockpartyBlock
insert_block none row s = (record s { history = s.history ++ row ∷ [] }, some row)
insert_block (some old) row s = (s, none)

module _ (service : BlockpartyService) where
  abbrev pub payout_input : String → ℕ → Parties → BlockpartyDistributionInput
  payout_input id reward s = record {
    members = map share_of (members_of id s.members);
    block_reward_sats = reward;
    pool_fee_address = service.fee_address;
    pool_fee_percent = service.fee_percent;
    min_payout_sats = service.min_payout_sats;
  }

  unfoldable pub get_payout_distribution : String → ℕ → Parties → BlockpartyDistributionResult
  get_payout_distribution id reward s = build_blockparty_distribution (payout_input id reward s)

  abbrev pub block_row : ℕ → BlockFound → Parties → BlockpartyBlock
  block_row now b s =
      let distribution = get_payout_distribution b.group_id b.coinbase_value_sats s in
      record {
        group_id = b.group_id;
        block_height = b.block_height;
        block_hash = b.block_hash;
        found_at = at_or b.found_at now;
        coinbase_value_sats = b.coinbase_value_sats;
        pool_fee_sats = distribution.pool_fee_sats;
        splits = distribution.splits;
      }

  unfoldable pub on_block_found : ℕ → BlockFound → Parties → Parties × Option BlockpartyBlock
  on_block_found now b s =
      insert_block (find_block b.group_id b.block_hash s.history) (block_row now b s) s
