-- ===== src/MiningMode/Tests.antt =====
-- The mode of an address on small inputs, with the blockparty of Blockparty.Tests.
use blitzpool.Prelude.{◌≡◌, refl, false, [], none, some, arith}
use blitzpool.Prelude.Int.{pos}
use blitzpool.Address.{normalize_btc_address}
use blitzpool.Blockparty.Store.{BlockpartyGroup, find_group, cache_get}
use blitzpool.Blockparty.Tests.{club, started, started-Reached, started_admin}
use blitzpool.MiningMode.{
  blockparty, in_group, Mining, MinerActiveModeService, mark, get_marker, compute_mode,
}
use blitzpool.MiningMode.Marks.{unmarked, also_marked, mark_lasts}
use blitzpool.MiningMode.Modes.{mode_of_party}

abbrev unmarked_yet : MinerActiveModeService
unmarked_yet = record { redis = []; last_mark = [] }

abbrev marked_once : MinerActiveModeService
marked_once = mark 1000 "bc1qadmin" blockparty unmarked_yet

-- The second share comes a minute and a half before the mark that it leaves is looked up.
mark_lasts_example :
    get_marker 290000 "bc1qadmin" (mark 60000 "bc1qadmin" blockparty marked_once) ≡ some blockparty
mark_lasts_example =
    mark_lasts marked_once 60000 290000 "bc1qadmin" blockparty
      (also_marked 1000 "bc1qadmin" blockparty unmarked) refl (omega arith)

-- The administrator of the party, who has no mark.
abbrev mining : Mining
mining = record {
  markers = unmarked_yet;
  parties = started;
  window = record {
    counter = 0;
    buckets = [];
    window_total = pos 0;
    by_address = [];
    trim_counter = 0;
    touched = [];
    is_cached = false;
  };
  get_group_for_address = λ a. none;
}

admin_mode : compute_mode 40 "bc1qadmin" mining ≡ in_group blockparty "p"
unfolding compute_mode get_marker cache_get
admin_mode = simp started_admin refl

mode_of_party_example :
    (g : BlockpartyGroup) × (find_group "p" started.groups ≡ some g)
    × (g.admin_address ≡ normalize_btc_address "bc1qadmin")
mode_of_party_example = mode_of_party club 40 "bc1qadmin" mining started-Reached admin_mode
