-- ===== src/Address.antt =====
-- normalizeBtcAddress of src/utils/btc-address.utils.ts. A missing address is the empty text.
use text.Mathlib.Text.{starts_with}
use blitzpool.Prelude.{String, ◌≡◌, refl, ◌||◌, if◌then◌else◌}
use blitzpool.Text.{trim_text, to_lower, is_empty}

unfoldable pub normalize_btc_address : String → String
unfolding trim_text to_lower
normalize_btc_address address =
    let trimmed = trim_text address in
    let lower = to_lower trimmed in
    if is_empty trimmed
    then ""
    else if starts_with lower "bc1"
        || starts_with lower "tb1"
        || starts_with lower "bcrt1"
        || starts_with lower "sb1"
    then lower
    else trimmed

bech32-run : normalize_btc_address "  BC1QW508d \n" ≡ "bc1qw508d"
unfolding normalize_btc_address
bech32-run = refl

base58-run : normalize_btc_address " 1A1zP1eP5Q" ≡ "1A1zP1eP5Q"
unfolding normalize_btc_address
base58-run = refl
