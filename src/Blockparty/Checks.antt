-- ===== src/Blockparty/Checks.antt =====
-- What src/services/blockparty.service.ts refuses: its errors, the tokens and the assertions.
use Prim.Native.Char.{code}
use blitzpool.Prelude.{
  ℕ, ◌≡◌, refl, Bool, true, false, ◌&&◌, ◌||◌, not, List, [], ◌∷◌, Option, none, some, String,
  str_eq, leb, ◌==◌, if◌then◌else◌,
}
use blitzpool.Prelude.Sort.{sum_of}
use blitzpool.Text.{trim_text, to_lower, is_empty, is_space, text_length, has_char}
use blitzpool.Coinbase.Weight.{Address}
use blitzpool.Blockparty.Store.{
  BlockpartyStatus, draft, confirming, ready, active, dissolved, BlockpartyGroup, BlockpartyMember,
  Parties, find_group, find_member, members_of,
}

-- The codes of BlockpartyServiceError.
pub data ServiceError : Type 0 where
  invalid_name invalid_address invalid_email invalid_percent name_taken : ServiceError
  admin_address_taken address_in_blockparty address_in_pplns_group missing_token : ServiceError
  not_found invalid_token not_editable admin_cannot_rejoin email_not_verified : ServiceError
  not_member admin_cannot_be_removed missing_member_token member_not_confirmed : ServiceError
  invalid_member_token invalid_state no_members invalid_splits_sum : ServiceError
  dissolve_cooldown : ServiceError

-- What a call returns, or the error that it throws.
pub data Answer {ℓ} (A : Type ℓ) : Type ℓ where
  err : ServiceError → Answer A
  ok : A → Answer A

-- `if (!test) throw`.
abbrev pub require : Bool → ServiceError → Answer (Unit {0})
require passed e = elim passed [ false ↦ err e | true ↦ ok tt ]

-- A value that is there, or the error.
abbrev pub present {ℓ} : {V : Type ℓ} → Option V → ServiceError → Answer V
present none e = err e
present (some value) e = ok value

-- `if (value) throw`.
abbrev pub absent {ℓ} : {V : Type ℓ} → Option V → ServiceError → Answer (Unit {0})
absent none e = ok tt
absent (some value) e = err e

-- After an error nothing of a call is done.
infixl 5 ◌>>=◌
abbrev pub ◌>>=◌ {ℓ κ} : {V : Type ℓ} {W : Type κ} → Answer V → (V → Answer W) → Answer W
err e >>= rest = err e
ok value >>= rest = rest value

infixl 5 ◌>>◌
abbrev pub ◌>>◌ {ℓ} : {W : Type ℓ} → Answer (Unit {0}) → Answer W → Answer W
first >> rest = first >>= λ done. rest

abbrev pub total_percent_bp : ℕ
total_percent_bp = 10000

abbrev pub dissolve_cooldown_ms : ℕ
dissolve_cooldown_ms = 604800000

-- `!token`.
abbrev pub given : Option String → Option String
given none = none
given (some t) = if is_empty t then none else some t

-- A hash is compared in constant time, as a text.
unfoldable pub verify_token : (String → String) → String → String → Bool
verify_token hash provided stored = str_eq (hash provided) stored

unfoldable pub require_admin_token :
    (String → String) → Parties → String → Option String → Answer BlockpartyGroup
require_admin_token hash s i token = do
  t ← present (given token) missing_token
  group ← present (find_group i s.groups) not_found
  require (verify_token hash t group.admin_token_hash) invalid_token
  ok group

-- The address is normalized.
unfoldable pub require_member_token :
    (String → String) → Parties → String → Address → Option String → Answer BlockpartyMember
require_member_token hash s i a token = do
  t ← present (given token) missing_member_token
  m ← present (find_member i a s.members) not_member
  stored ← present m.member_token_hash member_not_confirmed
  require (verify_token hash t stored) invalid_member_token
  ok m

abbrev pub is_editable : BlockpartyStatus → Bool
is_editable draft = true
is_editable confirming = true
is_editable ready = true
is_editable active = false
is_editable dissolved = false

unfoldable pub assert_editable : BlockpartyGroup → Answer (Unit {0})
assert_editable g = require (is_editable g.status) not_editable

-- A percentage is a whole number in the model.
unfoldable pub assert_percent_bp_in_range : ℕ → Answer (Unit {0})
assert_percent_bp_in_range bp = require (leb 100 bp && leb bp 10000) invalid_percent

unfoldable pub assert_splits_sum_valid : Parties → String → Answer (Unit {0})
assert_splits_sum_valid s i = do
  let members = members_of i s.members
  require (not (sum_of (λ m. 1) members == 0)) no_members
  require (sum_of (λ m. m.percent_bp) members == total_percent_bp) invalid_splits_sum

unfoldable pub assert_not_in_pplns_group : (Address → Bool) → Address → Answer (Unit {0})
assert_not_in_pplns_group in_pplns_group a = require (not (in_pplns_group a)) address_in_pplns_group

-- `[^\s@]`.
email_char : ℕ → Bool
email_char c = not (is_space c || c == b'@')

-- `[^\s@]*$`.
email_rest : String → Bool
email_rest s = not (has_char (λ c. not (email_char c)) s)

-- `\.[^\s@]+$`, where the character in front of it is taken.
email_tail : String → Bool
email_tail String.[] = false
email_tail (String.◌∷◌ c s) =
    let later = email_tail s in
    if code c == b'.' && not (is_empty s) && email_rest s
    then true
    else email_char (code c) && later

-- `[^\s@]+\.[^\s@]+$`.
email_domain : String → Bool
email_domain String.[] = false
email_domain (String.◌∷◌ c s) = email_char (code c) && email_tail s

-- `[^\s@]*@[^\s@]+\.[^\s@]+$`.
email_at : String → Bool
email_at String.[] = false
email_at (String.◌∷◌ c s) =
    let later = email_at s in
    if code c == b'@' then email_domain s else email_char (code c) && later

unfoldable pub is_email : String → Bool
unfolding email_char email_rest email_tail email_domain email_at
is_email String.[] = false
is_email (String.◌∷◌ c s) = email_char (code c) && email_at s

unfoldable pub assert_email_shape : String → Answer (Unit {0})
assert_email_shape email = do
  let trimmed = to_lower (trim_text email)
  require (not (is_empty trimmed) && leb (text_length trimmed) 320) invalid_email
  require (is_email trimmed) invalid_email

abbrev all_false : List Bool → Bool
all_false [] = true
all_false (b ∷ bs) = not b && all_false bs

email-run : is_email "a.b@pool.org" ≡ true
unfolding is_email is_space has_char
email-run = refl

email_dots-run :
    all_false (is_email "a@b." ∷ is_email "a@.b" ∷ is_email "@b.c" ∷ is_email "a@b@c.d" ∷ []) ≡ true
unfolding is_email is_space has_char
email_dots-run = refl
