-- ===== src/Blockparty/Store.antt =====
-- The tables of src/services/blockparty.service.ts and its two caches. A row of a member is found by
-- its party and its address, which the database keeps unique; the generated key is left out, and
-- so are the stamps createdAt and updatedAt, which nothing reads but the order of the rows: a new
-- row comes last.
use blitzpool.Prelude.{
  ℕ, Bool, ◌&&◌, not, List, [], ◌∷◌, ◌++◌, map, Option, none, some, String, str_eq, if◌then◌else◌,
}
use blitzpool.Coinbase.Weight.{Address}
use blitzpool.Coinbase.Blockparty.{BlockpartyDistributionSplit}
use blitzpool.Prelude.Int.{ℤ}

pub data BlockpartyStatus : Type 0 where
  draft confirming ready active dissolved : BlockpartyStatus

pub record BlockpartyGroup : Type 0 where
  pub id : String
  pub name : String
  pub admin_address : Address
  pub admin_token_hash : String
  pub status : BlockpartyStatus
  pub last_share_at : Option ℕ
  pub rental_provider_hint : Option String
  pub dissolved_at : Option ℕ

pub data MemberRole : Type 0 where
  admin member : MemberRole

pub record BlockpartyMember : Type 0 where
  pub group_id : String
  pub address : Address
  pub email : String
  pub percent_bp : ℕ
  pub role : MemberRole
  pub confirmed_at : Option ℕ
  pub member_token_hash : Option String

pub record BlockpartyBlock : Type 0 where
  pub group_id : String
  pub block_height : ℕ
  pub block_hash : String
  pub found_at : ℕ
  pub coinbase_value_sats : ℕ
  pub pool_fee_sats : ℤ
  pub splits : List BlockpartyDistributionSplit

pub record CacheEntry : Type 0 where
  pub group_id : String
  pub status : BlockpartyStatus

pub record Parties : Type 0 where
  pub groups : List BlockpartyGroup
  pub members : List BlockpartyMember
  pub history : List BlockpartyBlock
  pub address_cache : List (Address × String)
  pub admin_cache : List (Address × CacheEntry)

-- Of a `Map`: the last write to a key counts.
unfoldable pub cache_get {ℓ} : {V : Type ℓ} → Address → List (Address × V) → Option V
cache_get a [] = none
cache_get a ((b, v) ∷ m) = if str_eq b a then some v else cache_get a m

abbrev pub first_of {ℓ} : {A : Type ℓ} → (A → Bool) → List A → Option A
first_of p [] = none
first_of p (x ∷ xs) = if p x then some x else first_of p xs

abbrev pub select {ℓ} : {A : Type ℓ} → (A → Bool) → List A → List A
select p [] = []
select p (x ∷ xs) = let rest = select p xs in if p x then x ∷ rest else rest

-- `groupRepo.findOneBy({ id })`, and by the two other unique columns.
unfoldable pub find_group : String → List BlockpartyGroup → Option BlockpartyGroup
find_group i = first_of λ g. str_eq g.id i

unfoldable pub find_by_name : String → List BlockpartyGroup → Option BlockpartyGroup
find_by_name n = first_of λ g. str_eq g.name n

unfoldable pub find_by_admin : Address → List BlockpartyGroup → Option BlockpartyGroup
find_by_admin a = first_of λ g. str_eq g.admin_address a

-- `memberRepo.findOneBy({ address })`, and in a party.
unfoldable pub find_by_address : Address → List BlockpartyMember → Option BlockpartyMember
find_by_address a = first_of λ m. str_eq m.address a

abbrev pub is_row : String → Address → BlockpartyMember → Bool
is_row i a m = str_eq m.group_id i && str_eq m.address a

unfoldable pub find_member : String → Address → List BlockpartyMember → Option BlockpartyMember
find_member i a = first_of (is_row i a)

-- `memberRepo.find({ where: { groupId } })`.
unfoldable pub members_of : String → List BlockpartyMember → List BlockpartyMember
members_of i = select λ m. str_eq m.group_id i

-- `groupRepo.save` of a row that is there.
abbrev pub replace_group : BlockpartyGroup → BlockpartyGroup → BlockpartyGroup
replace_group g h = if str_eq h.id g.id then g else h

unfoldable pub save_group : BlockpartyGroup → Parties → Parties
save_group g s = record s { groups = map (replace_group g) s.groups }

unfoldable pub insert_group : BlockpartyGroup → Parties → Parties
insert_group g s = record s { groups = s.groups ++ g ∷ [] }

unfoldable pub insert_member : BlockpartyMember → Parties → Parties
insert_member m s = record s { members = s.members ++ m ∷ [] }

-- `memberRepo.save` of a row that is there.
abbrev pub replace_member : BlockpartyMember → BlockpartyMember → BlockpartyMember
replace_member m n = if is_row m.group_id m.address n then m else n

unfoldable pub save_member : BlockpartyMember → Parties → Parties
save_member m s = record s { members = map (replace_member m) s.members }

unfoldable pub delete_member : BlockpartyMember → Parties → Parties
delete_member m s = record s {
  members = select (λ n. not (is_row m.group_id m.address n)) s.members;
}

-- `adminAddressCache.set`.
unfoldable pub cache_admin : Address → CacheEntry → Parties → Parties
cache_admin a e s = record s { admin_cache = (a, e) ∷ s.admin_cache }

-- A service over nothing.
abbrev pub no_parties : Parties
no_parties = record {
  groups = [];
  members = [];
  history = [];
  address_cache = [];
  admin_cache = [];
}
