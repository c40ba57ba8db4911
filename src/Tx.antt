-- ===== src/Tx.antt =====
-- Tx/transaction.go and Tx/TxList.go: transactions, the shards they belong to, and the map that a
-- list of the pool is. `digest` stands for crypt.GetDigest, a SHA-256 of the JSON text, which the
-- source takes from libraries; an address is a byte string and a time a number.
pub mod Halts
use monosulfide.Prelude.{
  ℕ, ◌+◌, ◌-◌, ◌*◌, ◌%◌, Bool, true, false, ◌&&◌, List, [], ◌∷◌, map, Option, none, some, length,
  drop, ltb, leb, ◌==◌, if◌then◌else◌, Outcome, ok, panic, ◌>>=◌, deref, bytes,
}
use monosulfide.Prelude.Int.{ℤ}
use monosulfide.Prelude.Maps.{lookup, insert, delete}
use monosulfide.Content.{Bytes}

abbrev pub register_tx : ℕ
register_tx = 0

abbrev pub pry_tx : ℕ
pry_tx = 1

abbrev pub relay_tx : ℕ
relay_tx = 2

abbrev pub relay_dump : ℕ
relay_dump = 3

pub record Transaction : Type 0 where
  pub sender : Bytes
  pub recipient : Bytes
  pub value : Option ℤ
  pub nonce : ℕ
  pub tx_type : ℕ
  pub interface : Bytes
  pub time : ℕ

-- The settings of the package config that transactions and pools read.
pub record Config : Type 0 where
  pub shard_amount : ℕ
  pub pyr_enable : Bool
  pub pyr_shard_amount : ℕ
  pub shard_distribution : List (List Bool)
  pub shard_route : List (List (Option (List ℕ)))
  pub default_addr : List Bytes
  pub fide_enable : Bool
  pub fide_shard_amount : ℕ
  pub storage_optimize : Bool
  pub monoxide_enable : Bool
  pub monoxide_shard_amount : ℕ
  pub max_block_size : ℕ
  pub tx_test : Bool

unfoldable pub new_transaction : Bytes → Bytes → Option ℤ → ℕ → ℕ → Transaction
new_transaction sender recipient value nonce tx_type = record {
  sender = sender;
  recipient = recipient;
  value = value;
  nonce = nonce;
  tx_type = tx_type;
  interface = [];
  time = 0;
}

unfoldable pub generate_register_tx : Bytes → Bytes → ℕ → Transaction
unfolding new_transaction
generate_register_tx id addr nonce = new_transaction id addr none nonce register_tx

-- The value of a hexadecimal digit, of either case.
pub hex_digit : ℕ → Option ℕ
hex_digit c =
    if leb b'0' c && leb c b'9'
    then some (c - b'0')
    else if leb b'a' c && leb c b'f'
    then some (c - b'a' + 10)
    else if leb b'A' c && leb c b'F'
    then some (c - b'A' + 10)
    else none

-- strconv.ParseUint to the base 16, on at most sixteen digits, so that 64 bits suffice; the errors
-- make the caller panic.
pub parse_uint : ℕ → Bytes → Outcome ℕ
parse_uint acc [] = ok acc
parse_uint acc (c ∷ s) = deref (hex_digit c) >>= λ d. parse_uint (acc * 16 + d) s

-- addr[len(addr)-8:], which panics on a shorter address.
pub last_eight : Bytes → Outcome Bytes
last_eight addr = if ltb (length addr) 8 then panic else ok (drop (length addr - 8) addr)

-- x % y of Go's int: a zero divisor panics.
unfoldable pub modulo : ℕ → ℕ → Outcome ℕ
modulo x y = if y == 0 then panic else ok (x % y)

module _ (conf : Config) where
  -- The last eight digits are at most 32 bits, so the conversion to int keeps them.
  unfoldable pub in_shard : Bytes → Outcome ℕ
  unfolding last_eight parse_uint hex_digit modulo
  in_shard addr = last_eight addr >>= λ digits. parse_uint 0 digits >>= λ num.
      if conf.pyr_enable
      then modulo num conf.pyr_shard_amount
      else if conf.fide_enable
      then modulo num conf.fide_shard_amount
      else if conf.monoxide_enable
      then modulo num conf.monoxide_shard_amount
      else ok 0

  unfoldable pub r_in_shard : Transaction → Outcome ℕ
  r_in_shard tx = if tx.tx_type == register_tx then ok 0 else in_shard tx.recipient

  unfoldable pub s_in_shard : Transaction → Outcome ℕ
  s_in_shard tx = if tx.tx_type == register_tx then ok 0 else in_shard tx.sender

-- The map of a List, by the hash of a transaction.
abbrev pub TxList : Type 0
TxList = List (Bytes × Transaction)

module _ (digest : Transaction → Bytes) where
  unfoldable pub append_tx : TxList → Transaction → TxList
  append_tx txs tx = insert (digest tx) tx txs

  unfoldable pub remove_tx : TxList → Transaction → TxList
  remove_tx txs tx = delete (digest tx) txs

  -- `tl.txs[tx.Hash()] != nil`
  unfoldable pub tx_exist : TxList → Transaction → Bool
  tx_exist txs tx = elim (lookup (digest tx) txs) [ none ↦ false | some _ ↦ true ]

-- The values of the map, in the order of a `range`.
abbrev pub values : TxList → List Transaction
values = map λ kv. kv.1
