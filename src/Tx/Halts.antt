-- ===== src/Tx/Halts.antt =====
-- The shard of an address is computed without fuel: it is found, or the address panics.
use monosulfide.Prelude.{
  ℕ, ◌+◌, ◌*◌, [], ◌∷◌, length, ltb, ◌==◌, panicked, Halts, Halts-bind, Halts-deref, Halts-ok,
  Halts-if,
}
use monosulfide.Content.{Bytes}
use monosulfide.Tx.{
  Config, Transaction, register_tx, parse_uint, hex_digit, last_eight, modulo, in_shard, s_in_shard,
  r_in_shard,
}

parse_uint-Halts : (acc : ℕ) (s : Bytes) → Halts (parse_uint acc s)
unfolding parse_uint
parse_uint-Halts acc [] = Halts-ok acc
parse_uint-Halts acc (c ∷ s) = Halts-deref (hex_digit c) _ λ d. parse_uint-Halts (acc * 16 + d) s

modulo-Halts : (x y : ℕ) → Halts (modulo x y)
unfolding modulo
modulo-Halts x y = Halts-if (y == 0) _ _ panicked (Halts-ok _)

module _ (conf : Config) where
  in_shard-Halts : (addr : Bytes) → Halts (in_shard conf addr)
  unfolding in_shard last_eight
  in_shard-Halts addr =
      Halts-bind _ _ (Halts-if (ltb (length addr) 8) _ _ panicked (Halts-ok _)) λ digits.
        Halts-bind _ _ (parse_uint-Halts 0 digits) λ num.
          Halts-if conf.pyr_enable _ _ (modulo-Halts num conf.pyr_shard_amount) (
            Halts-if conf.fide_enable _ _ (modulo-Halts num conf.fide_shard_amount) (
              Halts-if conf.monoxide_enable _ _ (modulo-Halts num conf.monoxide_shard_amount)
                (Halts-ok 0)))

  pub r_in_shard-Halts : (tx : Transaction) → Halts (r_in_shard conf tx)
  unfolding r_in_shard
  r_in_shard-Halts tx =
      Halts-if (tx.tx_type == register_tx) _ _ (Halts-ok 0) (in_shard-Halts tx.recipient)

  pub s_in_shard-Halts : (tx : Transaction) → Halts (s_in_shard conf tx)
  unfolding s_in_shard
  s_in_shard-Halts tx =
      Halts-if (tx.tx_type == register_tx) _ _ (Halts-ok 0) (in_shard-Halts tx.sender)
