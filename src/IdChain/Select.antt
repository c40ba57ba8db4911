-- ===== src/IdChain/Select.antt =====
-- The choice of the main node does not depend on the order of the `range` over the map.
use monosulfide.Prelude.{ℕ, ◌≡◌, refl, sym, ap, ◌∙◌, true, false, List, [], ◌∷◌, arith, length, suc}
use mathlib.Core.Logic.{∥∥₁_elim}
use mathlib.Core.List.{Perm, Permᴰ}
use monosulfide.Prelude.Arrays.{length-perm}
use monosulfide.Content.{Bytes}
use monosulfide.IdChain.{
  NodeMap, string_less, insert_key, sort_keys, running_keys, get_sorted_key_slice,
  select_random_key,
}

string_less-total : (a b : Bytes) → string_less a b ≡ false → string_less b a ≡ false → a ≡ b
unfolding string_less
string_less-total [] [] h k = refl
string_less-total [] (y ∷ ys) h k = ground arith
string_less-total (x ∷ xs) [] h k = ground arith
string_less-total (x ∷ xs) (y ∷ ys) h k = ground (arith, string_less-total xs ys)

string_less-asym : (a b : Bytes) → string_less a b ≡ true → string_less b a ≡ false
unfolding string_less
string_less-asym [] [] h = ground arith
string_less-asym [] (y ∷ ys) h = refl
string_less-asym (x ∷ xs) [] h = ground arith
string_less-asym (x ∷ xs) (y ∷ ys) h = ground (arith, string_less-asym xs ys)

string_less_trans :
    (a b c : Bytes) → string_less a b ≡ true → string_less b c ≡ true → string_less a c ≡ true
unfolding string_less
string_less_trans a [] [] h k = ground arith
string_less_trans a (y ∷ ys) [] h k = ground arith
string_less_trans [] b (z ∷ zs) h k = refl
string_less_trans (x ∷ xs) [] (z ∷ zs) h k = ground arith
string_less_trans (x ∷ xs) (y ∷ ys) (z ∷ zs) h k = ground (arith, string_less_trans xs ys zs)

module _ (modulus : Bytes → Bytes) (distinct : (a b : Bytes) → modulus a ≡ modulus b → a ≡ b) where
  insert_key_comm :
      (a b : Bytes) (keys : List Bytes)
      → insert_key modulus a (insert_key modulus b keys)
        ≡ insert_key modulus b (insert_key modulus a keys)
  unfolding insert_key
  insert_key_comm a b [] = ground (
    arith,
    string_less-total (modulus a) (modulus b),
    string_less-asym (modulus a) (modulus b),
    string_less-asym (modulus b) (modulus a),
    distinct a b,
  )
  insert_key_comm a b (k ∷ keys) = ground (
    arith,
    insert_key_comm a b keys,
    string_less-total (modulus a) (modulus b),
    string_less-asym (modulus a) (modulus b),
    string_less-asym (modulus b) (modulus a),
    distinct a b,
    string_less_trans (modulus k) (modulus a) (modulus b),
    string_less_trans (modulus k) (modulus b) (modulus a),
    string_less-total (modulus k) (modulus a),
    string_less-total (modulus k) (modulus b),
  )

  sorted-Permᴰ :
      {m m' : NodeMap}
      → Permᴰ m m'
      → sort_keys modulus (running_keys m) ≡ sort_keys modulus (running_keys m')
  unfolding sort_keys running_keys
  sorted-Permᴰ Permᴰ.nil = refl
  sorted-Permᴰ (Permᴰ.cons {a} {b} e p) = ground (arith, e, sorted-Permᴰ p)
  sorted-Permᴰ (Permᴰ.swap {a} {b} {l = l} e f) =
      ground
        (arith, e, f, insert_key_comm a.1.node_id b.1.node_id (sort_keys modulus (running_keys l)))
  sorted-Permᴰ (Permᴰ.trans p q) = sorted-Permᴰ p ∙ sorted-Permᴰ q

  sorted-perm :
      {m m' : NodeMap}
      → Perm m m'
      → sort_keys modulus (running_keys m) ≡ sort_keys modulus (running_keys m')
  sorted-perm p =
      let keys_set : IsSet (List Bytes) = hlevel in ∥∥₁_elim p (keys_set _ _) sorted-Permᴰ

  length-insert_key :
      (k : Bytes) (keys : List Bytes) → length (insert_key modulus k keys) ≡ suc (length keys)
  unfolding insert_key
  length-insert_key k [] = refl
  length-insert_key k (j ∷ keys) = ground (arith, length-insert_key k keys)

  length-sort_keys : (keys : List Bytes) → length (sort_keys modulus keys) ≡ length keys
  unfolding sort_keys
  length-sort_keys [] = refl
  length-sort_keys (k ∷ keys) =
      length-insert_key k (sort_keys modulus keys) ∙ ap suc (length-sort_keys keys)

  -- For one random number, the chosen key is the same for any two orders in which the map may be
  -- visited, if different keys have different moduli.
  pub select_random_key-perm :
      (m m' : NodeMap) (random_index : ℕ)
      → Perm m m'
      → select_random_key modulus m random_index ≡ select_random_key modulus m' random_index
  unfolding select_random_key get_sorted_key_slice
  select_random_key-perm [] [] r p = refl
  select_random_key-perm [] (y ∷ m') r p = ground (arith, length-perm p)
  select_random_key-perm (x ∷ m) [] r p = ground (arith, length-perm p)
  select_random_key-perm (x ∷ m) (y ∷ m') r p =
      let same = sorted-perm p in
      let as_many : length (running_keys (x ∷ m)) ≡ length (running_keys (y ∷ m')) =
        sym (length-sort_keys (running_keys (x ∷ m)))
        ∙ ap length same
        ∙ length-sort_keys (running_keys (y ∷ m')) in
      rw (as_many, same) refl
