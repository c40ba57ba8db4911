-- ===== src/IdChain/Chosen.antt =====
-- The key that SelectRandomKey chooses is the id of a running node of the map.
use mathlib.Core.List.{Memᴰ}
use mathlib.Core.List.Memᴰ.{head, tail}
use monosulfide.Prelude.{
  ℕ, zero, suc, ◌≡◌, refl, sym, true, false, List, [], ◌∷◌, some, arith, length, get_elem?, Ensures,
  ensured, Ensures-step, Ensures-bind, Ensures-weaken, Ensures-deref, panics, Bool, if◌then◌else◌,
  ◌⊎◌, inl, inr,
}
use monosulfide.Content.{Bytes}
use monosulfide.Tx.{modulo}
use monosulfide.IdChain.{
  Node, NodeMap, is_running, string_less, insert_key, sort_keys, running_keys, get_sorted_key_slice,
  select_random_key, select_main, present,
}

get_elem?-Mem : (xs : List Bytes) (i : ℕ) (x : Bytes) → get_elem? xs i ≡ some x → Memᴰ x xs
get_elem?-Mem [] i x e = ground (arith, e)
get_elem?-Mem (y ∷ ys) zero x e = head (ground (arith, e))
get_elem?-Mem (y ∷ ys) (suc i) x e = tail (get_elem?-Mem ys i x e)

if-Mem :
    (x : Bytes) (b : Bool) (xs ys : List Bytes)
    → Memᴰ x (if b then xs else ys)
    → ((b ≡ true) × Memᴰ x xs) ⊎ Memᴰ x ys
if-Mem x true xs ys there = inl (refl, there)
if-Mem x false xs ys there = inr there

-- A running node with this id is registered.
abbrev pub RunningId : NodeMap → Bytes → Type 0
RunningId m key = (kv : Bytes × Node) × Memᴰ kv m × (is_running kv.1 ≡ true) × (kv.1.node_id ≡ key)

RunningId-cons :
    (kv : Bytes × Node) (m : NodeMap) (key : Bytes) → RunningId m key → RunningId (kv ∷ m) key
RunningId-cons kv m key (found, there, runs, id) = (found, tail there, runs, id)

running_keys-RunningId : (m : NodeMap) (key : Bytes) → Memᴰ key (running_keys m) → RunningId m key
unfolding running_keys
running_keys-RunningId [] key there = elim there [ ]
running_keys-RunningId ((k, n) ∷ m) key there =
    elim (if-Mem key (is_running n) (n.node_id ∷ running_keys m) (running_keys m) there) [
      | inl (runs, head e) ↦ ((k, n), head refl, runs, sym e)
      | inl (runs, tail later) ↦ RunningId-cons (k, n) m key (running_keys-RunningId m key later)
      | inr later ↦ RunningId-cons (k, n) m key (running_keys-RunningId m key later)
    ]

module _ (modulus : Bytes → Bytes) where
  insert_key-Mem :
      (x k : Bytes) (keys : List Bytes) → Memᴰ x (insert_key modulus k keys) → (x ≡ k) ⊎ Memᴰ x keys
  unfolding insert_key
  insert_key-Mem x k [] (head e) = inl e
  insert_key-Mem x k [] (tail more) = elim more [ ]
  insert_key-Mem x k (j ∷ keys) there =
      elim (if-Mem x (string_less (modulus j) (modulus k)) (j ∷ insert_key modulus k keys)
        (k ∷ j ∷ keys) there) [
          | inl (less, head e) ↦ inr (head e)
          | inl (less, tail later) ↦ elim (insert_key-Mem x k keys later) [
            | inl e ↦ inl e
            | inr old ↦ inr (tail old)
          ]
          | inr (head e) ↦ inl e
          | inr (tail old) ↦ inr old
        ]

  sort_keys-Mem : (x : Bytes) (keys : List Bytes) → Memᴰ x (sort_keys modulus keys) → Memᴰ x keys
  unfolding sort_keys
  sort_keys-Mem x [] there = there
  sort_keys-Mem x (k ∷ keys) there = elim (insert_key-Mem x k (sort_keys modulus keys) there) [
    | inl e ↦ head e
    | inr later ↦ tail (sort_keys-Mem x keys later)
  ]

  select_random_key-RunningId :
      (m : NodeMap) (random_index : ℕ)
      → Ensures (RunningId m) (select_random_key modulus m random_index)
  unfolding select_random_key get_sorted_key_slice
  select_random_key-RunningId [] r = panics
  select_random_key-RunningId (kv ∷ m) r =
      Ensures-step (modulo r (length (running_keys (kv ∷ m)))) _ λ index e.
        Ensures-weaken (Ensures-deref (get_elem? (sort_keys modulus (running_keys (kv ∷ m))) index))
          λ key found. running_keys-RunningId (kv ∷ m) key (
            sort_keys-Mem key (running_keys (kv ∷ m))
              (get_elem?-Mem (sort_keys modulus (running_keys (kv ∷ m))) index key found))

  -- The node that SelectMain takes is the one that is registered under the id of a running node.
  pub select_main-RunningId :
      (m : NodeMap) (rand : ℕ)
      → Ensures
          (λ main. (key : Bytes) × RunningId m key × (main ≡ present m key))
          (select_main modulus m rand)
  unfolding select_main
  select_main-RunningId m rand =
      Ensures-bind _ (select_random_key-RunningId m rand)
        λ key chosen. ensured _ (key, chosen, refl)
