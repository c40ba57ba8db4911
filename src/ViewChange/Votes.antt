-- ===== src/ViewChange/Votes.antt =====
-- The requests for a view are counted once for each node.
use monosulfide.Prelude.{
  ℕ, ◌≡◌, refl, true, [], ◌∷◌, none, some, arith, bytes, bytes_eq, bytes_eq_iff, nat_eq, Bool-cases,
  if◌then◌else◌, inl, inr, ◌==◌,
}
use monosulfide.Prelude.Maps.{lookup, insert, lookup-insert}
use monosulfide.Content.{Bytes}
use monosulfide.IdChain.{Node, NodeMap}
use monosulfide.ViewChange.{ViewChangeCom, Votes, votes_of, vote}

-- Every node stands once in the votes.
abbrev pub Once : Votes → Type 0
Once [] = Unit
Once ((k, v) ∷ votes) = (lookup k votes ≡ none) × Once votes

insert-Once : (k : Bytes) (votes : Votes) → Once votes → Once (insert k true votes)
unfolding insert lookup
insert-Once k [] once = (refl, tt)
insert-Once k ((j, v) ∷ votes) once = elim (Bool-cases (bytes_eq j k)) [
  | inl same ↦ rw same (rw (← (bytes_eq_iff j k).0 same) once.0, once.1)
  | inr other ↦ rw other (
    ground (arith, lookup-insert k j true votes, bytes_eq_iff j k, bytes_eq_iff k j, once.0, other),
    insert-Once k votes once.1,
  )
]

-- Every vote is that of a registered node.
abbrev pub Known : NodeMap → Votes → Type 0
Known nodes [] = Unit
Known nodes ((k, v) ∷ votes) = ((n : Node) × (lookup k nodes ≡ some n)) × Known nodes votes

insert-Known :
    (nodes : NodeMap) (k : Bytes) (n : Node) (votes : Votes)
    → lookup k nodes ≡ some n
    → Known nodes votes
    → Known nodes (insert k true votes)
unfolding insert
insert-Known nodes k n [] found known = ((n, found), tt)
insert-Known nodes k n ((j, v) ∷ votes) found known = elim (Bool-cases (bytes_eq j k)) [
  | inl same ↦ rw same ((n, found), known.1)
  | inr other ↦ rw other (known.0, insert-Known nodes k n votes found known.1)
]

-- The nodes that are registered stay so.
abbrev pub Stay : NodeMap → NodeMap → Type 0
Stay nodes after =
    (k : Bytes) (n : Node) → lookup k nodes ≡ some n → (n' : Node) × (lookup k after ≡ some n')

pub Known-Stay :
    (nodes after : NodeMap) (votes : Votes)
    → Stay nodes after
    → Known nodes votes
    → Known after votes
Known-Stay nodes after [] stay known = tt
Known-Stay nodes after ((k, v) ∷ votes) stay ((n, found), known) =
    (stay k n found, Known-Stay nodes after votes stay known)

pub Stay-insert : (k : Bytes) (n : Node) (nodes : NodeMap) → Stay nodes (insert k n nodes)
Stay-insert k n nodes j old found = elim (Bool-cases (bytes_eq k j)) [
  | inl same ↦ (n, ground (arith, lookup-insert k j n nodes, same))
  | inr other ↦ (old, ground (arith, lookup-insert k j n nodes, other, found))
]

-- The votes for a view: one of each node that asked for it, and none of a node that is not registered.
abbrev pub Distinct : NodeMap → Votes → Type 0
Distinct nodes votes = Once votes × Known nodes votes

-- Every view has such votes.
abbrev pub Counted : ViewChangeCom → Type 0
Counted vc = (vid : ℕ) → Distinct vc.idc.node_map (votes_of vid vc)

votes_of-vote :
    (vid v : ℕ) (key : Bytes) (vc : ViewChangeCom)
    → votes_of v (vote vid key vc)
      ≡ (if vid == v then insert key true (votes_of vid vc) else votes_of v vc)
unfolding vote
votes_of-vote vid v key vc =
    ground (arith, lookup-insert vid v (insert key true (votes_of vid vc)) vc.count)

pub vote-Counted :
    (vid : ℕ) (key : Bytes) (n : Node) (vc : ViewChangeCom)
    → lookup key vc.idc.node_map ≡ some n
    → Counted vc
    → Counted (vote vid key vc)
unfolding vote
vote-Counted vid key n vc found counted v =
    rw (votes_of-vote vid v key vc) (elim (Bool-cases (vid == v)) [
      | inl same ↦ rw same (
        insert-Once key (votes_of vid vc) (counted vid).0,
        insert-Known vc.idc.node_map key n (votes_of vid vc) found (counted vid).1,
      )
      | inr other ↦ rw other (counted v)
    ])
