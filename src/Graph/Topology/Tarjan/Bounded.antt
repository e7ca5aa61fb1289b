-- ===== src/Graph/Topology/Tarjan/Bounded.antt =====
-- crates/juncture-core/src/graph/topology.rs: the recursion of `TarjanSCC::visit` ends, since each
-- call numbers a name that had no number.
use juncture.Prelude.{
  ℕ, zero, suc, ◌≤◌, String, ◌≡◌, refl, ap, inl, inr, Bool, true, false, ◌||◌, Option, some, List,
  [], ◌∷◌, ◌++◌, arith, str_eq, eq_iff, eq_refl, if◌then◌else◌, Bool-cases, length, Map, lookup,
  insert, lookup-insert, contains_key, contains,
}
use juncture.Graph.Topology.{Edge, Adjacency, neighbors, all_neighbors}
use juncture.Pregel.Schedule.Dedup.{contains-append}
use juncture.Graph.Topology.Search.{Covers, Covers-all_neighbors}
use juncture.Graph.Topology.Tarjan.{
  TarjanScc, new, lower, enter, leave, relax, get_or_zero, same_index, pop_scc, visit_neighbors,
  visit, visit_nodes, cycle_adjacency, find_sccs,
}

contains_key-insert :
    (k u : String) (n : ℕ) (m : Map ℕ)
    → contains_key u (insert k n m) ≡ (str_eq k u || contains_key u m)
unfolding contains_key
contains_key-insert k u n m = ground (arith, lookup-insert k u n m)

-- How many of the names have no number yet.
unnumbered : List String → Map ℕ → ℕ
unnumbered [] m = 0
unnumbered (u ∷ us) m = let rest = unnumbered us m in if contains_key u m then rest else suc rest

unnumbered-le : (us : List String) (m : Map ℕ) → unnumbered us m ≤ length us
unfolding unnumbered
unnumbered-le [] m = omega arith
unnumbered-le (u ∷ us) m = ground (arith, unnumbered-le us m)

unnumbered-insert_le :
    (us : List String) (k : String) (n : ℕ) (m : Map ℕ)
    → unnumbered us (insert k n m) ≤ unnumbered us m
unfolding unnumbered
unnumbered-insert_le [] k n m = omega arith
unnumbered-insert_le (u ∷ us) k n m =
    ground (arith, unnumbered-insert_le us k n m, contains_key-insert k u n m)

unnumbered-insert :
    (us : List String) (k : String) (n : ℕ) (m : Map ℕ)
    → contains k us ≡ true
    → contains_key k m ≡ false
    → suc (unnumbered us (insert k n m)) ≤ unnumbered us m
unfolding unnumbered
unnumbered-insert [] k n m h f = ground arith
unnumbered-insert (u ∷ us) k n m h f = ground (
  arith,
  unnumbered-insert us k n m,
  unnumbered-insert_le us k n m,
  contains_key-insert k u n m,
  eq_iff u k,
  eq_iff k u,
)

indices-leave : (node : String) (t : TarjanScc) → (leave node t).indices ≡ t.indices
unfolding leave
indices-leave node t = go (same_index (lookup node t.lowlink) (lookup node t.indices))
  where
    go :
        (b : Bool)
        → (if b
            then record t {
              stack = (pop_scc node t.stack t.onstack []).0;
              onstack = (pop_scc node t.stack t.onstack []).1;
              sccs = t.sccs ++ (pop_scc node t.stack t.onstack []).2 ∷ [];
            }
            else t).indices
          ≡ t.indices
    go true = refl
    go false = refl

module _ (us : List String) where
  indices-relax :
      (node n : String) (t : TarjanScc)
      → unnumbered us (relax node n t).indices ≡ unnumbered us t.indices
  unfolding relax lower
  indices-relax node n t = elim (Bool-cases (contains n t.onstack)) [
    | inl e ↦ rw e refl
    | inr e ↦ rw e refl
  ]

  -- The call gives a result, and no name loses its number.
  Returns : Option TarjanScc → TarjanScc → Type 0
  Returns o t =
      (t' : TarjanScc) × (o ≡ some t') × (unnumbered us t'.indices ≤ unnumbered us t.indices)

  module _ (recur : String → TarjanScc → Option TarjanScc) (fuel : ℕ)
      (recur-returns : (n : String) (t : TarjanScc)
        → contains n us ≡ true
        → contains_key n t.indices ≡ false
        → unnumbered us t.indices ≤ fuel
        → Returns (recur n t) t) where
    visit_neighbors-Returns :
        (node : String) (ns : List String) (t : TarjanScc)
        → Covers us ns
        → unnumbered us t.indices ≤ fuel
        → Returns (visit_neighbors recur node ns t) t
    unfolding visit_neighbors Returns lower
    visit_neighbors-Returns node [] t c h = (t, refl, omega arith)
    visit_neighbors-Returns node (n ∷ ns) t c h = elim (Bool-cases (contains_key n t.indices)) [
      | inl e ↦
          let (t2, e2, l2) =
            visit_neighbors-Returns node ns (relax node n t) (λ v q. c v (ground arith))
              (omega (arith, indices-relax node n t, h)) in
          (t2, rw (visit_neighbors, e) e2, omega (arith, indices-relax node n t, l2))
      | inr e ↦
          let (t1, e1, l1) = recur-returns n t (c n (ground (arith, eq_refl n))) e h in
          let t2 = lower node (get_or_zero n t1.lowlink) t1 in
          let (t3, e3, l3) =
            visit_neighbors-Returns node ns t2 (λ v q. c v (ground arith)) (omega (arith, l1, h)) in
          (t3, rw (visit_neighbors, e, e1) e3, omega (arith, l1, l3))
    ]

  module _ (m : Adjacency) (covered : (u : String) → Covers us (neighbors m u)) where
    visit-Returns :
        (fuel : ℕ) (n : String) (t : TarjanScc)
        → contains n us ≡ true
        → contains_key n t.indices ≡ false
        → unnumbered us t.indices ≤ fuel
        → Returns (visit fuel m n t) t
    unfolding visit Returns enter
    visit-Returns zero n t q f h =
        absurd (omega (arith, unnumbered-insert us n t.index t.indices q f, h))
    visit-Returns (suc fuel) n t q f h =
        let fewer = unnumbered-insert us n t.index t.indices q f in
        let (t1, e1, l1) =
          visit_neighbors-Returns (visit fuel m) fuel (visit-Returns fuel) n (neighbors m n)
            (enter n t) (covered n) (omega (arith, fewer, h)) in
        (
          leave n t1,
          rw (visit, e1) refl,
          omega (arith, ap (unnumbered us) (indices-leave n t1), l1, fewer),
        )

    visit_nodes-returns :
        (fuel : ℕ) (ns : List String) (t : TarjanScc)
        → Covers us ns
        → unnumbered us t.indices ≤ fuel
        → (t' : TarjanScc) × (visit_nodes fuel m ns t ≡ some t')
    unfolding visit_nodes Returns
    visit_nodes-returns fuel [] t c h = (t, refl)
    visit_nodes-returns fuel (n ∷ ns) t c h = elim (Bool-cases (contains_key n t.indices)) [
      | inl e ↦
          let (t1, e1) = visit_nodes-returns fuel ns t (λ v q. c v (ground arith)) h in
          (t1, rw (visit_nodes, e) e1)
      | inr e ↦
          let (t1, e1, l1) = visit-Returns fuel n t (c n (ground (arith, eq_refl n))) e h in
          let (t2, e2) =
            visit_nodes-returns fuel ns t1 (λ v q. c v (ground arith)) (omega (arith, l1, h)) in
          (t2, rw (visit_nodes, e, e1) e2)
    ]

-- `find_sccs` ends on the fuel that the model gives it.
pub find_sccs-ends :
    {S : Type 0} (nodes : List String) (edges : List (Edge S))
    → (sccs : List (List String)) × (find_sccs nodes edges ≡ some sccs)
unfolding find_sccs
find_sccs-ends nodes edges =
    let m = cycle_adjacency nodes edges in
    let us = nodes ++ all_neighbors m in
    let covered : (u : String) → Covers us (neighbors m u) = λ u v q.
      ground (arith, contains-append v nodes (all_neighbors m), Covers-all_neighbors m u v q) in
    let (t, e) =
      visit_nodes-returns us m covered (length us) nodes new
        (λ v q. ground (arith, contains-append v nodes (all_neighbors m))) (unnumbered-le us []) in
    (t.sccs, rw (find_sccs, e) refl)
