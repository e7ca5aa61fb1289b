-- ===== src/Graph/Topology/Search.antt =====
-- crates/juncture-core/src/graph/topology.rs: the breadth-first search of `check_reachability`
-- ends, and it visits the names that can be reached and no others.
use juncture.Prelude.{
  ℕ, zero, suc, ◌+◌, ◌≤◌, String, ◌≡◌, refl, sym, ap, ◌∙◌, ◌↔◌, inl, inr, Bool, true, false, not,
  ◌&&◌, ◌||◌, some, List, [], ◌∷◌, arith, str_eq, eq_iff, eq_refl, if◌then◌else◌, Bool-cases,
  length, length-append, lookup, contains,
}
use mathlib.Core.Path.{subst⁻¹}
use mathlib.Core.Option.{some-injective}
use juncture.Pregel.Schedule.Dedup.{contains-append, contains_eq}
use juncture.Graph.Topology.{
  Adjacency, neighbors, Bfs, visit_neighbor, visit_all, search, all_neighbors, enough_fuel,
}
use juncture.Graph.Topology.Links.{adjacent}

-- How many of the names are not visited yet.
unvisited : List String → List String → ℕ
unvisited [] visited = 0
unvisited (u ∷ us) visited =
    let rest = unvisited us visited in if contains u visited then rest else suc rest

unvisited-le : (us visited : List String) → unvisited us visited ≤ length us
unfolding unvisited
unvisited-le [] visited = omega arith
unvisited-le (u ∷ us) visited = ground (arith, unvisited-le us visited)

unvisited-cons_le :
    (us : List String) (n : String) (visited : List String)
    → unvisited us (n ∷ visited) ≤ unvisited us visited
unfolding unvisited
unvisited-cons_le [] n visited = omega arith
unvisited-cons_le (u ∷ us) n visited = ground (arith, unvisited-cons_le us n visited)

unvisited-cons :
    (us : List String) (n : String) (visited : List String)
    → contains n us ≡ true
    → contains n visited ≡ false
    → suc (unvisited us (n ∷ visited)) ≤ unvisited us visited
unfolding unvisited
unvisited-cons [] n visited h f = ground arith
unvisited-cons (u ∷ us) n visited h f =
    ground
      (arith, unvisited-cons us n visited, unvisited-cons_le us n visited, eq_iff u n, eq_iff n u)

pending : List String → Bfs → ℕ
pending us s = unvisited us s.visited + length s.queue

-- A visit moves a name from the unvisited ones to the queue.
pending-visit_neighbor :
    (us : List String) (n : String) (s : Bfs)
    → contains n us ≡ true
    → pending us (visit_neighbor n s) ≤ pending us s
unfolding pending visit_neighbor
pending-visit_neighbor us n s h = elim (Bool-cases (contains n s.visited)) [
  | inl e ↦ rw e (omega arith)
  | inr e ↦ rw e (omega (arith, unvisited-cons us n s.visited h e, length-append s.queue (n ∷ [])))
]

abbrev pub Covers : List String → List String → Type 0
Covers us vs = (v : String) → contains v vs ≡ true → contains v us ≡ true

pending-visit_all :
    (us ns : List String) (s : Bfs) → Covers us ns → pending us (visit_all ns s) ≤ pending us s
unfolding visit_all
pending-visit_all us [] s h = omega arith
pending-visit_all us (n ∷ ns) s h = omega (
  arith,
  pending-visit_neighbor us n s (h n (ground (arith, eq_refl n))),
  pending-visit_all us ns (visit_neighbor n s) (λ v q. h v (ground arith)),
)

pub Covers-all_neighbors : (m : Adjacency) (u : String) → Covers (all_neighbors m) (neighbors m u)
unfolding all_neighbors lookup
Covers-all_neighbors [] u v h = h
Covers-all_neighbors ((node, targets) ∷ rest) u v h =
    ground (arith, contains-append v targets (all_neighbors rest), Covers-all_neighbors rest u v)

search-returns :
    (m : Adjacency) (fuel : ℕ) (visited queue : List String)
    → pending (all_neighbors m) (record { visited = visited; queue = queue }) ≤ fuel
    → (found : List String) × (search fuel m visited queue ≡ some found)
unfolding search pending
search-returns m fuel visited [] h = (visited, refl)
search-returns m zero visited (current ∷ queue) h = absurd (go h)
  where
    go : pending (all_neighbors m) (record { visited = visited; queue = current ∷ queue }) ≤ 0 → ⊥
    go q = omega arith
search-returns m (suc fuel) visited (current ∷ queue) h =
    let s : Bfs = record { visited = visited; queue = queue } in
    let next = visit_all (neighbors m current) s in
    search-returns m fuel next.visited next.queue (
      go next (
        pending-visit_all (all_neighbors m) (neighbors m current) s
          (Covers-all_neighbors m current)))
  where
    go :
        (next : Bfs)
        → pending (all_neighbors m) next
          ≤ pending (all_neighbors m) (record { visited = visited; queue = queue })
        → pending (all_neighbors m) next ≤ fuel
    go next q = omega (arith, h)

-- The search from an entry, on the fuel that the model gives it, ends.
pub search-ends :
    (m : Adjacency) (entry : String)
    → (found : List String) × (search (enough_fuel m) m (entry ∷ []) (entry ∷ []) ≡ some found)
unfolding pending enough_fuel
search-ends m entry = search-returns m (enough_fuel m) (entry ∷ []) (entry ∷ []) go
  where
    go :
        pending (all_neighbors m) (record { visited = entry ∷ []; queue = entry ∷ [] })
        ≤ enough_fuel m
    go = omega (arith, unvisited-le (all_neighbors m) (entry ∷ []))

-- `v` is `entry`, or a chain of steps that `lead` allows ends in it.
pub data Reach (lead : String → String → Bool) (entry : String) : String → Type 0 where
  here : Reach lead entry entry
  step : (u v : String) → Reach lead entry u → lead u v ≡ true → Reach lead entry v

contains-visit_neighbor :
    (n v : String) (s : Bfs)
    → (contains v (visit_neighbor n s).visited ≡ (str_eq n v || contains v s.visited))
      × (contains v (visit_neighbor n s).queue
          ≡ (contains v s.queue || (str_eq n v && not (contains v s.visited))))
unfolding visit_neighbor
contains-visit_neighbor n v s = elim (Bool-cases (contains n s.visited)) [
  | inl e ↦ rw e (ground (arith, eq_iff n v, e, contains_eq n v s.visited))
  | inr e ↦
      rw e (
        ground
          (arith, eq_iff n v, e, contains_eq v n s.visited, contains-append v s.queue (n ∷ [])))
]

contains-visit_all :
    (ns : List String) (v : String) (s : Bfs)
    → (contains v (visit_all ns s).visited ≡ (contains v ns || contains v s.visited))
      × (contains v (visit_all ns s).queue
          ≡ (contains v s.queue || (contains v ns && not (contains v s.visited))))
unfolding visit_all
contains-visit_all [] v s = ground arith
contains-visit_all (n ∷ ns) v s =
    ground (arith, contains-visit_all ns v (visit_neighbor n s), contains-visit_neighbor n v s)

module _ (m : Adjacency) (entry : String) where
  -- Every visited name is reached, and what a visited name leads to is visited, unless the name
  -- still waits in the queue.
  record Inv (visited queue : List String) : Type 0 where
    entered : contains entry visited ≡ true
    sound : (v : String) → contains v visited ≡ true → Reach (adjacent m) entry v
    queued : (v : String) → contains v queue ≡ true → contains v visited ≡ true
    closed :
        (u v : String)
        → contains u visited ≡ true
        → adjacent m u v ≡ true
        → (contains u queue || contains v visited) ≡ true

  Inv-start : Inv (entry ∷ []) (entry ∷ [])
  Inv-start = record {
    entered = ground (arith, eq_refl entry);
    sound =
        λ v h. subst⁻¹ (Reach (adjacent m) entry) (sym ((eq_iff entry v).0 (ground arith))) here;
    queued = λ v h. h;
    closed = λ u v h a. ground arith;
  }

  Inv-expand :
      (current : String) (visited queue : List String) (s : Bfs)
      → Inv visited (current ∷ queue)
      → ((v : String)
          → (contains v s.visited ≡ (adjacent m current v || contains v visited))
            × (contains v s.queue
                ≡ (contains v queue || (adjacent m current v && not (contains v visited)))))
      → Inv s.visited s.queue
  Inv-expand current visited queue s i after =
      let reached = sound current (queued current (ground (arith, eq_refl current))) in
      record {
        entered = ground (arith, after entry, entered);
        sound = λ v h. elim (Bool-cases (adjacent m current v)) [
          | inl a ↦ step current v reached a
          | inr a ↦ sound v (ground (arith, after v))
        ];
        queued = λ v h. ground (arith, after v, queued v);
        closed = λ u v h a. elim (Bool-cases (str_eq current u)) [
          | inl c ↦
              ground
                (arith, after v, ap (λ (k : String). adjacent m k v) ((eq_iff current u).0 c) ∙ a)
          | inr c ↦ ground (arith, after u, after v, closed u v)
        ];
      }
    where
      open i use {entered, sound, queued, closed}

  Inv-search :
      (fuel : ℕ) (visited queue found : List String)
      → Inv visited queue
      → search fuel m visited queue ≡ some found
      → Inv found []
  unfolding search
  Inv-search fuel visited [] found i e = rw (sym (some-injective visited found e)) i
  Inv-search zero visited (current ∷ queue) found i e = absurd (ground arith)
  Inv-search (suc fuel) visited (current ∷ queue) found i e =
      let s : Bfs = record { visited = visited; queue = queue } in
      let s' = visit_all (neighbors m current) s in
      Inv-search fuel s'.visited s'.queue found
        (Inv-expand current visited queue s' i (λ v. contains-visit_all (neighbors m current) v s))
        e

  reached-found :
      (found : List String)
      → Inv found []
      → (v : String) → Reach (adjacent m) entry v
      → contains v found ≡ true
  reached-found found i _ here = i.entered
  reached-found found i _ (step u v r a) =
      ground (arith, i.closed u v (reached-found found i u r) a)

  -- What the search returns is exactly what can be reached.
  pub contains-search :
      (fuel : ℕ) (found : List String)
      → search fuel m (entry ∷ []) (entry ∷ []) ≡ some found
      → (v : String) → (contains v found ≡ true) ↔ Reach (adjacent m) entry v
  contains-search fuel found e v =
      let i = Inv-search fuel (entry ∷ []) (entry ∷ []) found Inv-start e in
      (i.sound v, reached-found found i v)
