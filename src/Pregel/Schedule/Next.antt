-- ===== src/Pregel/Schedule/Next.antt =====
-- What `compute_next_tasks` returns, as a whole.
use juncture.Prelude.{ℕ, String, ◌≡◌, refl, sym, ap, ◌∙◌, List, []}
use mathlib.Core.Path.{subst}
use juncture.Prelude.Result.{Result, ok, err, ◌>>=◌, map_ok}
use juncture.Pregel.Types.{JunctureError, PendingTask, TaskOutput, TriggerTable}
use juncture.Pregel.Schedule.{
  TriggerToNodes, Frontier, empty_frontier, route_outputs, compute_next_tasks,
}
use juncture.Pregel.Schedule.Dedup.{dedup_onto, Distinct, Distinct-dedup_onto}
use juncture.Pregel.Schedule.Requests.{pulls, pushes, sent, requests}
use juncture.Pregel.Schedule.Tasks.{Routed, route_outputs-Routed}

module _ {S U J : Type 0} (uuid : ℕ → String) (nodes : List String) (table : TriggerTable S)
    (mapping : TriggerToNodes) (state : S) (outputs : List (TaskOutput U J)) where
  abbrev routed : Result JunctureError (Frontier S J)
  routed = route_outputs uuid nodes table mapping state outputs empty_frontier

  all_routed :
      Routed uuid empty_frontier routed (requests nodes table mapping state outputs) (sent outputs)
  all_routed =
      route_outputs-Routed uuid nodes table mapping state outputs empty_frontier (λ k. refl)

  -- The PULL tasks are the nodes that the outputs ask for, without repetitions and in order of
  -- first request; where the requests fail with an error, the function fails with that error.
  pub compute_next_tasks-pulls :
      map_ok pulls (compute_next_tasks uuid nodes table mapping state outputs)
      ≡ map_ok (dedup_onto []) (requests nodes table mapping state outputs)
  unfolding compute_next_tasks
  compute_next_tasks-pulls = go routed (requests nodes table mapping state outputs) all_routed
    where
      go :
          (r : Result JunctureError (Frontier S J)) (q : Result JunctureError (List String))
          → Routed uuid empty_frontier r q (sent outputs)
          → map_ok pulls (r >>= λ f. ok f.next_tasks) ≡ map_ok (dedup_onto []) q
      go (ok g) (ok names) h = ap ok h.pulled
      go (ok g) (err e) h = absurd h
      go (err e) (ok names) h = absurd h
      go (err e) (err x) h = ap err h

  module _ (tasks : List (PendingTask S J))
      (returned : compute_next_tasks uuid nodes table mapping state outputs ≡ ok tasks) where
    -- The PUSH tasks of a successful call are the sends of the outputs, all of them and in order,
    -- each with its index in its own command and its state.
    pub compute_next_tasks-pushes : pushes tasks ≡ sent outputs
    unfolding compute_next_tasks
    compute_next_tasks-pushes =
        go routed (requests nodes table mapping state outputs) all_routed returned
      where
        go :
            (r : Result JunctureError (Frontier S J)) (q : Result JunctureError (List String))
            → Routed uuid empty_frontier r q (sent outputs)
            → (r >>= λ f. ok f.next_tasks) ≡ ok tasks
            → pushes tasks ≡ sent outputs
        go (ok g) (ok names) h e = let same : g.next_tasks ≡ tasks = cc in rw (← same) h.pushed
        go (ok g) (err x) h e = absurd h
        go (err x) q h e = cc

    -- In a successful call no node has two PULL tasks.
    pub compute_next_tasks-Distinct : Distinct (pulls tasks)
    compute_next_tasks-Distinct =
        go (requests nodes table mapping state outputs)
          (ap (map_ok pulls) (sym returned) ∙ compute_next_tasks-pulls)
      where
        go :
            (q : Result JunctureError (List String))
            → ok (pulls tasks) ≡ map_ok (dedup_onto []) q
            → Distinct (pulls tasks)
        go (ok names) e = subst Distinct (cc) (Distinct-dedup_onto [] names tt)
        go (err x) e = cc
