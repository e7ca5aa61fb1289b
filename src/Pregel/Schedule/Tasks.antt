-- ===== src/Pregel/Schedule/Tasks.antt =====
-- The tasks that `compute_next_tasks` returns: its PULL tasks and its PUSH tasks.
use juncture.Prelude.{
  ℕ, ◌+◌, String, ◌≡◌, refl, sym, ap, ◌∙◌, inl, inr, true, false, Option, some, List, [], ◌∷◌, ◌++◌,
  arith, Bool-cases, length, contains, add, contains-add,
}
use mathlib.Core.List.{append-nil, append_assoc}
use juncture.Prelude.Result.{Result, ok, err, ◌>>=◌, map_ok}
use juncture.Pregel.Types.{
  JunctureError, PendingTask, pull_task, push_task, SendTarget, Goto, stay, next, multiple, send,
  end, TaskOutput, TriggerTable,
}
use juncture.Pregel.Schedule.{
  TriggerToNodes, triggered_nodes, Frontier, edges_of, activate, activate_all, push_sends,
  route_output, route_outputs,
}
use juncture.Pregel.Schedule.Dedup.{dedup_onto, dedup_onto-append, contains-append}
use juncture.Pregel.Schedule.Requests.{
  pulls, pushes, numbered, sent_by, sent, edges_requests, output_requests, requests,
}
use juncture.Pregel.Schedule.Routing.{process_edges-eq}

module _ {S J : Type 0} where
  pulls-pull :
      (ts : List (PendingTask S J)) (id name : String)
      → pulls (ts ++ pull_task id name ∷ []) ≡ pulls ts ++ name ∷ []
  pulls-pull [] id name = refl
  pulls-pull (t ∷ ts) id name = ground (arith, pulls-pull ts id name)

  pushes-pull :
      (ts : List (PendingTask S J)) (id name : String)
      → pushes (ts ++ pull_task id name ∷ []) ≡ pushes ts
  pushes-pull [] id name = refl
  pushes-pull (t ∷ ts) id name = ground (arith, pushes-pull ts id name)

  pulls-push :
      (ts : List (PendingTask S J)) (id name : String) (i : ℕ) (j : J)
      → pulls (ts ++ push_task id name i j ∷ []) ≡ pulls ts
  pulls-push [] id name i j = refl
  pulls-push (t ∷ ts) id name i j = ground (arith, pulls-push ts id name i j)

  pushes-push :
      (ts : List (PendingTask S J)) (id name : String) (i : ℕ) (j : J)
      → pushes (ts ++ push_task id name i j ∷ []) ≡ pushes ts ++ (name, i, some j) ∷ []
  pushes-push [] id name i j = refl
  pushes-push (t ∷ ts) id name i j = ground (arith, pushes-push ts id name i j)

  -- The set of seen nodes holds the names of the PULL tasks.
  abbrev pub Fits : Frontier S J → Type 0
  Fits f = (k : String) → contains k f.seen_nodes ≡ contains k (pulls f.next_tasks)

  pub record Extends (f g : Frontier S J) (names : List String)
      (sends : List (String × ℕ × Option J)) : Type 0 where
    pub pulled : pulls g.next_tasks ≡ dedup_onto (pulls f.next_tasks) names
    pub pushed : pushes g.next_tasks ≡ pushes f.next_tasks ++ sends
    pub fits : Fits g

  Extends-none : (f : Frontier S J) → Fits f → Extends f f [] []
  unfolding dedup_onto
  Extends-none f h = record { pulled = refl; pushed = sym (append-nil _); fits = h }

  Extends-trans :
      (f g h : Frontier S J) (xs ys : List String) (ss ts : List (String × ℕ × Option J))
      → Extends f g xs ss
      → Extends g h ys ts
      → Extends f h (xs ++ ys) (ss ++ ts)
  Extends-trans f g h xs ys ss ts a b = record {
    pulled =
        b.pulled
        ∙ ap (λ (l : List String). dedup_onto l ys) a.pulled
        ∙ sym (dedup_onto-append (pulls f.next_tasks) xs ys);
    pushed =
        b.pushed
        ∙ ap (λ (l : List (String × ℕ × Option J)). l ++ ts) a.pushed
        ∙ append_assoc (pushes f.next_tasks) ss ts;
    fits = b.fits;
  }

  module _ (uuid : ℕ → String) where
    activate-seen :
        (t : String) (f : Frontier S J) → contains t f.seen_nodes ≡ true → activate uuid t f ≡ f
    unfolding activate
    activate-seen t f e = rw (e, activate)

    abbrev activated : String → Frontier S J → Frontier S J
    activated t f = record {
      next_tasks = f.next_tasks ++ pull_task (uuid (length f.next_tasks)) t ∷ [];
      seen_nodes = add t f.seen_nodes;
    }

    activate-new :
        (t : String) (f : Frontier S J)
        → contains t f.seen_nodes ≡ false
        → activate uuid t f ≡ activated t f
    unfolding activate
    activate-new t f e = rw (e, activate)

    activate-Extends :
        (t : String) (f : Frontier S J) → Fits f → Extends f (activate uuid t f) (t ∷ []) []
    unfolding dedup_onto
    activate-Extends t f h = elim (Bool-cases (contains t f.seen_nodes)) [
      | inl e ↦
          rw (activate-seen t f e)
            (record { pulled = rw (sym (h t) ∙ e); pushed = sym (append-nil _); fits = h })
      | inr e ↦ rw (activate-new t f e) (record {
        pulled = rw (sym (h t) ∙ e, pulls-pull f.next_tasks (uuid (length f.next_tasks)) t);
        pushed = pushes-pull f.next_tasks (uuid (length f.next_tasks)) t ∙ sym (append-nil _);
        fits = λ k.
            contains-add t k f.seen_nodes
            ∙ ground (
              arith,
              h k,
              ap (contains k) (pulls-pull f.next_tasks (uuid (length f.next_tasks)) t),
              contains-append k (pulls f.next_tasks) (t ∷ []),
            );
      })
    ]

    activate_all-Extends :
        (names : List String) (f : Frontier S J)
        → Fits f
        → Extends f (activate_all uuid names f) names []
    unfolding activate_all
    activate_all-Extends [] f h = Extends-none f h
    activate_all-Extends (t ∷ names) f h =
        let a = activate-Extends t f h in
        Extends-trans f (activate uuid t f) (activate_all uuid names (activate uuid t f)) (t ∷ [])
          names [] [] a (activate_all-Extends names (activate uuid t f) a.fits)

    push_sends-Extends :
        (idx : ℕ) (sends : List (SendTarget J)) (f : Frontier S J)
        → Fits f
        → Extends f (push_sends uuid idx sends f) [] (numbered idx sends)
    unfolding push_sends
    push_sends-Extends idx [] f h = Extends-none f h
    push_sends-Extends idx (t ∷ sends) f h =
        let id = uuid (length f.next_tasks) in
        let g = record f { next_tasks = f.next_tasks ++ push_task id t.node idx t.state ∷ [] } in
        let a : Extends f g [] ((t.node, idx, some t.state) ∷ []) = record {
          pulled = unfold dedup_onto in pulls-push f.next_tasks id t.node idx t.state;
          pushed = pushes-push f.next_tasks id t.node idx t.state;
          fits = λ k. h k ∙ sym (ap (contains k) (pulls-push f.next_tasks id t.node idx t.state));
        } in
        Extends-trans f g (push_sends uuid (idx + 1) sends g) [] []
          ((t.node, idx, some t.state) ∷ []) (numbered (idx + 1) sends) a
          (push_sends-Extends (idx + 1) sends g a.fits)

    -- Both succeed, and the frontier is extended as described, or both fail with one error.
    abbrev pub Routed :
        Frontier S J
        → Result JunctureError (Frontier S J)
        → Result JunctureError (List String)
        → List (String × ℕ × Option J)
        → Type 0
    Routed f (ok g) (ok names) sends = Extends f g names sends
    Routed f (err e) (err x) sends = e ≡ x
    Routed f _ _ sends = ⊥

    Routed-map_ok :
        (f : Frontier S J) (r : Result JunctureError (List String))
        → Fits f
        → Routed f (map_ok (λ names. activate_all uuid names f) r) r []
    Routed-map_ok f (ok names) h = activate_all-Extends names f h
    Routed-map_ok f (err e) h = refl

    module _ (nodes : List String) (table : TriggerTable S) (mapping : TriggerToNodes)
        (state : S) where
      route_output-Routed :
          (from : String) (goto : Goto J) (f : Frontier S J)
          → Fits f
          → Routed f
              (route_output uuid nodes table mapping state from goto f)
              (output_requests nodes table mapping state from goto)
              (sent_by goto)
      unfolding route_output output_requests
      route_output-Routed from stay f h =
          let triggered = triggered_nodes mapping (from ∷ []) in
          rw (process_edges-eq uuid nodes (edges_of table from) state triggered from f)
            (Routed-map_ok f (edges_requests nodes (edges_of table from) state triggered from) h)
      route_output-Routed from (next target) f h = activate-Extends target f h
      route_output-Routed from (multiple names) f h = activate_all-Extends names f h
      route_output-Routed from (send sends) f h = push_sends-Extends 0 sends f h
      route_output-Routed from end f h = Extends-none f h

      Routed-bind :
          (f : Frontier S J) (r : Result JunctureError (Frontier S J))
          (k : Frontier S J → Result JunctureError (Frontier S J))
          (names more : Result JunctureError (List String)) (ss ts : List (String × ℕ × Option J))
          → Routed f r names ss
          → ((g : Frontier S J) → Fits g → Routed g (k g) more ts)
          → Routed f (r >>= k) (names >>= λ ns. map_ok (λ ms. ns ++ ms) more) (ss ++ ts)
      Routed-bind f (ok g) k (ok ns) more ss ts a rest = both (k g) more (rest g a.fits)
        where
          both :
              (q : Result JunctureError (Frontier S J)) (m : Result JunctureError (List String))
              → Routed g q m ts
              → Routed f q (map_ok (λ ms. ns ++ ms) m) (ss ++ ts)
          both (ok u) (ok ms) b = Extends-trans f g u ns ms ss ts a b
          both (ok u) (err e) b = b
          both (err e) (ok ms) b = b
          both (err e) (err x) b = b
      Routed-bind f (ok g) k (err x) more ss ts a rest = absurd a
      Routed-bind f (err e) k (ok ns) more ss ts a rest = absurd a
      Routed-bind f (err e) k (err x) more ss ts a rest = a

      pub route_outputs-Routed :
          {U : Type 0} (outputs : List (TaskOutput U J)) (f : Frontier S J)
          → Fits f
          → Routed f
              (route_outputs uuid nodes table mapping state outputs f)
              (requests nodes table mapping state outputs)
              (sent outputs)
      unfolding route_outputs requests
      route_outputs-Routed [] f h = Extends-none f h
      route_outputs-Routed (o ∷ outputs) f h =
          Routed-bind f (route_output uuid nodes table mapping state o.node_name o.command.goto f)
            (λ g. route_outputs uuid nodes table mapping state outputs g)
            (output_requests nodes table mapping state o.node_name o.command.goto)
            (requests nodes table mapping state outputs) (sent_by o.command.goto) (sent outputs)
            (route_output-Routed o.node_name o.command.goto f h)
            (λ g fits. route_outputs-Routed outputs g fits)
