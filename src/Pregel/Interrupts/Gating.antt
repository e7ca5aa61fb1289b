-- ===== src/Pregel/Interrupts/Gating.antt =====
-- crates/juncture-core/src/interrupt/mod.rs: when `should_interrupt` gives signals.
use juncture.Prelude.{
  ℕ, String, ◌≡◌, refl, Bool, false, not, ◌&&◌, ◌||◌, List, [], ◌∷◌, arith, is_empty, any, Map,
  contains,
}
use juncture.Pregel.Types.{PendingTask}
use juncture.Pregel.Recovery.{is_some}
use juncture.Pregel.Interrupts.{
  InterruptSignal, is_hidden_node, any_updates, push_signal, add_signals, should_interrupt,
}

-- The task is one to interrupt for: its node is not hidden, and is in one of the two lists.
abbrev pub is_listed : {S J : Type 0} → List String → List String → PendingTask S J → Bool
is_listed interrupt_before interrupt_after task =
    not (is_hidden_node task.node_name [])
    && (contains task.node_name interrupt_before || contains task.node_name interrupt_after)

module _ {J : Type 0} (interrupt_id : String → ℕ → String) (payload : String → String → J) where
  is_empty-push_signal :
      (node reason : String) (signals : List (InterruptSignal J))
      → is_empty (push_signal interrupt_id payload node reason signals) ≡ false
  unfolding push_signal
  is_empty-push_signal node reason [] = refl
  is_empty-push_signal node reason (s ∷ signals) = refl

  is_empty-add_signals :
      {S : Type 0} (tasks : List (PendingTask S J)) (before after : List String)
      → (signals : List (InterruptSignal J))
      → is_empty (add_signals interrupt_id payload tasks before after signals)
        ≡ (is_empty signals && not (any (is_listed before after) tasks))
  unfolding add_signals
  is_empty-add_signals [] before after signals = ground arith
  is_empty-add_signals (task ∷ tasks) before after signals = ground (
    arith,
    is_empty-add_signals tasks before after signals,
    is_empty-add_signals tasks before after
        (push_signal interrupt_id payload task.node_name "interrupt_before" signals),
    is_empty-add_signals tasks before after
        (push_signal interrupt_id payload task.node_name "interrupt_after" signals),
    is_empty-add_signals tasks before after (
        push_signal interrupt_id payload task.node_name "interrupt_after"
          (push_signal interrupt_id payload task.node_name "interrupt_before" signals)),
    is_empty-push_signal task.node_name "interrupt_before" signals,
    is_empty-push_signal task.node_name "interrupt_after" signals,
    is_empty-push_signal task.node_name "interrupt_after"
        (push_signal interrupt_id payload task.node_name "interrupt_before" signals),
  )

  -- Signals are given exactly where some channel is newer than at the last interrupt, or there was
  -- none, and one of the given tasks belongs to a node that is not hidden and is in one of the two
  -- lists.
  pub is_some-should_interrupt :
      {S : Type 0} (tasks : List (PendingTask S J)) (before after : List String)
      → (versions seen : Map ℕ)
      → is_some (should_interrupt interrupt_id payload tasks before after versions seen)
        ≡ ((any_updates versions seen || is_empty seen) && any (is_listed before after) tasks)
  unfolding should_interrupt
  is_some-should_interrupt tasks before after versions seen =
      ground (arith, is_empty-add_signals tasks before after [])
