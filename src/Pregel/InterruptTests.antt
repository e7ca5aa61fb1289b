-- ===== src/Pregel/InterruptTests.antt =====
-- Interrupts at concrete inputs. The JSON values are strings.
use juncture.Prelude.{
  ℕ, String, ◌≡◌, refl, false, ◌&&◌, ◌||◌, Option, none, some, List, [], ◌∷◌, arith, get_elem?, any,
}
use juncture.Prelude.Result.{ok}
use juncture.Pregel.Types.{PendingTask, pull_task}
use juncture.Pregel.Recovery.{is_some}
use juncture.Pregel.Interrupts.{InterruptSignal, new_scratchpad, any_updates, should_interrupt}
use juncture.Pregel.Interrupts.Gating.{is_listed, is_some-should_interrupt}
use juncture.Pregel.Interrupts.Resuming.{
  from_values, extract_namespace, find_colon, match_resume_to_interrupts,
  match_resume_to_interrupts-from_values,
}
use juncture.Pregel.GateTests.{tally, tally-injective}
use juncture.Pregel.Interrupts.Context.{new_context, interrupt_all, interrupt_all-resumed}

abbrev interrupt_id : String → ℕ → String
interrupt_id node index = node

abbrev payload : String → String → String
payload node reason = reason

abbrev tasks : List (PendingTask ℕ String)
tasks = pull_task "1" "review" ∷ pull_task "2" "__route__" ∷ []

is_some-should_interrupt_example :
    is_some (
      should_interrupt interrupt_id payload tasks
        ("review" ∷ [])
        []
        (("field_0", 2) ∷ [])
        (("field_0", 1) ∷ []))
    ≡ ((any_updates (("field_0", 2) ∷ []) (("field_0", 1) ∷ []) || false)
        && any (is_listed ("review" ∷ []) []) tasks)
is_some-should_interrupt_example =
    is_some-should_interrupt interrupt_id payload tasks ("review" ∷ []) [] (("field_0", 2) ∷ [])
      (("field_0", 1) ∷ [])

-- The second interrupt that waits has the namespace `i`, the text of 1, and gets the value number 1.
abbrev named : InterruptSignal String
named = record { index = 1; id = some "i:def"; payload = "second" }

abbrev waiting : List (InterruptSignal String)
waiting = record { index = 0; id = some "abc"; payload = "first" } ∷ named ∷ []

match_resume_to_interrupts-from_values_example :
    get_elem?
      (match_resume_to_interrupts "null" new_scratchpad
        (some (from_values tally "null" ("no" ∷ "yes" ∷ [])))
        waiting)
      1
    ≡ some (some "yes")
unfolding extract_namespace find_colon tally
match_resume_to_interrupts-from_values_example =
    match_resume_to_interrupts-from_values tally tally-injective "null" new_scratchpad "no" "yes" []
      waiting 1 1 named "i:def" "yes" refl refl refl refl

abbrev resumed : List (Option String)
resumed = some "yes" ∷ some "no" ∷ none ∷ []

abbrev asked : List (String × Option String)
asked = ("first", none) ∷ ("second", none) ∷ []

interrupt_all-resumed_example :
    (interrupt_all interrupt_id (new_context resumed) asked).1 ≡ ok ("yes" ∷ "no" ∷ [])
interrupt_all-resumed_example =
    interrupt_all-resumed interrupt_id (new_context resumed) asked ("yes" ∷ "no" ∷ []) (none ∷ [])
      refl refl (omega arith)
