-- ===== src/Pregel/Interrupts/Context.antt =====
-- crates/juncture-core/src/interrupt/context.rs and `__interrupt_impl` of interrupt/mod.rs: an
-- interrupt inside a node takes its resume value or sends a signal. The channel's receiver is kept
-- by the runner while the node runs, so that `send` does not fail. The counter is an atomic of 64
-- bits.
use juncture.Prelude.{
  ℕ, zero, suc, ◌+◌, ◌%◌, ◌^◌, ◌<◌, String, ◌≡◌, refl, sym, Option, none, some, List, [], ◌∷◌, ◌++◌,
  map, arith, length, get_or, drop,
}
use juncture.Prelude.Result.{Result, ok, err}
use juncture.Pregel.Types.{JunctureError, interrupted}
use juncture.Pregel.Interrupts.{InterruptSignal}

pub record InterruptContext (J : Type 0) : Type 0 where
  pub resume_values : List (Option J)
  pub current_index : ℕ
  pub sent : List (InterruptSignal J)

module _ {J : Type 0} where
  abbrev pub new_context : List (Option J) → InterruptContext J
  new_context resume_values = record { resume_values = resume_values; current_index = 0; sent = [] }

  -- The counter after `next_index`, which returns the counter before.
  unfoldable pub next_index : InterruptContext J → InterruptContext J × ℕ
  next_index ctx =
      (record ctx { current_index = (ctx.current_index + 1) % 2 ^ 64 }, ctx.current_index)

  unfoldable pub get_resume_value : InterruptContext J → ℕ → Option J
  get_resume_value ctx index = get_or ctx.resume_values index none

  unfoldable pub send_interrupt : InterruptContext J → InterruptSignal J → InterruptContext J
  send_interrupt ctx signal = record ctx { sent = ctx.sent ++ signal ∷ [] }

  module _ (interrupt_id : String → ℕ → String) where
    unfoldable pub interrupt_impl :
        InterruptContext J → J → Option String → InterruptContext J × Result JunctureError J
    interrupt_impl ctx payload id =
        let (counted, index) = next_index ctx in
        let chosen : String = elim id [
          | none ↦ interrupt_id "current_node" index
          | some name ↦ name
        ] in
        elim (get_resume_value counted index) [
          | some value ↦ (counted, ok value)
          | none ↦ (
            send_interrupt counted (record { index = index; id = some chosen; payload = payload }),
            err (interrupted index),
          )
        ]

    -- A node that interrupts once for each payload, in order, and returns at the first error.
    unfoldable pub interrupt_all :
        InterruptContext J
        → List (J × Option String)
        → InterruptContext J × Result JunctureError (List J)
    interrupt_all ctx [] = (ctx, ok [])
    interrupt_all ctx ((payload, id) ∷ rest) =
        let first = interrupt_impl ctx payload id in
        elim first.1 [
          | err e ↦ (first.0, err e)
          | ok value ↦
              let later = interrupt_all first.0 rest in
              (later.0, elim later.1 [ err e ↦ err e | ok values ↦ ok (value ∷ values) ])
        ]

no_wrap : (n : ℕ) → suc n < 2 ^ 64 → (n + 1) % 2 ^ 64 ≡ suc n
no_wrap n b = omega (arith, b)

module _ {A : Type 0} where
  -- What `drop` leaves starts with the element at the index.
  at_index :
      (i : ℕ) (xs ys : List A) (y d : A)
      → drop i xs ≡ y ∷ ys
      → (get_or xs i d ≡ y) × (drop (suc i) xs ≡ ys)
  at_index zero [] ys y d e = ground arith
  at_index zero (x ∷ xs) ys y d e = ground (arith, e)
  at_index (suc i) [] ys y d e = ground arith
  at_index (suc i) (x ∷ xs) ys y d e = at_index i xs ys y d e

  past_end : (i : ℕ) (xs : List A) (d : A) → drop i xs ≡ [] → get_or xs i d ≡ d
  past_end zero [] d e = refl
  past_end zero (x ∷ xs) d e = ground (arith, e)
  past_end (suc i) [] d e = refl
  past_end (suc i) (x ∷ xs) d e = past_end i xs d e

module _ {J : Type 0} (interrupt_id : String → ℕ → String) where
  -- The context after an interrupt that was resumed.
  abbrev advanced : InterruptContext J → InterruptContext J
  advanced ctx = record ctx { current_index = suc ctx.current_index }

  interrupt_impl-resumed :
      (ctx : InterruptContext J) (p : J) (id : Option String) (v : J)
      → get_or ctx.resume_values ctx.current_index none ≡ some v
      → suc ctx.current_index < 2 ^ 64
      → interrupt_impl interrupt_id ctx p id ≡ (advanced ctx, ok v)
  unfolding interrupt_impl next_index get_resume_value
  interrupt_impl-resumed ctx p id v e b = simp (interrupt_impl, e, no_wrap ctx.current_index b) refl

  interrupt_impl-waits :
      (ctx : InterruptContext J) (p : J) (id : Option String)
      → get_or ctx.resume_values ctx.current_index none ≡ none
      → (interrupt_impl interrupt_id ctx p id).1 ≡ err (interrupted ctx.current_index)
  unfolding interrupt_impl next_index get_resume_value
  interrupt_impl-waits ctx p id e = simp (interrupt_impl, e) refl

  -- The interrupts of a node take the resume values in order: where the values from the counter on
  -- begin with one for each interrupt, and the counter does not wrap, the node gets exactly these.
  pub interrupt_all-resumed :
      (ctx : InterruptContext J) (payloads : List (J × Option String)) (values : List J)
      → (rest : List (Option J))
      → drop ctx.current_index ctx.resume_values ≡ map (λ v. some v) values ++ rest
      → length payloads ≡ length values
      → ctx.current_index + length payloads < 2 ^ 64
      → (interrupt_all interrupt_id ctx payloads).1 ≡ ok values
  unfolding interrupt_all
  interrupt_all-resumed ctx [] [] rest e n b = refl
  interrupt_all-resumed ctx [] (v ∷ values) rest e n b = absurd (omega (arith, n))
  interrupt_all-resumed ctx (p ∷ payloads) [] rest e n b = absurd (omega (arith, n))
  interrupt_all-resumed ctx ((p, id) ∷ payloads) (v ∷ values) rest e n b =
      let (here, later) =
        at_index ctx.current_index ctx.resume_values (map (λ v. some v) values ++ rest) (some v)
          none e in
      let first = interrupt_impl-resumed ctx p id v here (omega (arith, b)) in
      let next =
        interrupt_all-resumed (advanced ctx) payloads values rest later (omega (arith, n))
          (omega (arith, b)) in
      simp (interrupt_all, first, next) refl

  -- Where the values begin with some that are given and then there is none, the node stops at that
  -- interrupt, with the error that carries its index.
  interrupt_all-waits :
      (ctx : InterruptContext J) (payloads : List (J × Option String)) (values : List J)
      → map (λ v. some v) values ≡ drop ctx.current_index ctx.resume_values
      → length values < length payloads
      → ctx.current_index + length payloads < 2 ^ 64
      → (interrupt_all interrupt_id ctx payloads).1
        ≡ err (interrupted (ctx.current_index + length values))
  unfolding interrupt_all
  interrupt_all-waits ctx [] values e n b = absurd (omega (arith, n))
  interrupt_all-waits ctx ((p, id) ∷ payloads) [] e n b =
      let first =
        interrupt_impl-waits ctx p id (past_end ctx.current_index ctx.resume_values none (sym e)) in
      let index : ctx.current_index + 0 ≡ ctx.current_index = omega arith in
      simp (interrupt_all, first, index) refl
  interrupt_all-waits ctx ((p, id) ∷ payloads) (v ∷ values) e n b =
      let (here, later) =
        at_index ctx.current_index ctx.resume_values (map (λ v. some v) values) (some v) none
          (sym e) in
      let first = interrupt_impl-resumed ctx p id v here (omega (arith, b)) in
      let next =
        interrupt_all-waits (advanced ctx) payloads values (sym later) (omega (arith, n))
          (omega (arith, b)) in
      let index : suc ctx.current_index + length values ≡ ctx.current_index + suc (length values) =
        omega arith in
      simp (interrupt_all, first, next, index) refl
