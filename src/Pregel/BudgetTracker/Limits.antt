-- ===== src/Pregel/BudgetTracker/Limits.antt =====
-- When a tracker reports that a limit is exceeded.
use juncture.Prelude.{
  ℕ, ◌+◌, ◌^◌, ◌<◌, ◌≡◌, refl, ◌∙◌, ◌↔◌, Bool, true, false, Option, none, some, List, [], ◌∷◌,
  arith, ltb, if◌then◌else◌,
}
use mathlib.Core.Path.{subst}
use juncture.Pregel.BudgetTracker.{
  BudgetConfig, BudgetTracker, new_tracker, report_tokens, report_step, report_model_call,
  report_cost, report_usage, check, check_cost, check_duration, check_steps, tokens, cost, duration,
  steps,
}

-- What an execution reports.
pub data Report (F : Type 0) : Type 0 where
  used : ℕ → Report F
  spent : F → Report F
  stepped : Report F
  called : ℕ → ℕ → Report F
  billed : ℕ → F → Report F

module _ {F : Type 0} where
  abbrev pub tokens_of : Report F → ℕ
  tokens_of (used n) = n
  tokens_of (spent c) = 0
  tokens_of stepped = 0
  tokens_of (called input output) = input + output
  tokens_of (billed n c) = n

  abbrev pub steps_of : Report F → ℕ
  steps_of stepped = 1
  steps_of _ = 0

  abbrev pub total : (Report F → ℕ) → List (Report F) → ℕ
  total f [] = 0
  total f (r ∷ rs) = f r + total f rs

-- A limit that is absent, or not passed.
abbrev pub IsWithin : {A : Type 0} → (A → Bool) → Option A → Type 0
IsWithin over none = Unit
IsWithin over (some limit) = over limit ≡ false

module _ {F : Type 0} (to_micros : F → ℕ) where
  abbrev pub micros_of : Report F → ℕ
  micros_of (spent c) = to_micros c
  micros_of (billed n c) = to_micros c
  micros_of _ = 0

  abbrev report : BudgetTracker F → Report F → BudgetTracker F
  report t (used n) = report_tokens t n
  report t (spent c) = report_cost to_micros t c
  report t stepped = report_step t
  report t (called input output) = report_model_call t input output
  report t (billed n c) = report_usage to_micros t n c

  unfoldable pub reports : BudgetTracker F → List (Report F) → BudgetTracker F
  reports t [] = t
  reports t (r ∷ rs) = reports (report t r) rs

  -- No total passes 64 bits.
  abbrev pub Fits : BudgetTracker F → List (Report F) → Type 0
  Fits t rs =
      (t.tokens_used + total tokens_of rs < 2 ^ 64)
      × (t.cost_usd_micros + total micros_of rs < 2 ^ 64)
      × (t.steps_completed + total steps_of rs < 2 ^ 64)

  -- The totals of a tracker and its limits, after some reports to another.
  abbrev Totals : BudgetTracker F → BudgetTracker F → List (Report F) → Type 0
  Totals d t rs =
      (d.tokens_used ≡ t.tokens_used + total tokens_of rs)
      × (d.cost_usd_micros ≡ t.cost_usd_micros + total micros_of rs)
      × (d.steps_completed ≡ t.steps_completed + total steps_of rs)
      × (d.config ≡ t.config)

  report-Totals :
      (t : BudgetTracker F) (r : Report F) → Fits t (r ∷ []) → Totals (report t r) t (r ∷ [])
  unfolding report_tokens report_step report_model_call report_cost report_usage
  report-Totals t (used n) h = ground arith
  report-Totals t (spent c) h = ground arith
  report-Totals t stepped h = ground arith
  report-Totals t (called input output) h = ground arith
  report-Totals t (billed n c) h = ground arith

  reports-Totals :
      (t : BudgetTracker F) (rs : List (Report F)) → Fits t rs → Totals (reports t rs) t rs
  unfolding reports
  reports-Totals t [] h = ground arith
  reports-Totals t (r ∷ rs) h =
      let (a, b, c, d) = report-Totals t r (omega arith, omega arith, omega arith) in
      let (i, j, k, l) =
        reports-Totals (report t r) rs (omega (arith, a), omega (arith, b), omega (arith, c)) in
      (omega (arith, a, i), omega (arith, b, j), omega (arith, c, k), l ∙ d)

-- One of the tests of `check`.
test-none :
    {A B : Type 0} (over : A → Bool) (reason : A → B) (limit : Option A) (next : Option B)
    → (elim limit [ none ↦ next | some l ↦ if over l then some (reason l) else next ] ≡ none)
      ↔ (IsWithin over limit × (next ≡ none))
test-none over reason none next = (λ e. (tt, e), λ w. w.1)
test-none over reason (some l) next = go (over l)
  where
    go : (b : Bool) → ((if b then some (reason l) else next) ≡ none) ↔ ((b ≡ false) × (next ≡ none))
    go true = (λ e. absurd (ground arith), λ w. absurd (ground arith))
    go false = (λ e. (refl, e), λ w. w.1)

module _ {F : Type 0} (from_micros : ℕ → F) (exceeds : F → F → Bool) where
  -- No limit is passed by the amounts.
  abbrev pub Within : BudgetConfig F → ℕ → ℕ → ℕ → ℕ → Type 0
  Within config token_count micros elapsed step_count =
      IsWithin (λ (limit : ℕ). ltb limit token_count) config.max_tokens
      × IsWithin (λ (limit : F). exceeds (from_micros micros) limit) config.max_cost_usd
      × IsWithin (λ (limit : ℕ). ltb limit elapsed) config.max_duration
      × IsWithin (λ (limit : ℕ). ltb limit step_count) config.max_steps

  check-none :
      (t : BudgetTracker F) (elapsed : ℕ)
      → (check from_micros exceeds t elapsed ≡ none)
        ↔ Within t.config t.tokens_used t.cost_usd_micros elapsed t.steps_completed
  unfolding check
  check-none t elapsed =
      let by_tokens =
        test-none (λ (limit : ℕ). ltb limit t.tokens_used)
          (λ (limit : ℕ). tokens t.tokens_used limit) t.config.max_tokens
          (check_cost from_micros exceeds t elapsed) in
      let by_cost =
        test-none (λ (limit : F). exceeds (from_micros t.cost_usd_micros) limit)
          (λ (limit : F). cost (from_micros t.cost_usd_micros) limit) t.config.max_cost_usd
          (check_duration from_micros exceeds t elapsed) in
      let by_duration =
        test-none (λ (limit : ℕ). ltb limit elapsed) (λ (limit : ℕ). duration elapsed limit)
          t.config.max_duration (check_steps from_micros exceeds t elapsed) in
      let by_steps =
        test-none (λ (limit : ℕ). ltb limit t.steps_completed)
          (λ (limit : ℕ). steps t.steps_completed limit) t.config.max_steps none in
      (
        λ e.
            let (a, p) = by_tokens.0 e in
            let (b, q) = by_cost.0 p in let (c, r) = by_duration.0 q in (a, b, c, (by_steps.0 r).0),
        λ w.
            let (a, b, c, d) = w in
            by_tokens.1 (a, by_cost.1 (b, by_duration.1 (c, by_steps.1 (d, refl)))),
      )

  -- After any reports whose totals stay below 2^64, `check` finds nothing exactly when no limit of the
  -- configuration is passed by the sums of what was reported and by the time.
  pub check-reports :
      (to_micros : F → ℕ) (config : BudgetConfig F) (rs : List (Report F)) (elapsed : ℕ)
      → Fits to_micros (new_tracker config) rs
      → (check from_micros exceeds (reports to_micros (new_tracker config) rs) elapsed ≡ none)
        ↔ Within config
            (total tokens_of rs)
            (total (micros_of to_micros) rs)
            elapsed
            (total steps_of rs)
  check-reports to_micros config rs elapsed h =
      let (a, b, c, d) = reports-Totals to_micros (new_tracker config) rs h in
      let tracker = reports to_micros (new_tracker config) rs in
      let token_count : total tokens_of rs ≡ tracker.tokens_used = omega (arith, a) in
      let micros : total (micros_of to_micros) rs ≡ tracker.cost_usd_micros = omega (arith, b) in
      let step_count : total steps_of rs ≡ tracker.steps_completed = omega (arith, c) in
      rw (token_count, micros, step_count)
        (subst
          (λ (c : BudgetConfig F).
            (check from_micros exceeds tracker elapsed ≡ none)
            ↔ Within c tracker.tokens_used tracker.cost_usd_micros elapsed tracker.steps_completed)
          d (check-none tracker elapsed))
