-- ===== src/Pregel/Interrupts/Resuming.antt =====
-- crates/juncture-core/src/pregel/runner.rs and interrupt/mod.rs: how resume values are matched to
-- the interrupts that wait for one. `null` is the JSON null, and `show` the text of a number.
use juncture.Prelude.{
  ℕ, zero, suc, ◌+◌, String, ◌≡◌, refl, sym, ap, ◌∙◌, ◌↔◌, inl, inr, Bool, true, Option, none, some,
  List, [], ◌∷◌, map, arith, str_eq, eq_iff, eq_refl, if◌then◌else◌, Bool-cases, is_empty,
  get_elem?, all, Map, lookup, contains_key,
}
use Prim.Native.String.{slice, len}
use mathlib.Core.Option.{some-injective}
use native.Mathlib.Nat.{add-zero}
use juncture.Prelude.Result.{ok}
use juncture.Pregel.Interrupts.{
  InterruptSignal, Scratchpad, get_null_resume, uncovered, validate_resume_coverage,
}

pub data ResumeValue (J : Type 0) : Type 0 where
  single : J → ResumeValue J
  by_id : Map J → ResumeValue J
  by_namespace : Map J → ResumeValue J

-- The position of the first colon from `i` on, with `n` bytes left to look at.
unfoldable pub find_colon : String → ℕ → ℕ → Option ℕ
find_colon id i zero = none
find_colon id i (suc n) =
    let later = find_colon id (i + 1) n in if str_eq (slice id i (i + 1)) ":" then some i else later

unfoldable pub extract_namespace : String → Option String
extract_namespace interrupt_id = elim (find_colon interrupt_id 0 (len interrupt_id)) [
  | none ↦ none
  | some zero ↦ none
  | some (suc n) ↦ some (slice interrupt_id 0 (suc n))
]

-- The pairs of `iter.enumerate()`, the first with number `i`.
unfoldable pub indexed : {J : Type 0} → (ℕ → String) → ℕ → List J → Map J
indexed show i [] = []
indexed show i (v ∷ values) = (show i, v) ∷ indexed show (i + 1) values

-- `ResumeValue::from` of a vector.
unfoldable pub from_values : {J : Type 0} → (ℕ → String) → J → List J → ResumeValue J
from_values show null [] = single null
from_values show null (v ∷ []) = single v
from_values show null (v ∷ w ∷ values) = by_namespace (indexed show 0 (v ∷ w ∷ values))

module _ {J : Type 0} (null : J) (pad : Scratchpad J) where
  -- The null of an interrupt that is processed already.
  unfoldable pub null_resume : String → Option J
  null_resume id = if get_null_resume pad id then some null else none

  unfoldable pub match_single : J → InterruptSignal J → Option J
  match_single value signal = elim signal.id [
    | none ↦ some value
    | some id ↦ if get_null_resume pad id then some null else some value
  ]

  unfoldable pub match_id : Map J → InterruptSignal J → Option J
  match_id values signal = elim signal.id [
    | none ↦ none
    | some id ↦ elim (lookup id values) [ some value ↦ some value | none ↦ null_resume id ]
  ]

  unfoldable pub match_namespace : Map J → InterruptSignal J → Option J
  match_namespace values signal = elim signal.id [
    | none ↦ none
    | some id ↦ elim (extract_namespace id) [
      | none ↦ null_resume id
      | some ns ↦ elim (lookup ns values) [ some value ↦ some value | none ↦ null_resume id ]
    ]
  ]

  unfoldable pub match_resume_to_interrupts :
      Option (ResumeValue J) → List (InterruptSignal J) → List (Option J)
  match_resume_to_interrupts none pending = []
  match_resume_to_interrupts (some (single value)) [] = some value ∷ []
  match_resume_to_interrupts (some (single value)) (s ∷ pending) =
      map (match_single value) (s ∷ pending)
  match_resume_to_interrupts (some (by_id values)) pending = map (match_id values) pending
  match_resume_to_interrupts (some (by_namespace values)) pending =
      map (match_namespace values) pending

-- Each value that a position takes is given for it.
abbrev pub is_given : {J : Type 0} → Map J → InterruptSignal J → Bool
is_given values signal = elim signal.id [ none ↦ true | some id ↦ contains_key id values ]

is_empty-uncovered :
    {J : Type 0} (pending : List (InterruptSignal J)) (values : Map J)
    → is_empty (uncovered pending values) ≡ all (is_given values) pending
unfolding uncovered
is_empty-uncovered [] values = refl
is_empty-uncovered (s ∷ pending) values = ground (arith, is_empty-uncovered pending values)

-- `validate_resume_coverage` accepts the values exactly where each named interrupt that waits has
-- one of its own.
validate_resume_coverage-is_given :
    {J : Type 0} (pending : List (InterruptSignal J)) (values : Map J)
    → (validate_resume_coverage pending values ≡ ok tt) ↔ (all (is_given values) pending ≡ true)
unfolding validate_resume_coverage
validate_resume_coverage-is_given pending values =
    let same = is_empty-uncovered pending values in
    (λ e. ground (arith, same, e), λ e. ground (arith, same, e))

get_elem?-map :
    {A B : Type 0} (f : A → B) (xs : List A) (n : ℕ) (x : A)
    → get_elem? xs n ≡ some x
    → get_elem? (map f xs) n ≡ some (f x)
get_elem?-map f [] n x h = ground arith
get_elem?-map f (y ∷ xs) zero x h = ap (λ a. some (f a)) (some-injective y x h)
get_elem?-map f (y ∷ xs) (suc n) x h = get_elem?-map f xs n x h

module _ {J : Type 0} (show : ℕ → String) (injective : (i j : ℕ) → show i ≡ show j → i ≡ j) where
  lookup-indexed :
      (i k : ℕ) (values : List J)
      → lookup (show (i + k)) (indexed show i values) ≡ get_elem? values k
  unfolding lookup indexed
  lookup-indexed i k [] = refl
  lookup-indexed i zero (v ∷ values) = rw (add-zero, eq_refl (show i), lookup) refl
  lookup-indexed i (suc k) (v ∷ values) = elim (Bool-cases (str_eq (show i) (show (i + suc k)))) [
    | inl e ↦
        let same : i ≡ i + suc k = injective i (i + suc k) ((eq_iff _ _).0 e) in
        absurd (omega (arith, same))
    | inr e ↦
        let next : i + suc k ≡ i + 1 + k = omega arith in
        rw e (
          ap (λ (m : ℕ). lookup (show m) (indexed show (i + 1) values)) next
          ∙ lookup-indexed (i + 1) k values)
  ]

  match_namespace-indexed :
      (null : J) (pad : Scratchpad J) (values : List J) (k : ℕ) (value : J) (s : InterruptSignal J)
      (id : String)
      → s.id ≡ some id
      → extract_namespace id ≡ some (show k)
      → get_elem? values k ≡ some value
      → match_namespace null pad (indexed show 0 values) s ≡ some value
  unfolding match_namespace
  match_namespace-indexed null pad values k value s id named namespace held =
      let number : 0 + k ≡ k = omega arith in
      let found : lookup (show k) (indexed show 0 values) ≡ some value =
        ap (λ (m : ℕ). lookup (show m) (indexed show 0 values)) (sym number)
        ∙ lookup-indexed 0 k values
        ∙ held in
      rw (named, match_namespace, namespace, found) refl

  -- A vector of two or more resume values is matched by namespace: an interrupt whose namespace is
  -- the text of `k` gets the value number `k`, which the vector has, at whatever position the
  -- interrupt itself stands. Different numbers have different texts.
  pub match_resume_to_interrupts-from_values :
      (null : J) (pad : Scratchpad J) (v w : J) (values : List J)
      (pending : List (InterruptSignal J)) (n k : ℕ) (s : InterruptSignal J) (id : String)
      (value : J)
      → get_elem? pending n ≡ some s
      → s.id ≡ some id
      → extract_namespace id ≡ some (show k)
      → get_elem? (v ∷ w ∷ values) k ≡ some value
      → get_elem?
          (match_resume_to_interrupts null pad
            (some (from_values show null (v ∷ w ∷ values)))
            pending)
          n
        ≡ some (some value)
  unfolding match_resume_to_interrupts from_values
  match_resume_to_interrupts-from_values null pad v w values pending n k s id value here named
        namespace held =
      let given = indexed show 0 (v ∷ w ∷ values) in
      get_elem?-map (match_namespace null pad given) pending n s here
      ∙ ap (λ (o : Option J). some o)
          (match_namespace-indexed null pad (v ∷ w ∷ values) k value s id named namespace held)
