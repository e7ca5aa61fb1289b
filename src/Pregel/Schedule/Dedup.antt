-- ===== src/Pregel/Schedule/Dedup.antt =====
-- A list of names without its repetitions, in the order of first occurrence.
use juncture.Prelude.{
  String, ◌≡◌, refl, sym, ap, ◌∙◌, inl, inr, true, false, ◌||◌, List, [], ◌∷◌, ◌++◌, arith, str_eq,
  eq_iff, if◌then◌else◌, Bool-cases, contains,
}

abbrev pub Distinct : List String → Type 0
Distinct [] = Unit {0}
Distinct (x ∷ xs) = (contains x xs ≡ false) × Distinct xs

unfoldable pub dedup_onto : List String → List String → List String
dedup_onto acc [] = acc
dedup_onto acc (x ∷ xs) = dedup_onto (if contains x acc then acc else acc ++ x ∷ []) xs

pub dedup_onto-append :
    (acc xs ys : List String) → dedup_onto acc (xs ++ ys) ≡ dedup_onto (dedup_onto acc xs) ys
unfolding dedup_onto
dedup_onto-append acc [] ys = refl
dedup_onto-append acc (x ∷ xs) ys =
    dedup_onto-append (if contains x acc then acc else acc ++ x ∷ []) xs ys

pub contains-append :
    (k : String) (xs ys : List String) → contains k (xs ++ ys) ≡ (contains k xs || contains k ys)
contains-append k [] ys = refl
contains-append k (x ∷ xs) ys = ground (arith, contains-append k xs ys)

pub contains_eq :
    (j k : String) (xs : List String) → j ≡ k → contains j xs ≡ true → contains k xs ≡ true
contains_eq j k xs e h = ap (λ (s : String). contains s xs) (sym e) ∙ h

contains-extend :
    (k x : String) (acc : List String)
    → contains k (if contains x acc then acc else acc ++ x ∷ []) ≡ (contains k acc || str_eq x k)
contains-extend k x acc = elim (Bool-cases (contains x acc)) [
  | inl e ↦ rw e (ground (arith, eq_iff x k, contains_eq x k acc))
  | inr e ↦ rw e (ground (arith, contains-append k acc (x ∷ [])))
]

-- Nothing is lost and nothing is added.
pub contains-dedup_onto :
    (k : String) (acc xs : List String)
    → contains k (dedup_onto acc xs) ≡ (contains k acc || contains k xs)
unfolding dedup_onto
contains-dedup_onto k acc [] = ground arith
contains-dedup_onto k acc (x ∷ xs) = ground (
  arith,
  contains-extend k x acc,
  contains-dedup_onto k (if contains x acc then acc else acc ++ x ∷ []) xs,
)

Distinct-snoc :
    (x : String) (xs : List String) → contains x xs ≡ false → Distinct xs → Distinct (xs ++ x ∷ [])
Distinct-snoc x [] h d = (refl, tt)
Distinct-snoc x (y ∷ ys) h d = (
  ground (arith, contains-append y ys (x ∷ []), eq_iff y x, eq_iff x y),
  Distinct-snoc x ys (ground arith) d.1,
)

pub Distinct-dedup_onto : (acc xs : List String) → Distinct acc → Distinct (dedup_onto acc xs)
unfolding dedup_onto
Distinct-dedup_onto acc [] d = d
Distinct-dedup_onto acc (x ∷ xs) d = elim (Bool-cases (contains x acc)) [
  | inl e ↦ rw (e, dedup_onto) (Distinct-dedup_onto acc xs d)
  | inr e ↦ rw (e, dedup_onto) (Distinct-dedup_onto (acc ++ x ∷ []) xs (Distinct-snoc x acc e d))
]
