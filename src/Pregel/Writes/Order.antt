-- ===== src/Pregel/Writes/Order.antt =====
-- The order of the merge: sorting does not depend on the order in which the outputs arrive.
use juncture.Prelude.{
  ℕ, ◌≡◌, refl, sym, ◌∙◌, Bool, true, false, ◌&&◌, ◌||◌, List, [], ◌∷◌, arith, All, Map,
}
use mathlib.Core.List.{Permᴰ}
use mathlib.Core.Path.{subst, ap₂}
use juncture.Pregel.Types.{TaskTrigger, TaskOutput}
use juncture.Pregel.Writes.{before, precedes, insert_sorted, sort_outputs}

before-total : (s t : TaskTrigger) (a b : ℕ) → (before s t a b || before t s b a) ≡ true
unfolding before
before-total s t a b = ground arith

before_trans :
    (s t u : TaskTrigger) (a b c : ℕ)
    → before s t a b ≡ true
    → before t u b c ≡ true
    → before s u a c ≡ true
unfolding before
before_trans s t u a b c h k = ground arith

module _ {U J : Type 0} (node_registration : Map ℕ) where
  -- Neither of the two is fixed as the first.
  abbrev pub same_place : TaskOutput U J → TaskOutput U J → Bool
  same_place a b = precedes node_registration a b && precedes node_registration b a

  abbrev pub DistinctPlaces : List (TaskOutput U J) → Type 0
  DistinctPlaces [] = Unit {0}
  DistinctPlaces (a ∷ rest) = All (λ b. same_place a b ≡ false) rest × DistinctPlaces rest

  precedes-total :
      (a b : TaskOutput U J)
      → (precedes node_registration a b || precedes node_registration b a) ≡ true
  unfolding precedes
  precedes-total a b = before-total a.trigger b.trigger _ _

  precedes_trans :
      (a b c : TaskOutput U J)
      → precedes node_registration a b ≡ true
      → precedes node_registration b c ≡ true
      → precedes node_registration a c ≡ true
  unfolding precedes
  precedes_trans a b c h k = before_trans a.trigger b.trigger c.trigger _ _ _ h k

  insert_sorted_comm :
      (a b : TaskOutput U J) (l : List (TaskOutput U J))
      → same_place a b ≡ false
      → insert_sorted node_registration a (insert_sorted node_registration b l)
        ≡ insert_sorted node_registration b (insert_sorted node_registration a l)
  unfolding insert_sorted
  insert_sorted_comm a b [] h = ground (arith, precedes-total a b)
  insert_sorted_comm a b (c ∷ l) h = ground (
    arith,
    precedes-total a b,
    precedes_trans a b c,
    precedes_trans b a c,
    precedes_trans a c b,
    precedes_trans b c a,
    precedes-total a c,
    precedes-total b c,
    precedes_trans c a b,
    precedes_trans c b a,
    insert_sorted_comm a b l,
  )

  All-perm :
      (P : TaskOutput U J → Type 0) {xs ys : List (TaskOutput U J)}
      → Permᴰ xs ys
      → All P xs
      → All P ys
  All-perm P Permᴰ.nil h = h
  All-perm P (Permᴰ.cons e p) h = (subst P e h.0, All-perm P p h.1)
  All-perm P (Permᴰ.swap e d) h = (subst P d h.1.0, (subst P e h.0, h.1.1))
  All-perm P (Permᴰ.trans p q) h = All-perm P q (All-perm P p h)

  same_place_comm : (a b : TaskOutput U J) → same_place a b ≡ same_place b a
  same_place_comm a b = ground arith

  All-same_place :
      (a b : TaskOutput U J) (xs : List (TaskOutput U J))
      → a ≡ b
      → All (λ c. same_place a c ≡ false) xs
      → All (λ c. same_place b c ≡ false) xs
  All-same_place a b xs e h = subst (λ d. All (λ c. same_place d c ≡ false) xs) e h

  DistinctPlaces-perm :
      {xs ys : List (TaskOutput U J)} → Permᴰ xs ys → DistinctPlaces xs → DistinctPlaces ys
  DistinctPlaces-perm Permᴰ.nil h = h
  DistinctPlaces-perm (Permᴰ.cons {a} {b} {l₁} {l₂} e p) h = (
    All-same_place a b l₂ e (All-perm (λ c. same_place a c ≡ false) p h.0),
    DistinctPlaces-perm p h.1,
  )
  DistinctPlaces-perm (Permᴰ.swap {a} {b} {a'} {b'} {l} e d) h = (
    (ap₂ same_place (sym d) (sym e) ∙ same_place_comm b a ∙ h.0.0, All-same_place b a' l d h.1.0),
    (All-same_place a b' l e h.0.1, h.1.1),
  )
  DistinctPlaces-perm (Permᴰ.trans p q) h = DistinctPlaces-perm q (DistinctPlaces-perm p h)

  -- Outputs whose places are distinct are sorted to one list, in whatever order they arrive.
  pub sort_outputs-perm :
      {xs ys : List (TaskOutput U J)}
      → Permᴰ xs ys
      → DistinctPlaces xs
      → sort_outputs node_registration xs ≡ sort_outputs node_registration ys
  unfolding sort_outputs
  sort_outputs-perm Permᴰ.nil h = refl
  sort_outputs-perm (Permᴰ.cons e p) h =
      ap₂ (insert_sorted node_registration) e (sort_outputs-perm p h.1)
  sort_outputs-perm (Permᴰ.swap {a} {b} {a'} {b'} {l} e d) h =
      insert_sorted_comm a b (sort_outputs node_registration l) h.0.0
      ∙ ap₂
          (λ u v.
            insert_sorted node_registration u
              (insert_sorted node_registration v (sort_outputs node_registration l)))
          d e
  sort_outputs-perm (Permᴰ.trans p q) h =
      sort_outputs-perm p h ∙ sort_outputs-perm q (DistinctPlaces-perm p h)
