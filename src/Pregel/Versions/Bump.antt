-- ===== src/Pregel/Versions/Bump.antt =====
-- What `bump_all` does to the versions.
use juncture.Prelude.{
  ℕ, zero, suc, ◌+◌, ◌≤◌, ◌<◌, min, ◌≡◌, refl, sym, ap, ◌∙◌, ◌≢◌, inl, inr, Bool, true, false, none,
  some, List, [], ◌∷◌, arith, leb, ◌==◌, if◌then◌else◌, ==_iff, Bool-cases, length, get_or, set,
  replicate, All, length-set, get_or-set_self, get_or-set_ne,
}
use mathlib.Core.Path.{subst}
use juncture.State.Fields.{FieldsChanged, has_field}
use juncture.Pregel.Versions.{
  u64_max, FieldVersionTracker, new_tracker, bump, bump_from, bump_all, version,
}

-- No version is above `global_max`, which fits 64 bits.
pub record IsValid (t : FieldVersionTracker) : Type 0 where
  pub below : All (λ v. v ≤ t.global_max) t.versions
  pub fits : t.global_max ≤ u64_max

All-le : (xs : List ℕ) (a b : ℕ) → a ≤ b → All (λ v. v ≤ a) xs → All (λ v. v ≤ b) xs
All-le [] a b h p = tt
All-le (x ∷ xs) a b h p = (omega arith, All-le xs a b h p.1)

All-set : (xs : List ℕ) (i v m : ℕ) → v ≤ m → All (λ x. x ≤ m) xs → All (λ x. x ≤ m) (set xs i v)
All-set [] i v m h p = tt
All-set (x ∷ xs) zero v m h p = (h, p.1)
All-set (x ∷ xs) (suc i) v m h p = (p.0, All-set xs i v m h p.1)

All-replicate : (n m : ℕ) → All (λ x. x ≤ m) (replicate n 0)
All-replicate zero m = tt
All-replicate (suc n) m = (omega arith, All-replicate n m)

pub get_or-le : (xs : List ℕ) (i m : ℕ) → All (λ x. x ≤ m) xs → get_or xs i 0 ≤ m
get_or-le [] i m p = omega arith
get_or-le (x ∷ xs) zero m p = p.0
get_or-le (x ∷ xs) (suc i) m p = get_or-le xs i m p.1

bump-IsValid : (t : FieldVersionTracker) (i : ℕ) → IsValid t → IsValid (bump t i)
unfolding bump
bump-IsValid t i v = record {
  below =
      let next = min (t.global_max + 1) u64_max in
      All-set t.versions i next next (omega arith)
        (All-le t.versions t.global_max next (omega (arith, v.fits)) v.below);
  fits = omega arith;
}

bump_from-IsValid :
    (c : FieldsChanged) (n i : ℕ) (t : FieldVersionTracker)
    → IsValid t
    → IsValid (bump_from c n i t)
unfolding bump_from
bump_from-IsValid c zero i t v = v
bump_from-IsValid c (suc n) i t v = bump_from-IsValid c n (i + 1) _ (grind (arith, bump-IsValid))

-- A valid tracker, whose versions are all at most its `global_max` and whose `global_max` fits 64
-- bits, is valid after any bump, also where the counter saturates.
pub bump_all-IsValid :
    (t : FieldVersionTracker) (c : FieldsChanged) → IsValid t → IsValid (bump_all t c)
unfolding bump_all
bump_all-IsValid t c v = bump_from-IsValid c (length t.versions) 0 t v

pub new_tracker-IsValid : (n : ℕ) (t : FieldVersionTracker) → new_tracker n ≡ some t → IsValid t
unfolding new_tracker
new_tracker-IsValid n t h = go (leb n 64) h
  where
    go :
        (b : Bool)
        → (if b then some (record { versions = replicate n 0; global_max = 0 }) else none) ≡ some t
        → IsValid t
    go true e = subst IsValid (cc) (record { below = All-replicate n 0; fits = omega arith })
    go false e = cc

length-bump : (t : FieldVersionTracker) (i : ℕ) → length (bump t i).versions ≡ length t.versions
unfolding bump
length-bump t i = length-set t.versions i (min (t.global_max + 1) u64_max)

version-bump_self :
    (t : FieldVersionTracker) (i : ℕ)
    → i < length t.versions
    → t.global_max < u64_max
    → version (bump t i) i ≡ t.global_max + 1
unfolding bump
version-bump_self t i h l =
    rw (get_or-set_self t.versions i (min (t.global_max + 1) u64_max) 0 h) (omega arith)

version-bump_ne : (t : FieldVersionTracker) (i j : ℕ) → i ≢ j → version (bump t i) j ≡ version t j
unfolding bump
version-bump_ne t i j h = get_or-set_ne t.versions i j (min (t.global_max + 1) u64_max) 0 h

global_max-bump :
    (t : FieldVersionTracker) (i : ℕ)
    → t.global_max < u64_max
    → (bump t i).global_max ≡ t.global_max + 1
unfolding bump
global_max-bump t i l = omega arith

bump_from-changed :
    (c : FieldsChanged) (n i : ℕ) (t : FieldVersionTracker)
    → has_field c i ≡ true
    → bump_from c (suc n) i t ≡ bump_from c n (i + 1) (bump t i)
unfolding bump_from
bump_from-changed c n i t h = rw (h, bump_from)

-- The fields that the rest of the loop does not reach keep their versions.
version-bump_from_past :
    (c : FieldsChanged) (n i j : ℕ) (t : FieldVersionTracker)
    → j < i
    → version (bump_from c n i t) j ≡ version t j
unfolding bump_from
version-bump_from_past c zero i j t h = refl
version-bump_from_past c (suc n) i j t h = elim (Bool-cases (has_field c i)) [
  | inl e ↦
      rw (e, bump_from)
        (version-bump_from_past c n (i + 1) j (bump t i) (omega arith)
          ∙ version-bump_ne t i j (omega arith))
  | inr e ↦ rw (e, bump_from) (version-bump_from_past c n (i + 1) j t (omega arith))
]

version-bump_from_same :
    (c : FieldsChanged) (n i j : ℕ) (t : FieldVersionTracker)
    → has_field c j ≡ false
    → version (bump_from c n i t) j ≡ version t j
unfolding bump_from
version-bump_from_same c zero i j t h = refl
version-bump_from_same c (suc n) i j t h = elim (Bool-cases (has_field c i)) [
  | inl e ↦
      rw (e, bump_from)
        (version-bump_from_same c n (i + 1) j (bump t i) h
          ∙ version-bump_ne t i j (λ p. cc (ap (has_field c) p)))
  | inr e ↦ rw (e, bump_from) (version-bump_from_same c n (i + 1) j t h)
]

-- One round of the loop at a field before `j`.
version-bump_from_later :
    (c : FieldsChanged) (n i j : ℕ) (t : FieldVersionTracker)
    → i ≤ j
    → j < i + suc n
    → j < length t.versions
    → t.global_max + suc n ≤ u64_max
    → i ≢ j
    → ((u : FieldVersionTracker)
        → j < length u.versions
        → u.global_max + n ≤ u64_max
        → u.global_max < version (bump_from c n (i + 1) u) j)
    → t.global_max < version (bump_from c (suc n) i t) j
unfolding bump_from
version-bump_from_later c n i j t a b l r ne rest = elim (Bool-cases (has_field c i)) [
  | inl e ↦ rw (bump_from-changed c n i t e) (
      omega (
        arith,
        global_max-bump t i (omega arith),
        rest (bump t i) (omega (arith, length-bump t i))
            (omega (arith, global_max-bump t i (omega arith))),
      ))
  | inr e ↦
      subst (λ u. t.global_max < version (bump_from c n (i + 1) u) j) (rw e)
        (rest t l (omega arith))
]

version-bump_from_changed :
    (c : FieldsChanged) (n i j : ℕ) (t : FieldVersionTracker)
    → has_field c j ≡ true
    → i ≤ j
    → j < i + n
    → j < length t.versions
    → t.global_max + n ≤ u64_max
    → t.global_max < version (bump_from c n i t) j
unfolding bump_from
version-bump_from_changed c zero i j t h a b l r = absurd (omega arith)
version-bump_from_changed c (suc n) i j t h a b l r = elim (Bool-cases (i == j)) [
  | inl same ↦
      subst (λ k. t.global_max < version (bump_from c (suc n) k t) j) (sym ((==_iff i j).0 same))
        (rw (bump_from-changed c n j t h) (
          rw (version-bump_from_past c n (j + 1) j (bump t j) (omega arith))
            (omega (arith, version-bump_self t j l (omega arith)))))
  | inr other ↦
      version-bump_from_later c n i j t a b l r (ground arith)
        (λ u g s. version-bump_from_changed c n (i + 1) j u h (ground arith) (omega arith) g s)
]

-- A changed field gets a version above the `global_max` before, and the others keep theirs.
pub version-bump_all_max :
    (t : FieldVersionTracker) (c : FieldsChanged) (i : ℕ)
    → i < length t.versions
    → t.global_max + length t.versions ≤ u64_max
    → (has_field c i ≡ true → t.global_max < version (bump_all t c) i)
      × (has_field c i ≡ false → version (bump_all t c) i ≡ version t i)
unfolding bump_all
version-bump_all_max t c i h r = (
  λ e. version-bump_from_changed c (length t.versions) 0 i t e (omega arith) (omega arith) h r,
  λ e. version-bump_from_same c (length t.versions) 0 i t e,
)

All-lt : (xs : List ℕ) (a b : ℕ) → a < b → All (λ v. v ≤ a) xs → All (λ v. v < b) xs
All-lt [] a b h p = tt
All-lt (x ∷ xs) a b h p = (omega arith, All-lt xs a b h p.1)

-- In a valid tracker whose counter has room for one more version per field, a changed field gets a
-- version above every version that the tracker held, and a field that did not change keeps its
-- version.
pub version-bump_all :
    (t : FieldVersionTracker) (c : FieldsChanged) (i : ℕ)
    → IsValid t
    → i < length t.versions
    → t.global_max + length t.versions ≤ u64_max
    → (has_field c i ≡ true → All (λ v. v < version (bump_all t c) i) t.versions)
      × (has_field c i ≡ false → version (bump_all t c) i ≡ version t i)
version-bump_all t c i valid h r =
    let (above, same) = version-bump_all_max t c i h r in
    (λ e. All-lt t.versions t.global_max (version (bump_all t c) i) (above e) valid.below, same)
