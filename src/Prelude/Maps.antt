-- ===== src/Prelude/Maps.antt =====
-- Maps and sets keyed by strings: the program's `HashMap<String, V>` and `IndexMap<String, V>` are
-- association lists, and its `HashSet<String>` is a list of names of which only membership is read.
use Prim.Native.String.{String}
use mathlib.Core.Path.{◌≡◌, refl}
use mathlib.Core.Bool.{Bool, true, false, ◌||◌}
use mathlib.Core.List.{List, [], ◌∷◌}
use mathlib.Core.Option.{Option, none, some}
use native.Mathlib.Omega.{arith}
use text.Mathlib.Text.{◌==◌ as str_eq}
use text.Mathlib.TextEquality.{eq_iff}
use juncture.Prelude.Tests.{if◌then◌else◌}

abbrev pub Map {ℓ} : Type ℓ → Type ℓ
Map V = List (String × V)

module _ {ℓ} {V : Type ℓ} where
  unfoldable pub lookup : String → Map V → Option V
  lookup key [] = none
  lookup key (entry ∷ entries) =
      let later = lookup key entries in if str_eq entry.0 key then some entry.1 else later

  unfoldable pub insert : String → V → Map V → Map V
  insert key value [] = (key, value) ∷ []
  insert key value (entry ∷ entries) =
      let later = entry ∷ insert key value entries in
      if str_eq entry.0 key then (key, value) ∷ entries else later

  pub lookup-insert :
      (key other : String) (value : V) (entries : Map V)
      → lookup other (insert key value entries)
        ≡ (if str_eq key other then some value else lookup other entries)
  unfolding lookup insert
  lookup-insert key other value [] = ground arith
  lookup-insert key other value (entry ∷ entries) =
      let rest = lookup-insert key other value entries in
      ground (arith, eq_iff entry.0 key, eq_iff entry.0 other, eq_iff key other, rest)

  pub lookup-nil : (k : String) → lookup k [] ≡ none
  unfolding lookup
  lookup-nil k = refl

  unfoldable pub contains_key : String → Map V → Bool
  unfolding lookup
  contains_key k m = elim (lookup k m) [ none ↦ false | some v ↦ true ]

  abbrev pub keys : Map V → List String
  keys [] = []
  keys ((k, v) ∷ m) = k ∷ keys m

-- What `entry(key).or_default()` or a missing key gives, where the values are lists.
abbrev pub or_empty {ℓ} : {A : Type ℓ} → Option (List A) → List A
or_empty none = []
or_empty (some xs) = xs

-- `set.contains`
abbrev pub contains : String → List String → Bool
contains k [] = false
contains k (x ∷ xs) = str_eq x k || contains k xs

-- `set.insert`
abbrev pub add : String → List String → List String
add k xs = if contains k xs then xs else k ∷ xs

pub contains-add :
    (k j : String) (xs : List String) → contains j (add k xs) ≡ (str_eq k j || contains j xs)
contains-add k j xs = go (contains k xs) refl
  where
    same : (ys : List String) → contains k ys ≡ true → str_eq k j ≡ true → contains j ys ≡ true
    same [] h e = h
    same (y ∷ ys) h e = ground (arith, eq_iff k j, eq_iff y k, eq_iff y j, same ys)

    go : (b : Bool) → contains k xs ≡ b → contains j (add k xs) ≡ (str_eq k j || contains j xs)
    go true h = rw h (ground (arith, same xs h))
    go false h = rw h
