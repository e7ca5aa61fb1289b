-- ===== src/State/Channel/Barrier.antt =====
-- `NamedBarrierChannel`: a value that is available once every required source has written.
use juncture.Prelude.{
  String, ◌≡◌, refl, ap, ◌∙◌, Bool, true, false, not, ◌&&◌, ◌||◌, Option, none, some, List, [], ◌∷◌,
  arith, str_eq, if◌then◌else◌, is_empty, all, contains, add, contains-add,
}
use juncture.State.Reducer.{Reducer}

pub record NamedBarrierChannel (T : Type 0) : Type 0 where
  pub value : T
  pub required_sources : List String
  pub seen_sources : List String

abbrev pub collect : List String → List String
collect [] = []
collect (s ∷ rest) = add s (collect rest)

module _ {T : Type 0} where
  unfoldable pub new_with_sources : T → List String → NamedBarrierChannel T
  new_with_sources value sources = record {
    value = value;
    required_sources = collect sources;
    seen_sources = [];
  }

  unfoldable pub add_required_source : NamedBarrierChannel T → String → NamedBarrierChannel T
  add_required_source c source = record c { required_sources = add source c.required_sources }

  unfoldable pub is_available : NamedBarrierChannel T → Bool
  is_available c =
      if is_empty c.required_sources
      then true
      else all (λ source. contains source c.seen_sources) c.required_sources

  unfoldable pub has_written : NamedBarrierChannel T → String → Bool
  has_written c source = contains source c.seen_sources

  unfoldable pub reset_sources : NamedBarrierChannel T → NamedBarrierChannel T
  reset_sources c = record c { seen_sources = [] }

  module _ (r : Reducer T) where
    -- `Channel::update`, which has no source names
    unfoldable pub update_all :
        NamedBarrierChannel T → List T → Option (NamedBarrierChannel T × Bool)
    update_all c [] = some (c, false)
    update_all c (v ∷ rest) = elim (r.reduce c.value (v ∷ rest)) [
      | none ↦ none
      | some next ↦ some (record c { value = next; seen_sources = c.required_sources }, true)
    ]

    -- The inherent `update`; another source than a required one panics.
    unfoldable pub update_from :
        NamedBarrierChannel T → String → List T → Option (NamedBarrierChannel T × Bool)
    update_from c source values =
        if is_empty c.required_sources || contains source c.required_sources
        then elim values [
          | [] ↦ some (c, false)
          | v ∷ rest ↦ elim (r.reduce c.value (v ∷ rest)) [
            | none ↦ none
            | some next ↦
                some (record c { value = next; seen_sources = add source c.seen_sources }, true)
          ]
        ]
        else none

    -- Updates in a row, each with its source.
    unfoldable pub updates_from :
        NamedBarrierChannel T → List (String × List T) → Option (NamedBarrierChannel T)
    updates_from c [] = some c
    updates_from c ((source, values) ∷ rest) = elim (update_from c source values) [
      | none ↦ none
      | some (d, _) ↦ updates_from d rest
    ]

-- The sources that wrote something.
abbrev pub wrote : {T : Type 0} → List (String × List T) → List String
wrote [] = []
wrote ((source, values) ∷ rest) = if is_empty values then wrote rest else source ∷ wrote rest

module _ {T : Type 0} (r : Reducer T) where
  update_from-seen :
      (c d : NamedBarrierChannel T) (source : String) (values : List T) (b : Bool) (k : String)
      → update_from r c source values ≡ some (d, b)
      → (d.required_sources ≡ c.required_sources)
        × (contains k d.seen_sources
            ≡ ((not (is_empty values) && str_eq source k) || contains k c.seen_sources))
  unfolding update_from
  update_from-seen c d source values b k h = ground (arith, contains-add source k c.seen_sources)

  updates_from-seen :
      (c d : NamedBarrierChannel T) (updates : List (String × List T)) (k : String)
      → updates_from r c updates ≡ some d
      → (d.required_sources ≡ c.required_sources)
        × (contains k d.seen_sources ≡ (contains k (wrote updates) || contains k c.seen_sources))
  unfolding updates_from
  updates_from-seen c d [] k h = ground arith
  updates_from-seen c d ((source, values) ∷ rest) k h =
      go (update_from r c source values) refl (λ m q. updates_from-seen m d rest k q) h
    where
      go :
          (o : Option (NamedBarrierChannel T × Bool))
          → update_from r c source values ≡ o
          → ((m : NamedBarrierChannel T)
              → updates_from r m rest ≡ some d
              → (d.required_sources ≡ m.required_sources)
                × (contains k d.seen_sources
                    ≡ (contains k (wrote rest) || contains k m.seen_sources)))
          → elim o [ none ↦ none | some (m, _) ↦ updates_from r m rest ] ≡ some d
          → (d.required_sources ≡ c.required_sources)
            × (contains k d.seen_sources ≡ (
                contains k (if is_empty values then wrote rest else source ∷ wrote rest)
                || contains k c.seen_sources))
      go none e later q = cc
      go (some (m, b)) e later q =
          ground (arith, update_from-seen c m source values b k e, later m q)

  all_ext :
      (p q : String → Bool) (xs : List String) → ((k : String) → p k ≡ q k) → all p xs ≡ all q xs
  all_ext p q [] h = refl
  all_ext p q (x ∷ xs) h = rw (h x, all_ext p q xs h)

  is_available-all :
      (c : NamedBarrierChannel T)
      → is_available c ≡ all (λ source. contains source c.seen_sources) c.required_sources
  unfolding is_available
  is_available-all c = go c.required_sources
    where
      go :
          (xs : List String)
          → (if is_empty xs then true else all (λ source. contains source c.seen_sources) xs)
            ≡ all (λ source. contains source c.seen_sources) xs
      go [] = refl
      go (x ∷ xs) = refl

  -- After a reset and any updates that do not panic, the barrier is available exactly when every
  -- required source is among those that wrote something.
  pub is_available-updates_from :
      (c d : NamedBarrierChannel T) (updates : List (String × List T))
      → updates_from r (reset_sources c) updates ≡ some d
      → is_available d ≡ all (λ source. contains source (wrote updates)) c.required_sources
  unfolding reset_sources
  is_available-updates_from c d updates h =
      is_available-all d
      ∙ all_ext (λ source. contains source d.seen_sources)
          (λ source. contains source (wrote updates)) d.required_sources
          (λ k. (updates_from-seen (record c { seen_sources = [] }) d updates k h).1 ∙ ground arith)
      ∙ ap (all (λ source. contains source (wrote updates)))
          (updates_from-seen (record c { seen_sources = [] }) d updates "" h).0
