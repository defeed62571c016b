-- ===== src/Prelude/Maps.antt =====
-- A JavaScript `Map` with string keys, as the list of its entries in the order of insertion.
use mathlib.Core.Path.{◌≡◌, refl, sym, subst, ap}
use mathlib.Core.Logic.{inl, inr}
use mathlib.Core.Bool.{false}
use mathlib.Core.Option.{Option, none, some}
use mathlib.Core.List.{List, [], ◌∷◌}
use halengine.Prelude.Tests.{if◌then◌else◌, Bool-cases}
use halengine.Prelude.Strings.{Text, text_eq, text_eq→eq, text_eq_refl}

abbrev pub StringMap {ℓ} : Type ℓ → Type ℓ
StringMap A = List (Text × A)

module _ {ℓ} {A : Type ℓ} where
  -- m.get(key)
  unfoldable pub map_get : StringMap A → Text → Option A
  map_get [] key = none
  map_get ((k, v) ∷ m) key = let rest = map_get m key in if text_eq k key then some v else rest

  -- m.set(key, v): the entry of a key that is there stays where it is.
  unfoldable pub map_set : StringMap A → Text → A → StringMap A
  map_set [] key v = (key, v) ∷ []
  map_set ((k, w) ∷ m) key v =
      let rest = map_set m key v in if text_eq k key then (k, v) ∷ m else (k, w) ∷ rest

  -- m.delete(key)
  unfoldable pub map_delete : StringMap A → Text → StringMap A
  map_delete [] key = []
  map_delete ((k, w) ∷ m) key =
      let rest = map_delete m key in if text_eq k key then rest else (k, w) ∷ rest

  pub get-set_self : (m : StringMap A) (key : Text) (v : A) → map_get (map_set m key v) key ≡ some v
  unfolding map_get map_set
  get-set_self [] key v = rw (text_eq_refl key)
  get-set_self ((k, w) ∷ m) key v = elim (Bool-cases (text_eq k key)) [
    | inl e ↦ rw (e, map_set, map_get, e)
    | inr e ↦ rw (e, map_set, map_get, e, get-set_self m key v)
  ]

  pub get-set_ne :
      (m : StringMap A) (key k : Text) (v : A)
      → text_eq key k ≡ false
      → map_get (map_set m key v) k ≡ map_get m k
  unfolding map_get map_set
  get-set_ne [] key k v h = rw (h, map_get)
  get-set_ne ((k', w) ∷ m) key k v h = elim (Bool-cases (text_eq k' key)) [
    | inl e ↦
        let same : text_eq k' k ≡ false =
          subst (λ z. text_eq z k ≡ false) (sym (text_eq→eq k' key e)) h in
        rw (e, map_set, map_get, same)
    | inr e ↦ rw (e, map_set, map_get, get-set_ne m key k v h)
  ]

  pub get-delete_self : (m : StringMap A) (key : Text) → map_get (map_delete m key) key ≡ none
  unfolding map_get map_delete
  get-delete_self [] key = refl
  get-delete_self ((k, w) ∷ m) key = elim (Bool-cases (text_eq k key)) [
    | inl e ↦ rw (e, map_delete, map_get) (get-delete_self m key)
    | inr e ↦ rw (e, map_delete, map_get, e, get-delete_self m key)
  ]

  pub get-delete_ne :
      (m : StringMap A) (key k : Text)
      → text_eq key k ≡ false
      → map_get (map_delete m key) k ≡ map_get m k
  unfolding map_get map_delete
  get-delete_ne [] key k h = refl
  get-delete_ne ((k', w) ∷ m) key k h = elim (Bool-cases (text_eq k' key)) [
    | inl e ↦
        let same : text_eq k' k ≡ false =
          subst (λ z. text_eq z k ≡ false) (sym (text_eq→eq k' key e)) h in
        rw (e, map_delete, map_get, same, get-delete_ne m key k h)
    | inr e ↦ rw (e, map_delete, map_get, get-delete_ne m key k h)
  ]

  -- A map in which no key has a value has no entry.
  pub get_none→nil : (m : StringMap A) → ((k : Text) → map_get m k ≡ none) → m ≡ []
  unfolding map_get
  get_none→nil [] h = refl
  get_none→nil ((k, w) ∷ m) h =
      absurd (cc (h k, ap (λ b. if b then some w else map_get m k) (text_eq_refl k)))
