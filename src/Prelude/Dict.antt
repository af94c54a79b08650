-- ===== src/Prelude/Dict.antt =====
-- Go's `map[string]V` as an association list: the first entry of a key counts. The program never
-- depends on the order in which it ranges over a map.
use Prim.Native.String.{String}
use mathlib.Core.Path.{◌≡◌, refl}
use mathlib.Core.Option.{Option, none, some}
use mathlib.Core.List.{List, [], ◌∷◌}
use native.Mathlib.Omega.{arith}
use text.Mathlib.Text.{◌==◌}
use text.Mathlib.TextEquality.{eq_iff}
use text.Mathlib.TextPositions.{eq_refl}
use caffe2_operator.Prelude.Tests.{if◌then◌else◌}

abbrev pub Dict {ℓ} : Type ℓ → Type ℓ
Dict V = List (String × V)

module _ {ℓ} {V : Type ℓ} where
  -- `v, ok := m[key]`
  unfoldable pub lookup : (key : String) (entries : Dict V) → Option V
  lookup key [] = none
  lookup key ((name, value) ∷ rest) = if name == key then some value else lookup key rest

  -- `m[key] = v`
  unfoldable pub insert : (key : String) (new : V) (entries : Dict V) → Dict V
  insert key new [] = (key, new) ∷ []
  insert key new ((name, value) ∷ rest) =
      if name == key then (name, new) ∷ rest else (name, value) ∷ insert key new rest

  -- `for k, v := range m { into[k] = v }`; a map has no two entries of one key, so any order will do
  unfoldable pub insert_all : (entries into : Dict V) → Dict V
  insert_all [] into = into
  insert_all ((name, value) ∷ rest) into = insert name value (insert_all rest into)

  pub lookup-insert :
      (key asked : String) (new : V) (entries : Dict V)
      → lookup asked (insert key new entries)
        ≡ (if key == asked then some new else lookup asked entries)
  unfolding lookup insert
  lookup-insert key asked new [] = refl
  lookup-insert key asked new ((name, value) ∷ rest) = ground (
    arith,
    lookup-insert key asked new rest,
    eq_iff name asked,
    eq_iff name key,
    eq_iff key asked,
  )

  pub lookup-insert_all :
      (asked : String) (entries into : Dict V)
      → lookup asked (insert_all entries into)
        ≡ (elim (lookup asked entries) [ none ↦ lookup asked into | some value ↦ some value ])
  unfolding lookup insert_all
  lookup-insert_all asked [] into = refl
  lookup-insert_all asked ((name, value) ∷ rest) into = ground (
    arith,
    lookup-insert_all asked rest into,
    lookup-insert name asked value (insert_all rest into),
  )

  -- The second write to a key counts.
  pub insert-insert :
      (key : String) (old new : V) (entries : Dict V)
      → insert key new (insert key old entries) ≡ insert key new entries
  unfolding insert
  insert-insert key old new [] = rw (eq_refl key) refl
  insert-insert key old new ((name, value) ∷ rest) = ground (arith, insert-insert key old new rest)

  -- `delete(m, key)`
  unfoldable pub remove : (key : String) (entries : Dict V) → Dict V
  remove key [] = []
  remove key ((name, value) ∷ rest) =
      let others = remove key rest in if name == key then others else (name, value) ∷ others

  lookup-removed : (key : String) (entries : Dict V) → lookup key (remove key entries) ≡ none
  unfolding lookup remove
  lookup-removed key [] = refl
  lookup-removed key ((name, value) ∷ rest) = ground (arith, lookup-removed key rest)

  -- `remove` takes one key out, and leaves the others.
  pub lookup-remove :
      (key asked : String) (entries : Dict V)
      → lookup asked (remove key entries) ≡ (if key == asked then none else lookup asked entries)
  unfolding lookup remove
  lookup-remove key asked [] = ground arith
  lookup-remove key asked ((name, value) ∷ rest) = ground (
    arith,
    lookup-remove key asked rest,
    lookup-removed key rest,
    eq_iff name asked,
    eq_iff name key,
    eq_iff key asked,
  )
