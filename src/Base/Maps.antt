-- ===== src/Base/Maps.antt =====
-- A map with text keys: an object, a Map, or the keys of one namespace of Redis.
use Prim.Native.String.{String}
use mathlib.Core.Path.{◌≡◌, refl}
use mathlib.Core.Option.{Option, none, some}
use mathlib.Core.List.{List, [], ◌∷◌}
use native.Mathlib.Omega.{arith}
use text.Mathlib.Text.{◌==◌}
use text.Mathlib.TextEquality.{eq_iff}
use auth_sso.Base.Tests.{if◌then◌else◌}

module _ {ℓ} {V : Type ℓ} where
  unfoldable pub remove : String → List (String × V) → List (String × V)
  remove key [] = []
  remove key ((at, value) ∷ rest) =
      let kept = remove key rest in if at == key then kept else (at, value) ∷ kept

  unfoldable pub lookup : String → List (String × V) → Option V
  lookup key [] = none
  lookup key ((at, value) ∷ rest) = if at == key then some value else lookup key rest

  -- The entry of the key is replaced where it stands, or appended.
  unfoldable pub insert : String → V → List (String × V) → List (String × V)
  insert key new [] = (key, new) ∷ []
  insert key new ((at, value) ∷ rest) =
      if at == key then (key, new) ∷ rest else (at, value) ∷ insert key new rest

  pub lookup-remove :
      (key other : String) (map : List (String × V))
      → lookup other (remove key map) ≡ (if key == other then none else lookup other map)
  unfolding lookup remove
  lookup-remove key other [] = ground arith
  lookup-remove key other ((at, value) ∷ rest) =
      ground (arith, lookup-remove key other rest, eq_iff key other, eq_iff at key, eq_iff at other)

  pub lookup-insert :
      (key other : String) (new : V) (map : List (String × V))
      → lookup other (insert key new map) ≡ (if key == other then some new else lookup other map)
  unfolding lookup insert
  lookup-insert key other new [] = refl
  lookup-insert key other new ((at, value) ∷ rest) =
      ground
        (arith, lookup-insert key other new rest, eq_iff key other, eq_iff at key, eq_iff at other)

pub ruleset map_laws = (lookup-insert, lookup-remove)

module _ {ℓ} {V : Type ℓ} where
  -- No key stands twice.
  abbrev pub Distinct : List (String × V) → Type ℓ
  Distinct [] = Unit
  Distinct ((k, v) ∷ m) = (lookup k m ≡ none) × Distinct m

  pub Distinct-insert :
      (k : String) (v : V) (m : List (String × V)) → Distinct m → Distinct (insert k v m)
  unfolding lookup insert
  Distinct-insert k v [] h = (refl, tt)
  Distinct-insert k v ((j, w) ∷ m) h =
      ground (arith, eq_iff j k, eq_iff k j, lookup-insert k j v m, Distinct-insert k v m)
