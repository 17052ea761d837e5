-- ===== src/Base/Maps.antt =====
-- Go's `map[string]V` as an association list; no modelled code depends on the order of iteration.
use Prim.Native.String.{String}
use text.Mathlib.Text.{◌==◌}
use text.Mathlib.TextEquality.{eq_iff}
use mathlib.Core.Path.{◌≡◌, refl}
use mathlib.Core.Option.{Option, none, some}
use mathlib.Core.List.{List, [], ◌∷◌}
use native.Mathlib.Omega.{arith}
use agent_claw.Base.Tests.{if◌then◌else◌}

abbrev pub Dict {ℓ} : Type ℓ → Type ℓ
Dict V = List (String × V)

module _ {ℓ} {V : Type ℓ} where
  -- `v, ok := m[key]`.
  unfoldable pub lookup : (key : String) → Dict V → Option V
  lookup key [] = none
  lookup key (entry ∷ others) =
      let later = lookup key others in if entry.0 == key then some entry.1 else later

  -- `delete(m, key)`.
  unfoldable pub delete : (key : String) → Dict V → Dict V
  delete key [] = []
  delete key (entry ∷ others) =
      let remaining = delete key others in if entry.0 == key then remaining else entry ∷ remaining

  -- `m[key] = value`: the entry keeps its place, a new one comes last.
  unfoldable pub insert : (key : String) → V → Dict V → Dict V
  insert key value [] = (key, value) ∷ []
  insert key value (entry ∷ others) =
      let changed = insert key value others in
      if entry.0 == key then (key, value) ∷ others else entry ∷ changed

  pub lookup-delete :
      (key asked : String) (entries : Dict V)
      → lookup asked (delete key entries) ≡ (if key == asked then none else lookup asked entries)
  unfolding lookup delete
  lookup-delete key asked [] = ground arith
  lookup-delete key asked (entry ∷ others) =
      let (first, found) = entry in
      ground (
        arith,
        lookup-delete key asked others,
        eq_iff first key,
        eq_iff first asked,
        eq_iff key asked,
      )

  pub lookup-insert :
      (key asked : String) (value : V) (entries : Dict V)
      → lookup asked (insert key value entries)
        ≡ (if key == asked then some value else lookup asked entries)
  unfolding lookup insert
  lookup-insert key asked value [] = refl
  lookup-insert key asked value (entry ∷ others) =
      let (first, found) = entry in
      ground (
        arith,
        lookup-insert key asked value others,
        eq_iff first key,
        eq_iff first asked,
        eq_iff key asked,
      )
