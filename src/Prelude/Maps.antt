-- ===== src/Prelude/Maps.antt =====
-- Go's maps as functions from keys: reading, `m[k] = v` and `delete(m, k)`.
use mathlib.Core.Path.{◌≡◌}
use mathlib.Core.Logic.{◌≢◌}
use mathlib.Core.Option.{Option, none, some}
use native.Mathlib.Omega.{arith}
use kode_stream.Prelude.Tests.{Comparable, ◌==◌, beq_self, if◌then◌else◌}

abbrev pub Map {ℓ κ} : Type ℓ → Type κ → Type (ℓ ⊔ κ)
Map K V = K → Option V

abbrev pub empty_map {ℓ κ} : {K : Type ℓ} {V : Type κ} → Map K V
empty_map k = none

module _ {ℓ κ} {K : Type ℓ} {V : Type κ} ⦃e : Comparable K⦄ where
  abbrev pub put : K → V → Map K V → Map K V
  put k v m j = if k == j then some v else m j

  abbrev pub remove : K → Map K V → Map K V
  remove k m j = if k == j then none else m j

  pub put_self : (k : K) (v : V) (m : Map K V) → put k v m k ≡ some v
  put_self k v m = rw (beq_self k)

  pub put_ne : (k j : K) (v : V) (m : Map K V) → k ≢ j → put k v m j ≡ m j
  put_ne k j v m h = ground (arith, e.equal_iff k j)
