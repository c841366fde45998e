-- ===== src/Prelude/Maps.antt =====
-- Go maps that are only read and written by key, as functions from keys to optional values.
use mathlib.Core.Path.{◌≡◌}
use mathlib.Core.Logic.{ite, ◌≢◌}
use mathlib.Core.Option.{Option, none}
use native.Mathlib.Omega.{arith}

abbrev pub Map : Type 0 → Type 0 → Type 0
Map K V = K → Option V

abbrev pub empty_map : {K V : Type 0} → Map K V
empty_map k = none

-- `m[k] = v`, and `delete(m, k)` at `none`.
abbrev pub update : {K V : Type 0} → Discrete K → Map K V → K → Option V → Map K V
update d m k v j = ite (d k j) v (m j)

pub update_self :
    {K V : Type 0} (d : Discrete K) (m : Map K V) (k : K) (v : Option V) → update d m k v k ≡ v
update_self d m k v = ground arith

pub update_ne :
    {K V : Type 0} (d : Discrete K) (m : Map K V) (k j : K) (v : Option V)
    → k ≢ j
    → update d m k v j ≡ m j
update_ne d m k j v h = ground arith
