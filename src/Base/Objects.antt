-- ===== src/Base/Objects.antt =====
-- The properties of a JavaScript object, as JS_SetPropertyStr sets them.
use mathlib.Core.Path.{◌≡◌, refl}
use mathlib.Core.Option.{Option, none, some}
use mathlib.Core.List.{List, [], ◌∷◌}
use native.Mathlib.Omega.{arith}
use hbf.Base.Tests.{if◌then◌else◌}
use hbf.Base.Text.{Bytes, bytes_eq, bytes_eq_iff}

module _ {ℓ} {V : Type ℓ} where
  unfoldable pub set_property : Bytes → V → List (Bytes × V) → List (Bytes × V)
  set_property name value [] = (name, value) ∷ []
  set_property name value ((n, v) ∷ rest) =
      if bytes_eq n name then (name, value) ∷ rest else (n, v) ∷ set_property name value rest

  unfoldable pub get_property : Bytes → List (Bytes × V) → Option V
  get_property name [] = none
  get_property name ((n, v) ∷ rest) = if bytes_eq n name then some v else get_property name rest

  pub get_property-set_property :
      (q name : Bytes) (value : V) (object : List (Bytes × V))
      → get_property q (set_property name value object)
        ≡ (if bytes_eq name q then some value else get_property q object)
  unfolding get_property set_property
  get_property-set_property q name value [] = refl
  get_property-set_property q name value ((n, v) ∷ rest) = ground (
    arith,
    bytes_eq_iff n name,
    bytes_eq_iff name q,
    bytes_eq_iff n q,
    get_property-set_property q name value rest,
  )
