-- ===== src/Domain/Operation.antt =====
-- 2identify_operador/app/domain/operation.py: an operation with the PPE that it requires. The fields
-- that no modelled code reads (the description and the manual of an operation, the name and the
-- geometry of an area) are left out.
use identify.Base.{
  ℕ, Bool, false, not, Option, none, some, List, [], ◌∷◌, any, opt_all, is_empty, Text, text_eq,
  Str, normalize,
}
use identify.Base.Result.{Result, ok, value_error, ◌>>◌, raise_if}
use identify.Domain.Alert.{is_positive}
use identify.Domain.WorkSession.{mem}
use mathlib.Core.Option

pub record PpeRequirement : Type 0 where
  pub ppe_id : ℕ
  pub name : Text
  pub detection_class : Option Text

-- `PpeRequirement.__post_init__`
unfoldable pub requirement_init : Str → PpeRequirement → Result PpeRequirement
requirement_init py r = do
  let name = py.strip r.name
  let detection_class = Option.map (normalize py) r.detection_class
  raise_if (not (is_positive r.ppe_id)) value_error
  raise_if (is_empty name) value_error
  raise_if (not (opt_all (λ c. not (is_empty c)) detection_class)) value_error
  ok (record r { name = name; detection_class = detection_class })

pub record RiskAreaReference : Type 0 where
  pub risk_area_id : ℕ
  pub camera_id : Option ℕ

pub record Operation : Type 0 where
  pub operation_id : ℕ
  pub name : Text
  pub required_ppe : List PpeRequirement
  pub risk_area : Option RiskAreaReference
  pub active : Bool

-- `x in items`, for texts
abbrev pub mem_text : Text → List Text → Bool
mem_text x items = any (λ y. text_eq x y) items

-- the loop of `Operation.__post_init__` over the requirements, with the sets that it fills
unfoldable pub check_requirements : List ℕ → List Text → List PpeRequirement → Result (Unit {0})
check_requirements ids classes [] = ok tt
check_requirements ids classes (r ∷ rs) = do
  raise_if (mem r.ppe_id ids) value_error
  raise_if (elim r.detection_class [ none ↦ false | some c ↦ mem_text c classes ]) value_error
  check_requirements (r.ppe_id ∷ ids)
      (elim r.detection_class [ none ↦ classes | some c ↦ c ∷ classes ]) rs

-- `Operation.__post_init__`, its checks on the modelled fields
unfoldable pub operation_init : Str → Operation → Result Operation
operation_init py o = do
  let name = py.strip o.name
  raise_if (not (is_positive o.operation_id)) value_error
  raise_if (is_empty name) value_error
  check_requirements [] [] o.required_ppe
  ok (record o { name = name })
