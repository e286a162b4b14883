-- ===== src/Features.antt =====
-- The feature catalogue (include/bmw_remote/application/feature_catalog.hpp and
-- src/application/feature_catalog.cpp): which features exist, which the user asked for, and
-- whether one may take effect.
pub mod Resolution
use Prim.Native.String.{String}
use text.Mathlib.Text.{◌==◌ as str_eq}
use bmw_e9x_remote_control.Common.{
  ℕ, ◌-◌, ◌^◌, Bool, true, false, not, ◌&&◌, ◌||◌, Option, none, some, List, [], ◌∷◌, ltb, ◌==◌,
  if◌then◌else◌, get_elem?, bit_and, bit_or, has_bits, u32_mod, u64_mod,
}

pub data FeatureId : Type 0 where
  cold_engine_guard dpf_regeneration_indicator transmission_overheat_alert count : FeatureId

-- The underlying value of the enumeration.
abbrev pub feature_index : FeatureId → ℕ
feature_index cold_engine_guard = 0
feature_index dpf_regeneration_indicator = 1
feature_index transmission_overheat_alert = 2
feature_index count = 3

abbrev pub feature_count : ℕ
feature_count = feature_index count

pub data FeatureCategory : Type 0 where
  security_access telemetry_cockpit lighting comfort_automation software_rule : FeatureCategory

pub data FeatureControlClass : Type 0 where
  informational external_output comfort_vehicle_write : FeatureControlClass
  safety_critical_vehicle_control : FeatureControlClass

pub data FeatureReleaseTier : Type 0 where
  v1_read_only future_comfort bench_only : FeatureReleaseTier

-- `featureCapabilityMask(FeatureCapability::VehicleStateRead)`, the one that the catalogue names.
abbrev pub vehicle_state_read : ℕ
vehicle_state_read = 2 ^ 0

pub record FeatureDescriptor : Type 0 where
  pub id : FeatureId
  pub code : String
  pub display_name : String
  pub category : FeatureCategory
  pub control_class : FeatureControlClass
  pub release_tier : FeatureReleaseTier
  pub required_capabilities : ℕ
  pub any_capability : ℕ
  pub requires_qualified_vehicle_signals : Bool

-- The rows of `Catalog`, which differ in their first three entries only.
abbrev row : FeatureId → String → String → FeatureDescriptor
row id code display_name = record {
  id = id;
  code = code;
  display_name = display_name;
  category = FeatureCategory.telemetry_cockpit;
  control_class = FeatureControlClass.informational;
  release_tier = FeatureReleaseTier.v1_read_only;
  required_capabilities = vehicle_state_read;
  any_capability = 0;
  requires_qualified_vehicle_signals = true;
}

abbrev pub catalog : List FeatureDescriptor
catalog =
    row cold_engine_guard "cold_engine_guard" "Protection moteur froid"
    ∷ row dpf_regeneration_indicator "dpf_regeneration_indicator" "Indicateur regeneration FAP"
    ∷ row transmission_overheat_alert "transmission_overheat_alert" "Alerte temperature BVA"
    ∷ []

-- `FeatureRequests`: a `std::uint64_t`.
pub record FeatureRequests : Type 0 where
  pub mask : ℕ

-- `std::uint64_t{1U} << index`.
abbrev pub feature_bit : FeatureId → ℕ
feature_bit id = 2 ^ feature_index id

unfoldable pub enabled : FeatureRequests → FeatureId → Bool
unfolding has_bits
enabled r id = ltb (feature_index id) feature_count && has_bits r.mask (feature_bit id)

-- `setEnabled`, with its answer; `~bit` is the complement in 64 bits.
unfoldable pub set_enabled : FeatureRequests → FeatureId → Bool → FeatureRequests × Bool
set_enabled r id value = if not (ltb (feature_index id) feature_count) then (r, false) else (
  record {
    mask =
        if value
        then bit_or r.mask (feature_bit id)
        else bit_and r.mask (u64_mod - 1 - feature_bit id);
  },
  true,
)

-- `ValidMask`: `(1 << FeatureCount) - 1`.
abbrev pub valid_mask : ℕ
valid_mask = 2 ^ feature_count - 1

unfoldable pub requests_are_valid : FeatureRequests → Bool
requests_are_valid r = bit_and r.mask (u64_mod - 1 - valid_mask) == 0

pub data FeatureExecutionTarget : Type 0 where
  simulation vehicle : FeatureExecutionTarget

pub data FeatureResolutionStatus : Type 0 where
  disabled_by_user not_implemented missing_capabilities : FeatureResolutionStatus
  signals_unqualified comfort_writes_unqualified : FeatureResolutionStatus
  critical_control_blocked simulated available : FeatureResolutionStatus

pub record FeatureRuntimeContext : Type 0 where
  pub target : FeatureExecutionTarget
  pub implemented_features : ℕ
  pub available_capabilities : ℕ
  pub vehicle_signals_qualified : Bool
  pub comfort_writes_qualified : Bool
  pub critical_controls_qualified : Bool

-- `FeatureRuntimeContext{}`.
abbrev pub default_context : FeatureRuntimeContext
default_context = record {
  target = vehicle;
  implemented_features = 0;
  available_capabilities = 0;
  vehicle_signals_qualified = false;
  comfort_writes_qualified = false;
  critical_controls_qualified = false;
}

pub record FeatureResolution : Type 0 where
  pub status : FeatureResolutionStatus
  pub missing_capabilities : ℕ

abbrev pub status_is_effective : FeatureResolutionStatus → Bool
status_is_effective simulated = true
status_is_effective available = true
status_is_effective _ = false

abbrev pub effective : FeatureResolution → Bool
effective r = status_is_effective r.status

-- `findFeature(FeatureId)`.
abbrev pub find_feature : FeatureId → Option FeatureDescriptor
find_feature id = get_elem? catalog (feature_index id)

find_code : List FeatureDescriptor → String → Option FeatureDescriptor
find_code [] code = none
find_code (d ∷ ds) code = if str_eq code d.code then some d else find_code ds code

-- `findFeature(const char*)`; `none` stands for the null pointer.
unfoldable pub find_feature_by_code : Option String → Option FeatureDescriptor
unfolding find_code
find_feature_by_code none = none
find_feature_by_code (some code) = find_code catalog code

abbrev pub is_bench_only : FeatureReleaseTier → Bool
is_bench_only bench_only = true
is_bench_only _ = false

abbrev pub is_vehicle : FeatureExecutionTarget → Bool
is_vehicle vehicle = true
is_vehicle simulation = false

abbrev pub is_comfort_write : FeatureControlClass → Bool
is_comfort_write comfort_vehicle_write = true
is_comfort_write _ = false

abbrev pub is_safety_critical : FeatureControlClass → Bool
is_safety_critical safety_critical_vehicle_control = true
is_safety_critical _ = false

-- The capabilities that a feature lacks.
unfoldable pub missing : FeatureDescriptor → ℕ → ℕ
missing d capabilities =
    let lacking = bit_and d.required_capabilities (u32_mod - 1 - capabilities) in
    if not (d.any_capability == 0) && bit_and d.any_capability capabilities == 0
    then bit_or lacking d.any_capability
    else lacking

abbrev pub resolution : FeatureResolutionStatus → FeatureResolution
resolution status = record { status = status; missing_capabilities = 0 }

-- The rest of `resolveFeature`, for a feature that is found and enabled.
unfoldable pub resolve_descriptor : FeatureDescriptor → FeatureRuntimeContext → FeatureResolution
resolve_descriptor d context =
    let lacking = missing d context.available_capabilities in
    if not (has_bits context.implemented_features (feature_bit d.id))
    then resolution not_implemented
    else if is_bench_only d.release_tier && is_vehicle context.target
    then resolution critical_control_blocked
    else if not (lacking == 0)
    then record { status = missing_capabilities; missing_capabilities = lacking }
    else if d.requires_qualified_vehicle_signals && not context.vehicle_signals_qualified
    then resolution signals_unqualified
    else if is_comfort_write d.control_class && not context.comfort_writes_qualified
    then resolution comfort_writes_unqualified
    else if is_safety_critical d.control_class && not context.critical_controls_qualified
    then resolution critical_control_blocked
    else resolution (if is_vehicle context.target then available else simulated)

abbrev pub resolve_found :
    Option FeatureDescriptor → Bool → FeatureRuntimeContext → FeatureResolution
resolve_found none asked context = resolution disabled_by_user
resolve_found (some d) asked context =
    if not asked then resolution disabled_by_user else resolve_descriptor d context

unfoldable pub resolve_feature :
    FeatureRequests → FeatureId → FeatureRuntimeContext → FeatureResolution
unfolding resolve_descriptor
resolve_feature requests id context = resolve_found (find_feature id) (enabled requests id) context
