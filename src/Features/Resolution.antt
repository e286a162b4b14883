-- ===== src/Features/Resolution.antt =====
-- When a feature takes effect.
use bmw_e9x_remote_control.Common.{
  ℕ, ◌-◌, ◌*◌, ◌<◌, ◌≡◌, ◌≢◌, ◌↔◌, refl, true, has_bits, arith, u32_mod, u64_mod, bit_and,
  bit_and-ones, bit_and-one, bit_and-head, one-bit_and, ◌/◌, ◌%◌,
}
use bmw_e9x_remote_control.Features.{
  FeatureId, FeatureRequests, FeatureRuntimeContext, enabled, requests_are_valid, resolve_feature,
  missing, effective, valid_mask,
}

-- The requests are valid exactly if no bit beyond the features is set.
pub requests_are_valid_iff :
    (r : FeatureRequests) → r.mask < u64_mod → (requests_are_valid r ≡ true) ↔ (r.mask < 8)
unfolding requests_are_valid
requests_are_valid_iff r h =
    let m = r.mask in
    let k = u64_mod - 1 - valid_mask in
    let one = bit_and-head m k in
    let two = bit_and-head (m / 2) (k / 2) in
    let three = bit_and-head (m / 2 / 2) (k / 2 / 2) in
    let rest = bit_and-ones 61 (m / 2 / 2 / 2) (omega arith) in
    ground (arith, one, two, three, rest)

-- The feature's bit is set in a mask: bits 0, 1 and 2 stand for the three features.
abbrev pub HasBit : ℕ → FeatureId → Type 0
HasBit mask FeatureId.cold_engine_guard = mask % 2 ≡ 1
HasBit mask FeatureId.dpf_regeneration_indicator = mask / 2 % 2 ≡ 1
HasBit mask FeatureId.transmission_overheat_alert = mask / 4 % 2 ≡ 1
HasBit mask FeatureId.count = ⊥

-- What must hold for a feature to take effect: the user asked for it, it is implemented, and the
-- vehicle's state can be read from qualified signals.
pub record MayTakeEffect (r : FeatureRequests) (id : FeatureId) (context : FeatureRuntimeContext)
    : Type 0 where
  pub asked : HasBit r.mask id
  pub implemented : HasBit context.implemented_features id
  pub readable : context.available_capabilities % 2 ≡ 1
  pub qualified : context.vehicle_signals_qualified ≡ true

bit_and-two : (x : ℕ) → bit_and x 2 ≡ x / 2 % 2 * 2
bit_and-two x = omega (arith, bit_and-head x 2, bit_and-one (x / 2))

bit_and-four : (x : ℕ) → bit_and x 4 ≡ x / 4 % 2 * 4
bit_and-four x = omega (arith, bit_and-head x 4, bit_and-two (x / 2))

-- A feature of the catalogue takes effect exactly where its bit is set in the user's requests and
-- among the implemented features, the vehicle's state can be read (capability bit 0) and its
-- signals are qualified.
pub effective-resolve_feature :
    (r : FeatureRequests) (id : FeatureId) (context : FeatureRuntimeContext)
    → id ≢ FeatureId.count
    → context.available_capabilities < u32_mod
    → (effective (resolve_feature r id context) ≡ true) ↔ MayTakeEffect r id context
unfolding resolve_feature missing enabled has_bits
effective-resolve_feature r FeatureId.count context h range = absurd (h refl)
effective-resolve_feature r FeatureId.cold_engine_guard context h range = ground (
  arith,
  one-bit_and (u32_mod - 1 - context.available_capabilities),
  bit_and-one r.mask,
  bit_and-one context.implemented_features,
)
effective-resolve_feature r FeatureId.dpf_regeneration_indicator context h range = ground (
  arith,
  one-bit_and (u32_mod - 1 - context.available_capabilities),
  bit_and-two r.mask,
  bit_and-two context.implemented_features,
)
effective-resolve_feature r FeatureId.transmission_overheat_alert context h range = ground (
  arith,
  one-bit_and (u32_mod - 1 - context.available_capabilities),
  bit_and-four r.mask,
  bit_and-four context.implemented_features,
)
