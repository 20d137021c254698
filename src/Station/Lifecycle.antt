-- ===== src/Station/Lifecycle.antt =====
-- What the Station aggregate (internal/domain/station/station.go) guarantees.
use fulfillment_execution.Prelude.{◌≡◌, ◌↔◌, true, false, none, some, arith, All, In}
use fulfillment_execution.Shared.Capabilities.{CapabilitySet, has_all-All}
use fulfillment_execution.Station.{
  OccupantId, Station, occupied, not_occupied, is_occupied, check_in, check_out, validate_accept,
}

-- A station takes an occupant exactly when it has none, gives it up exactly when it has one, and
-- a refusal changes nothing. A check-in that succeeds keeps every other out until the check-out,
-- which leaves the station as it was before the check-in.
pub one_occupant :
    (s : Station) (a b : OccupantId)
    → (((check_in s a).1 ≡ none) ↔ (is_occupied s ≡ false))
      × (((check_out s).1 ≡ none) ↔ (is_occupied s ≡ true))
      × (is_occupied s ≡ true → check_in s a ≡ (s, some occupied))
      × (is_occupied s ≡ false
          → let t = (check_in s a).0 in
            (check_out s ≡ (s, some not_occupied))
            × (check_in t b ≡ (t, some occupied))
            × (check_out t ≡ (s, none)))
unfolding check_in check_out is_occupied
one_occupant s a b = (
  (λ h. ground arith, λ h. ground arith),
  (λ h. ground arith, λ h. ground arith),
  λ h. ground arith,
  λ h. ground arith,
)

-- A station passes validation exactly when it has every capability that is required.
pub validate_accept_iff :
    (s : Station) (required : CapabilitySet)
    → (validate_accept s required ≡ none) ↔ All (λ c. In c s.capabilities) required
unfolding validate_accept
validate_accept_iff s required = (
  λ h. (has_all-All s.capabilities required).0 (ground arith),
  λ h. ground (arith, (has_all-All s.capabilities required).1 h),
)
