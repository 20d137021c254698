-- ===== src/Shared/Capabilities.antt =====
-- internal/domain/shared/capability.go. A `map[Capability]struct{}` is the list of its keys.
use fulfillment_execution.Prelude.{
  String, List, [], ◌∷◌, Bool, true, false, ◌≡◌, refl, ◌↔◌, In, All, arith, ite, string_discrete,
  ◌&&◌,
}

abbrev pub Capability : Type 0
Capability = String

abbrev pub CapabilitySet : Type 0
CapabilitySet = List Capability

unfoldable pub contains : CapabilitySet → Capability → Bool
contains [] c = false
contains (x ∷ s) c = ite (string_discrete x c) true (contains s c)

-- Writing a key that is there leaves the map as it is.
unfoldable pub new_capability_set : List Capability → CapabilitySet
new_capability_set [] = []
new_capability_set (c ∷ caps) =
    let set = new_capability_set caps in elim (contains set c) [ true ↦ set | false ↦ c ∷ set ]

unfoldable pub has_all : CapabilitySet → CapabilitySet → Bool
unfolding contains
has_all s [] = true
has_all s (c ∷ required) = contains s c && has_all s required

pub contains-In : (s : CapabilitySet) (c : Capability) → (contains s c ≡ true) ↔ In c s
unfolding contains
contains-In [] c = (λ h. cc, λ i. elim i [ ])
contains-In (x ∷ s) c = (λ h. ground (arith, contains-In s c), λ h. ground (arith, contains-In s c))

-- `HasAll` decides inclusion: it holds exactly when every required capability is in the set.
pub has_all-All :
    (s required : CapabilitySet) → (has_all s required ≡ true) ↔ All (λ c. In c s) required
unfolding has_all
has_all-All s [] = (λ _. tt, λ _. refl)
has_all-All s (c ∷ r) = (
  λ h. ground (arith, contains-In s c, has_all-All s r),
  λ h. ground (arith, contains-In s c, has_all-All s r),
)

-- A set built from a list holds exactly the list's capabilities.
pub new_capability_set-In :
    (caps : List Capability) (c : Capability) → In c (new_capability_set caps) ↔ In c caps
unfolding new_capability_set
new_capability_set-In [] c = (λ i. i, λ i. i)
new_capability_set-In (x ∷ caps) c = (
  λ h. ground (arith, new_capability_set-In caps c),
  λ h. ground (
    arith,
    new_capability_set-In caps c,
    new_capability_set-In caps x,
    contains-In (new_capability_set caps) x,
    contains-In (new_capability_set caps) c,
  ),
)
