-- ===== src/Scenarios/Paths.antt =====
-- Tests of the process-path catalogue (internal/domain/pathcatalog/path_definition.go).
use fulfillment_execution.Prelude.{In, String, false, length, none, some, true, ℕ, ◌≡◌, ◌≤◌, ◌⊎◌}
use fulfillment_execution.PathCatalog.{Catalogue, PathDefinition, lookup, recognizes, to_lower}
use fulfillment_execution.PathCatalog.Families.{lookup-longest}
use fulfillment_execution.Scenarios.Samples.{paths}

lookup-longest_example :
    let lower : ℕ → ℕ = λ c. c in
    let c : Catalogue = paths in
    let id : String = "PICK-7" in
    ((d : PathDefinition) × (lookup lower c id ≡ some d)
      × In d c.defs
      × (recognizes lower (to_lower lower id) d ≡ true)
      × ((other : PathDefinition)
          → In other c.defs
          → recognizes lower (to_lower lower id) other ≡ true
          → length (to_lower lower other.match_prefix) ≤ length (to_lower lower d.match_prefix)))
    ⊎ ((lookup lower c id ≡ none)
        × ((other : PathDefinition)
            → In other c.defs
            → recognizes lower (to_lower lower id) other ≡ false))
lookup-longest_example = lookup-longest (λ c. c) paths "PICK-7"
