-- ===== src/PathCatalog.antt =====
-- internal/domain/pathcatalog/path_definition.go: the process-path catalogue. Go's
-- `strings.ToLower` maps each rune by `unicode.ToLower`, which is the argument `lower`. The
-- lengths that `Lookup` compares are those of two prefixes of one id, of which the one with more
-- bytes is the one with more runes.
pub mod Families
use Prim.Native.Char.{code}
use fulfillment_execution.Prelude.{
  ℕ, String, Bool, true, false, ◌||◌, Option, none, some, List, [], ◌∷◌, ◌++◌, map, ltb,
  if◌then◌else◌, length, ◌==◌,
}

pub record PathDefinition : Type 0 where
  pub id : String
  pub match_prefix : String
  pub direct : Bool
  pub required_capabilities : List String
  pub destination_location_role : String

pub record Catalogue : Type 0 where
  pub defs : List PathDefinition

pub new : List PathDefinition → Catalogue
new defs = record { defs = defs }

-- The code points of a text.
abbrev pub runes : String → List ℕ
runes String.[] = []
runes (String.◌∷◌ c s) = code c ∷ runes s

same : List ℕ → List ℕ → Bool
same [] [] = true
same [] (y ∷ ys) = false
same (x ∷ xs) [] = false
same (x ∷ xs) (y ∷ ys) = let rest = same xs ys in if x == y then rest else false

has_prefix : List ℕ → List ℕ → Bool
has_prefix xs [] = true
has_prefix [] (p ∷ ps) = false
has_prefix (x ∷ xs) (p ∷ ps) = let rest = has_prefix xs ps in if x == p then rest else false

unfoldable pub matches_prefix : List ℕ → List ℕ → Bool
unfolding same has_prefix
matches_prefix id prefix = if same id prefix then true else has_prefix id (prefix ++ b'-' ∷ [])

-- `best` and `bestLen`; `nothing` is a `bestLen` of -1.
pub data Best : Type 0 where
  nothing : Best
  found : PathDefinition → ℕ → Best

keep_longer : Best → PathDefinition → ℕ → Best
keep_longer nothing d len = found d len
keep_longer (found best best_len) d len =
    if ltb best_len len then found d len else found best best_len

-- `none` is `ErrUnknownPath`.
result : Best → Option PathDefinition
result nothing = none
result (found d len) = some d

module _ (lower : ℕ → ℕ) where
  unfoldable pub to_lower : String → List ℕ
  to_lower s = map lower (runes s)

  -- The tests of one pass of the loop, up to its two `continue`s.
  unfoldable pub recognizes : List ℕ → PathDefinition → Bool
  recognizes id d =
      let prefix = to_lower d.match_prefix in
      if length prefix == 0 then false else matches_prefix id prefix

  unfoldable pub search_from : List ℕ → Best → List PathDefinition → Best
  unfolding keep_longer
  search_from id best [] = best
  search_from id best (d ∷ defs) =
      search_from id
        (if recognizes id d then keep_longer best d (length (to_lower d.match_prefix)) else best)
        defs

  unfoldable pub lookup : Catalogue → String → Option PathDefinition
  unfolding result search_from
  lookup c id = result (search_from (to_lower id) nothing c.defs)

pub ids : Catalogue → List String
ids c = map (λ (d : PathDefinition). d.id) c.defs
