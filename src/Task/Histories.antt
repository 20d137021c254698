-- ===== src/Task/Histories.antt =====
-- What holds of a Task (internal/domain/task/task.go) after any sequence of calls, whoever makes
-- them and at whatever times. A history is a list of calls, the newest first.
use fulfillment_execution.Prelude.{
  ℕ, ◌≡◌, refl, subst, ◌≢◌, ◌⊎◌, inl, inr, Bool, true, Option, none, some, List, [], ◌∷◌, arith,
}
use fulfillment_execution.Shared.{StationId, Time, Cpt, TaskId, OrderRef}
use fulfillment_execution.Shared.Capabilities.{CapabilitySet, has_all}
use fulfillment_execution.Task.{
  Task, TaskType, Lease, completed, new, expire_lease_if_due, claim, renew_lease, complete,
}
use fulfillment_execution.Task.Lifecycle.{
  IsValid, expire-IsValid, claim-IsValid, renew_lease-IsValid, complete-IsValid,
}

pub data Call : Type 0 where
  claims : StationId → CapabilitySet → Time → ℕ → Call
  renews : StationId → Time → ℕ → Call
  completes : StationId → Time → Call
  expires : Time → Call

unfoldable pub step : Task → Call → Task
step t (claims s caps now d) = (claim t s caps now d).0
step t (renews s now d) = (renew_lease t s now d).0
step t (completes s now) = (complete t s now).0
step t (expires now) = (expire_lease_if_due t now).0

unfoldable pub after : Task → List Call → Task
after t [] = t
after t (c ∷ history) = step (after t history) c

step-IsValid : (t : Task) (c : Call) → IsValid t → IsValid (step t c)
unfolding step
step-IsValid t (claims s caps now d) v = claim-IsValid t s caps now d v
step-IsValid t (renews s now d) v = renew_lease-IsValid t s now d v
step-IsValid t (completes s now) v = complete-IsValid t s now v
step-IsValid t (expires now) v = expire-IsValid t now v

pub after-IsValid : (t : Task) (h : List Call) → IsValid t → IsValid (after t h)
unfolding after
after-IsValid t [] v = v
after-IsValid t (c ∷ h) v = step-IsValid (after t h) c (after-IsValid t h v)

-- The call is a claim by the station with every required capability, and the task accepts it.
abbrev pub AcceptsClaim : StationId → CapabilitySet → Task → Call → Type 0
AcceptsClaim s required t (claims r caps now d) =
    (r ≡ s) × (has_all caps required ≡ true) × ((claim t r caps now d).1 ≡ none)
AcceptsClaim s required t (renews r now d) = ⊥
AcceptsClaim s required t (completes r now) = ⊥
AcceptsClaim s required t (expires now) = ⊥

-- The call is a `Complete` by the station, and the task accepts it.
abbrev pub AcceptsComplete : StationId → Task → Call → Type 0
AcceptsComplete s t (claims r caps now d) = ⊥
AcceptsComplete s t (renews r now d) = ⊥
AcceptsComplete s t (completes r now) = (r ≡ s) × ((complete t r now).1 ≡ none)
AcceptsComplete s t (expires now) = ⊥

-- The history of the task has an accepted claim by the station.
abbrev pub ClaimedBy : StationId → CapabilitySet → Task → List Call → Type 0
ClaimedBy s required t [] = ⊥
ClaimedBy s required t (c ∷ h) = AcceptsClaim s required (after t h) c ⊎ ClaimedBy s required t h

-- The history has an accepted `Complete` by the station, after an accepted claim by it.
abbrev pub CompletedBy : StationId → CapabilitySet → Task → List Call → Type 0
CompletedBy s required t [] = ⊥
CompletedBy s required t (c ∷ h) =
    (AcceptsComplete s (after t h) c × ClaimedBy s required t h) ⊎ CompletedBy s required t h

step-required : (t : Task) (c : Call) → (step t c).required_capabilities ≡ t.required_capabilities
unfolding step claim renew_lease complete expire_lease_if_due
step-required t (claims s caps now d) = ground arith
step-required t (renews s now d) = ground arith
step-required t (completes s now) = ground arith
step-required t (expires now) = ground arith

after-required :
    (t : Task) (h : List Call) → (after t h).required_capabilities ≡ t.required_capabilities
unfolding after
after-required t [] = refl
after-required t (c ∷ h) = ground (arith, after-required t h, step-required (after t h) c)

abbrev pub holder : Option Lease → Option StationId
holder none = none
holder (some l) = some l.station_id

holder-claim :
    (t : Task) (r : StationId) (caps : CapabilitySet) (now : Time) (d : ℕ) (s : StationId)
    → holder (claim t r caps now d).0.lease ≡ some s
    → ((r ≡ s) × (has_all caps t.required_capabilities ≡ true) × ((claim t r caps now d).1 ≡ none))
      ⊎ (holder t.lease ≡ some s)
unfolding claim
holder-claim t r caps now d s e = ground arith

holder-step :
    (t : Task) (c : Call) (s : StationId)
    → holder (step t c).lease ≡ some s
    → AcceptsClaim s t.required_capabilities t c ⊎ (holder t.lease ≡ some s)
unfolding step renew_lease complete expire_lease_if_due
holder-step t (claims r caps now d) s e = holder-claim t r caps now d s e
holder-step t (renews r now d) s e = inr (ground arith)
holder-step t (completes r now) s e = inr (ground arith)
holder-step t (expires now) s e = inr (ground arith)

-- Whoever holds the lease has claimed the task with every required capability.
pub holder-ClaimedBy :
    (t : Task) (h : List Call) (s : StationId)
    → t.lease ≡ none
    → holder (after t h).lease ≡ some s
    → ClaimedBy s t.required_capabilities t h
unfolding after
holder-ClaimedBy t [] s fresh e = ground arith
holder-ClaimedBy t (c ∷ h) s fresh e = elim (holder-step (after t h) c s e) [
  | inl now ↦ inl (subst (λ r. AcceptsClaim s r (after t h) c) (after-required t h) now)
  | inr old ↦ inr (holder-ClaimedBy t h s fresh old)
]

complete-completed :
    (t : Task) (s : StationId) (now : Time)
    → (complete t s now).0.status ≡ completed
    → (t.status ≡ completed) ⊎ ((holder t.lease ≡ some s) × ((complete t s now).1 ≡ none))
unfolding complete
complete-completed t s now e = ground arith

-- The last call, if it is what completes the task, and otherwise nothing.
completed-step :
    (t : Task) (c : Call)
    → (step t c).status ≡ completed
    → (t.status ≡ completed) ⊎ ((s : StationId) × AcceptsComplete s t c × (holder t.lease ≡ some s))
unfolding step claim renew_lease expire_lease_if_due
completed-step t (claims s caps now d) e = inl (ground arith)
completed-step t (renews s now d) e = inl (ground arith)
completed-step t (completes s now) e = elim (complete-completed t s now e) [
  | inl old ↦ inl old
  | inr (held, fine) ↦ inr (s, (refl, fine), held)
]
completed-step t (expires now) e = inl (ground arith)

after-CompletedBy :
    (t : Task) (h : List Call)
    → t.status ≢ completed
    → t.lease ≡ none
    → (after t h).status ≡ completed
    → (s : StationId) × CompletedBy s t.required_capabilities t h
unfolding after
after-CompletedBy t [] n fresh e = absurd (n e)
after-CompletedBy t (c ∷ h) n fresh e = elim (completed-step (after t h) c e) [
  | inl old ↦ let (s, by) = after-CompletedBy t h n fresh old in (s, inr by)
  | inr (s, accepted, held) ↦ (s, inl (accepted, holder-ClaimedBy t h s fresh held))
]

-- However a new task comes to be completed, some station completed it by a call that was accepted,
-- and an accepted claim of that station came before, with every capability that the task requires.
pub completer_had_claimed :
    (id : TaskId) (ty : TaskType) (cpt : Cpt) (ref : OrderRef) (caps : CapabilitySet) (f g : Bool)
    (h : List Call)
    → (after (new id ty cpt ref caps f g) h).status ≡ completed
    → (s : StationId) × CompletedBy s caps (new id ty cpt ref caps f g) h
unfolding new
completer_had_claimed id ty cpt ref caps f g h e =
    after-CompletedBy (new id ty cpt ref caps f g) h (λ p. cc p) refl e
