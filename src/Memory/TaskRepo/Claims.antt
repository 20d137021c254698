-- ===== src/Memory/TaskRepo/Claims.antt =====
-- Who wins a task when stations race for it: the compare-and-set of SaveClaim, and the blind
-- write of Save (internal/adapters/outbound/memory/task_repo.go).
use fulfillment_execution.Prelude.{
  ℕ, ◌+◌, ◌<◌, ◌≡◌, refl, sym, ap, ◌∙◌, ◌≢◌, Bool, true, false, Option, none, some, List, [], ◌∷◌,
  lookup, lookup-insert, lookup-insert_self, string_discrete, All, arith, Bool-cases, inl, inr,
}
use fulfillment_execution.Shared.{StationId, Time}
use fulfillment_execution.Shared.Capabilities.{CapabilitySet}
use fulfillment_execution.Task.{Task, Lease, pending, claimed, claim, expire_lease_if_due}
use fulfillment_execution.Task.Lifecycle.{claim-leases, claim-id}
use fulfillment_execution.Memory.TaskRepo.{
  TaskRepo, ClaimSnapshot, snapshot_of, claimable, save, save_claim, find_by_id,
}

-- One call of SaveClaim: a copy of a task, which may be stale, and the caller's time.
pub record Attempt : Type 0 where
  pub copy : Task
  pub now : Time

unfoldable pub attempts : TaskRepo → List Attempt → TaskRepo
attempts r [] = r
attempts r (a ∷ as_) = attempts (save_claim r a.copy a.now).0 as_

-- The store has the task under a lease until `expiry`.
record Holds (r : TaskRepo) (t : Task) (expiry : Time) : Type 0 where
  stored : lookup string_discrete t.id r.tasks ≡ some t
  snapped :
      lookup string_discrete t.id r.persisted
      ≡ some (record { status = claimed; lease_expiry = some expiry })

save-Holds :
    (r : TaskRepo) (t : Task) (l : Lease)
    → t.status ≡ claimed
    → t.lease ≡ some l
    → Holds (save r t) t l.expiry
unfolding save
save-Holds r t l c e = record {
  stored = ground (arith, lookup-insert_self string_discrete t.id t r.tasks);
  snapped = ground (arith, lookup-insert_self string_discrete t.id (snapshot_of t) r.persisted);
}

refused :
    (r : TaskRepo) (t u : Task) (expiry now : Time)
    → Holds r t expiry
    → u.id ≡ t.id
    → now < expiry
    → save_claim r u now ≡ (r, false)
unfolding save_claim
refused r t u expiry now h e lt = rw (e, h.snapped, save_claim) (ground arith)

save-keeps :
    (r : TaskRepo) (t u : Task) (expiry : Time)
    → Holds r t expiry
    → u.id ≢ t.id
    → Holds (save r u) t expiry
unfolding save
save-keeps r t u expiry h n = record {
  stored = ground (arith, h.stored, lookup-insert string_discrete u.id t.id u r.tasks);
  snapped =
      ground
        (arith, h.snapped, lookup-insert string_discrete u.id t.id (snapshot_of u) r.persisted);
}

attempt-Holds :
    (r : TaskRepo) (t u : Task) (expiry now : Time)
    → Holds r t expiry
    → now < expiry
    → Holds (save_claim r u now).0 t expiry
attempt-Holds r t u expiry now h lt = elim (string_discrete u.id t.id) [
  | yes e ↦ rw (refused r t u expiry now h e lt) h
  | no n ↦ other (lookup string_discrete u.id r.persisted) refl n
]
  where
    other :
        (o : Option ClaimSnapshot)
        → lookup string_discrete u.id r.persisted ≡ o
        → u.id ≢ t.id
        → Holds (save_claim r u now).0 t expiry
    other none e n = unfold save_claim in rw (e, save_claim) (save-keeps r t u expiry h n)
    other (some snap) e n =
        unfold save_claim in
        elim (Bool-cases (claimable snap now)) [
          | inl c ↦ rw (e, save_claim) (rw c (save-keeps r t u expiry h n))
          | inr c ↦ rw (e, save_claim) (rw c h)
        ]

attempts-Holds :
    (r : TaskRepo) (t : Task) (expiry : Time) (as_ : List Attempt)
    → Holds r t expiry
    → All (λ a. a.now < expiry) as_
    → Holds (attempts r as_) t expiry
unfolding attempts
attempts-Holds r t expiry [] h b = h
attempts-Holds r t expiry (a ∷ as_) h b =
    attempts-Holds (save_claim r a.copy a.now).0 t expiry as_
      (attempt-Holds r t a.copy expiry a.now h b.0) b.1

save_claim-won :
    (r : TaskRepo) (t : Task) (now : Time)
    → (save_claim r t now).1 ≡ true
    → (save_claim r t now).0 ≡ save r t
unfolding save_claim
save_claim-won r t now w = ground arith

-- At most one station gets a task: once a call of SaveClaim has won it, then after any further
-- calls by anyone, for any tasks and from copies however stale, made before the winner's lease
-- ends, the winner's claim is stored unchanged and the next such call for the task is refused.
pub save_claim_at_most_once :
    (r : TaskRepo) (t u : Task) (now later : Time) (l : Lease) (between : List Attempt)
    → t.status ≡ claimed
    → t.lease ≡ some l
    → (save_claim r t now).1 ≡ true
    → All (λ a. a.now < l.expiry) between
    → u.id ≡ t.id
    → later < l.expiry
    → let r' = attempts (save_claim r t now).0 between in
      (find_by_id r' t.id ≡ some t) × (save_claim r' u later ≡ (r', false))
unfolding find_by_id
save_claim_at_most_once r t u now later l between c e won early same lt =
    let h =
      attempts-Holds (save_claim r t now).0 t l.expiry between
        (rw (save_claim-won r t now won) (save-Holds r t l c e)) early in
    (h.stored, refused (attempts (save_claim r t now).0 between) t u l.expiry later h same lt)

pub wins :
    (r : TaskRepo) (u : Task) (snap : ClaimSnapshot) (now : Time)
    → lookup string_discrete u.id r.persisted ≡ some snap
    → claimable snap now ≡ true
    → save_claim r u now ≡ (save r u, true)
unfolding save_claim
wins r u snap now e c = rw (e, save_claim) (rw c)

due_claimable :
    (t : Task) (now : Time)
    → (expire_lease_if_due t now).1 ≡ true
    → claimable (snapshot_of t) now ≡ true
unfolding expire_lease_if_due claimable snapshot_of
due_claimable t now due = ground arith

due_freed :
    (r : TaskRepo) (t : Task) (now : Time)
    → (expire_lease_if_due t now).1 ≡ true
    → lookup string_discrete t.id (save r (expire_lease_if_due t now).0).persisted
      ≡ some (record { status = pending; lease_expiry = none })
unfolding expire_lease_if_due save snapshot_of
due_freed r t now due = ground (
  arith,
  lookup-insert_self string_discrete t.id (record { status = pending; lease_expiry = none })
      r.persisted,
)

-- A stale write by the lease sweep takes a claim away. The sweep reads a task whose lease has
-- run out, a station wins that task, and then the sweep saves its own copy: the task is pending
-- in the store, and a second station wins it at once, though the first one's lease still runs.
pub stale_save_loses_claim :
    (r : TaskRepo) (t : Task) (first second : StationId) (caps caps' : CapabilitySet) (now : Time)
    (d d' : ℕ)
    → lookup string_discrete t.id r.persisted ≡ some (snapshot_of t)
    → 0 < d
    → (expire_lease_if_due t now).1 ≡ true
    → (claim t first caps now d).1 ≡ none
    → (claim t second caps' now d').1 ≡ none
    → let won = save_claim r (claim t first caps now d).0 now in
      let swept = save won.0 (expire_lease_if_due t now).0 in
      (won.1 ≡ true)
      × (now < now + d)
      × (save_claim won.0 (claim t second caps' now d').0 now ≡ (won.0, false))
      × ((save_claim swept (claim t second caps' now d').0 now).1 ≡ true)
stale_save_loses_claim r t first second caps caps' now d d' row pos due c c' = (
  ap (λ (x : TaskRepo × Bool). x.1) first_wins,
  omega arith,
  rw first_wins (
      refused (save r b) b b' (now + d) now held
        (claim-id t second caps' now d' ∙ sym (claim-id t first caps now d)) (omega arith)),
  ap (λ (x : TaskRepo × Bool). x.1)
      (wins _ b' (record { status = pending; lease_expiry = none }) now
        (rw (claim-id t second caps' now d') (due_freed _ t now due)) pending_claimable),
)
  where
    b : Task
    b = (claim t first caps now d).0

    b' : Task
    b' = (claim t second caps' now d').0

    first_wins : save_claim r b now ≡ (save r b, true)
    first_wins =
        wins r b (snapshot_of t) now (rw (claim-id t first caps now d) row)
          (due_claimable t now due)

    held : Holds (save r b) b (now + d)
    held =
        save-Holds r b (record { station_id = first; expiry = now + d })
          (ap (λ (u : Task). u.status) (claim-leases t first caps now d c))
          (ap (λ (u : Task). u.lease) (claim-leases t first caps now d c))

    pending_claimable : claimable (record { status = pending; lease_expiry = none }) now ≡ true
    pending_claimable = unfold claimable in refl
