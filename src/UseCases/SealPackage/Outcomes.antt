-- ===== src/UseCases/SealPackage/Outcomes.antt =====
-- What sealing guarantees (internal/application/usecases/seal_package.go).
use fulfillment_execution.Prelude.{
  ◌≡◌, refl, ap, sym, subst, ◌≢◌, inl, inr, ◌++◌, ◌∙◌, String, Bool, true, false, Option, none,
  some, List, [], ◌∷◌, arith, Option-cases, Bool-cases,
}
use fulfillment_execution.Shared.{TaskId, StationId, PackageId}
use fulfillment_execution.Shared.Events.{package_sealed}
use fulfillment_execution.Task.{Task, Lease, pack}
use fulfillment_execution.Package.{Package, sealed, new, seal}
use fulfillment_execution.Package.Lifecycle.{
  Segregated, IsValid, new-IsValid, seal-IsValid, seal-fields,
}
use fulfillment_execution.Memory.PackageRepo as PackageRepo
use fulfillment_execution.Memory.TaskRepo as TaskRepo
use fulfillment_execution.UseCases.Effects.{
  World, Env, Result, ok, publish, atomically, finds_package_of_task,
}
use fulfillment_execution.UseCases.RunSlam.{save_package}
use fulfillment_execution.UseCases.SealPackage.{
  ClassificationLookup, scan_all, holds_lease, scan_and_seal, seal_new, seal_package,
}
use fulfillment_execution.UseCases.SealPackage.Declared.{
  declared_classes, Apart, scan_all-declared, Segregated-Apart,
}
use fulfillment_execution.UseCases.SealPackage.Scans.{scan_all-Extends, scan_all-IsValid}

-- The world in which the package is stored as sealed.
abbrev pub with_sealed : Env → World → Package → World
with_sealed env w p = record w {
  packages = PackageRepo.save w.packages p;
  published = w.published ++ package_sealed p.id env.now ∷ [];
}

scan_and_seal-ok :
    (lookup : ClassificationLookup) (env : Env) (in_tx : Bool) (p r : Package)
    (contents : List String) (w : World)
    → (scan_and_seal lookup env in_tx p contents w).0 ≡ ok r
    → let scanned = scan_all lookup p contents in
      (scanned.1 ≡ none)
      × ((seal scanned.0).1 ≡ none)
      × (r ≡ (seal scanned.0).0)
      × ((scan_and_seal lookup env in_tx p contents w).1 ≡ with_sealed env w (seal scanned.0).0)
unfolding scan_and_seal atomically save_package publish
scan_and_seal-ok lookup env in_tx p r contents w h =
    elim (Option-cases (scan_all lookup p contents).1) [
      | inr (x, e) ↦ absurd (ground arith)
      | inl e ↦ elim (Option-cases (seal (scan_all lookup p contents).0).1) [
        | inr (x, f) ↦ absurd (ground arith)
        | inl f ↦ (e, f, ground arith, ground arith)
      ]
    ]

seal_new-ok :
    (lookup : ClassificationLookup) (env : Env) (in_tx : Bool) (id : PackageId) (task_id : TaskId)
    (s : StationId) (r : Package) (contents : List String) (w : World)
    → (seal_new lookup env in_tx id task_id s contents w).0 ≡ ok r
    → (t : Task) × (TaskRepo.find_by_id w.tasks task_id ≡ some t)
      × (t.task_type ≡ pack)
      × (holds_lease t.lease s ≡ true)
      × (seal_new lookup env in_tx id task_id s contents w
          ≡ scan_and_seal lookup env in_tx
              (new id t.order_ref task_id t.fragile t.gift_wrap)
              contents
              w)
unfolding seal_new
seal_new-ok lookup env in_tx id task_id s r contents w h =
    elim (Option-cases (TaskRepo.find_by_id w.tasks task_id)) [
      | inl e ↦ absurd (ground arith)
      | inr (t, e) ↦ (t, e, ground arith, ground arith, ground arith)
    ]

holds_lease-held :
    (lease : Option Lease) (s : StationId)
    → holds_lease lease s ≡ true
    → (l : Lease) × (lease ≡ some l) × (l.station_id ≡ s)
holds_lease-held none s h = absurd (cc h)
holds_lease-held (some l) s h = (l, refl, ground arith)

seal_package-fresh :
    (lookup : ClassificationLookup) (env : Env) (in_tx : Bool) (id : PackageId) (task_id : TaskId)
    (s : StationId) (r : Package) (contents : List String) (w : World)
    → PackageRepo.find_by_task_id w.packages task_id ≡ none
    → (seal_package lookup env in_tx id task_id s contents w).0 ≡ ok r
    → seal_package lookup env in_tx id task_id s contents w
      ≡ seal_new lookup env in_tx id task_id s contents w
unfolding seal_package
seal_package-fresh lookup env in_tx id task_id s r contents w f h =
    elim (Bool-cases (env.fails (finds_package_of_task task_id))) [
      | inl e ↦ absurd (ground arith)
      | inr e ↦ rw e (rw f)
    ]

-- The facts of a package that was sealed for a task.
pub record SealedFor (lookup : ClassificationLookup) (t : Task) (id : PackageId) (task_id : TaskId)
    (contents : List String) (p : Package) : Type 0 where
  pub valid : IsValid p
  pub is_sealed : p.status ≡ sealed
  pub scanned : p.scanned_contents ≡ contents
  pub named : p.id ≡ id
  pub of_task : p.task_id ≡ task_id
  pub of_order : p.order_ref ≡ t.order_ref
  pub fragile : p.fragile_handling ≡ t.fragile
  pub gift_wrap : p.gift_wrap_requested ≡ t.gift_wrap
  pub recorded : p.scanned_hazard_classes ≡ declared_classes lookup contents
  pub apart : Apart lookup contents

sealed_facts :
    (lookup : ClassificationLookup) (t : Task) (id : PackageId) (task_id : TaskId)
    (contents : List String) (p r : Package)
    → p ≡ new id t.order_ref task_id t.fragile t.gift_wrap
    → (scan_all lookup p contents).1 ≡ none
    → (seal (scan_all lookup p contents).0).1 ≡ none
    → r ≡ (seal (scan_all lookup p contents).0).0
    → SealedFor lookup t id task_id contents r
unfolding new
sealed_facts lookup t id task_id contents p r start e f same =
    let x = scan_all-Extends lookup contents p e in
    let all = scan_all lookup p contents in
    let classes : all.0.scanned_hazard_classes ≡ declared_classes lookup contents =
      scan_all-declared lookup contents p e
      ∙ ap (λ (q : Package). q.scanned_hazard_classes ++ declared_classes lookup contents) start in
    let k = same ∙ seal-fields all.0 f in
    let v =
      scan_all-IsValid lookup contents p
        (subst IsValid (sym start) (new-IsValid id t.order_ref task_id t.fragile t.gift_wrap)) in
    subst (SealedFor lookup t id task_id contents) (sym k) (record {
      valid = subst IsValid k (subst IsValid (sym same) (seal-IsValid _ v));
      is_sealed = refl;
      scanned = ground (arith, x);
      named = ground (arith, x);
      of_task = ground (arith, x);
      of_order = ground (arith, x);
      fragile = ground (arith, x);
      gift_wrap = ground (arith, x);
      recorded = classes;
      apart = Segregated-Apart lookup contents (subst Segregated classes v.segregated);
    })

-- The first call that seals a package for a task: the task is stored, is a Pack task and has a
-- lease of the station; the package holds exactly the contents, in their order, and has recorded the
-- hazard classes that the product lookup declares for them, without those of 0; no two of the
-- contents are declared to be of classes that may not share a package; the package is stored, and one
-- PackageSealed is published. A product is declared to be of a class where the lookup is wired,
-- answers, knows the product and says that it is hazardous.
pub seal_package_first :
    (lookup : ClassificationLookup) (env : Env) (in_tx : Bool) (id : PackageId) (task_id : TaskId)
    (s : StationId) (r : Package) (contents : List String) (w : World)
    → PackageRepo.find_by_task_id w.packages task_id ≡ none
    → (seal_package lookup env in_tx id task_id s contents w).0 ≡ ok r
    → (t : Task) × (TaskRepo.find_by_id w.tasks task_id ≡ some t)
      × (t.task_type ≡ pack)
      × ((l : Lease) × (t.lease ≡ some l) × (l.station_id ≡ s))
      × SealedFor lookup t id task_id contents r
      × ((seal_package lookup env in_tx id task_id s contents w).1 ≡ with_sealed env w r)
seal_package_first lookup env in_tx id task_id s r contents w f h =
    let fresh = seal_package-fresh lookup env in_tx id task_id s r contents w f h in
    let (t, found, typed, held, run) =
      seal_new-ok lookup env in_tx id task_id s r contents w (rw fresh at h) in
    let p = new id t.order_ref task_id t.fragile t.gift_wrap in
    let (scanned, closed, same, world) =
      scan_and_seal-ok lookup env in_tx p r contents w (rw run at (rw fresh at h)) in
    (
      t,
      found,
      typed,
      holds_lease-held t.lease s held,
      sealed_facts lookup t id task_id contents p r refl scanned closed same,
      ap (λ (x : Result Package × World). x.1) (fresh ∙ run)
          ∙ world
          ∙ ap (with_sealed env w) (sym same),
    )

seal_package-found :
    (lookup : ClassificationLookup) (env : Env) (in_tx : Bool) (id : PackageId) (task_id : TaskId)
    (s : StationId) (r : Package) (contents : List String) (w : World)
    → env.fails (finds_package_of_task task_id) ≡ false
    → PackageRepo.find_by_task_id w.packages task_id ≡ some r
    → seal_package lookup env in_tx id task_id s contents w ≡ (ok r, w)
unfolding seal_package
seal_package-found lookup env in_tx id task_id s r contents w quiet found = rw quiet (rw found)

-- Sealing is idempotent on the task: after a call that sealed a package for it, any further call
-- for the task, by any station, with any contents and at any time, returns that package and
-- changes nothing, as long as its search for the package does not fail. (An empty task id is
-- never found.)
pub seal_package_retry :
    (lookup lookup' : ClassificationLookup) (env env' : Env) (in_tx in_tx' : Bool)
    (id id' : PackageId) (task_id : TaskId) (s s' : StationId) (r : Package)
    (contents contents' : List String) (w : World)
    → PackageRepo.find_by_task_id w.packages task_id ≡ none
    → task_id ≢ ""
    → (seal_package lookup env in_tx id task_id s contents w).0 ≡ ok r
    → env'.fails (finds_package_of_task task_id) ≡ false
    → let w' = (seal_package lookup env in_tx id task_id s contents w).1 in
      seal_package lookup' env' in_tx' id' task_id s' contents' w' ≡ (ok r, w')
seal_package_retry lookup lookup' env env' in_tx in_tx' id id' task_id s s' r contents contents' w f
      n h quiet =
    let (t, _, _, _, facts, world) =
      seal_package_first lookup env in_tx id task_id s r contents w f h in
    seal_package-found lookup' env' in_tx' id' task_id s' r contents' _ quiet (
      subst (λ (v : World). PackageRepo.find_by_task_id v.packages task_id ≡ some r) (sym world)
        (PackageRepo.find_by_task_id-save w.packages r task_id f facts.of_task n))
