-- ===== src/Analytics/Steps.antt =====
-- What one event does to one counter (memory_store.go).
use fulfillment_execution.Prelude.{
  ℕ, suc, ◌≡◌, refl, sym, ap, ◌∙◌, inl, inr, String, Bool, true, false, ◌&&◌, Option, none, some,
  ◌∷◌, lookup-insert, lookup, ite, if_pos, if_neg, if◌then◌else◌, arith, ltb, Bool-cases, insert,
  string_discrete,
}
use fulfillment_execution.Shared.{Time}
use fulfillment_execution.Shared.Capabilities.{contains}
use fulfillment_execution.Analytics.{
  RowKey, RowAcc, MemoryStore, ClaimSeconds, row_key_discrete, row, with_row, first_apply, key_at,
  on_row, apply_task_claimed, apply_task_completed, apply_lease_expired, apply_weight_discrepancy,
  apply_package_manifested, add_claim, manifest, claim_key,
}
use fulfillment_execution.Analytics.Events.{
  Projected, task_claimed, task_completed, lease_expired, weight_discrepancy, package_manifested,
  apply, event_id_of, Counter, completions, lease_expiries, diverts, manifested, on_time, late,
  value, counts, counts_at,
}

row-on_row :
    (f : ClaimSeconds) (j k : RowKey) (change : RowAcc → RowAcc) (s : MemoryStore)
    → row f (on_row f j change s) k ≡ ite (row_key_discrete j k) (change (row f s j)) (row f s k)
unfolding row with_row
row-on_row f j k change s = elim (row_key_discrete j k) [
  | yes p ↦
      rw (lookup-insert row_key_discrete j k (change (row f s j)) s.rows, if_pos _ p, if_pos _ p)
        refl
  | no n ↦
      rw (lookup-insert row_key_discrete j k (change (row f s j)) s.rows, if_neg _ n, if_neg _ n)
        refl
]

abbrev pub add : Bool → ℕ → ℕ
add true n = suc n
add false n = n

add_here : (b : Bool) (n : ℕ) → add b n ≡ add (b && true) n
add_here true n = refl
add_here false n = refl

add_elsewhere : (b : Bool) (n : ℕ) → n ≡ add (b && false) n
add_elsewhere true n = refl
add_elsewhere false n = refl

counted :
    (f : ClaimSeconds) (c : Counter) (j k : RowKey) (change : RowAcc → RowAcc) (b : Bool)
    → ((r : RowAcc) → value c (change r) ≡ add b (value c r))
    → (s : MemoryStore)
    → value c (row f (on_row f j change s) k)
      ≡ add (b && ite (row_key_discrete j k) true false) (value c (row f s k))
counted f c j k change b h s = elim (row_key_discrete j k) [
  | yes p ↦
      ap (value c) (
        row-on_row f j k change s
        ∙ if_pos (row_key_discrete j k) p (change (row f s j)) (row f s k))
      ∙ h (row f s j)
      ∙ add_here b (value c (row f s j))
      ∙ ap (λ x. add (b && true) (value c (row f s x))) p
      ∙ ap (λ x. add (b && x) (value c (row f s k))) (sym (if_pos (row_key_discrete j k) p _ _))
  | no n ↦
      ap (value c) (
        row-on_row f j k change s
        ∙ if_neg (row_key_discrete j k) n (change (row f s j)) (row f s k))
      ∙ add_elsewhere b (value c (row f s k))
      ∙ ap (λ x. add (b && x) (value c (row f s k))) (sym (if_neg (row_key_discrete j k) n _ _))
]

first_apply-seen :
    (id : String) (at : Time) (change : MemoryStore → MemoryStore) (s : MemoryStore)
    → contains s.seen id ≡ true
    → first_apply id at change s ≡ s
unfolding first_apply
first_apply-seen id at change s e = rw (first_apply, e) refl

abbrev noted : String → Time → MemoryStore → MemoryStore
noted id at s = record s { seen = id ∷ s.seen; latest = if ltb s.latest at then at else s.latest }

first_apply-new :
    (id : String) (at : Time) (change : MemoryStore → MemoryStore) (s : MemoryStore)
    → contains s.seen id ≡ false
    → first_apply id at change s ≡ change (noted id at s)
unfolding first_apply
first_apply-new id at change s e = rw (first_apply, e) refl

row-noted :
    (f : ClaimSeconds) (id : String) (at : Time) (s : MemoryStore) (k : RowKey)
    → row f (noted id at s) k ≡ row f s k
unfolding row
row-noted f id at s k = refl

-- A change that is made the first time an id is seen.
first_counted :
    (f : ClaimSeconds) (c : Counter) (k : RowKey) (id : String) (at : Time)
    (change : MemoryStore → MemoryStore) (s : MemoryStore) (b : Bool)
    → ((s' : MemoryStore) → value c (row f (change s') k) ≡ add b (value c (row f s' k)))
    → value c (row f (first_apply id at change s) k)
      ≡ (if contains s.seen id then value c (row f s k) else add b (value c (row f s k)))
first_counted f c k id at change s b h = elim (Bool-cases (contains s.seen id)) [
  | inl e ↦
      ap (λ x. value c (row f x k)) (first_apply-seen id at change s e)
      ∙ ap (λ x. if x then value c (row f s k) else add b (value c (row f s k))) (sym e)
  | inr e ↦
      ap (λ x. value c (row f x k)) (first_apply-new id at change s e)
      ∙ h (noted id at s)
      ∙ ap (λ r. add b (value c r)) (row-noted f id at s k)
      ∙ ap (λ x. if x then value c (row f s k) else add b (value c (row f s k))) (sym e)
]

value-add_claim :
    (f : ClaimSeconds) (c : Counter) (at : Time) (claimed : Option Time) (r : RowAcc)
    → value c (add_claim f at claimed r) ≡ value c r
value-add_claim f c at none r = refl
value-add_claim f completions at (some t) r = refl
value-add_claim f lease_expiries at (some t) r = refl
value-add_claim f diverts at (some t) r = refl
value-add_claim f manifested at (some t) r = refl
value-add_claim f on_time at (some t) r = refl
value-add_claim f late at (some t) r = refl

completion :
    (c : Counter) (f : ClaimSeconds) (at : Time) (claimed : Option Time) (id task ty st : String)
    (r : RowAcc)
    → value c (add_claim f at claimed (record r { completions = suc r.completions }))
      ≡ add (counts c (task_completed id task ty st at)) (value c r)
completion completions f at claimed id task ty st r = value-add_claim f completions at claimed _
completion lease_expiries f at claimed id task ty st r =
    value-add_claim f lease_expiries at claimed _
completion diverts f at claimed id task ty st r = value-add_claim f diverts at claimed _
completion manifested f at claimed id task ty st r = value-add_claim f manifested at claimed _
completion on_time f at claimed id task ty st r = value-add_claim f on_time at claimed _
completion late f at claimed id task ty st r = value-add_claim f late at claimed _

expiry :
    (c : Counter) (id task ty st : String) (at : Time) (r : RowAcc)
    → value c (record r { lease_expiries = suc r.lease_expiries })
      ≡ add (counts c (lease_expired id task ty st at)) (value c r)
expiry completions id task ty st at r = refl
expiry lease_expiries id task ty st at r = refl
expiry diverts id task ty st at r = refl
expiry manifested id task ty st at r = refl
expiry on_time id task ty st at r = refl
expiry late id task ty st at r = refl

divert :
    (c : Counter) (id ty st : String) (at : Time) (r : RowAcc)
    → value c (record r { weigh_check_diverts = suc r.weigh_check_diverts })
      ≡ add (counts c (weight_discrepancy id ty st at)) (value c r)
divert completions id ty st at r = refl
divert lease_expiries id ty st at r = refl
divert diverts id ty st at r = refl
divert manifested id ty st at r = refl
divert on_time id ty st at r = refl
divert late id ty st at r = refl

manifestation :
    (c : Counter) (id ty st : String) (at : Time) (punctual : Bool) (r : RowAcc)
    → value c (manifest punctual r)
      ≡ add (counts c (package_manifested id ty st at punctual)) (value c r)
manifestation completions id ty st at true r = refl
manifestation completions id ty st at false r = refl
manifestation lease_expiries id ty st at true r = refl
manifestation lease_expiries id ty st at false r = refl
manifestation diverts id ty st at true r = refl
manifestation diverts id ty st at false r = refl
manifestation manifested id ty st at true r = refl
manifestation manifested id ty st at false r = refl
manifestation on_time id ty st at true r = refl
manifestation on_time id ty st at false r = refl
manifestation late id ty st at true r = refl
manifestation late id ty st at false r = refl

not_counted :
    (c : Counter) (id task ty st : String) (at : Time) (n : ℕ) (here : Bool)
    → n ≡ add (counts c (task_claimed id task ty st at) && here) n
not_counted completions id task ty st at n here = refl
not_counted lease_expiries id task ty st at n here = refl
not_counted diverts id task ty st at n here = refl
not_counted manifested id task ty st at n here = refl
not_counted on_time id task ty st at n here = refl
not_counted late id task ty st at n here = refl

-- One event adds one to the counters that count it, in its row, unless its id was seen.
pub apply_counts :
    (f : ClaimSeconds) (c : Counter) (k : RowKey) (e : Projected) (s : MemoryStore)
    → value c (row f (apply f e s) k) ≡ (
        if contains s.seen (event_id_of e)
        then value c (row f s k)
        else add (counts_at c k e) (value c (row f s k)))
unfolding apply apply_task_claimed apply_task_completed apply_lease_expired apply_weight_discrepancy
    apply_package_manifested
apply_counts f c k (task_claimed id task ty st at) s =
    first_counted f c k id at
      (λ s'. record s' { claims = insert string_discrete (claim_key ty st task) at s'.claims }) s _
      (λ s'. not_counted c id task ty st at (value c (row f s' k)) _)
apply_counts f c k (task_completed id task ty st at) s =
    first_counted f c k id at
      (λ s'.
        on_row f (key_at ty st at)
          (λ r.
            add_claim f at (lookup string_discrete (claim_key ty st task) s'.claims)
              (record r { completions = suc r.completions }))
          s')
      s _
      (λ s'.
        counted f c (key_at ty st at) k _ _
          (completion c f at (lookup string_discrete (claim_key ty st task) s'.claims) id task ty
            st)
          s')
apply_counts f c k (lease_expired id task ty st at) s =
    first_counted f c k id at
      (on_row f (key_at ty st at) (λ r. record r { lease_expiries = suc r.lease_expiries })) s _
      (counted f c (key_at ty st at) k _ _ (expiry c id task ty st at))
apply_counts f c k (weight_discrepancy id ty st at) s =
    first_counted f c k id at
      (on_row f (key_at ty st at)
        (λ r. record r { weigh_check_diverts = suc r.weigh_check_diverts }))
      s _ (counted f c (key_at ty st at) k _ _ (divert c id ty st at))
apply_counts f c k (package_manifested id ty st at punctual) s =
    first_counted f c k id at (on_row f (key_at ty st at) (manifest punctual)) s _
      (counted f c (key_at ty st at) k _ _ (manifestation c id ty st at punctual))

pub apply-seen :
    (f : ClaimSeconds) (e : Projected) (s : MemoryStore)
    → (apply f e s).seen
      ≡ (if contains s.seen (event_id_of e) then s.seen else event_id_of e ∷ s.seen)
unfolding apply apply_task_claimed apply_task_completed apply_lease_expired apply_weight_discrepancy
    apply_package_manifested first_apply with_row
apply-seen f (task_claimed id task ty st at) s = ground arith
apply-seen f (task_completed id task ty st at) s = ground arith
apply-seen f (lease_expired id task ty st at) s = ground arith
apply-seen f (weight_discrepancy id ty st at) s = ground arith
apply-seen f (package_manifested id ty st at punctual) s = ground arith
