-- ===== src/Analytics/Counts.antt =====
-- What the counters of the throughput rows count (memory_store.go).
use fulfillment_execution.Prelude.{
  ℕ, ◌+◌, ◌≡◌, refl, sym, ap, ◌∙◌, inl, inr, String, Bool, true, false, List, [], ◌∷◌, length, keep,
  lookup, if◌then◌else◌, arith, Bool-cases,
}
use fulfillment_execution.Shared.Capabilities.{contains}
use fulfillment_execution.Analytics.{RowKey, MemoryStore, ClaimSeconds, row, new_memory_store}
use fulfillment_execution.Analytics.Events.{
  Projected, task_claimed, task_completed, lease_expired, weight_discrepancy, package_manifested,
  apply, apply_all, event_id_of, Counter, manifested, on_time, late, value, counts_at, firsts,
}
use fulfillment_execution.Analytics.Steps.{add, apply_counts, apply-seen}

length-keep_cons :
    (p : Projected → Bool) (e : Projected) (es : List Projected) (n : ℕ)
    → length (keep p es) + add (p e) n ≡ length (keep p (e ∷ es)) + n
unfolding keep
length-keep_cons p e es n = elim (Bool-cases (p e)) [
  | inl h ↦ rw h (omega arith)
  | inr h ↦ rw h refl
]

firsts-again :
    (seen : List String) (e : Projected) (es : List Projected)
    → contains seen (event_id_of e) ≡ true
    → firsts seen (e ∷ es) ≡ firsts seen es
unfolding firsts
firsts-again seen e es h = rw (firsts, h) refl

firsts-new :
    (seen : List String) (e : Projected) (es : List Projected)
    → contains seen (event_id_of e) ≡ false
    → firsts seen (e ∷ es) ≡ e ∷ firsts (event_id_of e ∷ seen) es
unfolding firsts
firsts-new seen e es h = rw (firsts, h) refl

-- Each counter of each row holds, beside what it held before, the number of the events that it counts
-- in that row, a repeated event once: an event whose id was seen before, or came earlier, counts for
-- nothing.
pub apply_all-counts :
    (f : ClaimSeconds) (c : Counter) (k : RowKey) (es : List Projected) (s : MemoryStore)
    → value c (row f (apply_all f es s) k)
      ≡ length (keep (counts_at c k) (firsts s.seen es)) + value c (row f s k)
unfolding apply_all firsts keep
apply_all-counts f c k [] s = omega arith
apply_all-counts f c k (e ∷ es) s =
    let total : List Projected → ℕ → ℕ = λ l n. length (keep (counts_at c k) l) + n in
    let v = value c (row f s k) in
    let s' = apply f e s in
    let ih = apply_all-counts f c k es s' in
    elim (Bool-cases (contains s.seen (event_id_of e))) [
      | inl h ↦
          ih
          ∙ ap (λ l. total (firsts l es) (value c (row f s' k)))
              (apply-seen f e s ∙ ap (λ x. if x then s.seen else event_id_of e ∷ s.seen) h)
          ∙ ap (total (firsts s.seen es))
              (apply_counts f c k e s ∙ ap (λ x. if x then v else add (counts_at c k e) v) h)
          ∙ ap (λ l. total l v) (sym (firsts-again s.seen e es h))
      | inr h ↦
          ih
          ∙ ap (λ l. total (firsts l es) (value c (row f s' k)))
              (apply-seen f e s ∙ ap (λ x. if x then s.seen else event_id_of e ∷ s.seen) h)
          ∙ ap (total (firsts (event_id_of e ∷ s.seen) es))
              (apply_counts f c k e s ∙ ap (λ x. if x then v else add (counts_at c k e) v) h)
          ∙ length-keep_cons (counts_at c k) e (firsts (event_id_of e ∷ s.seen) es) v
          ∙ ap (λ l. total l v) (sym (firsts-new s.seen e es h))
    ]

split_counts :
    (k : RowKey) (es : List Projected)
    → length (keep (counts_at manifested k) es)
      ≡ length (keep (counts_at on_time k) es) + length (keep (counts_at late k) es)
unfolding keep
split_counts k [] = omega arith
split_counts k (task_claimed id task ty st at ∷ es) = split_counts k es
split_counts k (task_completed id task ty st at ∷ es) = split_counts k es
split_counts k (lease_expired id task ty st at ∷ es) = split_counts k es
split_counts k (weight_discrepancy id ty st at ∷ es) = split_counts k es
split_counts k (package_manifested id ty st at true ∷ es) = ground (arith, split_counts k es)
split_counts k (package_manifested id ty st at false ∷ es) = ground (arith, split_counts k es)

-- Whatever events are applied to an empty read model, every row counts each manifested package either
-- as on time or as late.
pub manifested_split :
    (f : ClaimSeconds) (k : RowKey) (es : List Projected)
    → (row f (apply_all f es new_memory_store) k).packages_manifested
      ≡ (row f (apply_all f es new_memory_store) k).packages_on_time_to_cpt
        + (row f (apply_all f es new_memory_store) k).packages_late_to_cpt
unfolding row lookup
manifested_split f k es =
    let m = apply_all-counts f manifested k es new_memory_store in
    let o = apply_all-counts f on_time k es new_memory_store in
    let l = apply_all-counts f late k es new_memory_store in
    let all = split_counts k (firsts [] es) in omega (arith, m, o, l, all)
