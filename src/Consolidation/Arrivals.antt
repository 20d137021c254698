-- ===== src/Consolidation/Arrivals.antt =====
-- When an order is complete (internal/domain/consolidation/order_consolidation.go).
use fulfillment_execution.Prelude.{
  ◌≡◌, refl, sym, subst, ◌↔◌, ◌⊎◌, inl, inr, String, true, false, List, [], ◌∷◌, arith, In, All,
  Distinct, All-in, In-All, length, length-le_of_subset, Bool-cases,
}
use fulfillment_execution.Shared.Capabilities.{contains, contains-In}
use fulfillment_execution.Consolidation.{
  OrderConsolidation, mark, mark_all, new, rehydrate, record_arrival, is_complete,
}

-- Each line is counted once, and only required lines have arrived.
pub record IsValid (o : OrderConsolidation) : Type 0 where
  pub required_once : Distinct o.required_lines
  pub arrived_once : Distinct o.arrived_lines
  pub arrived_required : All (λ l. In l o.required_lines) o.arrived_lines

pub mark-In :
    (id : String) (set : List String) (x : String) → In x (mark id set) ↔ ((x ≡ id) ⊎ In x set)
unfolding mark
mark-In id set x =
    (λ h. ground (arith, contains-In set id), λ h. ground (arith, contains-In set id))

mark-Distinct : (id : String) (set : List String) → Distinct set → Distinct (mark id set)
unfolding mark
mark-Distinct id set d = ground (arith, contains-In set id)

mark_all-Distinct : (ids set : List String) → Distinct set → Distinct (mark_all ids set)
unfolding mark_all
mark_all-Distinct [] set d = d
mark_all-Distinct (id ∷ ids) set d = mark_all-Distinct ids (mark id set) (mark-Distinct id set d)

mark_all-In : (ids set : List String) (x : String) → In x (mark_all ids set) ↔ (In x ids ⊎ In x set)
unfolding mark_all
mark_all-In [] set x = (λ h. inr h, λ h. ground arith)
mark_all-In (id ∷ ids) set x = (
  λ h. ground (arith, mark_all-In ids (mark id set) x, mark-In id set x),
  λ h. ground (arith, mark_all-In ids (mark id set) x, mark-In id set x),
)

pub new-IsValid : (ref : String) (ids : List String) → IsValid (new ref ids)
unfolding new
new-IsValid ref ids = record {
  required_once = mark_all-Distinct ids [] tt;
  arrived_once = tt;
  arrived_required = tt;
}

-- What was stored is valid again, as long as only required lines were stored as arrived.
pub rehydrate-IsValid :
    (ref : String) (ids arrived : List String)
    → All (λ l. In l ids) arrived
    → IsValid (rehydrate ref ids arrived)
unfolding rehydrate new
rehydrate-IsValid ref ids arrived a = record {
  required_once = mark_all-Distinct ids [] tt;
  arrived_once = mark_all-Distinct arrived [] tt;
  arrived_required = In-All _ (mark_all arrived []) λ l i.
      (mark_all-In ids [] l).1
        (inl (All-in _ arrived a l (ground (arith, mark_all-In arrived [] l))));
}

pub record_arrival-IsValid :
    (o : OrderConsolidation) (l : String) → IsValid o → IsValid (record_arrival o l).0
unfolding record_arrival
record_arrival-IsValid o l v = elim (Bool-cases (contains o.required_lines l)) [
  | inr e ↦ rw (e, record_arrival) v
  | inl e ↦
      rw (e, record_arrival)
        (record {
          required_once = v.required_once;
          arrived_once = mark-Distinct l o.arrived_lines v.arrived_once;
          arrived_required =
              In-All _ (mark l o.arrived_lines)
                λ x i. arrives e x ((mark-In l o.arrived_lines x).0 i);
        })
]
  where
    arrives :
        contains o.required_lines l ≡ true
        → (x : String) → (x ≡ l) ⊎ In x o.arrived_lines
        → In x o.required_lines
    arrives e x (inl same) = ground (arith, contains-In o.required_lines l)
    arrives e x (inr i) = All-in _ o.arrived_lines v.arrived_required x i

-- The count of arrived lines decides completeness: a valid order is complete exactly when every
-- required line has arrived.
pub is_complete-All :
    (o : OrderConsolidation)
    → IsValid o
    → (is_complete o ≡ true) ↔ All (λ l. In l o.arrived_lines) o.required_lines
unfolding is_complete
is_complete-All o v = (
  λ h. In-All _ o.required_lines λ l i. elim (Bool-cases (contains o.arrived_lines l)) [
    | inl e ↦ (contains-In o.arrived_lines l).0 e
    | inr e ↦ absurd (
        omega (
          arith,
          same h,
          length-le_of_subset (l ∷ o.arrived_lines) o.required_lines (missing l e, v.arrived_once)
              (i, v.arrived_required),
        ))
  ],
  λ h. ground (
    arith,
    length-le_of_subset o.arrived_lines o.required_lines v.arrived_once v.arrived_required,
    length-le_of_subset o.required_lines o.arrived_lines v.required_once h,
  ),
)
  where
    same : is_complete o ≡ true → length o.arrived_lines ≡ length o.required_lines
    same h = ground arith

    missing : (l : String) → contains o.arrived_lines l ≡ false → ¬ In l o.arrived_lines
    missing l e i = ground (arith, contains-In o.arrived_lines l)

-- Arrivals in sequence, refusals included.
pub arrivals : OrderConsolidation → List String → OrderConsolidation
arrivals o [] = o
arrivals o (l ∷ ls) = arrivals (record_arrival o l).0 ls

arrivals-IsValid : (o : OrderConsolidation) (ls : List String) → IsValid o → IsValid (arrivals o ls)
unfolding arrivals
arrivals-IsValid o [] v = v
arrivals-IsValid o (l ∷ ls) v =
    arrivals-IsValid (record_arrival o l).0 ls (record_arrival-IsValid o l v)

record_arrival-In :
    (o : OrderConsolidation) (l x : String)
    → In x o.required_lines
    → In x (record_arrival o l).0.arrived_lines ↔ ((x ≡ l) ⊎ In x o.arrived_lines)
unfolding record_arrival
record_arrival-In o l x r = elim (Bool-cases (contains o.required_lines l)) [
  | inl e ↦ rw (e, record_arrival) (mark-In l o.arrived_lines x)
  | inr e ↦ rw (e, record_arrival) (λ h. inr h, λ h. ground (arith, contains-In o.required_lines l))
]

record_arrival-required :
    (o : OrderConsolidation) (l : String) → (record_arrival o l).0.required_lines ≡ o.required_lines
unfolding record_arrival
record_arrival-required o l = ground arith

arrivals-required :
    (o : OrderConsolidation) (ls : List String) → (arrivals o ls).required_lines ≡ o.required_lines
unfolding arrivals
arrivals-required o [] = refl
arrivals-required o (l ∷ ls) =
    ground (arith, arrivals-required (record_arrival o l).0 ls, record_arrival-required o l)

arrivals-In :
    (o : OrderConsolidation) (ls : List String) (x : String)
    → In x o.required_lines
    → In x (arrivals o ls).arrived_lines ↔ (In x ls ⊎ In x o.arrived_lines)
unfolding arrivals
arrivals-In o [] x r = (λ h. inr h, λ h. ground arith)
arrivals-In o (l ∷ ls) x r =
    let o' = (record_arrival o l).0 in
    let r' : In x o'.required_lines = subst (In x) (sym (record_arrival-required o l)) r in
    (
      λ h. ground (arith, arrivals-In o' ls x r', record_arrival-In o l x r),
      λ h. ground (arith, arrivals-In o' ls x r', record_arrival-In o l x r),
    )

-- After any sequence of arrivals, in any order and with any repetitions and unknown lines among
-- them, an order is complete exactly when each of its lines is among the arrivals.
pub arrivals_complete :
    (ref : String) (ids ls : List String)
    → (is_complete (arrivals (new ref ids) ls) ≡ true) ↔ All (λ l. In l ls) ids
unfolding new
arrivals_complete ref ids ls = (
  λ h.
      In-All _ ids
        λ l i. only l (All-in _ _ ((is_complete-All o valid).0 h) l (required l i)) (required l i),
  λ h. (is_complete-All o valid).1 (
      In-All _ o.required_lines λ l i.
        let i' = subst (In l) (arrivals-required (new ref ids) ls) i in
        (arrivals-In (new ref ids) ls l i').1 (inl (All-in _ ids h l (listed l i')))),
)
  where
    o : OrderConsolidation
    o = arrivals (new ref ids) ls

    valid : IsValid o
    valid = arrivals-IsValid (new ref ids) ls (new-IsValid ref ids)

    listed : (l : String) → In l (new ref ids).required_lines → In l ids
    listed l i = ground (arith, mark_all-In ids [] l)

    required : (l : String) → In l ids → In l o.required_lines
    required l i =
        subst (In l) (sym (arrivals-required (new ref ids) ls)) ((mark_all-In ids [] l).1 (inl i))

    only : (l : String) → In l o.arrived_lines → In l o.required_lines → In l ls
    only l a r = ground (
      arith,
      arrivals-In (new ref ids) ls l (subst (In l) (arrivals-required (new ref ids) ls) r),
    )
