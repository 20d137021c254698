-- ===== src/Outbox/Drains.antt =====
-- That the relay empties the outbox (outbox_relay.go).
use fulfillment_execution.Prelude.{
  ℕ, zero, suc, ◌+◌, ◌*◌, ◌≤◌, ◌≡◌, refl, sym, ap, ◌∙◌, String, false, not, ◌&&◌, Option, none,
  List, [], ◌∷◌, ◌++◌, ◌==◌, keep, arith, In, inr, Distinct, length,
}
use fulfillment_execution.Outbox.{
  OutboxRow, Outbox, Pass, is_open, take, is_pending, claim_rows, update, mark_published,
  publish_batch, relay_once, end_pass,
}
use fulfillment_execution.Outbox.Order.{ids, append_assoc, append_nil, batch_next, pass_lem}

abbrev pub pending : List OutboxRow → List OutboxRow
pending rows = keep is_pending rows

-- A pass of the only relay in which nothing fails.
abbrev pub IsCalm : Pass → Type 0
IsCalm f =
    (f.begin_tx ≡ none)
    × (f.claim ≡ none)
    × ((i : ℕ) → f.send i ≡ none)
    × ((i : ℕ) → f.mark i ≡ none)
    × (f.commit ≡ none)
    × ((i : ℕ) → f.locked i ≡ false)

abbrev drop : {A : Type 0} → ℕ → List A → List A
drop zero xs = xs
drop (suc n) [] = []
drop (suc n) (x ∷ xs) = drop n xs

mark_all : List OutboxRow → List OutboxRow → List OutboxRow
mark_all [] rows = rows
mark_all (p ∷ ps) rows = mark_all ps (update p.id mark_published rows)

pending-update :
    (id : ℕ) (rows : List OutboxRow)
    → pending (update id mark_published rows) ≡ keep (λ r. not (r.id == id)) (pending rows)
unfolding update keep
pending-update id [] = refl
pending-update id (r ∷ rs) = ground (arith, pending-update id rs)

keep_others :
    (id : ℕ) (ps : List OutboxRow) → ¬ In id (ids ps) → keep (λ r. not (r.id == id)) ps ≡ ps
unfolding keep
keep_others id [] out = refl
keep_others id (p ∷ ps) out = ground (arith, keep_others id ps)

keep_first :
    (p : OutboxRow) (ps : List OutboxRow)
    → ¬ In p.id (ids ps)
    → keep (λ r. not (r.id == p.id)) (p ∷ ps) ≡ ps
unfolding keep
keep_first p ps out = ground (arith, keep_others p.id ps out)

pending-mark_all :
    (k : ℕ) (l rows : List OutboxRow)
    → pending rows ≡ l
    → Distinct (ids l)
    → pending (mark_all (take k l) rows) ≡ drop k l
unfolding mark_all
pending-mark_all zero l rows e d = e
pending-mark_all (suc k) [] rows e d = e
pending-mark_all (suc k) (p ∷ ps) rows e d =
    pending-mark_all k ps (update p.id mark_published rows)
      (pending-update p.id rows ∙ ap (keep (λ r. not (r.id == p.id))) e ∙ keep_first p ps d.0) d.1

calm_batch :
    (f : Pass) (before batch rows : List OutboxRow) (sent : List ℕ) (n : ℕ)
    → IsCalm f
    → publish_batch f before batch rows sent n ≡ record {
      published = n + length batch;
      error = none;
      transaction = is_open (mark_all batch rows);
      sent = sent ++ ids batch;
    }
unfolding publish_batch mark_all
calm_batch f before [] rows sent n calm = ground (arith, append_nil sent)
calm_batch f before (p ∷ ps) rows sent n calm =
    batch_next f before ps rows p sent n (calm.2 p.id) (calm.3 p.id)
    ∙ calm_batch f before ps (update p.id mark_published rows) (sent ++ p.id ∷ []) (n + 1) calm
    ∙ ground (arith, append_assoc sent (p.id ∷ []) (ids ps))

keep_unlocked :
    (f : Pass) (rows : List OutboxRow)
    → ((i : ℕ) → f.locked i ≡ false)
    → keep (λ r. is_pending r && not (f.locked r.id)) rows ≡ pending rows
unfolding keep
keep_unlocked f [] free = refl
keep_unlocked f (r ∷ rs) free = ground (arith, keep_unlocked f rs free, free r.id)

claim-pending :
    (f : Pass) (n : ℕ) (rows : List OutboxRow)
    → ((i : ℕ) → f.locked i ≡ false)
    → claim_rows f.locked n rows ≡ take n (pending rows)
unfolding claim_rows
claim-pending f n rows free = ap (take n) (keep_unlocked f rows free)

-- A calm pass publishes the next rows, as many as fit.
calm_pass :
    (batch_size : ℕ) (f : Pass) (o : Outbox)
    → IsCalm f
    → relay_once batch_size f o ≡ (
      length (take batch_size (pending o.rows)),
      none,
      record o {
        rows = mark_all (take batch_size (pending o.rows)) o.rows;
        sent = o.sent ++ ids (take batch_size (pending o.rows));
      },
    )
calm_pass batch_size f o calm =
    pass_lem batch_size f o calm.0 calm.1
    ∙ ap (end_pass f o) (
        ap (λ batch. publish_batch f o.rows batch o.rows o.sent 0)
          (claim-pending f batch_size o.rows calm.5)
        ∙ calm_batch f o.rows (take batch_size (pending o.rows)) o.rows o.sent 0 calm)
    ∙ (let c = calm.4 in ground arith)

-- The relay's passes one after the other.
unfoldable pub passes : ℕ → ℕ → Pass → Outbox → Outbox
unfolding relay_once
passes zero batch_size f o = o
passes (suc k) batch_size f o = passes k batch_size f (relay_once batch_size f o).2

nothing : (l : List OutboxRow) → length l ≤ 0 → l ≡ []
nothing [] h = refl
nothing (r ∷ rs) h = absurd (omega arith)

length-drop_le : (n m : ℕ) (l : List OutboxRow) → length l ≤ n + m → length (drop n l) ≤ m
length-drop_le zero m l h = omega arith
length-drop_le (suc n) m [] h = omega arith
length-drop_le (suc n) m (r ∷ rs) h = length-drop_le n m rs (omega arith)

ids-drop : (n : ℕ) (l : List OutboxRow) (i : ℕ) → In i (ids (drop n l)) → In i (ids l)
ids-drop zero l i h = h
ids-drop (suc n) [] i h = h
ids-drop (suc n) (r ∷ rs) i h = inr (ids-drop n rs i h)

drop-Distinct : (n : ℕ) (l : List OutboxRow) → Distinct (ids l) → Distinct (ids (drop n l))
drop-Distinct zero l d = d
drop-Distinct (suc n) [] d = d
drop-Distinct (suc n) (r ∷ rs) d = drop-Distinct n rs d.1

take-drop-ids : (n : ℕ) (l : List OutboxRow) → ids (take n l) ++ ids (drop n l) ≡ ids l
take-drop-ids zero l = refl
take-drop-ids (suc n) [] = refl
take-drop-ids (suc n) (r ∷ rs) = ap (λ is. r.id ∷ is) (take-drop-ids n rs)

-- While nothing fails, no other relay runs and nothing is added, passes that have room for the
-- unpublished rows publish every one of them: each is sent exactly once, in the order of the table,
-- and none is left. The unpublished rows have distinct ids.
pub passes-drain :
    (k batch_size : ℕ) (f : Pass) (o : Outbox)
    → IsCalm f
    → Distinct (ids (pending o.rows))
    → length (pending o.rows) ≤ k * batch_size
    → (pending (passes k batch_size f o).rows ≡ [])
      × ((passes k batch_size f o).sent ≡ o.sent ++ ids (pending o.rows))
unfolding passes
passes-drain zero batch_size f o calm d fits =
    let empty = nothing (pending o.rows) (omega arith) in
    (empty, sym (append_nil o.sent) ∙ ap (λ l. o.sent ++ ids l) (sym empty))
passes-drain (suc k) batch_size f o calm d fits =
    let l = pending o.rows in
    let o' : Outbox = record o {
      rows = mark_all (take batch_size l) o.rows;
      sent = o.sent ++ ids (take batch_size l);
    } in
    let step = ap (λ (x : ℕ × Option String × Outbox). x.2) (calm_pass batch_size f o calm) in
    let rest : pending o'.rows ≡ drop batch_size l = pending-mark_all batch_size l o.rows refl d in
    let (none_left, in_order) =
      passes-drain k batch_size f o' calm (rw rest (drop-Distinct batch_size l d))
        (rw rest (length-drop_le batch_size (k * batch_size) l (omega arith))) in
    (
      ap (λ x. pending (passes k batch_size f x).rows) step ∙ none_left,
      ap (λ x. (passes k batch_size f x).sent) step
          ∙ in_order
          ∙ ap (λ r. o'.sent ++ ids r) rest
          ∙ append_assoc o.sent (ids (take batch_size l)) (ids (drop batch_size l))
          ∙ ap (λ is. o.sent ++ is) (take-drop-ids batch_size l),
    )
