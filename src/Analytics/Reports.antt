-- ===== src/Analytics/Reports.antt =====
-- Which rows a report holds (memory_store.go).
use fulfillment_execution.Prelude.{
  ◌≤◌, ◌<◌, ◌≡◌, refl, ap, ◌⊎◌, inl, inr, false, [], ◌∷◌, Map, In, arith, Bool-cases, ◌↔◌,
}
use fulfillment_execution.Analytics.{
  RowKey, RowAcc, ClaimSeconds, ReportQuery, Row, skips, to_row, query,
}

-- A row's hour lies in the range, its end excluded, and each text that the query gives is the row's.
abbrev pub Matches : ReportQuery → RowKey → Type 0
Matches q k =
    (q.from ≤ k.hour_bucket)
    × (k.hour_bucket < q.to)
    × ((q.task_type ≡ "") ⊎ (k.task_type ≡ q.task_type))
    × ((q.station_id ≡ "") ⊎ (k.station_id ≡ q.station_id))

skips-Matches : (q : ReportQuery) (k : RowKey) → (skips q k ≡ false) ↔ Matches q k
unfolding skips
skips-Matches q k = (λ h. ground arith, λ m. ground arith)

-- The report holds exactly the rows that match the query: a row of the read model whose key matches is
-- in it, and each of its rows is one of those.
pub query-Matches :
    (f : ClaimSeconds) (q : ReportQuery) (rows : Map RowKey RowAcc)
    → ((k : RowKey) (r : RowAcc)
        → In (k, r) rows
        → Matches q k
        → In (to_row f k r) (query f q rows))
      × ((row : Row)
          → In row (query f q rows)
          → (k : RowKey) × (r : RowAcc) × In (k, r) rows × Matches q k × (row ≡ to_row f k r))
unfolding query
query-Matches f q [] = (λ k r i. elim i [ ], λ row i. elim i [ ])
query-Matches f q ((j, a) ∷ rows) =
    let (there, back) = query-Matches f q rows in
    elim (Bool-cases (skips q j)) [
      | inl h ↦ (
        λ k r i m.
            rw (query, h)
              (elim i [
                | inl e ↦ absurd (
                    let h' = (skips-Matches q k).1 m in
                    let same = ap (λ (x : RowKey × RowAcc). skips q x.0) e in cc)
                | inr i' ↦ there k r i' m
              ]),
        λ row i. let (k, r, at, m, same) = back row (rw (query, h) at i) in (k, r, inr at, m, same),
      )
      | inr h ↦ (
        λ k r i m.
            rw (query, h)
              (elim i [
                | inl e ↦ inl (ap (λ (x : RowKey × RowAcc). to_row f x.0 x.1) e)
                | inr i' ↦ inr (there k r i' m)
              ]),
        λ row i. elim (rw (query, h) at i) [
          | inl e ↦ (j, a, inl refl, (skips-Matches q j).0 h, e)
          | inr i' ↦ let (k, r, at, m, same) = back row i' in (k, r, inr at, m, same)
        ],
      )
    ]
