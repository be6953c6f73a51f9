-- ===== src/Eventing/Publisher/Counts.antt =====
-- publisher.ts: the report of a batch accounts for every claimed row.
use ai_crm_step.Base.{
  ℕ, String, ◌+◌, ◌-◌, ◌*◌, ◌∙◌, ◌≤◌, ◌≡◌, refl, List, [], ◌∷◌, arith, length, inl, inr,
}
use ai_crm_step.Base.Result.{ok, Result-cases, ok_injective}
use ai_crm_step.Eventing.Types.{OutboxRecord}
use ai_crm_step.Eventing.Store.{Store, claim_outbox}
use ai_crm_step.Eventing.Store.Claims.{claim_outbox_limit}
use ai_crm_step.Eventing.Publisher.{
  PublisherOptions, PublishBatchResult, Delivery, RowEnd, published_row, retained_row, isolated_row,
  count_row, publish_row, publish_rows, publish_batch,
}

abbrev pub accounted : PublishBatchResult → ℕ
accounted r = r.published + r.retained + r.isolated

count_row_lem :
    (e : RowEnd) (r : PublishBatchResult)
    → (accounted (count_row e r) ≡ accounted r + 1) × ((count_row e r).claimed ≡ r.claimed)
count_row_lem published_row r = (omega arith, refl)
count_row_lem retained_row r = (omega arith, refl)
count_row_lem isolated_row r = (omega arith, refl)

publish_rows_count :
    (o : PublisherOptions) (deliver : OutboxRecord → Delivery) (rows : List OutboxRecord)
    (r : PublishBatchResult) (st : Store) (out : PublishBatchResult)
    → (publish_rows o deliver rows r st).0 ≡ ok out
    → (accounted out ≡ accounted r + length rows) × (out.claimed ≡ r.claimed)
unfolding publish_rows
publish_rows_count o deliver [] r st out h = ground (arith, ok_injective h)
publish_rows_count o deliver (row ∷ rows) r st out h =
    let st' = (publish_row o (deliver row) row st).1 in
    elim (Result-cases (publish_row o (deliver row) row st).0) [
      | inr (e, failed) ↦ ground (arith, failed)
      | inl (e, ended) ↦
          let later : (publish_rows o deliver rows (count_row e r) st').0 ≡ ok out =
            ground (arith, ended) in
          let (total, same) = publish_rows_count o deliver rows (count_row e r) st' out later in
          let (one, kept) = count_row_lem e r in (omega arith, same ∙ kept)
    ]

-- A batch that ends without an error accounts for every row that it claimed, as published, retained
-- or isolated, and claims no more rows than the batch size.
pub publish_batch_accounts :
    (o : PublisherOptions) (at : ℕ) (token : ℕ → String) (deliver : OutboxRecord → Delivery)
    (st : Store) (out : PublishBatchResult)
    → (publish_batch o at token deliver st).0 ≡ ok out
    → (accounted out ≡ out.claimed) × (out.claimed ≤ o.batch_size)
unfolding publish_batch
publish_batch_accounts o at token deliver st out h =
    let stale_before = at - o.claim_lease_seconds * 1000 in
    let (rows, st') = claim_outbox at stale_before o.batch_size token st in
    let start : PublishBatchResult = record {
      claimed = length rows;
      published = 0;
      retained = 0;
      isolated = 0;
    } in
    let (total, same) = publish_rows_count o deliver rows start st' out h in
    let few = claim_outbox_limit at stale_before o.batch_size token st in
    (omega arith, omega (arith, same, few))
