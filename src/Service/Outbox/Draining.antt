-- ===== src/Service/Outbox/Draining.antt =====
-- Every pending event is settled after a bounded number of batches, whatever the broker answers.
use ledger_pro.Prelude.{
  ℕ, zero, suc, ◌+◌, ◌-◌, ◌≤◌, ◌<◌, String, ◌≡◌, refl, sym, subst, ◌∙◌, inl, inr, Bool, true, false,
  ◌&&◌, false≢true, List, [], ◌∷◌, arith, ltb, leb, ◌==◌, if◌then◌else◌, Bool-cases, Option-cases,
  All, total, insert_by, order_by, length, take, where_rows, exists_row, exists_row_mono,
  exists_row-where_rows, exists_row-order_by, exists_row-take,
}
use ledger_pro.Db.Models.{LedgerOutbox}
use ledger_pro.Db.Outbox.{
  is_pending, get_pending_outbox_events, update_rows, published_row, pending_with_id,
  mark_outbox_event_published, failed_row, mark_outbox_event_failed, retried_row,
  increment_outbox_retry,
}
use ledger_pro.Service.Outbox.{
  OutboxWorker, Round, OutboxState, handle_publish_success, handle_publish_failure, publish_event,
  publish_all, process_batch, run,
}

-- The failed attempts that a row still has, and one for being pending.
abbrev pub remaining : ℕ → LedgerOutbox → ℕ
remaining max r = if is_pending r then suc (max - r.retry_count) else 0

total-update_rows-le :
    (f : LedgerOutbox → ℕ) (p : LedgerOutbox → Bool) (g : LedgerOutbox → LedgerOutbox)
    → ((r : LedgerOutbox) → f (g r) ≤ f r)
    → (rows : List LedgerOutbox) → total f (update_rows p g rows) ≤ total f rows
total-update_rows-le f p g h [] = omega arith
total-update_rows-le f p g h (r ∷ rs) = ground (arith, h r, total-update_rows-le f p g h rs)

total-update_rows-lt :
    (f : LedgerOutbox → ℕ) (p : LedgerOutbox → Bool) (g : LedgerOutbox → LedgerOutbox)
    → ((r : LedgerOutbox) → f (g r) ≤ f r)
    → (rows : List LedgerOutbox) → exists_row (λ r. p r && ltb (f (g r)) (f r)) rows ≡ true
    → total f (update_rows p g rows) < total f rows
total-update_rows-lt f p g h [] e = absurd (false≢true e)
total-update_rows-lt f p g h (r ∷ rs) e =
    ground (arith, h r, total-update_rows-le f p g h rs, total-update_rows-lt f p g h rs)

-- The three updates, none of which gives a row more attempts.
published-le :
    (max now : ℕ) (r : LedgerOutbox) → remaining max (published_row now r) ≤ remaining max r
published-le max now r = ground arith

failed-le :
    (max : ℕ) (e : String) (now : ℕ) (r : LedgerOutbox)
    → remaining max (failed_row e now r) ≤ remaining max r
failed-le max e now r = ground arith

retried-le :
    (max : ℕ) (e : String) (r : LedgerOutbox) → remaining max (retried_row e r) ≤ remaining max r
retried-le max e r = ground arith

-- The row of a fetched event, as it was fetched.
abbrev fetched_as : LedgerOutbox → LedgerOutbox → Bool
fetched_as e r = is_pending r && ((r.id == e.id) && (r.retry_count == e.retry_count))

module _ (cfg : OutboxWorker) (w : Round) where
  abbrev left : List LedgerOutbox → ℕ
  left = total (remaining cfg.max_retries)

  publish_event-le :
      (i : ℕ) (e : LedgerOutbox) (s : OutboxState)
      → left (publish_event cfg w i e s).rows ≤ left s.rows
  unfolding publish_event handle_publish_success handle_publish_failure mark_outbox_event_published
      mark_outbox_event_failed increment_outbox_retry
  publish_event-le i e s = elim (Option-cases (w.answer i)) [
    | inl a ↦ ground (
      arith,
      total-update_rows-le (remaining cfg.max_retries) (pending_with_id e.id) (published_row w.now)
          (published-le cfg.max_retries w.now) s.rows,
    )
    | inr (m, a) ↦ ground (
      arith,
      total-update_rows-le (remaining cfg.max_retries) (λ r. r.id == e.id) (failed_row m w.now)
          (failed-le cfg.max_retries m w.now) s.rows,
      total-update_rows-le (remaining cfg.max_retries) (pending_with_id e.id) (retried_row m)
          (retried-le cfg.max_retries m) s.rows,
    )
  ]

  publish_all-le :
      (i : ℕ) (es : List LedgerOutbox) (s : OutboxState)
      → left (publish_all cfg w i es s).rows ≤ left s.rows
  unfolding publish_all
  publish_all-le i [] s = omega arith
  publish_all-le i (e ∷ es) s =
      omega (arith, publish_event-le i e s, publish_all-le (i + 1) es (publish_event cfg w i e s))

  publish_event-lt :
      (i : ℕ) (e : LedgerOutbox) (s : OutboxState)
      → w.update_fails i ≡ false
      → exists_row (fetched_as e) s.rows ≡ true
      → left (publish_event cfg w i e s).rows < left s.rows
  unfolding publish_event handle_publish_success handle_publish_failure mark_outbox_event_published
      mark_outbox_event_failed increment_outbox_retry
  publish_event-lt i e s up here = elim (Option-cases (w.answer i)) [
    | inl a ↦
        let shrinks =
          total-update_rows-lt (remaining cfg.max_retries) (pending_with_id e.id)
            (published_row w.now) (published-le cfg.max_retries w.now) s.rows
            (exists_row_mono (fetched_as e) _ (λ r h. ground arith) s.rows here) in
        ground arith
    | inr (m, a) ↦ elim (Bool-cases (leb cfg.max_retries (e.retry_count + 1))) [
      | inl last ↦
          let shrinks =
            total-update_rows-lt (remaining cfg.max_retries) (λ r. r.id == e.id)
              (failed_row m w.now) (failed-le cfg.max_retries m w.now) s.rows
              (exists_row_mono (fetched_as e) _ (λ r h. ground arith) s.rows here) in
          ground arith
      | inr more ↦
          let shrinks =
            total-update_rows-lt (remaining cfg.max_retries) (pending_with_id e.id) (retried_row m)
              (retried-le cfg.max_retries m) s.rows
              (exists_row_mono (fetched_as e) _ (λ r h. ground arith) s.rows here) in
          ground arith
    ]
  ]

insert_by-ne_nil {ℓ} :
    {A : Type ℓ} (key : A → ℕ) (x : A) (xs : List A) → length (insert_by key x xs) ≡ suc (length xs)
insert_by-ne_nil key x [] = refl
insert_by-ne_nil key x (y ∷ ys) = ground (arith, insert_by-ne_nil key x ys)

take-nil {ℓ} : {A : Type ℓ} (n : ℕ) (xs : List A) → take (suc n) xs ≡ [] → length xs ≡ 0
take-nil n [] h = refl
take-nil n (x ∷ xs) h = ground arith

-- A fetch that comes back empty has found no pending row.
fetch-nil :
    (n : ℕ) (rows : List LedgerOutbox)
    → 0 < n
    → get_pending_outbox_events n rows ≡ []
    → exists_row is_pending rows ≡ false
unfolding get_pending_outbox_events
fetch-nil n [] pos_n h = refl
fetch-nil zero (r ∷ rs) pos_n h = absurd (omega arith)
fetch-nil (suc n) (r ∷ rs) pos_n h = elim (Bool-cases (is_pending r)) [
  | inl e ↦
      let sorted =
        insert_by (λ (x : LedgerOutbox). x.created_at) r
          (order_by (λ (x : LedgerOutbox). x.created_at) (where_rows is_pending rs)) in
      absurd (
        omega (
          arith,
          take-nil n sorted (rw e at h),
          insert_by-ne_nil {0} (λ (x : LedgerOutbox). x.created_at) r
              (order_by (λ (x : LedgerOutbox). x.created_at) (where_rows is_pending rs)),
        ))
  | inr e ↦ rw e (fetch-nil (suc n) rs pos_n (rw e at h))
]

-- The first fetched event stands in the table as it was fetched.
fetch-head :
    (n : ℕ) (rows : List LedgerOutbox) (e : LedgerOutbox) (es : List LedgerOutbox)
    → get_pending_outbox_events n rows ≡ e ∷ es
    → exists_row (fetched_as e) rows ≡ true
unfolding get_pending_outbox_events
fetch-head n rows e es h =
    let q : LedgerOutbox → Bool = λ r. (r.id == e.id) && (r.retry_count == e.retry_count) in
    let found : exists_row q (e ∷ es) ≡ true = ground arith in
    sym (exists_row-where_rows is_pending q rows)
    ∙ sym (exists_row-order_by q (λ (r : LedgerOutbox). r.created_at) (where_rows is_pending rows))
    ∙ exists_row-take q n _ (subst (λ l. exists_row q l ≡ true) (sym h) found)

left-zero :
    (max : ℕ) (rows : List LedgerOutbox)
    → total (remaining max) rows ≤ 0
    → exists_row is_pending rows ≡ false
left-zero max [] h = refl
left-zero max (r ∷ rs) h = ground (arith, left-zero max rs)

none-left :
    (max : ℕ) (rows : List LedgerOutbox)
    → exists_row is_pending rows ≡ false
    → total (remaining max) rows ≡ 0
none-left max [] h = refl
none-left max (r ∷ rs) h = ground (arith, none-left max rs)

-- A round in which the database works. The broker may refuse every message.
pub record IsSteady (w : Round) : Type 0 where
  pub fetches : w.fetch_fails ≡ false
  pub updates : (i : ℕ) → w.update_fails i ≡ false

batch-falls :
    (cfg : OutboxWorker) (w : Round) (s : OutboxState)
    → 0 < cfg.batch_size
    → IsSteady w
    → total (remaining cfg.max_retries) (process_batch cfg w s).rows
      ≤ total (remaining cfg.max_retries) s.rows - 1
unfolding process_batch publish_all
batch-falls cfg w s some_size steady = go (get_pending_outbox_events cfg.batch_size s.rows) refl
  where
    go :
        (es : List LedgerOutbox)
        → get_pending_outbox_events cfg.batch_size s.rows ≡ es
        → total (remaining cfg.max_retries) (process_batch cfg w s).rows
          ≤ total (remaining cfg.max_retries) s.rows - 1
    go [] h = ground (
      arith,
      steady.fetches,
      none-left cfg.max_retries s.rows (fetch-nil cfg.batch_size s.rows some_size h),
    )
    go (e ∷ es) h = ground (
      arith,
      steady.fetches,
      publish_event-lt cfg w 0 e s (steady.updates 0) (fetch-head cfg.batch_size s.rows e es h),
      publish_all-le cfg w 1 es (publish_event cfg w 0 e s),
    )

-- Once as many batches have run as the pending events have attempts left in all (and one for
-- each), no event is pending, whatever the broker answered, if the database worked.
pub run_drains :
    (cfg : OutboxWorker) (ws : List Round) (s : OutboxState)
    → 0 < cfg.batch_size
    → All IsSteady ws
    → total (remaining cfg.max_retries) s.rows ≤ length ws
    → exists_row is_pending (run cfg ws s).rows ≡ false
unfolding run
run_drains cfg [] s b steady h = left-zero cfg.max_retries s.rows h
run_drains cfg (w ∷ ws) s b steady h =
    run_drains cfg ws (process_batch cfg w s) b steady.1
      (omega (arith, batch-falls cfg w s b steady.0))
