-- ===== src/Service/Outbox/Content.antt =====
-- internal/service/outbox.go, internal/db/queries.sql.go: what the updates of a worker leave of a
-- row, and what a fetched row still says of the table.
use ledger_pro.Db.Outbox.{
  is_pending, get_pending_outbox_events, update_rows, published_row, pending_with_id,
  mark_outbox_event_published, failed_row, mark_outbox_event_failed, retried_row,
  increment_outbox_retry,
}
use ledger_pro.Db.Joins.{All-where_rows}
use ledger_pro.Service.Outbox.{
  OutboxWorker, Round, Message, handle_publish_success, handle_publish_failure,
}
use ledger_pro.Prelude.{
  ℕ, zero, suc, ◌+◌, String, ◌≡◌, refl, sym, ap, subst, ◌∙◌, inl, inr, Bool, true, false,
  false≢true, List, [], ◌∷◌, ◌++◌, arith, leb, ◌==◌, if◌then◌else◌, ==-refl, Bool-cases, All,
  insert_by, order_by, take, exists_row, All-append, All-map, exists_row-grows,
}
use ledger_pro.Db.Models.{Uuid, LedgerOutbox}

-- A message without its retry count, which is the fetched row's, and what it must say of a row.
abbrev pub without_retries : Message → Message
without_retries m = record m { retry_count = 0 }

abbrev pub content : LedgerOutbox → Message
content r = record {
  routing_key = r.routing_key;
  message_id = r.id;
  timestamp = r.created_at;
  body = r.payload;
  event_type = r.event_type;
  retry_count = 0;
}

-- The rows with this id have this content.
abbrev pub Agrees : List LedgerOutbox → Uuid → Message → Type 0
Agrees rows i c = All (λ r. r.id ≡ i → content r ≡ c) rows

-- Rows with one id have one content, as they have where the id is a primary key.
abbrev pub IsKeyed : List LedgerOutbox → Type 0
IsKeyed rows = All (λ e. Agrees rows e.id (content e)) rows

-- A fetched row is in the table, and its content there is the fetched one.
abbrev pub Known : List LedgerOutbox → LedgerOutbox → Type 0
Known rows e = Agrees rows e.id (content e) × (exists_row (λ r. r.id == e.id) rows ≡ true)

abbrev pub Keeps : (LedgerOutbox → LedgerOutbox) → Type 0
Keeps f = (r : LedgerOutbox) → ((f r).id ≡ r.id) × (content (f r) ≡ content r)

pub All-update_rows {ℓ κ} :
    (P : LedgerOutbox → Type ℓ) (Q : LedgerOutbox → Type κ) (p : LedgerOutbox → Bool)
    (g : LedgerOutbox → LedgerOutbox)
    → ((r : LedgerOutbox) → P r → Q (if p r then g r else r))
    → (rows : List LedgerOutbox) → All P rows
    → All Q (update_rows p g rows)
All-update_rows P Q p g f [] h = tt
All-update_rows P Q p g f (r ∷ rs) h = (f r h.0, All-update_rows P Q p g f rs h.1)

module _ (p : LedgerOutbox → Bool) (f : LedgerOutbox → LedgerOutbox) (keeps : Keeps f) where
  kept :
      (r : LedgerOutbox)
      → ((if p r then f r else r).id ≡ r.id) × (content (if p r then f r else r) ≡ content r)
  kept r = elim (Bool-cases (p r)) [ inl e ↦ rw e (keeps r) | inr e ↦ rw e (refl, refl) ]

  pub Agrees-update_rows :
      (rows : List LedgerOutbox) (i : Uuid) (c : Message)
      → Agrees rows i c
      → Agrees (update_rows p f rows) i c
  Agrees-update_rows rows i c h =
      All-update_rows (λ r. r.id ≡ i → content r ≡ c) (λ r. r.id ≡ i → content r ≡ c) p f
        (λ r old same. (kept r).1 ∙ old (sym (kept r).0 ∙ same)) rows h

  pub IsKeyed-update_rows :
      (rows : List LedgerOutbox) → IsKeyed rows → IsKeyed (update_rows p f rows)
  IsKeyed-update_rows rows h =
      All-update_rows (λ e. Agrees rows e.id (content e))
        (λ e. Agrees (update_rows p f rows) e.id (content e)) p f
        (λ r old. Agrees-update_rows rows _ _ (
          subst (λ c. Agrees rows (if p r then f r else r).id c) (sym (kept r).1)
            (subst (λ i. Agrees rows i (content r)) (sym (kept r).0) old)))
        rows h

  exists-update_rows :
      (i : Uuid) (rows : List LedgerOutbox)
      → exists_row (λ r. r.id == i) rows ≡ true
      → exists_row (λ r. r.id == i) (update_rows p f rows) ≡ true
  exists-update_rows i [] h = h
  exists-update_rows i (r ∷ rs) h = rw (kept r).0 (ground (arith, h, exists-update_rows i rs))

  pub Known-update_rows :
      (rows : List LedgerOutbox) (e : LedgerOutbox) → Known rows e → Known (update_rows p f rows) e
  Known-update_rows rows e h =
      (Agrees-update_rows rows e.id (content e) h.0, exists-update_rows e.id rows h.1)

pub published_row-Keeps : (now : ℕ) → Keeps (published_row now)
published_row-Keeps now r = (refl, refl)

pub failed_row-Keeps : (m : String) (now : ℕ) → Keeps (failed_row m now)
failed_row-Keeps m now r = (refl, refl)

pub retried_row-Keeps : (m : String) → Keeps (retried_row m)
retried_row-Keeps m r = (refl, refl)

-- What the update that is made keeps is kept, also where the update fails.
module _ {ℓ} (P : List LedgerOutbox → Type ℓ) (w : Round) (i : ℕ) (e : LedgerOutbox)
    (rows : List LedgerOutbox) (h : P rows) where
  pub success_keeps :
      P (update_rows (pending_with_id e.id) (published_row w.now) rows)
      → P (handle_publish_success w i e rows)
  unfolding handle_publish_success mark_outbox_event_published
  success_keeps k = elim (Bool-cases (w.update_fails i)) [ inl f ↦ rw f h | inr f ↦ rw f k ]

  pub failure_keeps :
      (cfg : OutboxWorker) (m : String)
      → P (update_rows (λ r. r.id == e.id) (failed_row m w.now) rows)
      → P (update_rows (pending_with_id e.id) (retried_row m) rows)
      → P (handle_publish_failure cfg w i e m rows)
  unfolding handle_publish_failure mark_outbox_event_failed increment_outbox_retry
  failure_keeps cfg m last more = elim (Bool-cases (leb cfg.max_retries (e.retry_count + 1))) [
    | inl l ↦ elim (Bool-cases (w.update_fails i)) [ inl f ↦ rw (l, f) h | inr f ↦ rw (l, f) last ]
    | inr l ↦ elim (Bool-cases (w.update_fails i)) [ inl f ↦ rw (l, f) h | inr f ↦ rw (l, f) more ]
  ]

All-insert_by {ℓ} :
    (P : LedgerOutbox → Type ℓ) (x : LedgerOutbox) (xs : List LedgerOutbox)
    → P x
    → All P xs
    → All P (insert_by (λ r. r.created_at) x xs)
All-insert_by P x [] hx h = (hx, tt)
All-insert_by P x (y ∷ ys) hx h = elim (Bool-cases (leb x.created_at y.created_at)) [
  | inl e ↦ rw e (hx, h)
  | inr e ↦ rw e (h.0, All-insert_by P x ys hx h.1)
]

All-order_by {ℓ} :
    (P : LedgerOutbox → Type ℓ) (xs : List LedgerOutbox)
    → All P xs
    → All P (order_by (λ r. r.created_at) xs)
All-order_by P [] h = tt
All-order_by P (x ∷ xs) h = All-insert_by P x _ h.0 (All-order_by P xs h.1)

All-take {ℓ} :
    (P : LedgerOutbox → Type ℓ) (n : ℕ) (xs : List LedgerOutbox) → All P xs → All P (take n xs)
All-take P zero xs h = tt
All-take P (suc n) [] h = tt
All-take P (suc n) (x ∷ xs) h = (h.0, All-take P n xs h.1)

-- What holds of all rows holds of those that a poll fetches.
pub All-pending {ℓ} :
    (P : LedgerOutbox → Type ℓ) (n : ℕ) (rows : List LedgerOutbox)
    → All P rows
    → All P (get_pending_outbox_events n rows)
unfolding get_pending_outbox_events
All-pending P n rows h = All-take P n _ (All-order_by P _ (All-where_rows is_pending P rows h))

-- Every row of the table is in it.
all_there : (rows : List LedgerOutbox) → All (λ e. exists_row (λ r. r.id == e.id) rows ≡ true) rows
all_there [] = tt
all_there (x ∷ xs) =
    (ground (arith, ==-refl x.id), All-map (λ e h. ground (arith, h)) xs (all_there xs))

pub All-both :
    (P Q : LedgerOutbox → Type 0) (xs : List LedgerOutbox)
    → All P xs
    → All Q xs
    → All (λ e. P e × Q e) xs
All-both P Q [] h k = tt
All-both P Q (x ∷ xs) h k = ((h.0, k.0), All-both P Q xs h.1 k.1)

pub fetched-Known :
    (n : ℕ) (rows : List LedgerOutbox)
    → IsKeyed rows
    → All (Known rows) (get_pending_outbox_events n rows)
fetched-Known n rows h = All-pending (Known rows) n rows (
    All-both (λ e. Agrees rows e.id (content e)) (λ e. exists_row (λ r. r.id == e.id) rows ≡ true)
      rows h (all_there rows))

-- A row with a new id.
pub appended-Known :
    (rows : List LedgerOutbox) (e d : LedgerOutbox)
    → exists_row (λ r. r.id == e.id) rows ≡ false
    → Known rows d
    → Known (rows ++ e ∷ []) d
appended-Known rows e d fresh h = (
  All-append (λ r. r.id ≡ d.id → content r ≡ content d) rows (e ∷ [])
      (
        λ same.
            absurd (false≢true (sym fresh ∙ ap (λ i. exists_row (λ r. r.id == i) rows) same ∙ h.1)),
        tt,
      )
      h.0,
  exists_row-grows (λ r. r.id == d.id) rows (e ∷ []) h.1,
)

new_id-Agrees :
    (rows : List LedgerOutbox) (e : LedgerOutbox)
    → exists_row (λ r. r.id == e.id) rows ≡ false
    → Agrees rows e.id (content e)
new_id-Agrees [] e fresh = tt
new_id-Agrees (r ∷ rows) e fresh =
    ((λ same. absurd (ground (arith, same, fresh))), new_id-Agrees rows e (ground (arith, fresh)))

pub appended-IsKeyed :
    (rows : List LedgerOutbox) (e : LedgerOutbox)
    → exists_row (λ r. r.id == e.id) rows ≡ false
    → IsKeyed rows
    → IsKeyed (rows ++ e ∷ [])
appended-IsKeyed rows e fresh h =
    All-append (λ d. Agrees (rows ++ e ∷ []) d.id (content d)) rows (e ∷ [])
      (
        All-append (λ r. r.id ≡ e.id → content r ≡ content e) rows (e ∷ []) ((λ same. refl), tt)
            (new_id-Agrees rows e fresh),
        tt,
      )
      (All-map (λ d known. (appended-Known rows e d fresh known).0) rows
        (All-both (λ d. Agrees rows d.id (content d))
          (λ d. exists_row (λ r. r.id == d.id) rows ≡ true) rows h (all_there rows)))
