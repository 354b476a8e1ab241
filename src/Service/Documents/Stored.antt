-- ===== src/Service/Documents/Stored.antt =====
-- internal/service/ledger.go: the rows of `documents` and the objects that they name.
use ledger_pro.Db.Transactions.{get_transaction_by_id}
use ledger_pro.Db.Documents.{new_document, create_document}
use ledger_pro.Service.Documents.{
  StoredObject, DocumentState, DocumentResponse, DocumentConditions, Upload, object_key_of,
  put_object, document_response, save_document, attach_document,
}
use ledger_pro.Service.Queries.{or_not_found}
use ledger_pro.Prelude.{
  String, ◌≡◌, refl, sym, ap, subst, ◌∙◌, inl, inr, true, false, not, false≢true, List, [], ◌∷◌,
  ◌++◌, arith, str_eq, eq_iff, ◌==◌, Bool-cases, All, where_rows, exists_row, All-append, All-map,
}
use ledger_pro.Db.Models.{Uuid, Document}
use ledger_pro.Db.Tables.{Database, unavailable, Result, ok, err, has_tenant, Result-cases}
use ledger_pro.Service.Errors.{
  verify_transaction, upload_to_storage, save_document_metadata, ServiceError,
  transaction_not_found, wrapped, wrap, over_network,
}

abbrev pub HasObject : List StoredObject → Document → Type 0
HasObject objects d = exists_row (λ o. str_eq o.object_key d.object_key) objects ≡ true

-- Every document row has its object.
abbrev pub AllStored : DocumentState → Type 0
AllStored st = All (HasObject st.objects) st.db.documents

other_key :
    (key : String) (x o : StoredObject)
    → str_eq o.object_key key ≡ false
    → str_eq x.object_key key ≡ true
    → str_eq x.object_key o.object_key ≡ false
other_key key x o ne same = elim (Bool-cases (str_eq x.object_key o.object_key)) [
  | inr e ↦ e
  | inl e ↦
      let xo = (eq_iff x.object_key o.object_key).0 e in
      absurd (false≢true (sym ne ∙ (ap (λ s. str_eq s key) (sym xo) ∙ same)))
]

others_stay :
    (key : String) (o : StoredObject) (objects : List StoredObject)
    → str_eq o.object_key key ≡ false
    → exists_row (λ x. str_eq x.object_key key) objects ≡ true
    → exists_row
        (λ x. str_eq x.object_key key)
        (where_rows (λ x. not (str_eq x.object_key o.object_key)) objects)
      ≡ true
others_stay key o [] ne h = h
others_stay key o (x ∷ xs) ne h = elim (Bool-cases (str_eq x.object_key key)) [
  | inl e ↦ rw (other_key key x o ne e) (rw e refl)
  | inr e ↦ ground (arith, others_stay key o xs ne (rw e at h))
]

-- An upload keeps the keys that are there.
put_object-keeps :
    (key : String) (o : StoredObject) (objects : List StoredObject)
    → exists_row (λ x. str_eq x.object_key key) objects ≡ true
    → exists_row (λ x. str_eq x.object_key key) (put_object o objects) ≡ true
put_object-keeps key o objects h = elim (Bool-cases (str_eq o.object_key key)) [
  | inl e ↦ rw e refl
  | inr ne ↦ rw ne (others_stay key o objects ne h)
]

abbrev pub new_row : DocumentConditions → Uuid → Uuid → Upload → Document
new_row c tenant tx u = new_document c.row_id c.now (record {
  tenant_id = tenant;
  transaction_id = tx;
  filename = u.filename;
  content_type = u.content_type;
  size_bytes = u.size_bytes;
  object_key = object_key_of c tenant tx u;
})

abbrev pub uploaded : DocumentConditions → Uuid → Uuid → Upload → StoredObject
uploaded c tenant tx u = record {
  object_key = object_key_of c tenant tx u;
  content_type = u.content_type;
  content = u.content;
}

-- What the foreign keys have found.
abbrev pub CanRefer : Uuid → Uuid → Database → Type 0
CanRefer tenant tx db =
    (has_tenant tenant db ≡ true) × (exists_row (λ r. r.id == tx) db.transactions ≡ true)

-- How AttachDocument ends: before the upload, with an object more and no row, or with both.
pub data Attached (c : DocumentConditions) (tenant tx : Uuid) (u : Upload) (st : DocumentState)
    (r : Result ServiceError DocumentResponse) (st' : DocumentState) : Type 0 where
  stopped : (e : ServiceError) → r ≡ err e → st' ≡ st → Attached c tenant tx u st r st'
  orphaned :
      (e : ServiceError)
      → r ≡ err e
      → st' ≡ record st { objects = put_object (uploaded c tenant tx u) st.objects }
      → Attached c tenant tx u st r st'
  attached :
      CanRefer tenant tx st.db
      → r ≡ ok (document_response c (new_row c tenant tx u))
      → st' ≡ record {
        db = record st.db { documents = st.db.documents ++ new_row c tenant tx u ∷ [] };
        objects = put_object (uploaded c tenant tx u) st.objects;
      }
      → Attached c tenant tx u st r st'

abbrev saved :
    DocumentConditions → Uuid → Uuid → Upload → Database → Result ServiceError (Document × Database)
saved c tenant tx u db = wrap save_document_metadata (
    over_network c.save_fails (
      create_document c.row_id c.now
        (record {
          tenant_id = tenant;
          transaction_id = tx;
          filename = u.filename;
          content_type = u.content_type;
          size_bytes = u.size_bytes;
          object_key = object_key_of c tenant tx u;
        })
        db))

saved-ok :
    (c : DocumentConditions) (tenant tx : Uuid) (u : Upload) (db : Database)
    {r : Document × Database}
    → saved c tenant tx u db ≡ ok r
    → (r ≡ (
      new_row c tenant tx u,
      record db { documents = db.documents ++ new_row c tenant tx u ∷ [] },
    ))
      × CanRefer tenant tx db
unfolding create_document
saved-ok c tenant tx u db h = ground arith

save_document-Attached :
    (c : DocumentConditions) (tenant tx : Uuid) (u : Upload) (st : DocumentState)
    → let (r, st') =
        save_document c tenant tx u
          (record st { objects = put_object (uploaded c tenant tx u) st.objects }) in
      Attached c tenant tx u st r st'
unfolding save_document
save_document-Attached c tenant tx u st = elim (Result-cases (saved c tenant tx u st.db)) [
  | inl (r, e) ↦
      let (made, refers) = saved-ok c tenant tx u st.db e in
      rw (e ∙ ap ok made, save_document) (attached refers refl refl)
  | inr (e, h) ↦ rw (h, save_document) (orphaned e refl refl)
]

pub attach_document-Attached :
    (c : DocumentConditions) (tenant tx : Uuid) (u : Upload) (st : DocumentState)
    → let (r, st') = attach_document c tenant tx u st in Attached c tenant tx u st r st'
unfolding attach_document
attach_document-Attached c tenant tx u st =
    elim (Result-cases (
      or_not_found transaction_not_found verify_transaction
        (over_network c.lookup_fails (get_transaction_by_id tx tenant st.db)))) [
          | inr (e, h) ↦ rw (h, attach_document) (stopped e refl refl)
          | inl (found, h) ↦
              rw (h, attach_document)
                (elim (Bool-cases c.upload_fails) [
                  | inl fails ↦ rw fails (stopped (wrapped upload_to_storage unavailable) refl refl)
                  | inr works ↦ simp works (save_document-Attached c tenant tx u st)
                ])
        ]

first_put :
    (o : StoredObject) (objects : List StoredObject)
    → exists_row (λ x. str_eq x.object_key o.object_key) (put_object o objects) ≡ true
first_put o objects = rw ((eq_iff o.object_key o.object_key).1 refl) refl

-- Every document row names an object of the store after a call of AttachDocument, however it ends,
-- if every row did before; a call that answers an error has added no row, and one that succeeds
-- has added exactly the row of the upload.
pub attach_document-AllStored :
    (c : DocumentConditions) (tenant tx : Uuid) (u : Upload) (st : DocumentState)
    → AllStored st
    → let (r, st') = attach_document c tenant tx u st in
      AllStored st'
      × ((e : ServiceError) → r ≡ err e → st'.db ≡ st.db)
      × ((resp : DocumentResponse)
          → r ≡ ok resp
          → st'.db.documents ≡ st.db.documents ++ new_row c tenant tx u ∷ [])
attach_document-AllStored c tenant tx u st h =
    from_end (attach_document c tenant tx u st).0 (attach_document c tenant tx u st).1
      (attach_document-Attached c tenant tx u st)
  where
    from_end :
        (r : Result ServiceError DocumentResponse) (st' : DocumentState)
        → Attached c tenant tx u st r st'
        → AllStored st'
          × ((e : ServiceError) → r ≡ err e → st'.db ≡ st.db)
          × ((resp : DocumentResponse)
              → r ≡ ok resp
              → st'.db.documents ≡ st.db.documents ++ new_row c tenant tx u ∷ [])
    from_end r st' (stopped e er es) =
        (subst AllStored (sym es) h, λ x q. ap (λ s. s.db) es, λ resp q. absurd (cc))
    from_end r st' (orphaned e er es) = (
      subst AllStored (sym es) (
          All-map (λ d. put_object-keeps d.object_key (uploaded c tenant tx u) st.objects)
            st.db.documents h),
      λ x q. ap (λ s. s.db) es,
      λ resp q. absurd (cc),
    )
    from_end r st' (attached refers er es) = (
      subst AllStored (sym es) (
          All-append (HasObject (put_object (uploaded c tenant tx u) st.objects)) st.db.documents
            (new_row c tenant tx u ∷ []) (first_put (uploaded c tenant tx u) st.objects, tt)
            (All-map (λ d. put_object-keeps d.object_key (uploaded c tenant tx u) st.objects)
              st.db.documents h)),
      λ x q. absurd (cc),
      λ resp q. ap (λ s. s.db.documents) es,
    )
