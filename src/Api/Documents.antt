-- ===== src/Api/Documents.antt =====
-- internal/api/document_handler.go. uuid.Parse is a parameter; the multipart form comes as
-- ParseMultipartForm and FormFile read it.
use ledger_pro.Api.Http.{Context, Reply, reply_json, fail_with}
use ledger_pro.Service.Documents.{
  DocumentState, DocumentResponse, DocumentConditions, Upload, attach_document,
  list_transaction_documents,
}
use ledger_pro.Prelude.{String, Option, none, some, List, [], ◌∷◌, str_eq, if◌then◌else◌}
use ledger_pro.Db.Models.{Uuid}
use ledger_pro.Db.Tables.{Database, ok, err}
use ledger_pro.Service.Errors.{ServiceError, transaction_not_found}
use ledger_pro.Api.Problem.{
  ProblemDetail, with_invalid_params, bad_request, transaction_not_found_problem, internal_error,
}

pub data Form : Type 0 where
  bad_form no_file : Form
  file_part : Upload → Form

abbrev pub invalid_transaction_id : ProblemDetail
invalid_transaction_id =
    with_invalid_params (record { name = "id"; reason = "must be a valid UUID" } ∷ [])
      (bad_request "Invalid transaction ID format")

-- `if contentType == ""`
abbrev pub with_content_type : Upload → Upload
with_content_type u =
    if str_eq u.content_type "" then record u { content_type = "application/octet-stream" } else u

abbrev pub attach_problem : ServiceError → ProblemDetail
attach_problem transaction_not_found = transaction_not_found_problem "Transaction not found"
attach_problem _ = internal_error "Failed to process document upload"

unfoldable pub attach_document_handler :
    (String → Option Uuid)
    → Context
    → DocumentConditions
    → String
    → Form
    → DocumentState
    → Reply DocumentResponse × DocumentState
attach_document_handler parse_uuid ctx c id_text form st = elim (parse_uuid id_text) [
  | none ↦ (fail_with ctx invalid_transaction_id, st)
  | some tx ↦ elim form [
    | bad_form ↦ (
      fail_with ctx (
          with_invalid_params
            (record { name = "body"; reason = "must be valid multipart/form-data and under 10MB" }
              ∷ [])
            (bad_request "Failed to parse multipart form")),
      st,
    )
    | no_file ↦ (
      fail_with ctx (
          with_invalid_params
            (record { name = "file"; reason = "multipart form must contain a 'file' field" } ∷ [])
            (bad_request "Missing file part")),
      st,
    )
    | file_part u ↦
        let (r, st') = attach_document c ctx.tenant_id tx (with_content_type u) st in
        (elim r [ ok d ↦ reply_json 201 d | err e ↦ fail_with ctx (attach_problem e) ], st')
  ]
]

unfoldable pub list_documents_handler :
    (String → Option Uuid)
    → Context
    → DocumentConditions
    → String
    → Database
    → Reply (List DocumentResponse)
list_documents_handler parse_uuid ctx c id_text db = elim (parse_uuid id_text) [
  | none ↦ fail_with ctx invalid_transaction_id
  | some tx ↦ elim (list_transaction_documents c ctx.tenant_id tx db) [
    | ok docs ↦ reply_json 200 docs
    | err _ ↦ fail_with ctx (internal_error "Failed to retrieve documents")
  ]
]
