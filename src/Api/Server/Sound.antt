-- ===== src/Api/Server/Sound.antt =====
-- internal/api/router.go: what the server keeps in every state that it reaches.
use ledger_pro.Api.Server.{serve, serve_all}
use ledger_pro.Api.Requests.{RouterConfig, Target, HttpRequest, Moment, World, documents_of}
use ledger_pro.Api.Server.Writers.{WritersKeep, serve_keeps}
use ledger_pro.Api.Server.Handlers.{
  create_account_handler_keeps, create_transaction_handler_keeps, signup_handler_keeps,
  attach_document_handler_keeps,
}
use ledger_pro.Prelude.{List, [], ◌∷◌}
use ledger_pro.Db.Models.{Uuid}
use ledger_pro.Api.Server.Calls.{
  IsSound, create_transaction-IsSound, create_account-IsSound, attach_document-IsSound,
  register-IsSound,
}

-- Every writing handler keeps it, for every caller.
pub writers-IsSound : (tenant : Uuid) (target : Target) → WritersKeep IsSound tenant target
writers-IsSound tenant target = record {
  on_account = λ ctx fails now body st to own h.
      create_account_handler_keeps (λ db. IsSound (record st { db = db })) ctx fails now body st.db
        h (λ req r e. create_account-IsSound fails now ctx.tenant_id req st r e h);
  on_transaction = λ ctx c key body s objects to own h.
      create_transaction_handler_keeps (λ db. IsSound (record { db = db; objects = objects })) ctx c
        key body s h (λ req. create_transaction-IsSound c ctx.tenant_id req s objects h);
  on_document = λ parse_uuid ctx c i form st to own h.
      attach_document_handler_keeps IsSound parse_uuid ctx c i st h
        (λ tx u. attach_document-IsSound c ctx.tenant_id tx u st h) form;
  on_signup = λ b ctx c body st objects to h.
      signup_handler_keeps (λ db. IsSound (record { db = db; objects = objects })) b ctx c body st h
        (λ email hash. register-IsSound c email hash (record { db = st.db; objects = objects }) h);
}

-- In every state that the server reaches from a sound one, whatever the requests, whoever sends
-- them and whatever fails on the way: the ledger is well formed and every tenant's trial balance
-- holds, every row refers to rows that are there, the ids of the accounts rise, and every document
-- has its object.
pub serve_all-IsSound :
    (cfg : RouterConfig) (requests : List (Moment × HttpRequest)) (w : World)
    → IsSound (documents_of w)
    → IsSound (documents_of (serve_all cfg requests w))
unfolding serve_all
serve_all-IsSound cfg [] w h = h
serve_all-IsSound cfg ((m, req) ∷ requests) w h =
    serve_all-IsSound cfg requests (serve cfg m req w).1
      (serve_keeps IsSound cfg m req w (λ who e. writers-IsSound who.tenant_id req.target) h)
