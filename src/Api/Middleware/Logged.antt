-- ===== src/Api/Middleware/Logged.antt =====
-- internal/api/middleware.go: the status in the request log, and the status that the client gets.
use ledger_pro.Api.Middleware.{
  sent_status, ResponseWriter, new_response_writer, write_header, write_body, WriterCall,
  header_call, body_call, run_calls,
}
use ledger_pro.Prelude.{ℕ, ◌≡◌, refl, true, false, none, some, List, [], ◌∷◌, arith}

-- The log has a status, and so has the client.
abbrev Settled : ResponseWriter → ℕ → ℕ → Type 0
Settled w logged sent =
    (w.wrote_header ≡ true) × (w.status_code ≡ logged) × (w.writer.status ≡ some sent)

Settled-run_calls :
    (calls : List WriterCall) (w : ResponseWriter) (logged sent : ℕ)
    → Settled w logged sent
    → Settled (run_calls calls w) logged sent
unfolding run_calls write_header write_body
Settled-run_calls [] w logged sent h = h
Settled-run_calls (header_call c ∷ calls) w logged sent h =
    Settled-run_calls calls (write_header c w) logged sent (ground (arith, h))
Settled-run_calls (body_call ∷ calls) w logged sent h =
    Settled-run_calls calls (write_body w) logged sent (ground (arith, h))

-- The status of the first WriteHeader, and 200 where there is none.
abbrev pub first_header : List WriterCall → ℕ
first_header [] = 200
first_header (header_call code ∷ calls) = code
first_header (body_call ∷ calls) = first_header calls

-- The same, but a body that comes first has sent 200.
abbrev pub first_sent : List WriterCall → ℕ
first_sent [] = 200
first_sent (header_call code ∷ calls) = code
first_sent (body_call ∷ calls) = 200

abbrev Logs : List WriterCall → ResponseWriter → ℕ → ℕ → Type 0
Logs calls w logged sent =
    ((run_calls calls w).status_code ≡ logged) × (sent_status (run_calls calls w).writer ≡ sent)

Settled-Logs :
    (calls : List WriterCall) (w : ResponseWriter) (logged sent : ℕ)
    → Settled w logged sent
    → Logs calls w logged sent
Settled-Logs calls w logged sent h =
    let (_, log, client) = Settled-run_calls calls w logged sent h in
    (log, rw (client, sent_status) refl)

started_early :
    (calls : List WriterCall)
    → Logs calls
        (record { writer = record { status = some 200 }; status_code = 200; wrote_header = false })
        (first_header calls)
        200
unfolding run_calls write_header write_body
started_early [] = (refl, refl)
started_early (header_call code ∷ calls) = Settled-Logs calls _ code 200 (refl, refl, refl)
started_early (body_call ∷ calls) = started_early calls

-- Whatever calls a handler makes on its writer, the request log has the status of its first
-- WriteHeader, or 200 where there is none; the client gets the same status, except that a body
-- which comes before every WriteHeader has sent 200.
pub run_calls_logged :
    (calls : List WriterCall)
    → let w = run_calls calls (new_response_writer (record { status = none })) in
      (w.status_code ≡ first_header calls) × (sent_status w.writer ≡ first_sent calls)
unfolding run_calls write_header write_body
run_calls_logged [] = (refl, refl)
run_calls_logged (header_call code ∷ calls) = Settled-Logs calls _ code code (refl, refl, refl)
run_calls_logged (body_call ∷ calls) = started_early calls
