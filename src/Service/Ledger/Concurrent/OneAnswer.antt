-- ===== src/Service/Ledger/Concurrent/OneAnswer.antt =====
-- Calls of CreateTransaction with one key that come in together get one answer.
use ledger_pro.Prelude.{
  ℕ, String, ◌≡◌, refl, sym, ap, subst, ◌∙◌, ◌≢◌, inl, inr, true, false, Option, none, some, ◌==◌,
  Bool-cases,
}
use ledger_pro.Db.Models.{Uuid}
use ledger_pro.Db.Tables.{ok, err}
use ledger_pro.Service.Cache.{TransactionResponse, is_live, expiry}
use ledger_pro.Service.Ledger.{
  CreateTransactionRequest, LedgerService, Conditions, replay_of, remember,
}
use ledger_pro.Service.Ledger.Safety.{Call}
use ledger_pro.Service.Ledger.Replay.{replay_of-remember}
use ledger_pro.Service.Ledger.Concurrent.{
  CallStage, starting, locked, missed, committed_row, answering, leaving, finished, Concurrent,
  begin, set_stage, after_read, CallStep, refuses, obtains, gives_up, reads, runs, fetches,
  remembers, releases, fails_to_release, lapses, Reachable, at_start, one_later, set_stage-each,
}
use ledger_pro.Service.Ledger.Concurrent.Exclusive.{
  working_call, Holds, AllHold, other_number, some_holder, CallStep-AllHold,
}
use ledger_pro.Service.Ledger.Concurrent.Seen.{
  calls_of, IsOneKey, sees, IsLinked, Knows, after_read-Knows, after_read-IsLinked, after_run-Knows,
  after_run-IsLinked, sees-db, remember-ttl,
}

module _ (tenant : Uuid) (asks : ℕ → Conditions × CreateTransactionRequest) (key : String) (ttl : ℕ)
    (one : IsOneKey asks key ttl) where
  abbrev own : ℕ → Call
  own = calls_of tenant asks

  record IsOneAnswer (f : Concurrent) : Type 0 where
    hold : AllHold f
    linked : (k : ℕ) → IsLinked (own k) (f.stages k)
    same_ttl : f.service.idempotency_ttl ≡ ttl
    seen : Option TransactionResponse
    agree : (n : ℕ) → sees (own n) f.service ≡ seen
    knows : (k : ℕ) → Knows seen (f.stages k)

  -- A step of one call that leaves the cache alone.
  moves :
      (k : ℕ) (p : CallStage) (f : Concurrent) (service : LedgerService)
      (locks : Uuid → String → Option ℕ) (h : IsOneAnswer f)
      → ((n : ℕ) → sees (own n) service ≡ sees (own n) f.service)
      → service.idempotency_ttl ≡ f.service.idempotency_ttl
      → IsLinked (own k) p
      → Knows h.seen p
      → AllHold (record { service = service; locks = locks; stages = set_stage k p f.stages })
      → IsOneAnswer (record { service = service; locks = locks; stages = set_stage k p f.stages })
  moves k p f service locks h same same_ttl linked knows hold = record {
    hold = hold;
    linked = set_stage-each (λ n. IsLinked (own n)) k p f.stages linked h.linked;
    same_ttl = same_ttl ∙ h.same_ttl;
    seen = h.seen;
    agree = λ n. same n ∙ h.agree n;
    knows = set_stage-each (λ n. Knows h.seen) k p f.stages knows h.knows;
  }

  -- The lock that a call with the key holds.
  own_lock :
      (locks : Uuid → String → Option ℕ) (k : ℕ) (call : Call)
      → call ≡ own k
      → Holds locks k (some call)
      → locks tenant key ≡ some k
  own_lock locks k call e h =
      sym (ap (locks tenant) (one.keys k)) ∙ subst (λ x. Holds locks k (some x)) e h

  no_some : (r : TransactionResponse) → none ≢ some r
  no_some r h = cc

  -- When a call stores its answer, no other has one, and no other is on the way to one.
  others_know :
      (locks : Uuid → String → Option ℕ) (k n : ℕ) (p : CallStage) (r : TransactionResponse)
      (seen : Option TransactionResponse)
      → n ≢ k
      → locks tenant key ≡ some k
      → seen ≡ none
      → Holds locks n (working_call p)
      → IsLinked (own n) p
      → Knows seen p
      → Knows (some r) p
  others_know locks k n (starting call) r seen other mine empty held e h = tt
  others_know locks k n (locked call) r seen other mine empty held e h = tt
  others_know locks k n (missed call) r seen other mine empty held e h =
      absurd (other (some_holder n k (sym (own_lock locks n call e held) ∙ mine)))
  others_know locks k n (committed_row call tx) r seen other mine empty held e h =
      absurd (other (some_holder n k (sym (own_lock locks n call e held) ∙ mine)))
  others_know locks k n (answering call a) r seen other mine empty held e h =
      absurd (other (some_holder n k (sym (own_lock locks n call e held) ∙ mine)))
  others_know locks k n (leaving call (err a)) r seen other mine empty held e h = tt
  others_know locks k n (leaving call (ok a)) r seen other mine empty held e h =
      absurd (no_some a (sym empty ∙ h))
  others_know locks k n (finished (err a)) r seen other mine empty held e h = tt
  others_know locks k n (finished (ok a)) r seen other mine empty held e h =
      absurd (no_some a (sym empty ∙ h))

  -- A stored answer is what every call then reads.
  sees-remember :
      (k n : ℕ) (c : Conditions) (t : Uuid) (req : CreateTransactionRequest)
      (r : TransactionResponse) (s : LedgerService)
      → (c, t, req) ≡ own k
      → s.idempotency_ttl ≡ ttl
      → sees (own n) (remember c t req r s) ≡ some r
  sees-remember k n c t req r s e same =
      subst (λ call. sees (own n) (remember call.0 call.1 call.2 r s) ≡ some r) (sym e)
        (replay_of-remember (asks k).0 (asks n).0 tenant (asks k).1 (asks n).1 r s (one.marshals k)
          (one.sets k) (one.gets n) (one.keys n ∙ sym (one.keys k))
          (subst (λ x. is_live (asks n).0.now (expiry (asks k).0.now x) ≡ true) (sym same)
            (one.live k n)))

  remembers-IsOneAnswer :
      (k : ℕ) (c : Conditions) (t : Uuid) (req : CreateTransactionRequest) (r : TransactionResponse)
      (f : Concurrent)
      → f.stages k ≡ answering (c, t, req) r
      → IsOneAnswer f
      → let g : Concurrent = record f {
        service = remember c t req r f.service;
        stages = set_stage k (leaving (c, t, req) (ok r)) f.stages;
      } in
        AllHold g → IsOneAnswer g
  remembers-IsOneAnswer k c t req r f at h hold =
      let mine = subst (IsLinked (own k)) at (h.linked k) in
      let held = subst (λ p. Holds f.locks k (working_call p)) at (h.hold k) in
      let lock = own_lock f.locks k (c, t, req) mine held in
      let empty = subst (Knows h.seen) at (h.knows k) in
      record {
        hold = hold;
        linked = set_stage-each (λ n. IsLinked (own n)) k _ f.stages mine h.linked;
        same_ttl = remember-ttl c t req r f.service ∙ h.same_ttl;
        seen = some r;
        agree = λ n. sees-remember k n c t req r f.service mine h.same_ttl;
        knows = λ n. elim (Bool-cases (n == k)) [
          | inl e ↦ rw e refl
          | inr e ↦ rw e (
              others_know f.locks k n (f.stages n) r h.seen (other_number n k e) lock empty
                (h.hold n) (h.linked n) (h.knows n))
        ];
      }

  CallStep-IsOneAnswer :
      {f g : Concurrent} → CallStep false f g → AllHold g → IsOneAnswer f → IsOneAnswer g
  CallStep-IsOneAnswer {f} (refuses k c t req e at bad) hold h =
      moves k _ f f.service f.locks h (λ n. refl) refl tt tt hold
  CallStep-IsOneAnswer {f} (obtains k c t req at v free) hold h =
      moves k _ f f.service _ h (λ n. refl) refl (subst (IsLinked (own k)) at (h.linked k)) tt hold
  CallStep-IsOneAnswer {f} (gives_up k c t req at v) hold h =
      moves k _ f f.service f.locks h (λ n. refl) refl tt tt hold
  CallStep-IsOneAnswer {f} (reads k c t req at) hold h =
      let mine = subst (IsLinked (own k)) at (h.linked k) in
      let read = ap (λ call. sees call f.service) mine ∙ h.agree k in
      moves k _ f f.service f.locks h (λ n. refl) refl
        (after_read-IsLinked (own k) (c, t, req) (replay_of c t req f.service) mine)
        (subst (λ r. Knows h.seen (after_read (c, t, req) r)) (sym read)
          (after_read-Knows (c, t, req) h.seen))
        hold
  CallStep-IsOneAnswer {f} (runs k c t req id at fresh) hold h =
      moves k _ f _ f.locks h (λ n. sees-db (own n) f.service _) refl
        (after_run-IsLinked (own k) (c, t, req) _ (subst (IsLinked (own k)) at (h.linked k)))
        (after_run-Knows (c, t, req) _ h.seen (subst (Knows h.seen) at (h.knows k))) hold
  CallStep-IsOneAnswer {f} (fetches k c t req tx at) hold h =
      moves k _ f f.service f.locks h (λ n. refl) refl (subst (IsLinked (own k)) at (h.linked k))
        (subst (Knows h.seen) at (h.knows k)) hold
  CallStep-IsOneAnswer {f} (remembers k c t req r at) hold h =
      remembers-IsOneAnswer k c t req r f at h hold
  CallStep-IsOneAnswer {f} (releases k c t req r at) hold h =
      moves k _ f f.service _ h (λ n. refl) refl tt (subst (Knows h.seen) at (h.knows k)) hold
  CallStep-IsOneAnswer {f} (fails_to_release k c t req r at) hold h =
      moves k _ f f.service f.locks h (λ n. refl) refl tt (subst (Knows h.seen) at (h.knows k)) hold
  CallStep-IsOneAnswer {f} (lapses k t key' may left) hold h = record {
    hold = hold;
    linked = h.linked;
    same_ttl = h.same_ttl;
    seen = h.seen;
    agree = h.agree;
    knows = h.knows;
  }

  Reachable-IsOneAnswer :
      (s : LedgerService) (seen : Option TransactionResponse)
      → s.idempotency_ttl ≡ ttl
      → ((n : ℕ) → sees (own n) s ≡ seen)
      → {f : Concurrent} → Reachable false (begin s own) f
      → IsOneAnswer f
  Reachable-IsOneAnswer s seen same agree at_start = record {
    hold = λ k. tt;
    linked = λ k. refl;
    same_ttl = same;
    seen = seen;
    agree = agree;
    knows = λ k. tt;
  }
  Reachable-IsOneAnswer s seen same agree (one_later path step) =
      let h = Reachable-IsOneAnswer s seen same agree path in
      CallStep-IsOneAnswer step (CallStep-AllHold step h.hold) h

-- Calls of CreateTransaction with one tenant and key that come in together, with whatever bodies
-- and interleaved in any way, and that succeed, answer the same, also after a Release that fails,
-- whose lock runs out later: if no lock runs out under a call that still works, Redis works, an entry lives as long as the calls, and at the start they read
-- the same in the cache.
pub one_answer :
    (s : LedgerService) (tenant : Uuid) (asks : ℕ → Conditions × CreateTransactionRequest)
    (key : String) (seen : Option TransactionResponse) {f : Concurrent} (k n : ℕ)
    (r a : TransactionResponse)
    → IsOneKey asks key s.idempotency_ttl
    → ((n : ℕ) → sees (calls_of tenant asks n) s ≡ seen)
    → Reachable false (begin s (calls_of tenant asks)) f
    → f.stages k ≡ finished (ok r)
    → f.stages n ≡ finished (ok a)
    → r ≡ a
one_answer s tenant asks key seen {f} k n r a one agree path at at' =
    let h = Reachable-IsOneAnswer tenant asks key s.idempotency_ttl one s seen refl agree path in
    let mine = subst (Knows h.seen) at (h.knows k) in
    let theirs = subst (Knows h.seen) at' (h.knows n) in same_response r a (sym mine ∙ theirs)
  where
    same_response : (x y : TransactionResponse) → some x ≡ some y → x ≡ y
    same_response x y h = cc
