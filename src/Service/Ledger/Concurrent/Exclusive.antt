-- ===== src/Service/Ledger/Concurrent/Exclusive.antt =====
-- A call of CreateTransaction between Obtain and Release holds its lock, as long as no lock runs out.
use ledger_pro.Prelude.{
  ℕ, String, ◌≡◌, refl, sym, ap, subst, ◌∙◌, ◌≢◌, inl, inr, true, false, ◌&&◌, false≢true, Option,
  none, some, arith, str_eq, eq_iff, ◌==◌, ==-refl, Bool-cases, Option-cases,
}
use ledger_pro.Db.Models.{Uuid, Transaction}
use ledger_pro.Service.Cache.{TransactionResponse}
use ledger_pro.Service.Ledger.Safety.{Call}
use ledger_pro.Service.Ledger.Concurrent.{
  CallStage, starting, locked, missed, committed_row, answering, leaving, finished, Concurrent,
  set_stage, set_lock, release_lock, after_read, after_run, has_left, CallStep, refuses, obtains,
  gives_up, reads, runs, fetches, remembers, releases, fails_to_release, lapses, same_number,
  set_stage-each,
}
use ledger_pro.Db.Tables.{Database, Result, ok, err}
use ledger_pro.Service.Errors.{ServiceError}

-- The call that stands between Obtain and Release.
abbrev pub working_call : CallStage → Option Call
working_call (locked call) = some call
working_call (missed call) = some call
working_call (committed_row call tx) = some call
working_call (answering call r) = some call
working_call (leaving call r) = some call
working_call _ = none

abbrev pub Locks : Type 0
Locks = Uuid → String → Option ℕ

-- Such a call is the holder of its lock.
abbrev pub Holds : Locks → ℕ → Option Call → Type 0
Holds locks k none = Unit
Holds locks k (some (c, tenant, req)) = locks tenant req.idempotency_key ≡ some k

abbrev pub AllHold : Concurrent → Type 0
AllHold f = (k : ℕ) → Holds f.locks k (working_call (f.stages k))

-- The call of one number moves on, and the locks are as before.
stays :
    (k : ℕ) (p : CallStage) (f : Concurrent)
    → Holds f.locks k (working_call p)
    → AllHold f
    → AllHold (record f { stages = set_stage k p f.stages })
stays k p f hp h = set_stage-each (λ n p. Holds f.locks n (working_call p)) k p f.stages hp h

-- The lock of an address that tests equal.
same_lock :
    (locks : Locks) (t tenant : Uuid) (key' key : String)
    → ((t == tenant) && str_eq key' key) ≡ true
    → locks t key' ≡ locks tenant key
same_lock locks t tenant key' key h =
    let (e, e') = both t tenant key' key h in ap (λ a. locks a key') e ∙ ap (locks tenant) e'
  where
    both : (a b : Uuid) (u v : String) → ((a == b) && str_eq u v) ≡ true → (a ≡ b) × (u ≡ v)
    both a b u v h = (ground (arith, h), (eq_iff u v).0 (ground (arith, h)))

pub other_number : (a b : ℕ) → (a == b) ≡ false → a ≢ b
other_number a b h = ground arith

pub some_holder : (n k : ℕ) → some n ≡ some k → n ≡ k
some_holder n k h = cc

none≢some : (n : ℕ) → none ≢ some n
none≢some n h = cc

left_working : (p : CallStage) (call : Call) → has_left p ≡ true → working_call p ≢ some call
left_working (finished r) call h e = none≢call call e
  where
    none≢call : (x : Call) → none ≢ some x
    none≢call x h = cc
left_working (starting a) call h e = absurd (false≢true h)
left_working (locked a) call h e = absurd (false≢true h)
left_working (missed a) call h e = absurd (false≢true h)
left_working (committed_row a tx) call h e = absurd (false≢true h)
left_working (answering a r) call h e = absurd (false≢true h)
left_working (leaving a r) call h e = absurd (false≢true h)

-- A lock that nobody holds is taken.
taken-Holds :
    (k n : ℕ) (tenant : Uuid) (key : String) (locks : Locks) (call : Option Call)
    → locks tenant key ≡ none
    → Holds locks n call
    → Holds (set_lock tenant key (some k) locks) n call
taken-Holds k n tenant key locks none free h = h
taken-Holds k n tenant key locks (some (c, t, req)) free h =
    elim (Bool-cases ((t == tenant) && str_eq req.idempotency_key key)) [
      | inl e ↦ absurd (none≢some n (sym free ∙ sym (same_lock locks t tenant _ key e) ∙ h))
      | inr e ↦ rw e h
    ]

-- A lock is given back by its holder, who has left.
released-Holds :
    (k n : ℕ) (tenant : Uuid) (key : String) (locks : Locks) (call : Option Call)
    → n ≢ k
    → Holds locks n call
    → locks tenant key ≡ some k
    → Holds (release_lock k tenant key locks) n call
released-Holds k n tenant key locks none other h own = h
released-Holds k n tenant key locks (some (c, t, req)) other h own =
    elim (Bool-cases ((t == tenant) && str_eq req.idempotency_key key)) [
      | inl e ↦ absurd (other (some_holder n k (sym h ∙ same_lock locks t tenant _ key e ∙ own)))
      | inr e ↦ rw (own, ==-refl k, e) h
    ]

-- A lock runs out whose holder has left.
lapsed-Holds :
    (k n : ℕ) (tenant : Uuid) (key : String) (locks : Locks) (p : CallStage)
    → locks tenant key ≡ some k
    → (n ≡ k → has_left p ≡ true)
    → Holds locks n (working_call p)
    → Holds (set_lock tenant key none locks) n (working_call p)
lapsed-Holds k n tenant key locks p own left h = elim (Option-cases (working_call p)) [
  | inl e ↦ rw e tt
  | inr ((c, t, req), e) ↦
      let held = subst (Holds locks n) e h in
      elim (Bool-cases ((t == tenant) && str_eq req.idempotency_key key)) [
        | inl same ↦
            let one = some_holder n k (sym held ∙ same_lock locks t tenant _ key same ∙ own) in
            absurd (left_working p (c, t, req) (left one) e)
        | inr other ↦ rw e (rw other held)
      ]
]

read-Holds :
    (locks : Locks) (k : ℕ) (call : Call) (r : Option TransactionResponse)
    → Holds locks k (some call)
    → Holds locks k (working_call (after_read call r))
read-Holds locks k call none h = h
read-Holds locks k call (some r) h = h

run-Holds :
    (locks : Locks) (k : ℕ) (call : Call) (r : Result ServiceError (Transaction × Database))
    → Holds locks k (some call)
    → Holds locks k (working_call (after_run call r))
run-Holds locks k call (err e) h = h
run-Holds locks k call (ok (tx, db)) h = h

pub CallStep-AllHold : {f g : Concurrent} → CallStep false f g → AllHold f → AllHold g
CallStep-AllHold {f} (refuses k c tenant req e at bad) h = stays k _ f tt h
CallStep-AllHold {f} (obtains k c tenant req at v free) h = λ n. elim (Bool-cases (n == k)) [
  | inl e ↦
      rw (e, same_number n k e)
        (rw (==-refl tenant, (eq_iff req.idempotency_key req.idempotency_key).1 refl) refl)
  | inr e ↦ rw e (taken-Holds k n tenant req.idempotency_key f.locks _ free (h n))
]
CallStep-AllHold {f} (gives_up k c tenant req at v) h = stays k _ f tt h
CallStep-AllHold {f} (reads k c tenant req at) h =
    stays k _ f (read-Holds f.locks k (c, tenant, req) _ (rw at at (h k))) h
CallStep-AllHold {f} (runs k c tenant req id at fresh) h =
    stays k _ f (run-Holds f.locks k (c, tenant, req) _ (rw at at (h k))) h
CallStep-AllHold {f} (fetches k c tenant req tx at) h = stays k _ f (rw at at (h k)) h
CallStep-AllHold {f} (remembers k c tenant req r at) h = stays k _ f (rw at at (h k)) h
CallStep-AllHold {f} (releases k c tenant req r at) h = λ n. elim (Bool-cases (n == k)) [
  | inl e ↦ rw e tt
  | inr e ↦ rw e (
      released-Holds k n tenant req.idempotency_key f.locks _ (other_number n k e) (h n)
        (rw at at (h k)))
]
CallStep-AllHold {f} (fails_to_release k c tenant req r at) h = stays k _ f tt h
CallStep-AllHold {f} (lapses k tenant key own left) h = λ n.
    lapsed-Holds k n tenant key f.locks (f.stages n) own
      (λ e. subst (λ m. has_left (f.stages m) ≡ true) (sym e) left) (h n)
