-- ===== src/Authorization/Scenarios.antt =====
-- manager/authorization.py: a stop that is requested, approved and used, and then used again.
use fortifylab_archive.Authorization.Approval.{Approved, approve-Approved}
use fortifylab_archive.Authorization.Authorised.{Authorised}
use fortifylab_archive.Authorization.FailClosed.{authorize_fails_closed}
use fortifylab_archive.Authorization.Ledger.{
  Document, Ledger, approval, approved, insert, state_eq, transition,
}
use fortifylab_archive.Authorization.Policy.{
  ActorIdentity, OperationPlan, authorization_error, aware, high, high_risk_confirmation, risk,
}
use fortifylab_archive.Authorization.Service.{
  Service, absent, answers, approve, approve_loaded, audit, authorize, authorize_loaded, confirmed,
  consume, consumption_reason, decision_reason, deny, drafted, high_risk_reason, now, request,
}
use fortifylab_archive.Authorization.SingleUse.{authorize_once, here, next, requested}
use fortifylab_archive.Prelude.{
  List, Option, String, [], contains, none, refl, some, ◌+◌, ◌∷◌, ◌≡◌, ◌≢◌,
}
use fortifylab_archive.Prelude.Exec.{ok, raised}
use fortifylab_archive.Prelude.Table.{select, update}

abbrev tester : ActorIdentity
tester = record { actor = "tester"; source = "web"; session_id = "s1"; authenticated_at = 900 }

-- A stand-in for the hash that tells the two states of these tests apart.
abbrev first_state : List (String × String) → String
first_state [] = ""
first_state ((_, state) ∷ _) = state

abbrev lab : Service
lab = record {
  clock = λ n. aware (1000 + n);
  ttl = 600;
  reauthentication_age = 300;
  digest = λ plan. first_state plan.current_state;
}

abbrev upgrade_ssc : OperationPlan
upgrade_ssc = record {
  operation = "upgrade";
  targets = "ssc" ∷ [];
  current_state = ("ssc", "healthy") ∷ [];
}

abbrev blank : Ledger
blank = record { approvals = []; audit = []; reads = 0 }

abbrev phrase : Option String
phrase = some high_risk_confirmation

abbrev requested_ledger : Ledger
requested_ledger = (request lab upgrade_ssc tester "a1" blank).1

abbrev decided_ledger : Ledger
decided_ledger = (approve lab "a1" tester phrase requested_ledger).1

abbrev used_ledger : Ledger
used_ledger =
    (authorize lab upgrade_ssc tester (some "a1") (answers (("ssc", "healthy") ∷ []))
      decided_ledger).1

abbrev granted_document : Document
granted_document = record (drafted lab upgrade_ssc tester "a1" 1000 high) {
  state = approved;
  decided_at = some 1002;
}

program : Unit {0}
unfolding request approve approve_loaded authorize authorize_loaded consume approval insert
    transition risk decision_reason consumption_reason high_risk_reason confirmed audit deny now
    select update contains state_eq
program = tt

approves : approve lab "a1" tester phrase requested_ledger ≡ (ok granted_document, decided_ledger)
unfolding program
approves = refl

authorizes :
    authorize lab upgrade_ssc tester (some "a1") (answers (("ssc", "healthy") ∷ [])) decided_ledger
    ≡ (ok tt, used_ledger)
unfolding program
authorizes = refl

known_risk : risk upgrade_ssc ≡ some high
unfolding program
known_risk = refl

refuses : authorize lab upgrade_ssc tester none absent blank ≡ (
  raised (authorization_error "operation requires approval"),
  (authorize lab upgrade_ssc tester none absent blank).1,
)
unfolding program
refuses = refl

-- An approval whose targets changed state is refused, and so is one that expired.
refusals :
    ((authorize lab upgrade_ssc tester
        (some "a1")
        (answers (("ssc", "failed") ∷ []))
        decided_ledger).0
      ≡ raised (authorization_error "operation plan or current state changed"))
    × ((authorize
          (record lab { clock = λ n. aware 1600 })
          upgrade_ssc
          tester
          (some "a1")
          absent
          decided_ledger).0
        ≡ raised (authorization_error "approval has expired"))
unfolding program
refusals = (refl, refl)

approve-Approved_example :
    Approved lab tester phrase "a1" granted_document requested_ledger decided_ledger
approve-Approved_example =
    approve-Approved lab "a1" tester phrase granted_document requested_ledger decided_ledger
      approves

abbrev after_ledger : Ledger
after_ledger = (request lab upgrade_ssc tester "a2" used_ledger).1

authorize_once_example :
    authorize_loaded lab upgrade_ssc tester "a1" absent high granted_document after_ledger
    ≢ (ok tt, after_ledger)
authorize_once_example =
    authorize_once lab upgrade_ssc upgrade_ssc tester tester (answers (("ssc", "healthy") ∷ []))
      absent "a1" high high granted_document decided_ledger used_ledger after_ledger after_ledger
      known_risk refl authorizes (next here (requested upgrade_ssc tester "a2"))

authorize_fails_closed_example :
    (authorize lab upgrade_ssc tester none absent blank).1.approvals ≡ blank.approvals
authorize_fails_closed_example =
    authorize_fails_closed lab (λ n. refl) upgrade_ssc tester none absent blank
      (authorize lab upgrade_ssc tester none absent blank).1
      (authorization_error "operation requires approval") refuses
