-- ===== src/Approvals/Preserves.antt =====
-- Requests and uses of approvals keep whatever does not depend on the records, the approvals and the
-- audit log.
use iac_ai_runtime.Table.{count_rows}
use iac_ai_runtime.Prelude.{inr, inl, nat_eq, Bool-cases, String, Bool, Option, none, some, List}
use iac_ai_runtime.Json.{Fields}
use iac_ai_runtime.Exec.{Error}
use iac_ai_runtime.Exec.Preserves.{Preserves-raise, Preserves-bind, Preserves, preserves_rules}
use iac_ai_runtime.Db.{
  rollback, ApprovalStatus, ProjectRow, Actor, Db, Clock, AuditResult, RecordRow, Approval, write,
}
use iac_ai_runtime.Access.Preserves.{
  InDb, IgnoresAudit, Preserves-write, Preserves-audit, Preserves-audit_uncommitted, Preserves-deny,
  Preserves-commit, Preserves-rollback, Preserves-authorize,
}
use iac_ai_runtime.Access.{audit, audit_uncommitted, deny}
use iac_ai_runtime.Records.{
  write_record, NewRecord, insert_record, create_record, try_create_record, refuse_record,
}
use iac_ai_runtime.Approvals.{
  is_undecided, settle_approval, update_undecided, decide_approval, expire_approval, decide_found,
  Ask, insert_approval, set_approval, request_approval,
}
use iac_ai_runtime.Approvals.Consume.{Use, spend, consume_row, consume_approval}

-- `G` does not read the audit log, the records or the approvals.
pub record IgnoresApprovals (G : Db → Type 0) : Type 0 where
  pub blind_audit : IgnoresAudit G
  pub blind_approvals : (d : Db) (rows : List Approval) → G d → G (record d { approvals = rows })
  pub blind_records :
      (d : Db) (rows : List RecordRow) (states : List ProjectRow)
      → G d
      → G (record d { records = rows; project_state = states })

module _ {G : Db → Type 0} (inv : IgnoresApprovals G) where
  audits :
      (c : Clock) (actor : Actor) (action : String) (r : AuditResult) (reason : String)
      (id : Option String) (details : Fields)
      → Preserves (InDb G) (audit c actor action r reason id details)
  audits = Preserves-audit inv.blind_audit

  audits_uncommitted :
      (c : Clock) (actor : Actor) (action : String) (r : AuditResult) (reason : String)
      (id : Option String) (details : Fields)
      → Preserves (InDb G) (audit_uncommitted c actor action r reason id details)
  audits_uncommitted = Preserves-audit_uncommitted inv.blind_audit

  denies :
      {A : Type 0} (c : Clock) (actor : Actor) (action reason : String) (id : Option String)
      (details : Fields) (e : Error)
      → Preserves (InDb G) (deny {A = A} c actor action reason id details e)
  denies = Preserves-deny inv.blind_audit

  inserts_record : (r : RecordRow) → Preserves (InDb G) (write (insert_record r))
  unfolding insert_record
  inserts_record r = Preserves-write _ (λ d h. inv.blind_records d _ _ h)

  tries_record :
      (c : Clock) (actor : Actor) (id : String) (n : NewRecord)
      → Preserves (InDb G) (try_create_record c actor id n)
  unfolding try_create_record write_record
  tries_record c actor id n =
      search (preserves_rules, Preserves-authorize, inserts_record, Preserves-commit, audits) depth
        14

  refuses_record :
      (c : Clock) (actor : Actor) (id : String) (n : NewRecord) (e : Error)
      → Preserves (InDb G) (refuse_record c actor id n e)
  unfolding refuse_record
  refuses_record c actor id n e = search (preserves_rules, Preserves-rollback, denies)

  pub Preserves-create_record :
      (c : Clock) (actor : Actor) (id : String) (n : NewRecord)
      → Preserves (InDb G) (create_record c actor id n)
  unfolding create_record
  Preserves-create_record c actor id n = search (preserves_rules, tries_record, refuses_record)

  inserts_approval : (a : Approval) → Preserves (InDb G) (insert_approval a)
  unfolding insert_approval
  inserts_approval a = Preserves-write _ (λ d h. inv.blind_approvals d _ h)

  pub Preserves-set_approval :
      (id : String) (status : ApprovalStatus) → Preserves (InDb G) (write (set_approval id status))
  unfolding set_approval
  Preserves-set_approval id status = Preserves-write _ (λ d h. inv.blind_approvals d _ h)

  pub Preserves-request_approval :
      (c : Clock) (actor : Actor) (id : String) (q : Ask)
      → Preserves (InDb G) (request_approval c actor id q)
  unfolding request_approval
  Preserves-request_approval c actor id q =
      search
        (
          preserves_rules, Preserves-authorize, Preserves-create_record, inserts_approval,
          Preserves-commit, audits,
        )
        depth 12

  spends : (id : String) (row : Option Approval) → Preserves (InDb G) (spend id row)
  unfolding spend
  spends id none = search preserves_rules
  spends id (some a) = search (preserves_rules, Preserves-set_approval)

  consumes_row :
      (c : Clock) (actor : Actor) (id : String) (u : Use) (commits : Bool) (row : Option Approval)
      (why : Option String)
      → Preserves (InDb G) (consume_row c actor id u commits row why)
  unfolding consume_row
  consumes_row c actor id u commits row none =
      search (preserves_rules, spends, audits_uncommitted, Preserves-commit)
  consumes_row c actor id u commits row (some why) = search (preserves_rules, denies)

  pub Preserves-consume_approval :
      (c : Clock) (actor : Actor) (id : String) (u : Use) (commits : Bool)
      → Preserves (InDb G) (consume_approval c actor id u commits)
  unfolding consume_approval
  Preserves-consume_approval c actor id u commits = search (preserves_rules, consumes_row) depth 9

  updates_undecided :
      (id : String) (status : ApprovalStatus) → Preserves (InDb G) (update_undecided id status)
  unfolding update_undecided
  updates_undecided id status = record {
    after = λ s h. elim (Bool-cases (nat_eq (count_rows (is_undecided id) s.live.approvals) 1)) [
      | inl e ↦ rw e ((Preserves-write _ (λ d k. inv.blind_approvals d _ k)).after s h)
      | inr e ↦
          rw e ((Preserves-bind rollback _ Preserves-rollback (λ _. Preserves-raise _)).after s h)
    ];
  }

  expires_approval :
      (c : Clock) (actor : Actor) (id : String) → Preserves (InDb G) (expire_approval c actor id)
  unfolding expire_approval
  expires_approval c actor id =
      search (preserves_rules, Preserves-set_approval, Preserves-commit, denies)

  settles_approval :
      (c : Clock) (actor : Actor) (id : String) (status : ApprovalStatus) (reason : String)
      → Preserves (InDb G) (settle_approval c actor id status reason)
  unfolding settle_approval
  settles_approval c actor id status reason =
      search (preserves_rules, updates_undecided, Preserves-commit, audits) depth 9

  decides_found :
      (c : Clock) (actor : Actor) (id : String) (approve : Bool) (reason : String)
      (row : Option Approval)
      → Preserves (InDb G) (decide_found c actor id approve reason row)
  unfolding decide_found
  decides_found c actor id approve reason none = search preserves_rules
  decides_found c actor id approve reason (some a) =
      search (preserves_rules, Preserves-authorize, expires_approval, settles_approval) depth 9

  pub Preserves-decide_approval :
      (c : Clock) (actor : Actor) (id : String) (approve : Bool) (reason : String)
      → Preserves (InDb G) (decide_approval c actor id approve reason)
  unfolding decide_approval
  Preserves-decide_approval c actor id approve reason =
      search (preserves_rules, decides_found) depth 12
