-- ===== src/Transfers/Preserves.antt =====
-- Every statement and method of the outbox of backup transfers moves its rows by steps of their
-- lifecycle: staging, preflight and approval.
pub mod Leases
pub mod Endings
use iac_ai_runtime.Access.{audit_uncommitted, audit}
use iac_ai_runtime.Time.{Stamp}
use iac_ai_runtime.Table.Laws.{All-of}
use iac_ai_runtime.Json.{Fields, Json}
use iac_ai_runtime.Exec.{Error, ◌>>=◌, gets, from_result}
use iac_ai_runtime.Approvals.{request_approval, set_approval, Ask}
use iac_ai_runtime.Transfers.Approval.{
  undo, is_over, set_authorized, use_drill, authorize_row, expire_all, is_awaiting, answer_pending,
  request_backup_transfer_approval, authorize_backup_transfer,
}
use iac_ai_runtime.Approvals.Consume.{consume_approval, Use}
use iac_ai_runtime.Prelude.{
  false, if◌then◌else◌, [], ◌∷◌, ◌++◌, arith, none, some, Option, List, ℕ, String, Bool, true, ◌≡◌,
  refl,
}
use iac_ai_runtime.Exec.Preserves.{bind_then, bind_at, Preserves, preserves_rules, gets_bind}
use iac_ai_runtime.Table.{first, update}
use iac_ai_runtime.Db.{
  Store, AuditResult, Approval, TransferStatus, Transfer, Db, Clock, Actor, write,
}
use iac_ai_runtime.Access.Preserves.{
  Preserves-begin, Preserves-audit, Preserves-audit_uncommitted, InDb, Preserves-write,
  Preserves-commit, Preserves-authorize, Preserves-rollback,
}
use iac_ai_runtime.Outbox.Kept.{IsKept, IsKept-update, IsKept-append}
use iac_ai_runtime.Approvals.Preserves.{
  IgnoresApprovals, Preserves-request_approval, Preserves-consume_approval,
}
use iac_ai_runtime.Transfers.{
  new_transfer, text_at, is_staged_plan, preflight_row, is_authorized, is_staged, set_preflight,
  stage_backup_transfer, is_validated, record_backup_transfer_preflight, is_plan, Evidence,
  get_backup_transfer, open_transfer, stage_row,
}
use iac_ai_runtime.Transfers.Lifecycle.{validates, authorizes, Moves, IsFresh, plan_of, same_plan}

pub authorized_eq : (s : TransferStatus) → is_authorized s ≡ true → s ≡ TransferStatus.authorized
authorized_eq TransferStatus.authorized e = refl
authorized_eq TransferStatus.staged e = absurd (cc e)
authorized_eq TransferStatus.preflight_validated e = absurd (cc e)
authorized_eq TransferStatus.completed e = absurd (cc e)
authorized_eq TransferStatus.failed e = absurd (cc e)
authorized_eq TransferStatus.reconciliation_required e = absurd (cc e)

staged_eq : (s : TransferStatus) → is_staged s ≡ true → s ≡ TransferStatus.staged
staged_eq TransferStatus.staged e = refl
staged_eq TransferStatus.authorized e = absurd (cc e)
staged_eq TransferStatus.preflight_validated e = absurd (cc e)
staged_eq TransferStatus.completed e = absurd (cc e)
staged_eq TransferStatus.failed e = absurd (cc e)
staged_eq TransferStatus.reconciliation_required e = absurd (cc e)

validated_eq : (s : TransferStatus) → is_validated s ≡ true → s ≡ TransferStatus.preflight_validated
validated_eq TransferStatus.preflight_validated e = refl
validated_eq TransferStatus.authorized e = absurd (cc e)
validated_eq TransferStatus.staged e = absurd (cc e)
validated_eq TransferStatus.completed e = absurd (cc e)
validated_eq TransferStatus.failed e = absurd (cc e)
validated_eq TransferStatus.reconciliation_required e = absurd (cc e)

module _ (rows : List Transfer) where
  -- The outbox has gone through the lifecycle since it was `rows`.
  abbrev pub Kept : Db → Type 0
  Kept d = IsKept plan_of Moves IsFresh rows d.backup_transfer_outbox

  pub ignores : IgnoresApprovals Kept
  ignores = record {
    blind_audit = λ d log h. h;
    blind_approvals = λ d approvals h. h;
    blind_records = λ d records states h. h;
  }

  pub audits :
      (c : Clock) (actor : Actor) (action : String) (r : AuditResult) (reason : String)
      (id : Option String) (details : Fields)
      → Preserves (InDb Kept) (audit c actor action r reason id details)
  audits = Preserves-audit ignores.blind_audit

  pub updates :
      (p : Transfer → Bool) (f : Transfer → Transfer)
      → ((t : Transfer) → p t ≡ true → Moves t (f t))
      → Preserves
          (InDb Kept)
          (write (λ d. record d { backup_transfer_outbox = update p f d.backup_transfer_outbox }))
  updates p f move = Preserves-write _ (λ d h.
      IsKept-update plan_of Moves IsFresh same_plan p f rows _ h
        (All-of (λ t. p t ≡ true → Moves t (f t)) _ move))

  opens : (actor : Actor) (row : Option Transfer) → Preserves (InDb Kept) (open_transfer actor row)
  unfolding open_transfer
  opens actor none = search preserves_rules
  opens actor (some t) = search (preserves_rules, Preserves-authorize)

  pub reads :
      (actor : Actor) (plan : String) → Preserves (InDb Kept) (get_backup_transfer actor plan)
  unfolding get_backup_transfer
  reads actor plan = search (preserves_rules, opens)

  inserts :
      (t : Transfer)
      → IsFresh t
      → (s : Store) → InDb Kept s
      → first (is_plan t.plan_sha256) s.live.backup_transfer_outbox ≡ none
      → InDb Kept
          (write
            (λ d. record d { backup_transfer_outbox = d.backup_transfer_outbox ++ t ∷ [] })
            s).1
  unfolding write is_plan
  inserts t fresh s h new = record {
    in_live = IsKept-append plan_of Moves IsFresh rows _ t h.in_live fresh new;
    in_durable = h.in_durable;
  }

  stages_new :
      (c : Clock) (actor : Actor) (plan : String) (payload : Json) (s : Store)
      → InDb Kept s
      → first (is_plan plan) s.live.backup_transfer_outbox ≡ none
      → InDb Kept (stage_row c actor plan payload none s).1
  unfolding stage_row from_result
  stages_new c actor plan payload s h new =
      bind_at (InDb Kept) (from_result (text_at "approval_target" payload)) _ s h (λ target _.
        bind_at (InDb Kept) (from_result (text_at "proposal_sha256" payload)) _ s h (λ proposal _.
          bind_then (InDb Kept) _ _ s
            (inserts (new_transfer c plan target proposal payload)
              (record { is_staged = refl; no_attempt = refl; three = refl }) s h new)
            (λ _. search (preserves_rules, Preserves-commit, audits, reads))))

  stages_again :
      (c : Clock) (actor : Actor) (plan : String) (payload : Json) (t : Transfer)
      → Preserves (InDb Kept) (stage_row c actor plan payload (some t))
  unfolding stage_row
  stages_again c actor plan payload t = search (preserves_rules, reads)

  stages_row :
      (c : Clock) (actor : Actor) (plan : String) (payload : Json)
      → Preserves (InDb Kept) (
          gets (λ s. first (is_plan plan) s.live.backup_transfer_outbox)
          >>= (λ row. stage_row c actor plan payload row))
  stages_row c actor plan payload = gets_bind (InDb Kept) _ _ (λ s h. by_row s h _ refl)
    where
      by_row :
          (s : Store)
          → InDb Kept s
          → (row : Option Transfer) → first (is_plan plan) s.live.backup_transfer_outbox ≡ row
          → InDb Kept (stage_row c actor plan payload row s).1
      by_row s h none e = stages_new c actor plan payload s h e
      by_row s h (some t) e = (stages_again c actor plan payload t).after s h

  sets_preflight :
      (c : Clock) (plan : String) (payload : Json)
      → Preserves (InDb Kept) (write (set_preflight c plan payload))
  unfolding set_preflight is_staged_plan
  sets_preflight c plan payload =
      updates _ _ (λ t hit. validates payload c.instant (staged_eq _ (ground (arith, hit))) refl)

  preflights :
      (c : Clock) (actor : Actor) (plan : String) (verified : Json) (t : Transfer)
      → Preserves (InDb Kept) (preflight_row c actor plan verified t)
  unfolding preflight_row
  preflights c actor plan verified t =
      search (preserves_rules, sets_preflight, Preserves-commit, audits, reads) depth 9

  expires :
      (now : ℕ) (pendings : List Approval) (d : Db) → Kept d → Kept (expire_all now pendings d)
  unfolding expire_all set_approval
  expires now [] d h = h
  expires now (a ∷ more) d h = expires now more _ (either (is_over now a) _ _ h h)
    where
      either : (b : Bool) (x y : Db) → Kept x → Kept y → Kept (if b then x else y)
      either true x y h k = h
      either false x y h k = k

  expires_all :
      (now : ℕ) (pendings : List Approval) → Preserves (InDb Kept) (write (expire_all now pendings))
  expires_all now pendings = Preserves-write _ (expires now pendings)

  requests :
      (c : Clock) (actor : Actor) (id : String) (q : Ask)
      → Preserves (InDb Kept) (request_approval c actor id q)
  requests = Preserves-request_approval ignores

  uses :
      (c : Clock) (actor : Actor) (id : String) (u : Use) (commits : Bool)
      → Preserves (InDb Kept) (consume_approval c actor id u commits)
  uses = Preserves-consume_approval ignores

  answers :
      (c : Clock) (actor : Actor) (id : String) (t : Transfer) (max_impact : String)
      (expires_at : Stamp) (conditions : Fields) (pendings : List Approval)
      → Preserves
          (InDb Kept)
          (answer_pending c actor id t max_impact expires_at conditions pendings)
  unfolding answer_pending
  answers c actor id t max_impact expires_at conditions [] = search (preserves_rules, requests)
  answers c actor id t max_impact expires_at conditions (a ∷ []) = search preserves_rules
  answers c actor id t max_impact expires_at conditions (a ∷ b ∷ more) = search preserves_rules

  pub Preserves-request_backup_transfer_approval :
      (c : Clock) (actor : Actor) (id plan max_impact : String) (expires_at : Stamp)
      → Preserves
          (InDb Kept)
          (request_backup_transfer_approval c actor id plan max_impact expires_at)
  unfolding request_backup_transfer_approval
  Preserves-request_backup_transfer_approval c actor id plan max_impact expires_at =
      search (preserves_rules, reads, Preserves-authorize, expires_all, Preserves-commit, answers)
        depth 14

  authorizes_awaiting :
      (c : Clock) (plan id : String)
      → Preserves (InDb Kept) (
          write (λ d. record d {
            backup_transfer_outbox =
                update (is_awaiting plan) (set_authorized c id) d.backup_transfer_outbox;
          }))
  unfolding is_awaiting set_authorized
  authorizes_awaiting c plan id =
      updates _ _ (λ t hit. authorizes id c.instant (validated_eq _ (ground (arith, hit))) refl)

  audits_uncommitted :
      (c : Clock) (actor : Actor) (action : String) (r : AuditResult) (reason : String)
      (id : Option String) (details : Fields)
      → Preserves (InDb Kept) (audit_uncommitted c actor action r reason id details)
  audits_uncommitted = Preserves-audit_uncommitted ignores.blind_audit

  uses_drill :
      (c : Clock) (actor : Actor) (plan id : String) (t : Transfer) (conditions : Fields)
      → Preserves (InDb Kept) (use_drill c actor plan id t conditions)
  unfolding use_drill
  uses_drill c actor plan id t conditions =
      search
        (
          preserves_rules, Preserves-begin, uses, authorizes_awaiting, audits_uncommitted,
          Preserves-commit,
        )
        depth 9

  undoes : (e : Error) → Preserves (InDb Kept) (undo e)
  unfolding undo
  undoes e = search (preserves_rules, Preserves-rollback)

  authorizes_row :
      (c : Clock) (actor : Actor) (plan id : String) (t : Transfer)
      → Preserves (InDb Kept) (authorize_row c actor plan id t)
  unfolding authorize_row
  authorizes_row c actor plan id t = search (preserves_rules, uses_drill, undoes, reads) depth 12

  pub Preserves-authorize_backup_transfer :
      (c : Clock) (actor : Actor) (plan id : String)
      → Preserves (InDb Kept) (authorize_backup_transfer c actor plan id)
  unfolding authorize_backup_transfer
  Preserves-authorize_backup_transfer c actor plan id =
      search (preserves_rules, reads, authorizes_row) depth 9

  module _ (evidence : Evidence) where
    pub Preserves-stage_backup_transfer :
        (c : Clock) (actor : Actor) (plan approval_package : Json)
        → Preserves (InDb Kept) (stage_backup_transfer evidence c actor plan approval_package)
    unfolding stage_backup_transfer
    Preserves-stage_backup_transfer c actor plan approval_package =
        search (preserves_rules, Preserves-authorize, stages_row) depth 12

    pub Preserves-record_backup_transfer_preflight :
        (c : Clock) (actor : Actor) (plan : String) (receipt : Json)
        → Preserves (InDb Kept) (record_backup_transfer_preflight evidence c actor plan receipt)
    unfolding record_backup_transfer_preflight
    Preserves-record_backup_transfer_preflight c actor plan receipt =
        search (preserves_rules, reads, Preserves-authorize, preflights) depth 12
