-- ===== src/Transfers/Lifecycle.antt =====
-- The lifecycle of a backup transfer, as an automaton that does not know the methods: a transfer is
-- staged, validated, authorized, leased at most `max_attempts` times, and ends completed, failed or
-- held for reconciliation.
use iac_ai_runtime.Prelude.{ℕ, ◌+◌, ◌≤◌, ◌<◌, String, ◌≡◌, none, some, ap}
use iac_ai_runtime.Json.{Json}
use iac_ai_runtime.Db.{Transfer, TransferStatus}

-- One step of a transfer. Nothing moves out of COMPLETED, FAILED and RECONCILIATION_REQUIRED.
pub data Moves (t u : Transfer) : Type 0 where
  validates :
      (receipt : Json) (now : ℕ)
      → t.status ≡ TransferStatus.staged
      → u ≡ record t {
        status = TransferStatus.preflight_validated;
        preflight_receipt_payload = some receipt;
        updated_at = now;
      }
      → Moves t u
  authorizes :
      (approval : String) (now : ℕ)
      → t.status ≡ TransferStatus.preflight_validated
      → u ≡ record t {
        status = TransferStatus.authorized;
        approval_id = some approval;
        updated_at = now;
      }
      → Moves t u
  leases :
      (worker : String) (until now : ℕ)
      → t.status ≡ TransferStatus.authorized
      → t.attempt_count < t.max_attempts
      → u ≡ record t {
        lease_owner = some worker;
        lease_expires_at = some until;
        attempt_count = t.attempt_count + 1;
        updated_at = now;
      }
      → Moves t u
  retries :
      (error : String) (at now : ℕ)
      → t.status ≡ TransferStatus.authorized
      → t.attempt_count < t.max_attempts
      → u ≡ record t {
        available_at = at;
        lease_owner = none;
        lease_expires_at = none;
        last_error = some error;
        updated_at = now;
      }
      → Moves t u
  fails :
      (error : String) (at now : ℕ)
      → t.status ≡ TransferStatus.authorized
      → t.max_attempts ≤ t.attempt_count
      → u ≡ record t {
        status = TransferStatus.failed;
        available_at = at;
        lease_owner = none;
        lease_expires_at = none;
        last_error = some error;
        updated_at = now;
      }
      → Moves t u
  completes :
      (receipt : Json) (uploaded_at : String) (now : ℕ)
      → t.status ≡ TransferStatus.authorized
      → u ≡ record t {
        status = TransferStatus.completed;
        receipt_payload = some receipt;
        completed_at = some uploaded_at;
        updated_at = now;
        lease_owner = none;
        lease_expires_at = none;
        last_error = none;
      }
      → Moves t u
  holds :
      (error : String) (now : ℕ)
      → t.status ≡ TransferStatus.authorized
      → u ≡ record t {
        status = TransferStatus.reconciliation_required;
        lease_owner = none;
        lease_expires_at = none;
        last_error = some error;
        updated_at = now;
      }
      → Moves t u

-- A new row: staged, with three attempts and none of them used.
pub record IsFresh (t : Transfer) : Type 0 where
  pub is_staged : t.status ≡ TransferStatus.staged
  pub no_attempt : t.attempt_count ≡ 0
  pub three : t.max_attempts ≡ 3

abbrev pub plan_of : Transfer → String
plan_of t = t.plan_sha256

pub same_plan : (t u : Transfer) → Moves t u → plan_of u ≡ plan_of t
same_plan t u (validates r n s e) = ap plan_of e
same_plan t u (authorizes a n s e) = ap plan_of e
same_plan t u (leases w l n s m e) = ap plan_of e
same_plan t u (retries r a n s m e) = ap plan_of e
same_plan t u (fails r a n s m e) = ap plan_of e
same_plan t u (completes r a n s e) = ap plan_of e
same_plan t u (holds r n s e) = ap plan_of e
