-- ===== src/Transfers/History/Evidenced.antt =====
-- What the lifecycle of backup transfers implies for the rows of the outbox.
use iac_ai_runtime.Queue.History.{new_store}
use iac_ai_runtime.Table.{first}
use iac_ai_runtime.Security.{Search}
use iac_ai_runtime.Outbox.{Reaches-stuck, Evolves-final, Evolves-All, HasKeys}
use iac_ai_runtime.Prelude.{
  is_some, ◌&&◌, some, [], String, Bool, true, false, ◌≡◌, ◌≤◌, refl, sym, ap, subst, List, arith,
  All,
}
use iac_ai_runtime.Db.{Profile, Clock, Store, Transfer, TransferStatus}
use iac_ai_runtime.Transfers.{is_plan, Evidence}
use iac_ai_runtime.Transfers.Lifecycle.{Moves, IsFresh, plan_of, same_plan}
use iac_ai_runtime.Transfers.History.{Call, run, transfers_evolve}

abbrev pub IsBounded : Transfer → Type 0
IsBounded t = t.attempt_count ≤ t.max_attempts

IsBounded-step : (t u : Transfer) → Moves t u → IsBounded t → IsBounded u
IsBounded-step t u (Moves.validates r n s e) h = subst IsBounded (sym e) h
IsBounded-step t u (Moves.authorizes a n s e) h = subst IsBounded (sym e) h
IsBounded-step t u (Moves.leases w l n s m e) h = subst IsBounded (sym e) (omega (arith, m))
IsBounded-step t u (Moves.retries r a n s m e) h = subst IsBounded (sym e) h
IsBounded-step t u (Moves.fails r a n s m e) h = subst IsBounded (sym e) h
IsBounded-step t u (Moves.completes r a n s e) h = subst IsBounded (sym e) h
IsBounded-step t u (Moves.holds r n s e) h = subst IsBounded (sym e) h

IsBounded-fresh : (t : Transfer) → IsFresh t → IsBounded t
IsBounded-fresh t f = omega (arith, f.no_attempt)

-- No transfer is tried more often than its limit allows: if no row has more attempts than its
-- maximum, the rows have different plans and they are committed, then after any calls, returning or
-- raising, no row has more attempts than its maximum, the expired leases of dead workers included.
pub attempts-IsBounded :
    (evidence : Evidence) (s : Store) (ks : List (Clock × Call))
    → HasKeys plan_of s.live.backup_transfer_outbox
    → s.durable.backup_transfer_outbox ≡ s.live.backup_transfer_outbox
    → All IsBounded s.live.backup_transfer_outbox
    → All IsBounded (run evidence s ks).live.backup_transfer_outbox
attempts-IsBounded evidence s ks keys saved h =
    Evolves-All Moves IsFresh IsBounded IsBounded-step _ _ IsBounded-fresh h
      (transfers_evolve evidence s ks keys saved)

-- COMPLETED, FAILED and RECONCILIATION_REQUIRED
abbrev pub is_terminal : TransferStatus → Bool
is_terminal TransferStatus.staged = false
is_terminal TransferStatus.preflight_validated = false
is_terminal TransferStatus.authorized = false
is_terminal TransferStatus.completed = true
is_terminal TransferStatus.failed = true
is_terminal TransferStatus.reconciliation_required = true

no_step : (t u : Transfer) → is_terminal t.status ≡ true → Moves t u → ⊥
no_step t u h (Moves.validates r n s e) = cc (h, ap is_terminal s)
no_step t u h (Moves.authorizes a n s e) = cc (h, ap is_terminal s)
no_step t u h (Moves.leases w l n s m e) = cc (h, ap is_terminal s)
no_step t u h (Moves.retries r a n s m e) = cc (h, ap is_terminal s)
no_step t u h (Moves.fails r a n s m e) = cc (h, ap is_terminal s)
no_step t u h (Moves.completes r a n s e) = cc (h, ap is_terminal s)
no_step t u h (Moves.holds r n s e) = cc (h, ap is_terminal s)

-- A transfer that is completed, failed or held for reconciliation stays as it is: if such a row is
-- found by its plan, the rows have different plans and they are committed, then after any calls,
-- returning or raising, the same row is found, so that nothing leases, retries or authorizes it
-- again.
pub terminal_is_final :
    (evidence : Evidence) (s : Store) (ks : List (Clock × Call)) (plan : String) (t : Transfer)
    → HasKeys plan_of s.live.backup_transfer_outbox
    → s.durable.backup_transfer_outbox ≡ s.live.backup_transfer_outbox
    → first (is_plan plan) s.live.backup_transfer_outbox ≡ some t
    → is_terminal t.status ≡ true
    → first (is_plan plan) (run evidence s ks).live.backup_transfer_outbox ≡ some t
unfolding is_plan
terminal_is_final evidence s ks plan t keys saved found h =
    Evolves-final Moves IsFresh plan_of same_plan plan _ _ found
      (λ u r. Reaches-stuck Moves (λ w. is_terminal w.status ≡ true) no_step t u h r)
      (transfers_evolve evidence s ks keys saved)

-- What a row must carry in each status.
abbrev pub evidence_for : TransferStatus → Transfer → Bool
evidence_for TransferStatus.staged t = true
evidence_for TransferStatus.preflight_validated t = is_some t.preflight_receipt_payload
evidence_for TransferStatus.authorized t =
    is_some t.preflight_receipt_payload && is_some t.approval_id
evidence_for TransferStatus.completed t =
    is_some t.preflight_receipt_payload && is_some t.approval_id && is_some t.receipt_payload
evidence_for TransferStatus.failed t = is_some t.preflight_receipt_payload && is_some t.approval_id
evidence_for TransferStatus.reconciliation_required t =
    is_some t.preflight_receipt_payload && is_some t.approval_id

abbrev pub IsEvidenced : Transfer → Type 0
IsEvidenced t = evidence_for t.status t ≡ true

IsEvidenced-step : (t u : Transfer) → Moves t u → IsEvidenced t → IsEvidenced u
IsEvidenced-step t u (Moves.validates r n s e) h = subst IsEvidenced (sym e) refl
IsEvidenced-step t u (Moves.authorizes a n s e) h =
    let k = rw s at h in subst IsEvidenced (sym e) (ground (arith, k))
IsEvidenced-step t u (Moves.leases w l n s m e) h =
    let k = rw s at h in subst IsEvidenced (sym e) (rw s (ground (arith, k)))
IsEvidenced-step t u (Moves.retries r a n s m e) h =
    let k = rw s at h in subst IsEvidenced (sym e) (rw s (ground (arith, k)))
IsEvidenced-step t u (Moves.fails r a n s m e) h =
    let k = rw s at h in subst IsEvidenced (sym e) (ground (arith, k))
IsEvidenced-step t u (Moves.completes r a n s e) h =
    let k = rw s at h in subst IsEvidenced (sym e) (ground (arith, k))
IsEvidenced-step t u (Moves.holds r n s e) h =
    let k = rw s at h in subst IsEvidenced (sym e) (ground (arith, k))

IsEvidenced-fresh : (t : Transfer) → IsFresh t → IsEvidenced t
IsEvidenced-fresh t f = rw f.is_staged refl

-- Starting from a new database, after any calls, returning or raising, every row of the outbox
-- carries the evidence of its status: a transfer that is validated has a preflight receipt, one that
-- is authorized, failed or held also the id of an approval, and one that is completed also the
-- receipt of the provider.
pub transfers-IsEvidenced :
    (evidence : Evidence) (profile : Profile) (patterns : Search) (ks : List (Clock × Call))
    → All IsEvidenced (run evidence (new_store profile patterns) ks).live.backup_transfer_outbox
transfers-IsEvidenced evidence profile patterns ks =
    Evolves-All Moves IsFresh IsEvidenced IsEvidenced-step [] _ IsEvidenced-fresh tt
      (transfers_evolve evidence (new_store profile patterns) ks tt refl)
