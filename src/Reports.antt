-- ===== src/Reports.antt =====
-- What sean_os/store.py shows of itself: the audit events that an actor may see, the records that
-- are exported on a sale, and the heartbeats of workers.
pub mod Export
use iac_ai_runtime.Prelude.{
  ℕ, String, Bool, true, false, Option, none, some, List, [], ◌∷◌, ◌++◌, not, ◌&&◌, ◌||◌, ◌==◌,
  is_some, length, leb, if◌then◌else◌,
}
use iac_ai_runtime.Exec.{
  Result, ok, err, pure, gets, check, ◌>>=◌, ◌>>◌, authorization_error, validation_error,
}
use iac_ai_runtime.Json.{Json, null, bool, num, str, arr, obj, nil, end, Fields, dict, texts}
use iac_ai_runtime.Table.{select, first, update, order_by}
use iac_ai_runtime.Security.{has_secret, secret_findings}
use iac_ai_runtime.Db.{
  Scope, iac, shared, scope_eq, has_scope, Actor, allowed, Db, Store, Clock, Method, write, commit,
}
use iac_ai_runtime.Access.{audit, deny, read_access}
use iac_ai_runtime.Prelude.{zero, suc}
use iac_ai_runtime.Json.{Items, cons}
use iac_ai_runtime.Access.{permits}
use iac_ai_runtime.Security.{Finding}
use iac_ai_runtime.Budget.{is_work}
use iac_ai_runtime.Records.{is_record}
use iac_ai_runtime.Records.Reading.{records_before}
use iac_ai_runtime.Db.{Work, RecordRow, AuditRow, Heartbeat, Profile}

abbrev pub is_ok : Result (Unit {0}) → Bool
is_ok (ok x) = true
is_ok (err e) = false

abbrev pub work_in_scope : Actor → Option Work → Bool
work_in_scope actor none = false
work_in_scope actor (some w) = has_scope w.owner_scope actor.scopes

abbrev pub record_visible : Profile → Actor → Option RecordRow → Bool → Bool
record_visible profile actor none by_work = by_work
record_visible profile actor (some r) by_work =
    is_ok (permits profile actor r.owner_scope r.permitted_principals read_access)

abbrev pub affected_visible : Store → Actor → Option String → Bool
unfolding first is_record is_work permits
affected_visible s actor none = false
affected_visible s actor (some id) =
    record_visible s.scope_profile actor (first (is_record id) s.live.records)
      (work_in_scope actor (first (is_work id) s.live.work_queue))

-- `allowed` at the end of the loop's body
unfoldable pub is_visible : Store → Actor → AuditRow → Bool
is_visible s actor e =
    actor.is_sean || e.actor_id == actor.id || affected_visible s actor e.affected_record_id

-- The loop, over the newest event first: at most `limit` events that are visible.
unfoldable pub newest_visible : Store → Actor → ℕ → List AuditRow → List AuditRow
newest_visible s actor zero es = []
newest_visible s actor (suc n) [] = []
newest_visible s actor (suc n) (e ∷ es) =
    if is_visible s actor e
    then e ∷ newest_visible s actor n es
    else newest_visible s actor (suc n) es

unfoldable pub reversed : List AuditRow → List AuditRow
reversed [] = []
reversed (e ∷ es) = reversed es ++ e ∷ []

-- `scoped_audit_events`
unfoldable pub scoped_audit_events : Actor → ℕ → Method (List AuditRow)
scoped_audit_events actor limit = do
  check (leb 1 limit && leb limit 1000) (validation_error "Audit limit must be between 1 and 1000")
  gets (λ s. reversed (newest_visible s actor limit (reversed s.live.audit_log)))

-- WHERE (owner_scope='IAC' AND portable_on_sale=1) OR (owner_scope='SHARED' AND portable_on_sale=1)
unfoldable pub is_exported : RecordRow → Bool
is_exported r =
    scope_eq r.owner_scope iac && r.portable_on_sale
    || scope_eq r.owner_scope shared && r.portable_on_sale

abbrev pub optional_json : Option String → Json
optional_json none = null
optional_json (some t) = str t

-- The texts of a row, as the scan reads them; the times and the numbers are left out.
abbrev pub row_json : RecordRow → Json
row_json r = obj (
    dict (
      ("id", str r.id)
      ∷ ("confidentiality", str r.confidentiality)
      ∷ ("source", str r.source)
      ∷ ("source_locator", optional_json r.source_locator)
      ∷ ("created_by", str r.created_by)
      ∷ ("retention_rule", str r.retention_rule)
      ∷ ("permitted_principals", arr (texts r.permitted_principals))
      ∷ ("payload", r.payload)
      ∷ []))

abbrev pub rows_json : List RecordRow → Items
rows_json [] = nil
rows_json (r ∷ rs) = cons (row_json r) (rows_json rs)

unfoldable pub export_rows : Clock → Actor → List RecordRow → Method (List RecordRow)
export_rows c actor rows = do
  found ← gets (λ s. has_secret s.patterns (arr (rows_json rows)))
  if found
      then deny c actor "SALE_EXPORT" "Secret scan blocked export" none end
          (authorization_error "Sale export blocked by secret scan")
      else do
        audit c actor "SALE_EXPORT" allowed "Portable IAC/explicit SHARED only" none
            (dict (("record_count", num (length rows)) ∷ ("secret_scan_passed", bool true) ∷ []))
        pure rows

-- `sale_export`
unfoldable pub sale_export : Clock → Actor → Method (List RecordRow)
sale_export c actor =
    if not actor.is_sean && not (has_scope iac actor.scopes)
    then deny c actor "SALE_EXPORT" "IAC scope required" none end
        (authorization_error "IAC scope required for sale export")
    else do
      rows ← gets (λ s. order_by records_before (select is_exported s.live.records))
      export_rows c actor rows

abbrev is_worker : String → Heartbeat → Bool
is_worker id h = h.worker_id == id

-- `safe_details`; the sorted kinds of the findings are left out.
abbrev pub safe_details : List Finding → Fields → Fields
safe_details [] details = details
safe_details (f ∷ fs) details =
    dict (("sensitive_detail_redacted", bool true) ∷ ("finding_count", num (length (f ∷ fs))) ∷ [])

unfoldable pub upsert_heartbeat : Heartbeat → Db → Db
unfolding first update
upsert_heartbeat h d =
    if is_some (first (is_worker h.worker_id) d.worker_heartbeats)
    then record d {
      worker_heartbeats = update (is_worker h.worker_id) (λ x. h) d.worker_heartbeats;
    }
    else record d { worker_heartbeats = h ∷ d.worker_heartbeats }

-- `heartbeat`
unfoldable pub heartbeat :
    Clock → String → Scope → String → Option String → Fields → Method (Unit {0})
heartbeat c worker scope status work details = do
  found ← gets (λ s. secret_findings s.patterns [] (obj details))
  write (
      upsert_heartbeat (record {
        worker_id = worker;
        owner_scope = scope;
        status = status;
        current_work_id = work;
        last_seen_at = c.instant;
        details = safe_details found details;
      }))
  commit
