-- ===== src/Examples/Approvals.antt =====
-- An approval and its use.
use iac_ai_runtime.Access.{audit_row, audit_uncommitted}
use iac_ai_runtime.Time.{utc, text_leb}
use iac_ai_runtime.Exec.{◌>>=◌, pure, check, gets, when, ok}
use iac_ai_runtime.Approvals.{set_approval, is_approval}
use iac_ai_runtime.Prelude.{◌≡◌, ◌≢◌, [], ◌∷◌, true, some, none}
use iac_ai_runtime.Table.{update, first}
use iac_ai_runtime.Db.{
  approved, commit, write, scope_eq, has_scope, empty_db, sean, iac, Store, development, Approval,
}
use iac_ai_runtime.Approvals.Consume.{spend, consume_row, refusal, Use, consume_approval}
use iac_ai_runtime.Prelude.{refl, none, some, false, true, []}
use iac_ai_runtime.Json.{obj, end}
use iac_ai_runtime.Examples.{at, quiet}
use iac_ai_runtime.Approvals.Once.{consume_approval_lem, consume_once, IsUsed}

abbrev permit : Approval
permit = record {
  record_id = "a1";
  action_type = "SEND";
  target = "client-7";
  scope = iac;
  max_impact = "one mail";
  conditions = obj end;
  approver = "sean";
  status = approved;
  expires_at = utc 100;
  reusable = false;
}

abbrev with_permit : Store
with_permit = record {
  live = record empty_db { approvals = permit ∷ [] };
  durable = record empty_db { approvals = permit ∷ [] };
  is_open = false;
  scope_profile = development;
  patterns = quiet;
}

abbrev send : Use
send = record {
  action_type = "SEND";
  target = "client-7";
  at = none;
  scope = some iac;
  conditions = none;
}

abbrev after_use : Store
after_use = (consume_approval (at 20) sean "a1" send true with_permit).1

used : consume_approval (at 20) sean "a1" send true with_permit ≡ (ok tt, after_use)
unfolding consume_approval first is_approval refusal has_scope scope_eq text_leb consume_row spend
    set_approval update audit_uncommitted audit_row write commit when gets check pure ◌>>=◌
used = refl

consume_approval_lem_example : IsUsed development sean 20 "a1" send with_permit after_use
consume_approval_lem_example = consume_approval_lem (at 20) sean "a1" send true with_permit used

consume_once_example : consume_approval (at 30) sean "a1" send true after_use ≢ (ok tt, after_use)
unfolding first is_approval
consume_once_example =
    consume_once (at 20) (at 30) sean sean "a1" send send true true with_permit refl refl used
