-- ===== src/Access/Preserves.antt =====
-- Invariants of the database. One that holds of what the connection sees and of what the last
-- commit left is kept by `commit` and `rollback`, and by the audit log's rows if it does not read
-- them.
use iac_ai_runtime.Prelude.{String, Option, List, Bool-cases, inl, inr}
use iac_ai_runtime.Json.{Fields}
use iac_ai_runtime.Exec.{Error, ◌>>=◌}
use iac_ai_runtime.Exec.Preserves.{Preserves}
use iac_ai_runtime.Db.{
  Db, Store, Clock, Actor, AuditRow, AuditResult, Scope, write, begin, commit, rollback,
}
use iac_ai_runtime.Access.{
  audit, audit_uncommitted, deny, decline, authorize, Access, kill_switch_enabled,
}

-- `G` of both databases of the store.
pub record InDb (G : Db → Type 0) (s : Store) : Type 0 where
  pub in_live : G s.live
  pub in_durable : G s.durable

-- `G` does not read the audit log.
abbrev pub IgnoresAudit : (Db → Type 0) → Type 0
IgnoresAudit G = (d : Db) (rows : List AuditRow) → G d → G (record d { audit_log = rows })

module _ {G : Db → Type 0} where
  pub Preserves-write : (f : Db → Db) → ((d : Db) → G d → G (f d)) → Preserves (InDb G) (write f)
  unfolding write
  Preserves-write f h = record {
    after = λ s p. record { in_live = h s.live p.in_live; in_durable = p.in_durable };
  }

  pub Preserves-commit : Preserves (InDb G) commit
  unfolding commit
  Preserves-commit = record {
    after = λ s p. record { in_live = p.in_live; in_durable = p.in_live };
  }

  pub Preserves-rollback : Preserves (InDb G) rollback
  unfolding rollback
  Preserves-rollback = record {
    after = λ s p. record { in_live = p.in_durable; in_durable = p.in_durable };
  }

  pub Preserves-begin : Preserves (InDb G) begin
  unfolding begin
  Preserves-begin = record {
    after = λ s p. elim (Bool-cases s.is_open) [
      | inl opened ↦ rw opened (record { in_live = p.in_live; in_durable = p.in_durable })
      | inr closed ↦ rw closed (record { in_live = p.in_live; in_durable = p.in_durable })
    ];
  }

  pub Preserves-authorize :
      (actor : Actor) (scope : Scope) (principals : List String) (access : Access)
      → Preserves (InDb G) (authorize actor scope principals access)
  unfolding authorize ◌>>=◌
  Preserves-authorize actor scope principals access = record { after = λ s p. p }

  pub Preserves-kill_switch_enabled : Preserves (InDb G) kill_switch_enabled
  unfolding kill_switch_enabled ◌>>=◌
  Preserves-kill_switch_enabled = record { after = λ s p. p }

module _ {G : Db → Type 0} (blind : IgnoresAudit G) where
  pub Preserves-audit_uncommitted :
      (c : Clock) (actor : Actor) (action : String) (r : AuditResult) (reason : String)
      (id : Option String) (details : Fields)
      → Preserves (InDb G) (audit_uncommitted c actor action r reason id details)
  unfolding audit_uncommitted write
  Preserves-audit_uncommitted c actor action r reason id details = record {
    after = λ s p. record { in_live = blind s.live _ p.in_live; in_durable = p.in_durable };
  }

  pub Preserves-audit :
      (c : Clock) (actor : Actor) (action : String) (r : AuditResult) (reason : String)
      (id : Option String) (details : Fields)
      → Preserves (InDb G) (audit c actor action r reason id details)
  unfolding audit audit_uncommitted write commit ◌>>=◌
  Preserves-audit c actor action r reason id details = record {
    after = λ s p. let g = blind s.live _ p.in_live in record { in_live = g; in_durable = g };
  }

  pub Preserves-deny :
      {A : Type 0} (c : Clock) (actor : Actor) (action reason : String) (id : Option String)
      (details : Fields) (e : Error)
      → Preserves (InDb G) (deny {A = A} c actor action reason id details e)
  unfolding deny audit audit_uncommitted write commit ◌>>=◌
  Preserves-deny c actor action reason id details e = record {
    after = λ s p. let g = blind s.live _ p.in_live in record { in_live = g; in_durable = g };
  }

  pub Preserves-decline :
      {A : Type 0} (c : Clock) (actor : Actor) (action reason : String) (id : Option String)
      (details : Fields)
      → Preserves (InDb G) (decline {A = A} c actor action reason id details)
  unfolding decline audit audit_uncommitted write commit ◌>>=◌
  Preserves-decline c actor action reason id details = record {
    after = λ s p. let g = blind s.live _ p.in_live in record { in_live = g; in_durable = g };
  }

pub ruleset db_rules = (
  Preserves-write, Preserves-begin, Preserves-commit, Preserves-rollback, Preserves-authorize,
  Preserves-kill_switch_enabled, Preserves-audit_uncommitted, Preserves-audit, Preserves-deny,
  Preserves-decline,
)
