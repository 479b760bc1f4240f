-- ===== src/Records/Reading.antt =====
-- Reading and changing records: `get_record`, `list_records`, `update_record`, `link_records` and
-- `transition_project` of sean_os/store.py.
use iac_ai_runtime.Prelude.{
  or_else, false, is_some, ℕ, ◌+◌, String, Bool, true, Option, none, some, List, [], ◌∷◌, ◌++◌, not,
  ◌&&◌, ◌||◌, ◌==◌, length, ltb, nat_eq, if◌then◌else◌,
}
use iac_ai_runtime.Text.{has_content, text_ltb}
use iac_ai_runtime.Exec.{
  integrity_error, Error, pure, raise, gets, check, catch, ◌>>=◌, ◌>>◌, authorization_error,
  validation_error, key_error,
}
use iac_ai_runtime.Json.{Json, null, num, str, end, dict}
use iac_ai_runtime.Time.{utc, instant_leb}
use iac_ai_runtime.Table.{select, first, update, count_rows, order_by}
use iac_ai_runtime.Security.{has_secret}
use iac_ai_runtime.Db.{
  shared, has_scope, scope_eq, Db, Scope, EntityType, RecordRow, Actor, allowed, Clock, Method,
  write, commit, rollback,
}
use iac_ai_runtime.Access.{audit, deny, authorize, write_access, read_access}
use iac_ai_runtime.Records.{is_project, is_record, is_entity, entity_name}
use iac_ai_runtime.Db.{
  active, paused, killed, unknown_state, ProjectState, ProjectRow, incubator, Relationship,
}

pub data Currentness : Type 0 where
  future outdated in_force : Currentness

-- `point < effective`, `point >= expires`
unfoldable pub currentness : ℕ → RecordRow → Currentness
unfolding instant_leb
currentness now r =
    if not (instant_leb r.effective_at (utc now)) then future else elim r.expires_at [
      | none ↦ in_force
      | some e ↦ if instant_leb e (utc now) then outdated else in_force
    ]

-- `except AuthorizationError`, and then `raise`
unfoldable pub refuse_read : Clock → Actor → String → Error → Method (Unit {0})
refuse_read c actor record_id (authorization_error t) =
    deny c actor "READ_RECORD" t (some record_id) end (authorization_error t)
refuse_read c actor record_id e = raise e

unfoldable pub read_record : Clock → Actor → String → Option RecordRow → Method RecordRow
read_record c actor record_id none =
    deny c actor "READ_RECORD" "Record not found" (some record_id) end (key_error record_id)
read_record c actor record_id (some r) = do
  catch (authorize actor r.owner_scope r.permitted_principals read_access)
      (refuse_read c actor record_id)
  audit c actor "READ_RECORD" allowed "Authorized scoped read" (some record_id) end
  pure r

-- `get_record`; the field that it adds to the row is `currentness`.
unfoldable pub get_record : Clock → Actor → String → Method RecordRow
get_record c actor record_id = do
  row ← gets (λ s. first (is_record record_id) s.live.records)
  read_record c actor record_id row

-- `except AuthorizationError: continue`
unfoldable pub skip_unauthorized : Error → Method (List RecordRow)
skip_unauthorized (authorization_error t) = pure []
skip_unauthorized e = raise e

-- the loop of `list_records`
unfoldable pub visible_records : Clock → Actor → List RecordRow → Method (List RecordRow)
visible_records c actor [] = pure []
visible_records c actor (r ∷ rs) = do
  seen ← catch (do x ← get_record c actor r.id; pure (x ∷ [])) skip_unauthorized
  rest ← visible_records c actor rs
  pure (seen ++ rest)

abbrev pub of_kind : Option EntityType → RecordRow → Bool
of_kind none r = true
of_kind (some e) r = entity_name r.entity_type == entity_name e

abbrev pub kind_name : Option EntityType → Json
kind_name none = null
kind_name (some e) = str (entity_name e)

abbrev pub is_kind : Option EntityType → Bool
is_kind none = true
is_kind (some e) = is_entity e

-- ORDER BY created_at, id
unfoldable pub records_before : RecordRow → RecordRow → Bool
records_before r q =
    ltb r.created_at q.created_at || nat_eq r.created_at q.created_at && text_ltb r.id q.id

-- `list_records`
unfoldable pub list_records : Clock → Actor → Option EntityType → Method (List RecordRow)
list_records c actor kind = do
  check (is_kind kind) (validation_error "Unknown entity type")
  rows ← gets (λ s. order_by records_before (select (of_kind kind) s.live.records))
  seen ← visible_records c actor rows
  audit c actor "LIST_RECORDS" allowed "Returned authorized records only" none
      (dict (("entity_type", kind_name kind) ∷ ("record_count", num (length seen)) ∷ []))
  pure seen

-- WHERE id=? AND version=?
unfoldable pub is_version : String → ℕ → RecordRow → Bool
is_version id n r = r.id == id && nat_eq r.version n

unfoldable pub set_payload : Clock → Json → RecordRow → RecordRow
set_payload c payload r = record r {
  payload = payload;
  updated_at = c.instant;
  version = r.version + 1;
}

unfoldable pub write_version : Clock → Actor → String → Json → ℕ → Method ℕ
write_version c actor record_id payload expected s =
    if nat_eq (count_rows (is_version record_id expected) s.live.records) 1
    then (do
      write (λ d. record d {
        records = update (is_version record_id expected) (set_payload c payload) d.records;
      })
      commit
      audit c actor "UPDATE_RECORD" allowed "Authorized versioned update" (some record_id)
          (dict (("version", num (expected + 1)) ∷ []))
      pure (expected + 1))
        s
    else (rollback
          >> deny c actor "UPDATE_RECORD" "Version conflict" (some record_id)
              (dict (("expected_version", num expected) ∷ []))
              (validation_error "Version conflict: reload the record before updating"))
        s

-- `update_record`
unfoldable pub update_record : Clock → Actor → String → Json → ℕ → Method ℕ
update_record c actor record_id payload expected = do
  found ← gets (λ s. has_secret s.patterns payload)
  if found
      then deny c actor "UPDATE_RECORD" "Secret-like material is prohibited" (some record_id) end
          (validation_error "Secret-like material is prohibited in canonical record payloads")
      else do
        row ← get_record c actor record_id
        authorize actor row.owner_scope row.permitted_principals write_access
        write_version c actor record_id payload expected

-- The key and the UNIQUE of the table `relationships`
unfoldable pub is_same_link : Relationship → Relationship → Bool
is_same_link a b =
    b.id == a.id
    || b.from_record_id == a.from_record_id
      && b.relationship_type == a.relationship_type
      && b.to_record_id == a.to_record_id

-- The two scopes are neither one nor is one of them SHARED.
abbrev pub crosses : Scope → Scope → Bool
crosses s t = not (scope_eq s t) && not (has_scope shared (s ∷ t ∷ []))

unfoldable pub insert_link : Clock → Actor → String → Relationship → Method String
insert_link c actor link_id link = do
  taken ← gets (λ s. is_some (first (is_same_link link) s.live.relationships))
  check (not taken) integrity_error
  write (λ d. record d { relationships = link ∷ d.relationships })
  commit
  audit c actor "LINK_RECORDS" allowed "Authorized relationship" (some link.from_record_id) (
      dict (
        ("relationship_id", str link_id)
        ∷ ("relationship_type", str link.relationship_type)
        ∷ ("to_record_id", str link.to_record_id)
        ∷ []))
  pure link_id

-- `link_records`; `link_id` is the new `uuid4`, the type in upper case.
unfoldable pub link_records : Clock → Actor → String → String → String → String → Method String
link_records c actor link_id from_id kind to_id = do
  source ← get_record c actor from_id
  target ← get_record c actor to_id
  authorize actor source.owner_scope source.permitted_principals write_access
  if crosses source.owner_scope target.owner_scope
      then deny c actor "LINK_RECORDS" "Direct PERSONAL-IAC links are prohibited" (some from_id)
          (dict (("to_record_id", str to_id) ∷ []))
          (authorization_error
            "Direct PERSONAL-IAC links are prohibited; use a SHARED gateway record")
      else insert_link c actor link_id (record {
        id = link_id;
        from_record_id = from_id;
        relationship_type = kind;
        to_record_id = to_id;
        created_at = c.instant;
      })

abbrev pub is_known : ProjectState → Bool
is_known (unknown_state t) = false
is_known _ = true

abbrev pub is_killed : ProjectState → Bool
is_killed killed = true
is_killed _ = false

abbrev pub state_name : ProjectState → String
state_name active = "ACTIVE"
state_name incubator = "INCUBATOR"
state_name paused = "PAUSED"
state_name killed = "KILLED"
state_name (unknown_state t) = t

abbrev is_state_of : String → ProjectRow → Bool
is_state_of id p = p.record_id == id

unfoldable pub set_state :
    Clock → String → ProjectState → String → Option String → Option String → Db → Db
set_state c record_id state reason trigger review d = record d {
  project_state =
      update (is_state_of record_id)
        (λ p. record p {
          state = state;
          reason = reason;
          review_at = review;
          reopen_trigger = trigger;
          changed_at = c.instant;
        })
        d.project_state;
}

-- `transition_project`
unfoldable pub transition_project :
    Clock
    → Actor
    → String
    → ProjectState
    → String
    → Option String
    → Option String
    → Method (Unit {0})
transition_project c actor record_id state reason trigger review = do
  row ← get_record c actor record_id
  check (is_project row.entity_type) (validation_error "Only PROJECT records have lifecycle state")
  check (is_known state) (validation_error "Unknown project state")
  check (has_content reason) (validation_error "Lifecycle changes require a reason")
  check (not (is_killed state) || has_content (or_else trigger ""))
      (validation_error "KILLED projects require a reopen trigger")
  write (set_state c record_id state reason trigger review)
  commit
  audit c actor "TRANSITION_PROJECT" allowed reason (some record_id)
      (dict (("state", str (state_name state)) ∷ []))
