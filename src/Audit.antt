-- ===== src/Audit.antt =====
-- internal/audit: the events and queries of the audit log, and the cache in front of it.
pub mod Cache
pub mod Repository
mod Tests
use kode_stream.Prelude.{
  ℕ, ℤ, String, List, Option, ◌≡◌, ◌↔◌, Bool, true, ◌&&◌, Comparable, ◌==◌, string_eq, int_eq,
  eq_iff, int_beq_iff, arith,
}

-- `models.AuditEvent`; `paths` is `none` for a nil slice, a time is a number of nanoseconds.
pub record AuditEvent : Type 0 where
  pub id : String
  pub time : ℕ
  pub owner_user_id : String
  pub actor_user_id : String
  pub workspace_id : String
  pub item_id : String
  pub operation : String
  pub status : String
  pub message : String
  pub paths : Option (List String)
  pub duration_ms : ℤ
  pub error : String

pub record Query : Type 0 where
  pub owner_user_id : String
  pub workspace_id : String
  pub limit : ℤ

abbrev pub query_beq : Query → Query → Bool
query_beq p q =
    p.owner_user_id == q.owner_user_id && p.workspace_id == q.workspace_id && p.limit == q.limit

pub query_beq_iff : (p q : Query) → (query_beq p q ≡ true) ↔ (p ≡ q)
query_beq_iff p q = grind (
  arith,
  eq_iff p.owner_user_id q.owner_user_id,
  eq_iff p.workspace_id q.workspace_id,
  int_beq_iff p.limit q.limit,
)

instance abbrev pub query_eq : Comparable Query
query_eq = record { equal = query_beq; equal_iff = query_beq_iff }
