-- ===== src/Audit.antt =====
-- src/audit.rs: the audit log of an organisation as a hash chain, its append and its verifier.
-- Uuids and points in time are numbers; a time counts nanoseconds.
pub mod Links
pub mod Log
pub mod Append
pub mod Race
pub mod Tamper
pub mod Clock
mod Tests
use zed_api_server_rs.Prelude.{
  ℕ, zero, suc, ◌+◌, ◌-◌, ◌*◌, ◌/◌, ◌%◌, ◌^◌, Bool, true, false, not, ◌&&◌, Option, none, some,
  List, [], ◌∷◌, ◌++◌, if◌then◌else◌, any, take, is_empty, ◌==◌, ℤ, pos, negsuc, succ, lt_ℤ, eq_ℤ,
}
use zed_api_server_rs.Text.{Str, str, str_eq, bytes}
use mathlib.Core.Option

-- The columns of `audit_log::Model`.
pub record AuditRow : Type 0 where
  pub id : ℕ
  pub org_id : ℕ
  pub at : ℕ
  pub action : Str
  pub subject : Str
  pub actor_token_id : Option ℕ
  pub actor_token_name : Str
  pub actor_role : Str
  pub detail : Option Str
  pub seq : ℤ
  pub entry_hash : Str
  pub prev_hash : Option Str

-- The columns of `token::Model`.
pub record Token : Type 0 where
  pub id : ℕ
  pub name : Str
  pub token_hash : Str
  pub org_id : Option ℕ
  pub role : Str
  pub created_at : ℕ
  pub expires_at : Option ℕ
  pub revoked_at : Option ℕ

-- The input of the digest, as zed-interfaces declares it.
pub record AuditChainInput : Type 0 where
  pub org_id : Str
  pub seq : ℕ
  pub at : Str
  pub action : Str
  pub subject : Str
  pub actor_token_id : Option Str
  pub actor_token_name : Str
  pub actor_role : Str
  pub detail : Option Str
  pub prev_hash : Str

-- What the log calls of other crates: printing of uuids and times, the canonical preimage, and
-- SHA-256 in lowercase hexadecimal.
pub record ChainLibrary : Type 0 where
  pub uuid_text : ℕ → Str
  pub to_rfc3339 : ℕ → Str
  pub audit_chain_preimage : AuditChainInput → Str
  pub sha256_hex : List ℕ → Str

unfoldable pub actor_role : Token → Str
unfolding str
actor_role token = elim token.org_id [ none ↦ str "admin" | some org ↦ token.role ]

-- `seq as u64`
abbrev pub as_u64 : ℤ → ℕ
as_u64 (pos n) = n
as_u64 (negsuc n) = 2 ^ 64 - 1 - n

abbrev pub or_empty : Option Str → Str
or_empty none = []
or_empty (some s) = s

-- A text that is kept only if it is not empty.
abbrev pub non_empty : Str → Option Str
non_empty s = if is_empty s then none else some s

pub data ChainProblem : Type 0 where
  hash_mismatch broken_link sequence_gap : ChainProblem

pub record ChainReport : Type 0 where
  pub intact : Bool
  pub entries_checked : ℕ
  pub first_bad_seq : Option ℤ
  pub problem : Option ChainProblem
  pub head_hash : Option Str

-- The rows that the verifier walks: chained ones.
abbrev pub is_chained : AuditRow → Bool
is_chained row = lt_ℤ (pos 0) row.seq && not (is_empty row.entry_hash)

abbrev pub chained : List AuditRow → List AuditRow
chained [] = []
chained (row ∷ rows) = if is_chained row then row ∷ chained rows else chained rows

-- `.filter(OrgId.eq(org_id))`, in the order of insertion.
abbrev pub of_org : ℕ → List AuditRow → List AuditRow
of_org org [] = []
of_org org (row ∷ rows) = if row.org_id == org then row ∷ of_org org rows else of_org org rows

-- `.order_by_desc(Seq).one()`: the row with the largest position; among equals the latest.
abbrev pub tip_from : Option AuditRow → List AuditRow → Option AuditRow
tip_from best [] = best
tip_from none (row ∷ rows) = tip_from (some row) rows
tip_from (some best) (row ∷ rows) =
    tip_from (some (if lt_ℤ row.seq best.seq then best else row)) rows

unfoldable pub tip : ℕ → List AuditRow → Option AuditRow
tip org table = tip_from none (of_org org table)

-- The unique index on (org_id, seq).
unfoldable pub position_taken : AuditRow → List AuditRow → Bool
position_taken row table = any (λ r. r.org_id == row.org_id && eq_ℤ r.seq row.seq) table

abbrev pub seq_of : Option AuditRow → ℤ
seq_of none = pos 0
seq_of (some row) = row.seq

abbrev pub hash_of : Option AuditRow → Str
hash_of none = []
hash_of (some row) = row.entry_hash

-- One call of `record`: what it appends, with the fresh id and the time that it samples.
pub record Entry : Type 0 where
  pub org_id : ℕ
  pub token : Token
  pub action : Str
  pub subject : Str
  pub detail : Option Str
  pub id : ℕ
  pub now : ℕ

-- `chain_timestamp`: the time cut to whole microseconds.
unfoldable pub chain_timestamp : ℕ → ℕ
chain_timestamp now = now / 1000 * 1000

-- The position differs from the one that the predecessor leads to.
abbrev pub is_gap : Option ℤ → ℤ → Bool
is_gap none seq = false
is_gap (some want) seq = not (eq_ℤ seq want)

-- A report of a chain that is not intact.
abbrev pub broken : ℕ → Option ℤ → ChainProblem → Option Str → ChainReport
broken checked bad problem head = record {
  intact = false;
  entries_checked = checked;
  first_bad_seq = bad;
  problem = some problem;
  head_hash = head;
}

-- What befalls one attempt of `record`: the rows that other writers commit between the read of the
-- tip and the insert, a database error other than the unique violation, and the samples of the
-- attempt.
pub record Attempt : Type 0 where
  pub others : List AuditRow
  pub fails : Bool
  pub id : ℕ
  pub now : ℕ

abbrev pub append_attempts : ℕ
append_attempts = 4

module _ (lib : ChainLibrary) where
  unfoldable pub entry_digest : AuditChainInput → Str
  entry_digest input = lib.sha256_hex (bytes (lib.audit_chain_preimage input))

  -- The digest input of a stored row behind its predecessor's hash.
  abbrev pub chain_input : AuditRow → Str → AuditChainInput
  chain_input row prev_hash = record {
    org_id = lib.uuid_text row.org_id;
    seq = as_u64 row.seq;
    at = lib.to_rfc3339 row.at;
    action = row.action;
    subject = row.subject;
    actor_token_id = Option.map lib.uuid_text row.actor_token_id;
    actor_token_name = row.actor_token_name;
    actor_role = row.actor_role;
    detail = row.detail;
    prev_hash = prev_hash;
  }

  unfoldable pub expected_hash : AuditRow → Str → Str
  expected_hash row prev_hash = entry_digest (chain_input row prev_hash)

  -- The row that `append_chained` inserts behind the tip that it read.
  unfoldable pub next_row : Option AuditRow → Entry → AuditRow
  unfolding chain_timestamp actor_role entry_digest
  next_row last entry =
      let seq = succ (seq_of last) in
      let prev_hash = non_empty (hash_of last) in
      let at = chain_timestamp entry.now in
      record {
        id = entry.id;
        org_id = entry.org_id;
        at = at;
        action = entry.action;
        subject = entry.subject;
        actor_token_id = some entry.token.id;
        actor_token_name = entry.token.name;
        actor_role = actor_role entry.token;
        detail = entry.detail;
        seq = seq;
        entry_hash = entry_digest (record {
          org_id = lib.uuid_text entry.org_id;
          seq = as_u64 seq;
          at = lib.to_rfc3339 at;
          action = entry.action;
          subject = entry.subject;
          actor_token_id = some (lib.uuid_text entry.token.id);
          actor_token_name = entry.token.name;
          actor_role = actor_role entry.token;
          detail = entry.detail;
          prev_hash = or_empty prev_hash;
        });
        prev_hash = prev_hash;
      }

  -- `append_chained`: one transaction. `none` is the unique violation.
  unfoldable pub append_chained : List AuditRow → Entry → Option (List AuditRow)
  unfolding tip next_row position_taken
  append_chained table entry =
      let row = next_row (tip entry.org_id table) entry in
      if position_taken row table then none else some (table ++ row ∷ [])

  -- The loop of `record`: the table that it leaves, and whether the entry was appended.
  unfoldable pub record_loop : List Attempt → List AuditRow → Entry → List AuditRow × Bool
  unfolding tip next_row position_taken
  record_loop [] table entry = (table, false)
  record_loop (a ∷ as') table entry =
      let row = next_row (tip entry.org_id table) (record entry { id = a.id; now = a.now }) in
      let table' = table ++ a.others in
      let retry = record_loop as' table' entry in
      if a.fails
      then (table', false)
      else if position_taken row table'
      then retry
      else (table' ++ row ∷ [], true)

  unfoldable pub record_entry : List Attempt → List AuditRow → Entry → List AuditRow × Bool
  unfolding record_loop
  record_entry attempts table entry = record_loop (take append_attempts attempts) table entry

  -- The walk of `verify_chain` over the chained rows.
  unfoldable pub walk : Str → Option ℤ → ℕ → Option Str → List AuditRow → ChainReport
  walk prev_hash expected_seq checked head [] = record {
    intact = true;
    entries_checked = checked;
    first_bad_seq = none;
    problem = none;
    head_hash = head;
  }
  walk prev_hash expected_seq checked head (row ∷ rows) =
      let rest =
        walk row.entry_hash (some (succ row.seq)) (checked + 1) (some row.entry_hash) rows in
      if is_gap expected_seq row.seq
      then broken checked expected_seq sequence_gap head
      else if not (str_eq (expected_hash row prev_hash) row.entry_hash)
      then broken checked (some row.seq)
          (if str_eq (expected_hash row (or_empty row.prev_hash)) row.entry_hash
            then broken_link
            else hash_mismatch)
          head
      else rest

  unfoldable pub verify_chain : List AuditRow → ChainReport
  unfolding walk expected_hash entry_digest str_eq bytes
  verify_chain rows = walk [] none 0 none (chained rows)
