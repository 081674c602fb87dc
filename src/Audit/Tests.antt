-- ===== src/Audit/Tests.antt =====
-- The audit chain on concrete rows, with a digest that keeps the position and the predecessor.
use zed_api_server_rs.Prelude.{
  ℕ, ◌+◌, ◌≡◌, refl, true, false, none, some, List, [], ◌∷◌, ◌++◌, pos, length, arith, ◌↔◌,
}
use zed_api_server_rs.Text.{Str, str}
use zed_api_server_rs.Audit.{
  AuditRow, Token, ChainLibrary, Entry, Attempt, next_row, record_entry, verify_chain, chained,
  of_org, broken, sequence_gap, hash_mismatch,
}
use zed_api_server_rs.Audit.Links.{Linked, verify_chain-intact_iff, intact_report}
use zed_api_server_rs.Audit.Append.{
  NeverEmpty, IsLog, append_chained-IsLog, append_all, append_all-verify_chain, count_of,
}
use zed_api_server_rs.Audit.Race.{record_entry-IsLog, record_entry-appends}
use zed_api_server_rs.Audit.Tamper.{
  verify_chain-history, verify_chain-truncated, verify_chain-deleted, inputs_from,
}

abbrev test_lib : ChainLibrary
test_lib = record {
  uuid_text = λ id. id ∷ [];
  to_rfc3339 = λ at. at ∷ [];
  audit_chain_preimage = λ input. input.seq ∷ input.action ++ input.prev_hash;
  sha256_hex = λ b. 120 ∷ b;
}

abbrev alice : Token
alice = record {
  id = 7;
  name = str "alice";
  token_hash = str "hash";
  org_id = some 1;
  role = str "owner";
  created_at = 0;
  expires_at = none;
  revoked_at = none;
}

abbrev entry : ℕ → ℕ → ℕ → Str → Entry
entry org id now action = record {
  org_id = org;
  token = alice;
  action = action;
  subject = str "acme/http-kit@1.0.0";
  detail = none;
  id = id;
  now = now;
}

abbrev first : AuditRow
first = next_row test_lib none (entry 1 10 5000123 (str "publish"))

abbrev second : AuditRow
second = next_row test_lib (some first) (entry 1 11 6000456 (str "yank"))

abbrev third : AuditRow
third = next_row test_lib (some second) (entry 1 12 7000789 (str "unyank"))

abbrev log : List AuditRow
log = first ∷ second ∷ third ∷ []

-- The same history under other row ids.
abbrev copy : List AuditRow
copy = record first { id = 20 } ∷ record second { id = 21 } ∷ record third { id = 22 } ∷ []

test-verify_chain : verify_chain test_lib log ≡ intact_report test_lib log
unfolding verify_chain next_row
test-verify_chain = refl

test-edited :
    (verify_chain test_lib (first ∷ record second { action = str "publish" } ∷ third ∷ [])).problem
    ≡ some hash_mismatch
unfolding verify_chain next_row
test-edited = refl

test-relinked :
    (verify_chain test_lib (
      first
      ∷ record second { seq = pos 2; entry_hash = third.entry_hash; prev_hash = none }
      ∷ [])).intact
    ≡ false
unfolding verify_chain next_row
test-relinked = refl

test-record_entry :
    (record_entry test_lib
      (record { others = []; fails = false; id = 30; now = 8000000 } ∷ [])
      log
      (entry 1 0 0 (str "yank"))).1
    ≡ true
unfolding record_entry next_row
test-record_entry = refl

never_empty : NeverEmpty test_lib
never_empty b e = cc

empty-IsLog : IsLog test_lib []
empty-IsLog org = tt

log_intact : (verify_chain test_lib log).intact ≡ true
unfolding verify_chain next_row
log_intact = refl

one_row : IsLog test_lib (first ∷ [])
unfolding next_row
one_row =
    (append_chained-IsLog test_lib never_empty [] (entry 1 10 5000123 (str "publish"))
      empty-IsLog).1

-- Another writer appends the first row before ours gets in.
abbrev overtaken : Attempt
overtaken = record { others = first ∷ []; fails = false; id = 30; now = 7000000 }

abbrev quiet : Attempt
quiet = record { others = []; fails = false; id = 31; now = 8000000 }

verify_chain-intact_iff_example :
    ((verify_chain test_lib log).intact ≡ true) ↔ Linked test_lib [] none (chained log)
verify_chain-intact_iff_example = verify_chain-intact_iff test_lib log

append_all-verify_chain_example :
    (more : List AuditRow) × (append_all test_lib
        (entry 1 10 5000123 (str "publish") ∷ entry 2 11 6000456 (str "yank") ∷ [])
        []
      ≡ some ([] ++ more))
    × IsLog test_lib ([] ++ more)
    × ((org : ℕ)
        → (verify_chain test_lib (of_org org ([] ++ more))
            ≡ intact_report test_lib (chained (of_org org ([] ++ more))))
          × (length (chained (of_org org ([] ++ more)))
              ≡ length (chained (of_org org []))
                + count_of test_lib org
                    (entry 1 10 5000123 (str "publish") ∷ entry 2 11 6000456 (str "yank") ∷ [])))
append_all-verify_chain_example =
    append_all-verify_chain test_lib never_empty
      (entry 1 10 5000123 (str "publish") ∷ entry 2 11 6000456 (str "yank") ∷ []) [] empty-IsLog

record_entry-IsLog_example :
    IsLog test_lib (record_entry test_lib (overtaken ∷ quiet ∷ []) [] (entry 1 0 0 (str "yank"))).0
record_entry-IsLog_example =
    record_entry-IsLog test_lib never_empty (overtaken ∷ quiet ∷ []) [] (entry 1 0 0 (str "yank"))
      empty-IsLog (one_row, (one_row, tt))

record_entry-appends_example :
    record_entry test_lib (overtaken ∷ quiet ∷ []) [] (entry 1 0 0 (str "yank"))
    ≡ (first ∷ next_row test_lib (some first) (entry 1 31 8000000 (str "yank")) ∷ [], true)
unfolding next_row
record_entry-appends_example =
    record_entry-appends test_lib (overtaken ∷ []) quiet [] [] (entry 1 0 0 (str "yank"))
      empty-IsLog (one_row, tt) ((refl, λ e. cc), tt) (omega arith) refl refl

verify_chain-history_example :
    inputs_from test_lib [] (chained log) ≡ inputs_from test_lib [] (chained copy)
unfolding verify_chain next_row
verify_chain-history_example =
    verify_chain-history test_lib log copy ((λ e. refl), ((λ e. refl), ((λ e. refl), tt)))
      log_intact refl

verify_chain-truncated_example :
    verify_chain test_lib (first ∷ second ∷ [])
    ≡ intact_report test_lib (chained (first ∷ second ∷ []))
verify_chain-truncated_example =
    verify_chain-truncated test_lib (first ∷ second ∷ []) (third ∷ []) log_intact

verify_chain-deleted_example :
    verify_chain test_lib (first ∷ third ∷ [])
    ≡ broken 1 (some (pos 2)) sequence_gap (some first.entry_hash)
unfolding verify_chain next_row
verify_chain-deleted_example =
    verify_chain-deleted test_lib (first ∷ []) [] second third refl refl (λ e. cc) log_intact
