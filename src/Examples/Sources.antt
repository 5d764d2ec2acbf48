-- ===== src/Examples/Sources.antt =====
-- Source files and statements at concrete input.
use finance.Prelude.{
  ℕ, suc, ◌≤◌, ◌≡◌, ◌↔◌, refl, arith, Bool, false, true, none, some, List, [], ◌∷◌, String, str_eq,
  if◌then◌else◌, ok, err,
}
use finance.Prelude.Int.{pos, ◌+ℤ◌, ◌-ℤ◌}
use finance.Prelude.Sums.{count}
use finance.Statement.{
  StatementTotalsInput, complete, assert_statement_totals, assert_positive_row_count,
  already_accepted, source_file_not_found,
}
use finance.Statement.Sources.{
  SourceEnv, bytes, text, StoreSourceFileInput, SourceFile, store_source_file,
  read_source_file_bytes,
}
use finance.Statement.Kept.{bytes_eq, IsStored}
use finance.Statement.Stored.{read_source_file_bytes-store_source_file}
use finance.Statement.Accept.{
  StatementPeriodInput, AcceptBankStatementInput, BankStatement, accept_bank_statement,
  normalize_periods, normalize_period_create,
}
use finance.Statement.Accepted.{MayAccept, accept_iff}
use finance.Statement.Balanced.{IsBalanced, accept_bank_statement-IsBalanced}
use finance.Examples.ListClient.{list_client, list_client-IsClient}

abbrev digest_of : List ℕ → String
digest_of bs = if bytes_eq bs (1 ∷ 2 ∷ []) then "first" else "other"

abbrev source_env : SourceEnv
source_env = record {
  client = list_client;
  new_id = "f2";
  now = 1706500000000;
  digest = digest_of;
  encode = λ s. 65 ∷ [];
}

abbrev first_file : SourceFile
first_file = record {
  id = "f1";
  workspace_id = "w";
  filename = "january.csv";
  media_type = "text/csv";
  size_bytes = 2;
  sha256 = "first";
  content = 1 ∷ 2 ∷ [];
  uploaded_by = none;
  created_at = 1706400000000;
}

abbrev upload : StoreSourceFileInput
upload = record {
  workspace_id = "w";
  filename = "february.csv";
  media_type = "text/csv";
  content = text "A";
  uploaded_by = some "u";
}

at_most_one : (b : Bool) → (if b then suc 0 else 0) ≤ 1
at_most_one true = omega arith
at_most_one false = omega arith

first_file-IsStored : IsStored source_env (first_file ∷ [])
first_file-IsStored = record { one_id = λ id. at_most_one (str_eq "f1" id); all_hashed = refl }

read_source_file_bytes-store_source_file_example :
    IsStored source_env (store_source_file source_env (first_file ∷ []) upload).1
    × (read_source_file_bytes source_env
          (store_source_file source_env (first_file ∷ []) upload).1
          "w"
          (store_source_file source_env (first_file ∷ []) upload).0.id
        ≡ ok (65 ∷ []))
read_source_file_bytes-store_source_file_example =
    read_source_file_bytes-store_source_file source_env list_client-IsClient (first_file ∷ [])
      upload first_file-IsStored refl refl

abbrev upload_again : StoreSourceFileInput
upload_again = record upload { content = bytes (1 ∷ 2 ∷ []) }

-- The same bytes are not stored again, and another workspace does not see them.
stored_again :
    store_source_file source_env (first_file ∷ []) upload_again ≡ (first_file, first_file ∷ [])
unfolding store_source_file
stored_again = refl

read_elsewhere :
    read_source_file_bytes source_env (first_file ∷ []) "v" "f1" ≡ err source_file_not_found
unfolding read_source_file_bytes
read_elsewhere = refl

abbrev january_totals : StatementTotalsInput
january_totals = record {
  opening_balance_minor = pos 100;
  income_minor = pos 50;
  expense_minor = pos 20;
  closing_balance_minor = pos 130;
}

abbrev january_period : StatementPeriodInput
january_period = record {
  totals = january_totals;
  account_id = "a";
  period_start = 1704067200000;
  period_end = 1706659200000;
  coverage_status = complete;
  transaction_count = pos 2;
}

abbrev statement_input : AcceptBankStatementInput
statement_input = record {
  totals = january_totals;
  workspace_id = "w";
  account_id = "a";
  source_file_id = "f1";
  supporting_pdf_file_id = none;
  import_batch_id = none;
  period_start = 1704067200000;
  period_end = 1706659200000;
  coverage_status = complete;
  currency = none;
  transaction_count = pos 2;
  bank_account_identifier = "MT01";
  accepted_by = some "u";
  accepted_at = none;
  periods = january_period ∷ [];
}

accepted :
    (out : BankStatement × List BankStatement) × (accept_bank_statement source_env []
        statement_input
      ≡ ok out)
unfolding accept_bank_statement assert_positive_row_count assert_statement_totals ◌+ℤ◌ ◌-ℤ◌
    normalize_periods normalize_period_create
accepted = (_, refl)

accept_iff_example :
    ((out : BankStatement × List BankStatement) × (accept_bank_statement source_env []
          statement_input
        ≡ ok out))
    ↔ MayAccept source_env [] statement_input
accept_iff_example = accept_iff source_env list_client-IsClient [] statement_input

none-IsBalanced : IsBalanced []
none-IsBalanced = record { one_source = λ id. omega arith; balanced = refl }

accept_bank_statement-IsBalanced_example :
    IsBalanced accepted.0.1
    × ((q : BankStatement → Bool)
        → count q accepted.0.1 ≡ (if q accepted.0.0 then suc (count q []) else count q []))
accept_bank_statement-IsBalanced_example =
    accept_bank_statement-IsBalanced source_env list_client-IsClient [] statement_input accepted.0
      none-IsBalanced accepted.1

-- A second statement of the source file is refused.
accepted_again :
    accept_bank_statement source_env accepted.0.1 statement_input ≡ err already_accepted
unfolding accepted accept_bank_statement assert_positive_row_count assert_statement_totals ◌+ℤ◌ ◌-ℤ◌
    normalize_periods normalize_period_create
accepted_again = refl
