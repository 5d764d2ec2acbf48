-- ===== src/Report/Snapshot.antt =====
-- server/services/periodCloseService.ts, `createReportSnapshot`: a report as a row that no one changes.
use finance.Prelude.{
  ℕ, suc, ◌==◌, Bool, true, false, not, ◌&&◌, Option, none, some, List, [], ◌∷◌, map, String,
  str_eq, or_else, is_nil, is_present, Result, ok, ◌>>=◌, ◌>>◌, require, map_err,
}
use finance.Prelude.Int.{ℤ, pos, ltb_ℤ}
use finance.Statement.{
  Direction, credit, debit, StatementTotalsInput, StatementTotals, assert_statement_totals,
}
use finance.Evidence.{Json, Elements, object_of}
use finance.Close.{
  PeriodCloseError, statement, no_period_closes, report_count_invalid, report_order_invalid,
  project_missing, type_missing, category_missing, class_missing, snapshot_refused, link_refused,
}
use finance.Close.Tables.{
  ReportKind, ReportLineKind, ReportLine, ReportSnapshot, ReportSnapshotLink, Tables,
}
use finance.Close.Create.{Env, hash_evidence}
use finance.Close.Strict.{find_or}

pub record CreateReportSnapshotInput : Type 0 where
  pub totals : StatementTotalsInput
  pub workspace_id : String
  pub kind : ReportKind
  pub year : ℕ
  pub month : Option ℕ
  pub version : Option ℕ
  pub transaction_count : ℤ
  pub generated_by : String
  pub period_close_ids : List String
  pub lines : List ReportLine

-- What a line of each kind has to name.
abbrev pub require_dimension : ReportLineKind → ReportLine → Result PeriodCloseError (Unit {0})
require_dimension ReportLineKind.project line = require (is_present line.project_id) project_missing
require_dimension ReportLineKind.transaction_type line =
    require (is_present line.transaction_type_id) type_missing
require_dimension ReportLineKind.category line =
    require (is_present line.category_id) category_missing
require_dimension ReportLineKind.reporting_class line =
    require (is_present line.reporting_class) class_missing
require_dimension ReportLineKind.totals line = ok tt

-- The counts are integers by their type; the code also refuses fractions.
abbrev pub assert_report_line : ReportLine → Result PeriodCloseError (Unit {0})
assert_report_line line = do
  require (not (ltb_ℤ line.transaction_count (pos 0))) report_count_invalid
  require (not (ltb_ℤ line.sort_order (pos 0))) report_order_invalid
  require_dimension line.line_kind line

unfoldable pub assert_report_lines : List ReportLine → Result PeriodCloseError (Unit {0})
assert_report_lines [] = ok tt
assert_report_lines (line ∷ lines) = assert_report_line line >> assert_report_lines lines

abbrev kind_text : ReportKind → String
kind_text ReportKind.monthly = "MONTHLY"
kind_text ReportKind.yearly = "YEARLY"

abbrev line_kind_text : ReportLineKind → String
line_kind_text ReportLineKind.project = "PROJECT"
line_kind_text ReportLineKind.transaction_type = "TRANSACTION_TYPE"
line_kind_text ReportLineKind.category = "CATEGORY"
line_kind_text ReportLineKind.reporting_class = "REPORTING_CLASS"
line_kind_text ReportLineKind.totals = "TOTAL"

abbrev pub elements : List Json → Elements
elements [] = Elements.end
elements (j ∷ js) = Elements.item j (elements js)

abbrev text_or_null : Option String → Json
text_or_null none = Json.null
text_or_null (some s) = Json.text s

abbrev number_or_null : Option ℕ → Json
number_or_null none = Json.null
number_or_null (some n) = Json.number (pos n)

abbrev direction_or_null : Option Direction → Json
direction_or_null none = Json.null
direction_or_null (some credit) = Json.text "credit"
direction_or_null (some debit) = Json.text "debit"

unfoldable pub line_evidence : ReportLine → Json
line_evidence line = object_of (
    ("lineKind", Json.text (line_kind_text line.line_kind))
    ∷ ("projectId", text_or_null line.project_id)
    ∷ ("transactionTypeId", text_or_null line.transaction_type_id)
    ∷ ("categoryId", text_or_null line.category_id)
    ∷ ("literalProjectLabel", text_or_null line.literal_project_label)
    ∷ ("literalTypeLabel", text_or_null line.literal_type_label)
    ∷ ("literalCategoryLabel", text_or_null line.literal_category_label)
    ∷ ("direction", direction_or_null line.direction)
    ∷ ("reportingClass", text_or_null line.reporting_class)
    ∷ ("amountMinor", Json.bigint line.amount_minor)
    ∷ ("transactionCount", Json.number line.transaction_count)
    ∷ ("sortOrder", Json.number line.sort_order)
    ∷ [])

unfoldable pub totals_evidence : StatementTotals → Json
totals_evidence t = object_of (
    ("openingBalanceMinor", Json.bigint t.opening_balance_minor)
    ∷ ("incomeMinor", Json.bigint t.income_minor)
    ∷ ("expenseMinor", Json.bigint t.expense_minor)
    ∷ ("netMinor", Json.bigint t.net_minor)
    ∷ ("closingBalanceMinor", Json.bigint t.closing_balance_minor)
    ∷ [])

unfoldable pub snapshot_evidence : CreateReportSnapshotInput → StatementTotals → ℕ → Json
snapshot_evidence input t version = object_of (
    ("kind", Json.text (kind_text input.kind))
    ∷ ("year", Json.number (pos input.year))
    ∷ ("month", number_or_null input.month)
    ∷ ("version", Json.number (pos version))
    ∷ ("periodCloseIds", Json.array (elements (map Json.text input.period_close_ids)))
    ∷ ("totals", totals_evidence t)
    ∷ ("transactionCount", Json.number input.transaction_count)
    ∷ ("lines", Json.array (elements (map line_evidence input.lines)))
    ∷ [])

unfoldable pub snapshot_row : Env → CreateReportSnapshotInput → StatementTotals → ReportSnapshot
snapshot_row env input t = record {
  id = env.new_id;
  workspace_id = input.workspace_id;
  kind = input.kind;
  year = input.year;
  month = input.month;
  version = or_else input.version 1;
  opening_balance_minor = t.opening_balance_minor;
  income_minor = t.income_minor;
  expense_minor = t.expense_minor;
  net_minor = t.net_minor;
  closing_balance_minor = t.closing_balance_minor;
  transaction_count = input.transaction_count;
  snapshot_hash = hash_evidence env (snapshot_evidence input t (or_else input.version 1));
  generated_by = input.generated_by;
  generated_at = env.now;
  lines = input.lines;
}

abbrev same_kind : ReportKind → ReportKind → Bool
same_kind ReportKind.monthly ReportKind.monthly = true
same_kind ReportKind.yearly ReportKind.yearly = true
same_kind _ _ = false

-- Two months that are null are not the same in the database.
abbrev same_month : Option ℕ → Option ℕ → Bool
same_month (some m) (some n) = m == n
same_month _ _ = false

-- `@@unique([workspaceId, kind, year, month, version])`
abbrev pub same_report : ReportSnapshot → ReportSnapshot → Bool
same_report r s =
    str_eq s.workspace_id r.workspace_id
    && (same_kind s.kind r.kind
        && (s.year == r.year && (same_month s.month r.month && s.version == r.version)))

abbrev pub same_link : ReportSnapshotLink → ReportSnapshotLink → Bool
same_link l k =
    str_eq k.report_snapshot_id l.report_snapshot_id && str_eq k.period_close_id l.period_close_id

abbrev pub link_to : String → ℕ → String → ReportSnapshotLink
link_to snapshot_id place close_id = record {
  report_snapshot_id = snapshot_id;
  period_close_id = close_id;
  sort_order = place;
}

-- The links that are created with a snapshot, each to a close that there is.
unfoldable pub link_closes :
    Env
    → Tables
    → String
    → ℕ
    → List String
    → List ReportSnapshotLink
    → Result PeriodCloseError (List ReportSnapshotLink)
link_closes env db snapshot_id place [] links = ok links
link_closes env db snapshot_id place (c ∷ cs) links = do
  close ← find_or (env.client.find_first (λ x. str_eq x.id c) db.period_closes) link_refused
  let link = link_to snapshot_id place c
  links' ← find_or (env.client.create (same_link link) link links) link_refused
  link_closes env db snapshot_id (suc place) cs links'

unfoldable pub create_report_snapshot :
    Env → Tables → CreateReportSnapshotInput → Result PeriodCloseError (ReportSnapshot × Tables)
create_report_snapshot env db input = do
  require (not (is_nil input.period_close_ids)) no_period_closes
  assert_report_lines input.lines
  t ← map_err statement (assert_statement_totals input.totals)
  let row = snapshot_row env input t
  rows ← find_or (env.client.create (same_report row) row db.report_snapshots) snapshot_refused
  links ← link_closes env db row.id 1 input.period_close_ids db.report_snapshot_links
  ok (row, record db { report_snapshots = rows; report_snapshot_links = links })
