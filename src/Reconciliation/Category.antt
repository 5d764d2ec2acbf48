-- ===== src/Reconciliation/Category.antt =====
-- server/services/categoryControlTotalsService.ts, `buildCategoryControlTotals`: the booked
-- transactions of a period by project, type, category and direction. Labels are compared by the
-- runtime's `localeCompare`, which is a parameter.
pub mod Lines
pub mod Laws
use finance.Prelude.{
  ℕ, suc, ◌≡◌, Bool, true, false, not, ◌&&◌, ◌||◌, Option, none, some, List, [], ◌∷◌, ◌++◌, String,
  ltb, if◌then◌else◌, or_else, is_present, is_nil, when, str_eq, sort_by,
}
use finance.Prelude.Int.{ℤ, pos, ◌+ℤ◌, ◌-ℤ◌, abs, eqb_ℤ, ltb_ℤ, negsuc}
use finance.Calendar.{Date, to_utc_date}
use finance.Statement.{Direction, credit, debit, is_credit}
use finance.Reconciliation.{
  ReconciliationStatus, balanced, unbalanced, unfinished, CloseReason, missing_bookings,
  unresolved_transactions, missing_projects, missing_types, missing_categories,
  category_income_differs, category_expense_differs, booked_count_differs,
}
use finance.Reconciliation.Preview.{is_zero}

pub record CategoryControlTransactionInput : Type 0 where
  pub transaction_id : String
  pub amount_minor : ℤ
  pub direction : Direction
  pub has_complete_booking : Bool
  pub is_unresolved : Bool
  pub project_id : Option String
  pub transaction_type_id : Option String
  pub category_id : Option String
  pub literal_project_label : Option String
  pub literal_type_label : Option String
  pub literal_category_label : Option String

pub record CategoryControlTotalsInput : Type 0 where
  pub account_id : String
  pub account_identifier : Option String
  pub period_start : Date
  pub period_end : Date
  pub statement_income_minor : ℤ
  pub statement_expense_minor : ℤ
  pub statement_transaction_count : ℤ
  pub transactions : List CategoryControlTransactionInput

-- `LineAccumulator`, and `CategoryControlLine`, whose amounts are printed.
pub record CategoryControlLine : Type 0 where
  pub project_id : Option String
  pub literal_project_label : Option String
  pub transaction_type_id : Option String
  pub literal_type_label : Option String
  pub category_id : Option String
  pub literal_category_label : Option String
  pub direction : Direction
  pub income_minor : ℤ
  pub expense_minor : ℤ
  pub transaction_count : ℕ

pub record CategoryControlDifferences : Type 0 where
  pub category_income_difference_minor : ℤ
  pub category_expense_difference_minor : ℤ
  pub transaction_count_difference : ℤ

pub record CategoryControlMissingDimensions : Type 0 where
  pub missing_project_count : ℕ
  pub missing_transaction_type_count : ℕ
  pub missing_category_count : ℕ
  pub missing_booking_count : ℕ
  pub unresolved_transaction_count : ℕ

pub record CategoryControlTotalsResult : Type 0 where
  pub period_start : Date
  pub period_end : Date
  pub account_id : String
  pub account_identifier : Option String
  pub source_income_minor : ℤ
  pub source_expense_minor : ℤ
  pub source_transaction_count : ℤ
  pub category_income_minor : ℤ
  pub category_expense_minor : ℤ
  pub category_transaction_count : ℕ
  pub differences : CategoryControlDifferences
  pub lines : List CategoryControlLine
  pub missing_dimensions : CategoryControlMissingDimensions
  pub status : ReconciliationStatus
  pub category_controls_eligible : Bool
  pub reasons : List CloseReason
  pub validator_version : String

abbrev pub validator_version : String
validator_version = "close-002-v1"

-- The parts that `makeLineKey` joins by a NUL character, which no identifier holds.
pub record LineKey : Type 0 where
  pub project : String
  pub transaction_type : String
  pub category : String
  pub direction : Direction

unfoldable pub make_line_key : CategoryControlTransactionInput → LineKey
make_line_key tx = record {
  project = or_else tx.project_id "";
  transaction_type = or_else tx.transaction_type_id "";
  category = or_else tx.category_id "";
  direction = tx.direction;
}

abbrev pub same_direction : Direction → Direction → Bool
same_direction credit d = is_credit d
same_direction debit d = not (is_credit d)

unfoldable pub key_eq : LineKey → LineKey → Bool
key_eq a b =
    str_eq a.project b.project
    && (str_eq a.transaction_type b.transaction_type
        && (str_eq a.category b.category && same_direction a.direction b.direction))

-- The key under which a line stands in the map: that of the transaction which it was made of.
unfoldable pub line_key : CategoryControlLine → LineKey
line_key l = record {
  project = or_else l.project_id "";
  transaction_type = or_else l.transaction_type_id "";
  category = or_else l.category_id "";
  direction = l.direction;
}

unfoldable pub new_line : CategoryControlTransactionInput → ℤ → CategoryControlLine
new_line tx amount = record {
  project_id = tx.project_id;
  literal_project_label = tx.literal_project_label;
  transaction_type_id = tx.transaction_type_id;
  literal_type_label = tx.literal_type_label;
  category_id = tx.category_id;
  literal_category_label = tx.literal_category_label;
  direction = tx.direction;
  income_minor = if is_credit tx.direction then amount else pos 0;
  expense_minor = if is_credit tx.direction then pos 0 else amount;
  transaction_count = 1;
}

unfoldable pub bump_line :
    CategoryControlTransactionInput → ℤ → CategoryControlLine → CategoryControlLine
bump_line tx amount l = record l {
  income_minor = if is_credit tx.direction then l.income_minor +ℤ amount else l.income_minor;
  expense_minor = if is_credit tx.direction then l.expense_minor else l.expense_minor +ℤ amount;
  transaction_count = suc l.transaction_count;
}

-- The update of `lineMap`, which lists its values in the order of insertion.
unfoldable pub upsert_line :
    CategoryControlTransactionInput → ℤ → List CategoryControlLine → List CategoryControlLine
upsert_line tx amount [] = new_line tx amount ∷ []
upsert_line tx amount (l ∷ ls) =
    if key_eq (line_key l) (make_line_key tx)
    then bump_line tx amount l ∷ ls
    else l ∷ upsert_line tx amount ls

-- The variables of the loop.
pub record CategoryTally : Type 0 where
  pub income : ℤ
  pub expense : ℤ
  pub booked : ℕ
  pub unresolved : ℕ
  pub missing_project : ℕ
  pub missing_transaction_type : ℕ
  pub missing_category : ℕ
  pub missing_booking : ℕ
  pub line_map : List CategoryControlLine

unfoldable pub category_step : CategoryControlTransactionInput → CategoryTally → CategoryTally
category_step tx t =
    let amount = abs tx.amount_minor in
    let unresolved = if tx.is_unresolved then suc t.unresolved else t.unresolved in
    if tx.has_complete_booking
    then record t {
      income = if is_credit tx.direction then t.income +ℤ amount else t.income;
      expense = if is_credit tx.direction then t.expense else t.expense +ℤ amount;
      booked = suc t.booked;
      unresolved = unresolved;
      line_map = upsert_line tx amount t.line_map;
    }
    else record t {
      unresolved = unresolved;
      missing_project =
          if is_present tx.project_id then t.missing_project else suc t.missing_project;
      missing_transaction_type =
          if is_present tx.transaction_type_id
          then t.missing_transaction_type
          else suc t.missing_transaction_type;
      missing_category =
          if is_present tx.category_id then t.missing_category else suc t.missing_category;
      missing_booking = suc t.missing_booking;
    }

unfoldable pub category_loop : List CategoryControlTransactionInput → CategoryTally → CategoryTally
category_loop [] t = t
category_loop (tx ∷ txs) t = category_loop txs (category_step tx t)

abbrev pub empty_tally : CategoryTally
empty_tally = record {
  income = pos 0;
  expense = pos 0;
  booked = 0;
  unresolved = 0;
  missing_project = 0;
  missing_transaction_type = 0;
  missing_category = 0;
  missing_booking = 0;
  line_map = [];
}

-- `closeReasons`, in the order of the pushes.
unfoldable pub category_reasons : CategoryTally → CategoryControlDifferences → List CloseReason
category_reasons t d =
    when (ltb 0 t.unresolved) (unresolved_transactions t.unresolved)
    ++ (when (ltb 0 t.missing_booking) missing_bookings
        ++ (when (ltb 0 t.missing_project) (missing_projects t.missing_project)
            ++ (when (ltb 0 t.missing_transaction_type) (missing_types t.missing_transaction_type)
                ++ (when (ltb 0 t.missing_category) (missing_categories t.missing_category)
                    ++ (when (not (is_zero d.category_income_difference_minor))
                          (category_income_differs d.category_income_difference_minor)
                        ++ (when (not (is_zero d.category_expense_difference_minor))
                              (category_expense_differs d.category_expense_difference_minor)
                            ++ when (not (is_zero d.transaction_count_difference))
                                (booked_count_differs d.transaction_count_difference)))))))

unfoldable pub category_status : CategoryTally → CategoryControlDifferences → ReconciliationStatus
category_status t d =
    if ltb 0 t.unresolved || ltb 0 t.missing_booking
    then unfinished
    else if not (is_zero d.category_income_difference_minor)
        || (not (is_zero d.category_expense_difference_minor)
            || not (is_zero d.transaction_count_difference))
    then unbalanced
    else balanced

module _ (locale_compare : String → String → ℤ) where
  abbrev label_compare : Option String → Option String → ℤ
  label_compare a b = locale_compare (or_else a "") (or_else b "")

  unfoldable pub compare_line : CategoryControlLine → CategoryControlLine → ℤ
  compare_line a b =
      let project_cmp = label_compare a.literal_project_label b.literal_project_label in
      let type_cmp = label_compare a.literal_type_label b.literal_type_label in
      let category_cmp = label_compare a.literal_category_label b.literal_category_label in
      if not (is_zero project_cmp)
      then project_cmp
      else if not (is_zero type_cmp)
      then type_cmp
      else if not (is_zero category_cmp)
      then category_cmp
      else if is_credit a.direction && not (is_credit b.direction)
      then negsuc 0
      else if not (is_credit a.direction) && is_credit b.direction
      then pos 1
      else pos 0

  abbrev pub line_le : CategoryControlLine → CategoryControlLine → Bool
  line_le a b = not (ltb_ℤ (pos 0) (compare_line a b))

  unfoldable pub build_category_control_totals :
      CategoryControlTotalsInput → CategoryControlTotalsResult
  unfolding category_loop category_step
  build_category_control_totals input =
      let t = category_loop input.transactions empty_tally in
      let differences : CategoryControlDifferences = record {
        category_income_difference_minor = t.income -ℤ input.statement_income_minor;
        category_expense_difference_minor = t.expense -ℤ input.statement_expense_minor;
        transaction_count_difference = pos t.booked -ℤ input.statement_transaction_count;
      } in
      let reasons = category_reasons t differences in
      record {
        period_start = to_utc_date input.period_start;
        period_end = to_utc_date input.period_end;
        account_id = input.account_id;
        account_identifier = input.account_identifier;
        source_income_minor = input.statement_income_minor;
        source_expense_minor = input.statement_expense_minor;
        source_transaction_count = input.statement_transaction_count;
        category_income_minor = t.income;
        category_expense_minor = t.expense;
        category_transaction_count = t.booked;
        differences = differences;
        lines = sort_by line_le t.line_map;
        missing_dimensions = record {
          missing_project_count = t.missing_project;
          missing_transaction_type_count = t.missing_transaction_type;
          missing_category_count = t.missing_category;
          missing_booking_count = t.missing_booking;
          unresolved_transaction_count = t.unresolved;
        };
        status = category_status t differences;
        category_controls_eligible = is_nil reasons;
        reasons = reasons;
        validator_version = validator_version;
      }
