-- ===== src/Reconciliation/Monthly/Lines.antt =====
-- server/services/monthlyReconciliationService.ts, `buildLines`: the booked transactions of a month
-- by category, and by project, type and category. The parts of a key are kept apart: no identifier
-- has the NUL in it with which the code joins them.
use Prim.Native.Char.{nul}
use Prim.Native.String.{◌++◌ as concat, ◌∷◌ as cons}
use finance.Prelude.{
  ℕ, suc, Bool, not, ◌&&◌, Option, List, [], ◌∷◌, String, if◌then◌else◌, or_else, str_eq, sort_by,
}
use finance.Prelude.Int.{ℤ, pos, ◌+ℤ◌, abs, ltb_ℤ}
use finance.Statement.{Direction, credit, debit}
use finance.Reconciliation.Category.{same_direction}
use finance.Reconciliation.Monthly.{MonthlyReconciliationTransactionInput, is_booked}

pub data LineKind : Type 0 where
  category subcategory : LineKind

pub record GroupKey : Type 0 where
  pub project : String
  pub transaction_type : String
  pub category_id : String
  pub direction : Direction

-- `lineKey`; a line of the kind `category` leaves the project and the type out.
unfoldable pub line_key : LineKind → MonthlyReconciliationTransactionInput → GroupKey
line_key category tx = record {
  project = "";
  transaction_type = "";
  category_id = or_else tx.category_id "";
  direction = tx.direction;
}
line_key subcategory tx = record {
  project = or_else tx.project_id "";
  transaction_type = or_else tx.transaction_type_id "";
  category_id = or_else tx.category_id "";
  direction = tx.direction;
}

unfoldable pub same_key : GroupKey → GroupKey → Bool
same_key a b =
    str_eq a.project b.project
    && (str_eq a.transaction_type b.transaction_type
        && (str_eq a.category_id b.category_id && same_direction a.direction b.direction))

pub record MonthlyReconciliationLine : Type 0 where
  pub line_kind : LineKind
  pub group_key : GroupKey
  pub direction : Direction
  pub project_id : Option String
  pub transaction_type_id : Option String
  pub category_id : Option String
  pub literal_project_label : Option String
  pub literal_type_label : Option String
  pub literal_category_label : Option String
  pub amount_minor : ℤ
  pub transaction_count : ℕ
  pub sort_order : ℕ

unfoldable pub first_line :
    LineKind → MonthlyReconciliationTransactionInput → MonthlyReconciliationLine
unfolding line_key
first_line kind tx = record {
  line_kind = kind;
  group_key = line_key kind tx;
  direction = tx.direction;
  project_id = tx.project_id;
  transaction_type_id = tx.transaction_type_id;
  category_id = tx.category_id;
  literal_project_label = tx.literal_project_label;
  literal_type_label = tx.literal_type_label;
  literal_category_label = tx.literal_category_label;
  amount_minor = abs tx.amount_minor;
  transaction_count = 1;
  sort_order = 0;
}

unfoldable pub add_to_line :
    MonthlyReconciliationTransactionInput → MonthlyReconciliationLine → MonthlyReconciliationLine
add_to_line tx l = record l {
  amount_minor = l.amount_minor +ℤ abs tx.amount_minor;
  transaction_count = suc l.transaction_count;
}

-- The update of `groups`, which lists its values in the order of insertion.
unfoldable pub add_to_lines :
    LineKind
    → MonthlyReconciliationTransactionInput
    → List MonthlyReconciliationLine
    → List MonthlyReconciliationLine
unfolding first_line add_to_line
add_to_lines kind tx [] = first_line kind tx ∷ []
add_to_lines kind tx (l ∷ ls) =
    if same_key l.group_key (line_key kind tx)
    then add_to_line tx l ∷ ls
    else l ∷ add_to_lines kind tx ls

unfoldable pub group_lines :
    LineKind
    → List MonthlyReconciliationTransactionInput
    → List MonthlyReconciliationLine
    → List MonthlyReconciliationLine
unfolding add_to_lines
group_lines kind [] ls = ls
group_lines kind (tx ∷ txs) ls =
    group_lines kind txs (if is_booked tx then add_to_lines kind tx ls else ls)

-- `parts.join('\x00')`
abbrev pub join_nul : List String → String
join_nul [] = ""
join_nul (s ∷ []) = s
join_nul (s ∷ t ∷ ts) = concat s (cons nul (join_nul (t ∷ ts)))

abbrev direction_text : Direction → String
direction_text credit = "credit"
direction_text debit = "debit"

unfoldable pub line_labels : MonthlyReconciliationLine → String
line_labels l = join_nul (
    or_else l.literal_project_label ""
    ∷ or_else l.literal_type_label ""
    ∷ or_else l.literal_category_label ""
    ∷ direction_text l.direction
    ∷ [])

abbrev pub number_lines : ℕ → List MonthlyReconciliationLine → List MonthlyReconciliationLine
number_lines n [] = []
number_lines n (l ∷ ls) = record l { sort_order = suc n } ∷ number_lines (suc n) ls

module _ (locale_compare : String → String → ℤ) where
  abbrev pub labels_le : MonthlyReconciliationLine → MonthlyReconciliationLine → Bool
  labels_le a b = not (ltb_ℤ (pos 0) (locale_compare (line_labels a) (line_labels b)))

  unfoldable pub build_lines :
      List MonthlyReconciliationTransactionInput → LineKind → List MonthlyReconciliationLine
  unfolding group_lines
  build_lines txs kind = number_lines 0 (sort_by labels_le (group_lines kind txs []))
