-- ===== src/History/Facts.antt =====
-- server/services/transactionSuggestionFacts.ts: the facts of a transaction, some of them from the row that
-- was imported.
use finance.Prelude.{Option, none, some, List, [], ◌∷◌, String, str_eq, is_truthy, if◌then◌else◌}
use finance.Prelude.Int.{ℤ}
use finance.Calendar.{Date}
use finance.Close.Reopen.{trim}
use finance.Evidence.{Json, Entries}
use finance.Statement.{Direction}
use finance.History.{ConfirmedHistoryCandidate}

-- `record[key]`, where a key occurs once.
abbrev pub lookup : String → Entries → Option Json
lookup key Entries.done = none
lookup key (Entries.entry k v es) =
    let rest = lookup key es in if str_eq k key then some v else rest

-- `typeof value === 'string' && value.trim()`, with the text without the space around it.
abbrev pub text_of : Option Json → Option String
text_of (some (Json.text s)) = if is_truthy (trim s) then some (trim s) else none
text_of _ = none

abbrev pub entries_of : Json → Option Entries
entries_of (Json.object es) = some es
entries_of _ = none

abbrev pub columns_of : Entries → Option Entries
columns_of row = elim (lookup "columns" row) [ none ↦ none | some v ↦ entries_of v ]

abbrev pub nested_of : String → Option Entries → Option Json
nested_of key none = none
nested_of key (some columns) = lookup key columns

-- `a ?? b` of two that may be missing
abbrev pub or_option : Option String → Option String → Option String
or_option (some s) other = some s
or_option none other = other

abbrev pub read_keys : Entries → List String → Option String
read_keys row [] = none
read_keys row (key ∷ keys) =
    let rest = read_keys row keys in
    or_option (text_of (lookup key row)) (or_option (text_of (nested_of key (columns_of row))) rest)

unfoldable pub read_suggestion_raw_string : Json → List String → Option String
read_suggestion_raw_string (Json.object row) keys = read_keys row keys
read_suggestion_raw_string _ keys = none

pub record HistorySuggestionFacts : Type 0 where
  pub transaction_id : String
  pub date : Date
  pub account_id : Option String
  pub direction : Direction
  pub amount_minor : ℤ
  pub counterparty : Option String
  pub counterparty_iban : Option String
  pub description : String
  pub payment_purpose : Option String

unfoldable pub to_history_suggestion_facts : ConfirmedHistoryCandidate → HistorySuggestionFacts
to_history_suggestion_facts t = record {
  transaction_id = t.id;
  date = t.date;
  account_id = t.account_id;
  direction = t.direction;
  amount_minor = t.amount_minor;
  counterparty = t.counterparty;
  counterparty_iban =
      read_suggestion_raw_string t.raw_row
        ("Counterparty IBAN" ∷ "CounterpartyIban" ∷ "Counterparty account" ∷ "IBAN/BBAN" ∷ []);
  description = t.description;
  payment_purpose =
      or_option (read_suggestion_raw_string t.raw_row ("Notifications" ∷ "Notification" ∷ []))
        t.reference;
}
