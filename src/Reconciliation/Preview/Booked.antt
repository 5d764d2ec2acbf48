-- ===== src/Reconciliation/Preview/Booked.antt =====
-- What `computeBookedTotals` adds up, as sums and counts over the transactions.
use finance.Prelude.{◌+◌, ◌≡◌, arith, Bool, List, [], ◌∷◌, if◌then◌else◌, length}
use finance.Prelude.Int.{ℤ, pos, ◌+ℤ◌, ◌-ℤ◌, abs, int_laws}
use finance.Prelude.Sums.{sum, count}
use finance.Statement.{is_credit}
use finance.Reconciliation.Preview.{
  BookedTransactionSummary, Tally, tally_step, tally_loop, compute_booked_totals,
}

abbrev pub credit_amount : BookedTransactionSummary → ℤ
credit_amount tx = if is_credit tx.direction then abs tx.amount_minor else pos 0

abbrev pub debit_amount : BookedTransactionSummary → ℤ
debit_amount tx = if is_credit tx.direction then pos 0 else abs tx.amount_minor

abbrev pub is_booked : BookedTransactionSummary → Bool
is_booked tx = tx.has_complete_booking

abbrev pub is_open : BookedTransactionSummary → Bool
is_open tx = tx.is_unresolved

tally_loop_sums :
    (txs : List BookedTransactionSummary) (t : Tally)
    → ((tally_loop txs t).income ≡ t.income +ℤ sum credit_amount txs)
      × ((tally_loop txs t).expense ≡ t.expense +ℤ sum debit_amount txs)
      × ((tally_loop txs t).booked ≡ t.booked + count is_booked txs)
      × ((tally_loop txs t).unresolved ≡ t.unresolved + count is_open txs)
unfolding tally_loop tally_step
tally_loop_sums [] t = (omega int_laws, omega int_laws, omega arith, omega arith)
tally_loop_sums (tx ∷ txs) t =
    let (i, x, b, u) = tally_loop_sums txs (tally_step tx t) in
    (rw i (grind int_laws), rw x (grind int_laws), rw b (ground arith), rw u (ground arith))

pub compute_booked_totals_lem :
    (txs : List BookedTransactionSummary)
    → compute_booked_totals txs ≡ record {
      income_minor = sum credit_amount txs;
      expense_minor = sum debit_amount txs;
      net_minor = sum credit_amount txs -ℤ sum debit_amount txs;
      transaction_count = length txs;
      booked_transaction_count = count is_booked txs;
      unresolved_transaction_count = count is_open txs;
    }
unfolding compute_booked_totals
compute_booked_totals_lem txs =
    let (i, x, b, u) =
      tally_loop_sums txs
        (record { income = pos 0; expense = pos 0; booked = 0; unresolved = 0 }) in
    let zero_add : (a : ℤ) → pos 0 +ℤ a ≡ a = λ a. omega int_laws in
    rw (i, x, b, u, zero_add (sum credit_amount txs), zero_add (sum debit_amount txs))
      (ground arith)
