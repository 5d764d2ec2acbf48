-- ===== src/Lib.antt =====
-- The financial administration: the controls between a bank statement, its booked transactions and
-- the close of a period.
--
-- A bank statement is accepted for a period of an account. Its totals must add up
-- (statementControlService). For one calendar month of a longer statement a slice is derived
-- (statementPeriodMonthSliceService). The preview compares the statement with the transactions that
-- were booked (statementReconciliationControlService), the category controls compare it with the
-- totals by project, type and category (categoryControlTotalsService), and both together give the
-- evidence that a close of the period asks for (periodCloseService). The monthly reconciliation
-- orders the transactions of an account by their running balances (monthlyReconciliationService).
-- A report on closed months is recorded, approved and sent; a reopening of a month revokes the
-- approvals of its reports (auditedPeriodReopenService, reportApprovalDispatchService). For a
-- transaction that is booked by hand a decision is kept (reviewDecisionService), and the bookings that the
-- latest decisions confirm are the confirmed history (confirmedHistoryEligibilityService). For a
-- transaction that is not booked yet, the evidence of this history is weighed, the values that may
-- be chosen are restricted, and a decision proposes a booking or abstains (deterministicDecisionService);
-- amounts come from the raw cells of the import (lib/import/normalizers).
--
--   Prelude                  the shared helpers: tests, results of code that fails, lists, the
--                            integers over the native numbers, sums and counts
--   Calendar                 dates, as milliseconds since 1970, and the bounds of months
--   Statement                server/services/statementControlService.ts: StatementTotals,
--                            assertStatementTotals, assertPositiveRowCount
--   Statement/Sources        the same file: storeSourceFile, readSourceFileBytes over the rows of the
--                            source files; Kept has their invariant, Stored the round trip
--   Statement/Accept         the same file: acceptBankStatement; Accepted has what it asks for, Balanced
--                            the invariant of the statements
--   Statement/MonthSlice     server/services/statementPeriodMonthSliceService.ts; slice_loop is the
--                            loop over the transactions, build_statement_period_month_slice the
--                            whole function
--   Reconciliation           the enumerations that both controls share
--   Reconciliation/Preview   server/services/statementReconciliationControlService.ts:
--                            buildStatementReconciliationPreview, toBalancedReconciliationEvidence
--   Reconciliation/Category  server/services/categoryControlTotalsService.ts:
--                            buildCategoryControlTotals; the map of lines is the list of its values
--                            in the order of insertion
--   Reconciliation/Combined  the same file: buildCloseControlPreview, toCombinedReconciliationEvidence
--   Reconciliation/Monthly   server/services/monthlyReconciliationService.ts: the readings of a
--                            transaction; in its children, Order is
--                            orderTransactionsForReconciliation, Lines is buildLines, Checks the
--                            loop over the transactions, Build buildMonthlyReconciliation (figures_of
--                            up to the reasons, finish the rest) and
--                            inspectMonthlyTransactionIntegrity
--   Evidence                 server/services/reviewDecisionService.ts, stableValue
--   Database                 the interface of the database client and its documented laws
--   Close                    server/services/periodCloseService.ts: assertCanClose; in its children,
--                            Tables holds the rows, Create is createPeriodClose, Strict
--                            server/services/strictPeriodCloseService.ts (Reads up to the previews,
--                            Hash the hash, Run executeStrictPeriodClose), Reopen
--                            server/services/auditedPeriodReopenService.ts and reopenPeriodClose;
--                            Reachable has the steps that both make on the tables
--   Report                   server/services/reportApprovalDispatchService.ts and the reports of
--                            server/services/periodCloseService.ts: Snapshot is createReportSnapshot,
--                            Approve approveSnapshot, Email normalizeRecipientEmails, Dispatch
--                            prepareDispatch and executeDispatch; Trace has the steps of all these
--                            services on the tables, Barred what a reopening means for the reports,
--                            Delivery the machine that a dispatch is
--   Decision                 the decision on a booking from confirmed history: Evidence is
--                            dimensionEvidence of
--                            server/services/deterministicRetrievalEvidenceService.ts, Explained the
--                            rest of that file from the scored records on, Candidates and Restrict
--                            server/services/restrictedRetrievalCandidateService.ts, Choose and Decide
--                            server/services/deterministicDecisionService.ts
--   Import/Amounts           lib/import/normalizers.ts: toMinorUnits, over lists of characters
--   History                  server/services/confirmedHistoryEligibilityService.ts: the types
--   History/Facts            server/services/transactionSuggestionFacts.ts
--   History/Confirmed        the body of the loop of evaluateConfirmedHistoryEligibility, as a chain of
--                            guards; Latest is about latestDecision, Means about the guards, Accepted about
--                            the whole chain
--   History/Evaluate         evaluateConfirmedHistoryEligibility and loadConfirmedHistoryEligibility;
--                            Parts and Loaded say what they return
--   Booking                  server/services/reviewDecisionService.ts: the rows
--   Booking/Assign, Run      assignManualBooking: the rows it makes, its guards and writes; Choice, Put,
--                            Assigned and Allowed say what it has written, Confirmed that it is confirmed history then
--   Examples                 concrete statements, tests and instances of the theorems
--
-- Amounts are integers of unbounded size: the source uses bigint for them. Counts and dates are
-- integers that a double holds exactly, and dates are valid ones from 1970 on. A thrown error is a
-- value of a result type whose constructors are the messages; where the source returns null, the
-- model returns an Option. Each message with a number or an amount in it is a constructor with that
-- argument. String.localeCompare is a parameter. The loop that puts the transactions of a day in
-- order runs on the number of the transactions that are left, of which each round takes one.
--
-- A table of the database is a list of rows. A transaction on it is a function from the tables to a
-- result with the tables after it: where the code throws, there are none, since the routes roll back.
-- The client is a record of functions, with what its documentation says as laws on how often a row
-- occurs. It refuses a row for its unique constraints; the rows that another row refers to are taken to
-- be there. The rows that a service joins are read from their tables. Identifiers, times and SHA-256 come in an environment. The mail provider is a function from
-- a message to its answer, and toLowerCase a parameter beside it. In the decision hashEvidence is a
-- parameter on values of any type, which are passed as they are in place of their JSON text; a result
-- is its fields in a record base and the hash of that record beside it, and the constant fields on side
-- effects are left out. Scores and counts are natural numbers, and bounds that are asked for integers.
--
-- Not modelled: the timestamps in the results of the controls, which nothing else reads; the JSON
-- texts of audit entries; the database itself, the routes, the user interface, the parsers of files, mail, and the services that
-- score history and suggest categories, whose normalisation of text is Unicode's.
pub mod Prelude
pub mod Calendar
pub mod Statement
pub mod Reconciliation
pub mod Close
pub mod Report
pub mod Decision
pub mod Import
pub mod Examples
pub mod Database
pub mod Evidence
pub mod History
pub mod Booking
