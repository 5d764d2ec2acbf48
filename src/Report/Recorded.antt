-- ===== src/Report/Recorded.antt =====
-- What `createReportSnapshot` has checked and written when it returns.
use mathlib.Core.Path.{subst}
use finance.Prelude.{
  ℕ, suc, ◌+◌, ◌≤◌, ◌≡◌, refl, arith, Bool, true, false, not, some, List, [], ◌∷◌, String, str_eq,
  is_nil, is_present, All, if◌then◌else◌, ok, require, map_err, map_err-ok, seq-ok, bind-ok,
  require-ok, ok_injective, ap,
}
use finance.Prelude.Int.{pos, ltb_ℤ}
use finance.Prelude.Sums.{count}
use finance.Database.{IsClient}
use finance.Statement.{
  StatementTotals, AddsUp, totals_of, assert_statement_totals, AddsUp-of_assert_statement_totals,
}
use finance.Close.{PeriodCloseError}
use finance.Close.Tables.{
  ReportLineKind, ReportLine, ReportSnapshot, ReportSnapshotLink, PeriodClose, Tables,
}
use finance.Close.Create.{Env}
use finance.Close.Strict.{find_or}
use finance.Close.Agreed.{find_or-ok}
use finance.Report.Snapshot.{
  CreateReportSnapshotInput, require_dimension, assert_report_line, assert_report_lines,
  snapshot_row, same_report, same_link, link_to, link_closes, create_report_snapshot,
}
use finance.Report.Prepared.{found-count}

-- A line names what it is about.
abbrev names : ReportLineKind → ReportLine → Bool
names ReportLineKind.project line = is_present line.project_id
names ReportLineKind.transaction_type line = is_present line.transaction_type_id
names ReportLineKind.category line = is_present line.category_id
names ReportLineKind.reporting_class line = is_present line.reporting_class
names ReportLineKind.totals line = true

pub record IsReportLine (line : ReportLine) : Type 0 where
  pub count_positive : ltb_ℤ line.transaction_count (pos 0) ≡ false
  pub order_positive : ltb_ℤ line.sort_order (pos 0) ≡ false
  pub named : names line.line_kind line ≡ true

not-true : (b : Bool) → not b ≡ true → b ≡ false
not-true b h = ground arith

dimension-named :
    (k : ReportLineKind) (line : ReportLine)
    → require_dimension k line ≡ ok tt
    → names k line ≡ true
dimension-named ReportLineKind.project line h = require-ok _ _ h
dimension-named ReportLineKind.transaction_type line h = require-ok _ _ h
dimension-named ReportLineKind.category line h = require-ok _ _ h
dimension-named ReportLineKind.reporting_class line h = require-ok _ _ h
dimension-named ReportLineKind.totals line h = refl

line-IsReportLine : (line : ReportLine) → assert_report_line line ≡ ok tt → IsReportLine line
line-IsReportLine line h =
    let (counted, h1) =
      seq-ok
        (require (not (ltb_ℤ line.transaction_count (pos 0))) PeriodCloseError.report_count_invalid)
        _ h in
    let (ordered, h2) =
      seq-ok (require (not (ltb_ℤ line.sort_order (pos 0))) PeriodCloseError.report_order_invalid) _
        h1 in
    record {
      count_positive = not-true _ (require-ok _ _ counted);
      order_positive = not-true _ (require-ok _ _ ordered);
      named = dimension-named line.line_kind line h2;
    }

lines-IsReportLine :
    (lines : List ReportLine) → assert_report_lines lines ≡ ok tt → All IsReportLine lines
unfolding assert_report_lines
lines-IsReportLine [] h = tt
lines-IsReportLine (line ∷ lines) h =
    let (first, rest) = seq-ok (assert_report_line line) (assert_report_lines lines) h in
    (line-IsReportLine line first, lines-IsReportLine lines rest)

-- The links from a snapshot to closes, numbered from a place on.
abbrev pub links_from : String → ℕ → List String → List ReportSnapshotLink
links_from id place [] = []
links_from id place (c ∷ cs) = link_to id place c ∷ links_from id (suc place) cs

module _ (env : Env) (lawful : IsClient env.client) (db : Tables) where
  -- There is a close with the identifier.
  abbrev pub IsThere : String → Type 0
  IsThere c = 1 ≤ count (λ (x : PeriodClose). str_eq x.id c) db.period_closes

  -- The links that are made are those to the closes, in their order, beside those that were there.
  link_closes-counted :
      (id : String) (place : ℕ) (cs : List String) (links links' : List ReportSnapshotLink)
      → link_closes env db id place cs links ≡ ok links'
      → All IsThere cs
        × ((q : ReportSnapshotLink → Bool)
            → count q links' ≡ count q links + count q (links_from id place cs))
  unfolding link_closes
  link_closes-counted id place [] links links' h = (tt, λ q. rw (← ok_injective h) (omega arith))
  link_closes-counted id place (c ∷ cs) links links' h =
      let (close, (found, h1)) =
        bind-ok
          (find_or (env.client.find_first (λ x. str_eq x.id c) db.period_closes)
            PeriodCloseError.link_refused)
          _ h in
      let link = link_to id place c in
      let (added, (created, h2)) =
        bind-ok
          (find_or (env.client.create (same_link link) link links) PeriodCloseError.link_refused) _
          h1 in
      let (there, counted) = link_closes-counted id (suc place) cs added links' h2 in
      let one =
        lawful.create_rows (same_link link) link links added
          (find_or-ok _ PeriodCloseError.link_refused created) in
      (
        (
          found-count env.client lawful _ _ close
              (find_or-ok _ PeriodCloseError.link_refused found),
          there,
        ),
        λ q. ground (arith, counted q, one q),
      )

  pub record IsRecorded (input : CreateReportSnapshotInput) (out : ReportSnapshot × Tables)
      : Type 0 where
    pub based : not (is_nil input.period_close_ids) ≡ true
    pub closes_there : All IsThere input.period_close_ids
    pub lines_valid : All IsReportLine input.lines
    pub adds_up : AddsUp input.totals
    pub row_is : out.0 ≡ snapshot_row env input (totals_of input.totals)
    pub version_free : count (same_report out.0) db.report_snapshots ≡ 0
    pub snapshots :
        (q : ReportSnapshot → Bool)
        → count q out.1.report_snapshots
          ≡ (if q out.0 then suc (count q db.report_snapshots) else count q db.report_snapshots)
    pub links :
        (q : ReportSnapshotLink → Bool)
        → count q out.1.report_snapshot_links
          ≡ count q db.report_snapshot_links
            + count q (links_from env.new_id 1 input.period_close_ids)
    pub untouched : out.1 ≡ record db {
      report_snapshots = out.1.report_snapshots;
      report_snapshot_links = out.1.report_snapshot_links;
    }

  IsRecorded-of :
      {input : CreateReportSnapshotInput} (t : StatementTotals) (rows : List ReportSnapshot)
      (links : List ReportSnapshotLink)
      → not (is_nil input.period_close_ids) ≡ true
      → assert_report_lines input.lines ≡ ok tt
      → assert_statement_totals input.totals ≡ ok t
      → env.client.create
          (same_report (snapshot_row env input t))
          (snapshot_row env input t)
          db.report_snapshots
        ≡ some rows
      → link_closes env db env.new_id 1 input.period_close_ids db.report_snapshot_links ≡ ok links
      → IsRecorded input (
        snapshot_row env input t,
        record db { report_snapshots = rows; report_snapshot_links = links },
      )
  IsRecorded-of {input} t rows links based valid checked created linked =
      let row = snapshot_row env input t in
      let (adds_up, is) = AddsUp-of_assert_statement_totals input.totals checked in
      let (there, counted) =
        link_closes-counted env.new_id 1 input.period_close_ids db.report_snapshot_links links
          linked in
      record {
        based = based;
        closes_there = there;
        lines_valid = lines-IsReportLine input.lines valid;
        adds_up = adds_up;
        row_is = ap (snapshot_row env input) is;
        version_free =
            (lawful.create_conflict (same_report row) row db.report_snapshots).0 (rw created refl);
        snapshots = lawful.create_rows (same_report row) row db.report_snapshots rows created;
        links = counted;
        untouched = refl;
      }

  module _ (input : CreateReportSnapshotInput) (out : ReportSnapshot × Tables) where
    -- A report that is recorded is based on at least one close, and all its closes are there; each of
    -- its lines has a count and an order that are not negative and names what it is about; its totals
    -- add up; and no report of the workspace, kind, month and version was there before. The tables
    -- have one more report, with these totals, and one link to each of the closes, numbered from 1 in
    -- the order that they are given in; nothing else has changed.
    pub create-IsRecorded : create_report_snapshot env db input ≡ ok out → IsRecorded input out
    unfolding create_report_snapshot snapshot_row
    create-IsRecorded h =
        let (based, h1) =
          seq-ok (require (not (is_nil input.period_close_ids)) PeriodCloseError.no_period_closes) _
            h in
        let (valid, h2) = seq-ok (assert_report_lines input.lines) _ h1 in
        let (t, (checked, h3)) =
          bind-ok (map_err PeriodCloseError.statement (assert_statement_totals input.totals)) _
            h2 in
        let row = snapshot_row env input t in
        let (rows, (created, h4)) =
          bind-ok
            (find_or (env.client.create (same_report row) row db.report_snapshots)
              PeriodCloseError.snapshot_refused)
            _ h3 in
        let (links, (linked, h5)) =
          bind-ok (link_closes env db row.id 1 input.period_close_ids db.report_snapshot_links) _
            h4 in
        subst (IsRecorded input) (ok_injective h5) (
          IsRecorded-of t rows links (require-ok _ _ based) valid
            (map_err-ok PeriodCloseError.statement (assert_statement_totals input.totals) checked)
            (find_or-ok _ PeriodCloseError.snapshot_refused created) linked)
