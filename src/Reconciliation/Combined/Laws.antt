-- ===== src/Reconciliation/Combined/Laws.antt =====
-- Both controls together: when the period may close, and the evidence that comes of it.
use finance.Prelude.{
  ◌≡◌, refl, arith, true, false, ◌&&◌, some, List, [], ◌∷◌, ◌++◌, if◌then◌else◌, is_nil, any, ◌∙◌,
  sym, ap, ok, is_some, eq_of_if_some, eq_of_iff, String,
}
use finance.Prelude.Int.{ℤ, pos, eq_of_sub_zero}
use finance.Statement.{complete}
use finance.Reconciliation.{CloseReason, BalancedReconciliationEvidence}
use finance.Reconciliation.Preview.{
  StatementReconciliationInput, StatementReconciliationPreview, status_of,
  build_statement_reconciliation_preview,
}
use finance.Reconciliation.Preview.Evidence.{
  IsConsistent as PreviewIsConsistent, build-IsConsistent,
}
use finance.Reconciliation.Preview.Laws.{IsClear as PreviewIsClear, close_reasons_nil}
use finance.Reconciliation.Category.{
  CategoryControlTotalsInput, CategoryControlTotalsResult, category_status,
  build_category_control_totals,
}
use finance.Reconciliation.Category.Laws.{
  IsConsistent as CategoryIsConsistent, category-IsConsistent, IsClear as CategoryIsClear,
  category_reasons_nil,
}
use finance.Close.{assert_can_close}
use finance.Reconciliation.Combined.{
  CombinedCloseControlPreview, reason_eq, push_new, combined_reasons_of,
  build_close_control_preview, to_combined_reconciliation_evidence, accepted_evidence,
}

append_nil_false {ℓ} : {A : Type ℓ} (xs : List A) (x : A) → is_nil (xs ++ x ∷ []) ≡ false
append_nil_false [] x = refl
append_nil_false (y ∷ ys) x = refl

push_new-nonempty :
    (acc rs : List CloseReason) → is_nil acc ≡ false → is_nil (push_new acc rs) ≡ false
unfolding push_new
push_new-nonempty acc [] h = h
push_new-nonempty acc (r ∷ rs) h =
    push_new-nonempty (if any (reason_eq r) acc then acc else acc ++ r ∷ []) rs
      (ground (arith, append_nil_false acc r))

-- Reasons that are added to none are none only if there are none to add.
push_new-nil : (rs : List CloseReason) → is_nil (push_new [] rs) ≡ is_nil rs
unfolding push_new
push_new-nil [] = refl
push_new-nil (r ∷ rs) = push_new-nonempty (r ∷ []) rs refl

module _ (p : StatementReconciliationPreview) (c : CategoryControlTotalsResult)
    (vp : PreviewIsConsistent p) (vc : CategoryIsConsistent c) where
  combined_eligible :
      (build_close_control_preview p c).combined_close_eligible
      ≡ p.close_eligibility.eligible && c.category_controls_eligible
  unfolding build_close_control_preview combined_reasons_of
  combined_eligible =
      grind (arith, vp.eligible_reasons, vc.eligible_reasons, push_new-nil, push_new-nonempty)

  -- The preview and the controls are clear when the combined preview lets the period close.
  IsClear-of_eligible :
      (build_close_control_preview p c).combined_close_eligible ≡ true
      → PreviewIsClear p.coverage_status p.booked p.integrity p.differences
        × CategoryIsClear vc.tally c.differences
  IsClear-of_eligible h = (
    (close_reasons_nil _ _ _ _).0 (ground (arith, combined_eligible, vp.eligible_is)),
    (category_reasons_nil _ _).0 (ground (arith, combined_eligible, vc.eligible_is)),
  )

  evidence_of_eligible :
      (build_close_control_preview p c).combined_close_eligible ≡ true
      → is_some (to_combined_reconciliation_evidence (build_close_control_preview p c)) ≡ true
  unfolding to_combined_reconciliation_evidence build_close_control_preview status_of
      category_status
  evidence_of_eligible h = let (a, b) = IsClear-of_eligible h in ground arith

  eligible_of_evidence :
      is_some (to_combined_reconciliation_evidence (build_close_control_preview p c)) ≡ true
      → (build_close_control_preview p c).combined_close_eligible ≡ true
  unfolding to_combined_reconciliation_evidence
  eligible_of_evidence h = ground arith

  evidence_form :
      (e : BalancedReconciliationEvidence)
      → to_combined_reconciliation_evidence (build_close_control_preview p c) ≡ some e
      → e ≡ accepted_evidence p c
  unfolding to_combined_reconciliation_evidence build_close_control_preview
  evidence_form e h = eq_of_if_some _ (accepted_evidence p c) h

  accepted-can_close :
      p.coverage_status ≡ complete
      → pos p.booked.booked_transaction_count ≡ p.source_transaction_count
      → assert_can_close (accepted_evidence p c) ≡ ok tt
  unfolding assert_can_close
  accepted-can_close h k = rw (h, ← k) (ground arith)

  -- The evidence passes every test of `assertCanClose`.
  accepted_of_evidence :
      (e : BalancedReconciliationEvidence)
      → to_combined_reconciliation_evidence (build_close_control_preview p c) ≡ some e
      → assert_can_close e ≡ ok tt
  accepted_of_evidence e h =
      let clear = (IsClear-of_eligible (eligible_of_evidence (rw h))).0 in
      let same =
        eq_of_sub_zero (pos p.booked.transaction_count) p.source_transaction_count
          (sym vp.count_difference ∙ clear.same_count) in
      let booked : p.booked.booked_transaction_count ≡ p.booked.transaction_count =
        omega (arith, vp.booked_le, clear.none_missing) in
      rw (evidence_form e h) (accepted-can_close clear.coverage_is_complete (ap pos booked ∙ same))

module _ (locale_compare : String → String → ℤ) (input : StatementReconciliationInput)
    (category : CategoryControlTotalsInput) (p : StatementReconciliationPreview)
    (checked : build_statement_reconciliation_preview input ≡ ok p) where
  abbrev combined : CombinedCloseControlPreview
  combined = build_close_control_preview p (build_category_control_totals locale_compare category)

  -- For a preview that is returned, the combined preview lets the period close exactly when both
  -- controls do, and evidence for the close is given exactly then.
  pub combined_evidence :
      (combined.combined_close_eligible
        ≡ p.close_eligibility.eligible && combined.category_controls.category_controls_eligible)
      × (is_some (to_combined_reconciliation_evidence combined) ≡ combined.combined_close_eligible)
  unfolding build_close_control_preview
  combined_evidence =
      let c = build_category_control_totals locale_compare category in
      let vp = build-IsConsistent input p checked in
      let vc = category-IsConsistent locale_compare category in
      (
        combined_eligible p c vp vc,
        eq_of_iff (eligible_of_evidence p c vp vc) (evidence_of_eligible p c vp vc),
      )

  -- For a preview that is returned, `assertCanClose` accepts the evidence that the combined controls
  -- give.
  pub combined_evidence-can_close :
      (e : BalancedReconciliationEvidence)
      → to_combined_reconciliation_evidence combined ≡ some e
      → assert_can_close e ≡ ok tt
  combined_evidence-can_close e h =
      accepted_of_evidence p (build_category_control_totals locale_compare category)
        (build-IsConsistent input p checked) (category-IsConsistent locale_compare category) e h
