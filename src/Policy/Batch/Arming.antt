-- ===== src/Policy/Batch/Arming.antt =====
-- The verdict on a consistent recommendation, and the run after it is armed.
use recoup_ai.Base.{
  distinct_count, ℕ, ◌≡◌, refl, sym, ap, ◌∙◌, inl, inr, Bool, true, false, ◌||◌, not, Option, none,
  some, List, [], ◌∷◌, String, arith, ltb, if◌then◌else◌, length, any, contains, map, Bool-cases,
  sort_by, insert_by,
}
use recoup_ai.Base.Errors.{Result, ok, err}
use recoup_ai.Domain.Enums.{Intervention}
use recoup_ai.Domain.Interventions.{is_contact}
use recoup_ai.Domain.Models.Proposals.{PolicyVerdict, Proposal}
use recoup_ai.Domain.Models.Invoices.{Invoice, outstanding_paise}
use recoup_ai.Ledger.Records.{Ledger, in_group, text_le}
use recoup_ai.Policy.Context.{MerchantPolicy}
use recoup_ai.Policy.Rules.{rule_order}
use recoup_ai.Policy.Engine.{PolicyEngine, context, adjudicate}
use recoup_ai.Policy.Contracts.Compliance.{adjudicate-IsCompliant}
use recoup_ai.Policy.Contracts.Budgets.{Session, Session-Follows}
use recoup_ai.Policy.Batch.{
  BatchInsight, BatchExplanation, BatchPolicyVerdict, is_inconsistent,
  approved_suppression_is_an_escalation, is_unsafe, batch_veto, get_all, expected_ids, same_set,
  group_approval, judge_group, judge_records, judge_named, adjudicate_batch, nothing_suppressed,
  arm_batch_suppression, is_nil, is_vetoed,
}
use recoup_ai.Policy.Batch.Scope.{adjudicate_batch-IsWholeGroup}

abbrev Answers : Result BatchPolicyVerdict → Type 0
Answers m = (v : BatchPolicyVerdict) × (m ≡ ok v)

if-Answers :
    (b : Bool) {m n : Result BatchPolicyVerdict}
    → Answers m
    → (b ≡ false → Answers n)
    → Answers (if b then m else n)
if-Answers true a c = a
if-Answers false a c = c refl

batch_veto-Answers : (i : BatchInsight) (x : BatchExplanation) → Answers (batch_veto i x)
unfolding batch_veto approved_suppression_is_an_escalation is_unsafe
batch_veto-Answers i x = (_, refl)

is_nil-insert :
    {A : Type 0} (le : A → A → Bool) (x : A) (xs : List A) → is_nil (insert_by le x xs) ≡ false
is_nil-insert le x [] = refl
is_nil-insert le x (y ∷ ys) = ground arith

is_nil-sort :
    {A : Type 0} (le : A → A → Bool) (xs : List A)
    → is_nil xs ≡ false
    → is_nil (sort_by le xs) ≡ false
is_nil-sort le [] h = h
is_nil-sort le (x ∷ xs) h = is_nil-insert le x (sort_by le xs)

same_set-is_nil :
    (xs ys : List String) → is_nil xs ≡ false → same_set xs ys ≡ true → is_nil ys ≡ false
unfolding same_set
same_set-is_nil [] ys h q = cc
same_set-is_nil (x ∷ xs) [] h q = ground (arith, q)
same_set-is_nil (x ∷ xs) (y ∷ ys) h q = refl

approval-Answers :
    (g : String) (ids : List String)
    → is_nil ids ≡ false
    → Answers (approved_suppression_is_an_escalation (group_approval g ids))
unfolding approved_suppression_is_an_escalation is_unsafe
approval-Answers g ids h = (group_approval g ids, rw (is_nil-sort text_le ids h) refl)

judge_group-Answers :
    (config : MerchantPolicy) (i : BatchInsight) (l : Ledger) (g : String) (proposed : List Invoice)
    → is_nil i.invoice_ids ≡ false
    → Answers (judge_group config i l g proposed)
unfolding judge_group
judge_group-Answers config i l g proposed n =
    let whole : Bool = same_set i.invoice_ids (expected_ids l g) in
    let approval : Answers (
        if not whole
        then batch_veto i BatchExplanation.selected_subset
        else approved_suppression_is_an_escalation (group_approval g (expected_ids l g))) =
      if-Answers (not whole) (batch_veto-Answers i BatchExplanation.selected_subset) (λ q.
        approval-Answers g (expected_ids l g)
          (same_set-is_nil i.invoice_ids (expected_ids l g) n (ground (arith, q)))) in
    if-Answers (ltb (length proposed) config.min_batch_group_invoices)
      (batch_veto-Answers i (BatchExplanation.too_few_invoices config.min_batch_group_invoices))
      (λ _.
        if-Answers (any (λ r. not (in_group g r.parent_group_id)) proposed)
          (batch_veto-Answers i BatchExplanation.other_group)
          (λ _.
            if-Answers
              (ltb (distinct_count (map (λ r. r.payer_id) proposed)) config.min_batch_group_payers)
              (batch_veto-Answers i (BatchExplanation.too_few_payers config.min_batch_group_payers))
              (λ _.
                if-Answers (any (λ r. not (ltb 0 (outstanding_paise r))) proposed)
                  (batch_veto-Answers i BatchExplanation.settled_invoice) (λ _. approval))))

judge_records-Answers :
    (config : MerchantPolicy) (i : BatchInsight) (l : Ledger) (g : String)
    (m : Result (List Invoice))
    → is_nil i.invoice_ids ≡ false
    → Answers (judge_records config i l g m)
unfolding judge_records
judge_records-Answers config i l g (err e) n = batch_veto-Answers i BatchExplanation.unknown_invoice
judge_records-Answers config i l g (ok proposed) n = judge_group-Answers config i l g proposed n

judge_named-Answers :
    (config : MerchantPolicy) (i : BatchInsight) (l : Ledger) (o : Option String)
    → is_nil i.invoice_ids ≡ false
    → Answers (judge_named config i l o)
unfolding judge_named
judge_named-Answers config i l none n = batch_veto-Answers i BatchExplanation.no_group
judge_named-Answers config i l (some g) n =
    judge_records-Answers config i l g (get_all l i.invoice_ids) n

-- A recommendation that passes its validator always gets a verdict: no verdict of the batch gate
-- breaks the verdict's own validator.
pub adjudicate_batch_answers :
    (e : PolicyEngine) (i : BatchInsight) (l : Ledger)
    → is_inconsistent i ≡ false
    → (v : BatchPolicyVerdict) × (adjudicate_batch e i l ≡ ok v)
unfolding adjudicate_batch is_inconsistent
adjudicate_batch_answers e i l h =
    if-Answers (not i.pattern_found || not i.suppression_recommended)
      (nothing_suppressed, unfold approved_suppression_is_an_escalation is_unsafe in refl)
      (λ q. judge_named-Answers e.config i l i.parent_group_id (ground (arith, h, q)))

armed_engine :
    (e : PolicyEngine) (i : BatchInsight) (v : BatchPolicyVerdict)
    → v.suppression_approved ≡ true
    → is_vetoed v.verdict ≡ false
    → ((arm_batch_suppression e i v).1.suppressed_invoices ≡ i.invoice_ids)
      × ((arm_batch_suppression e i v).1.rules ≡ e.rules)
unfolding arm_batch_suppression
armed_engine e i v a k = rw (a, k) (refl, refl)

-- Once a recommendation that the engine approved has been armed, no contact to any invoice that it
-- names is let pass, however many adjudications the engine has made since.
pub armed_silent :
    (e d d' : PolicyEngine) (i : BatchInsight) (l l' : Ledger) (w : BatchPolicyVerdict)
    (r : Invoice) (p : Proposal) (tick : ℕ) (v : PolicyVerdict) (c : Intervention)
    → e.rules ≡ rule_order
    → adjudicate_batch e i l ≡ ok w
    → w.suppression_approved ≡ true
    → Session (arm_batch_suppression e i w).1 d
    → contains r.invoice_id i.invoice_ids ≡ true
    → adjudicate d r p tick l' ≡ ok (v, d')
    → v.final ≡ some c
    → is_contact c ≡ false
unfolding context
armed_silent e d d' i l l' w r p tick v c order judged approved session named answered passed =
    let group = adjudicate_batch-IsWholeGroup e i l w judged approved in
    let armed = armed_engine e i w approved (ap (λ x. is_vetoed x.verdict) group.answer) in
    let kept = Session-Follows session (armed.1 ∙ order) in
    let suppressed : d.suppressed_invoices ≡ i.invoice_ids = kept.same_suppressed ∙ armed.0 in
    let allowed =
      adjudicate-IsCompliant d r p tick l' v d' c (kept.same_rules ∙ armed.1 ∙ order) answered
        passed in
    elim (Bool-cases (is_contact c)) [
      | inl k ↦
          let outside : contains r.invoice_id i.invoice_ids ≡ false =
            ap (contains r.invoice_id) (sym suppressed) ∙ (allowed.contact k).unsuppressed in
          cc (outside, named)
      | inr k ↦ k
    ]
