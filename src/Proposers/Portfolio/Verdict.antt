-- ===== src/Proposers/Portfolio/Verdict.antt =====
-- The recommendation on a ledger's own snapshots, from the groups to the gate's verdict.
use recoup_ai.Base.{
  ◌⊎◌, All-both, eq_iff, distinct_count, ℕ, ◌≤◌, ◌≡◌, refl, ◌∙◌, ap, inl, inr, true, false, List,
  [], ◌∷◌, String, arith, ◌=s=◌, length, filter, map, All, All-filter, Unique, Bool-cases, sort_by,
}
use recoup_ai.Base.Errors.{ok}
use recoup_ai.Domain.Models.Invoices.{Snapshot, to_snapshot}
use recoup_ai.Ledger.Records.{Ledger, text_le}
use recoup_ai.Policy.Engine.{PolicyEngine}
use recoup_ai.Policy.Batch.{
  max_insight_invoices, validate_insight, BatchInsight, BatchPolicyVerdict,
  pattern_fields_are_consistent, is_inconsistent, expected_ids, group_approval, adjudicate_batch,
  approved_suppression_is_an_escalation, is_unsafe, nothing_suppressed,
}
use recoup_ai.Proposers.Portfolio.{
  min_candidate_records, min_candidate_payers, group_all, is_candidate, least, group_insight,
  no_pattern, best_insight, analyze,
}
use recoup_ai.Proposers.Portfolio.Groups.{belongs, group_all-IsGrouped}
use recoup_ai.Proposers.Portfolio.Members.{
  member, none_unnamed, map-belongs, All-least, filter-passes,
}
use recoup_ai.Proposers.Portfolio.Approved.{
  length-map, few_ids, IsBroad, approved_insight, unrepeated_ids, open_ids,
}

module _ (l : Ledger) (as_of tick : ℕ) where
  abbrev snapshots : List Snapshot
  snapshots = map (λ r. to_snapshot r as_of tick) l.records

  -- A group of the loop that is a candidate.
  abbrev Qualifies : String × List Snapshot → Type 0
  Qualifies x = (x.1 ≡ filter (belongs x.0) snapshots) × (is_candidate x ≡ true)

  all_qualify : All Qualifies (filter is_candidate (group_all [] snapshots))
  all_qualify =
      All-both (λ x. x.1 ≡ filter (belongs x.0) snapshots) (λ x. is_candidate x ≡ true)
        (filter is_candidate (group_all [] snapshots))
        (All-filter (λ x. x.1 ≡ filter (belongs x.0) snapshots) is_candidate
          (group_all [] snapshots) (group_all-IsGrouped snapshots).complete)
        (filter-passes is_candidate (group_all [] snapshots))

  ids_qualified :
      (x : String × List Snapshot)
      → (x.0 =s= "") ≡ false
      → Qualifies x
      → map (λ row. row.invoice_id) x.1 ≡ expected_ids l x.0
  unfolding expected_ids to_snapshot
  ids_qualified x n q =
      ap (map (λ row. row.invoice_id)) q.0
      ∙ map-belongs (λ row. row.invoice_id) (λ r. r.invoice_id) x.0 as_of tick (λ r. refl) n
          l.records

  Qualifies-named : (x : String × List Snapshot) → Qualifies x → (x.0 =s= "") ≡ false
  unfolding is_candidate
  Qualifies-named x q = elim (Bool-cases (x.0 =s= "")) [
    | inr n ↦ n
    | inl e ↦
        let unnamed : x.0 ≡ "" = ground (arith, e, eq_iff x.0 "") in
        let empty : x.1 ≡ [] =
          q.0 ∙ ap (λ g. filter (belongs g) snapshots) unnamed ∙ none_unnamed snapshots in
        cc (rw empty at q.1)
  ]

  Qualifies-IsBroad : (x : String × List Snapshot) → Qualifies x → IsBroad l x.0
  unfolding is_candidate to_snapshot
  Qualifies-IsBroad x q =
      let n = Qualifies-named x q in
      let rows =
        map-belongs (λ row. row.invoice_id) (λ r. r.invoice_id) x.0 as_of tick (λ r. refl) n
          l.records in
      let payers =
        map-belongs (λ row. row.payer_id) (λ r. r.payer_id) x.0 as_of tick (λ r. refl) n
          l.records in
      let candidate = q.1 in
      record {
        named = n;
        enough = ground (
          arith,
          candidate,
          ap length q.0,
          ap length rows,
          length-map (λ row. row.invoice_id) (filter (belongs x.0) snapshots),
          length-map (λ r. r.invoice_id) (filter (member x.0) l.records),
        );
        broad = ground (
          arith,
          candidate,
          ap (λ ys. distinct_count (map (λ row. row.payer_id) ys)) q.0,
          ap distinct_count payers,
        );
      }

  -- The recommendation for a group that qualifies.
  insight_qualified :
      (x : String × List Snapshot)
      → Qualifies x
      → (group_insight x).invoice_ids ≡ sort_by text_le (expected_ids l x.0)
  unfolding group_insight
  insight_qualified x q = ap (sort_by text_le) (ids_qualified x (Qualifies-named x q) q)

  best_cases :
      (xs : List (String × List Snapshot))
      → All Qualifies xs
      → (best_insight xs ≡ no_pattern)
        ⊎ ((x : String × List Snapshot) × Qualifies x × (best_insight xs ≡ group_insight x))
  unfolding best_insight
  best_cases [] a = inl refl
  best_cases (x ∷ xs) a = inr (least x xs, All-least Qualifies x xs a.0 a.1, refl)

  module _ (e : PolicyEngine) (few : e.config.min_batch_group_invoices ≤ min_candidate_records)
      (narrow : e.config.min_batch_group_payers ≤ min_candidate_payers)
      (u : Unique (map (λ r. r.invoice_id) l.records))
      (small : length l.records ≤ max_insight_invoices) where
    approved_group :
        (x : String × List Snapshot)
        → Qualifies x
        → adjudicate_batch e (group_insight x) l ≡ ok (group_approval x.0 (expected_ids l x.0))
    unfolding group_insight
    approved_group x q =
        approved_insight l u x.0 (Qualifies-IsBroad x q) e (group_insight x) few narrow refl refl
          refl (insight_qualified x q)

    consistent_group :
        (x : String × List Snapshot)
        → Qualifies x
        → validate_insight (group_insight x) ≡ ok (group_insight x)
    unfolding validate_insight pattern_fields_are_consistent is_inconsistent group_insight
    consistent_group x q =
        let ids = insight_qualified x q in
        let b = Qualifies-IsBroad x q in
        rw (ids, few_ids l u x.0 b small, unrepeated_ids l u x.0 b, open_ids l u x.0 b) refl

    judged_best :
        (i : BatchInsight)
        → (i ≡ no_pattern) ⊎ ((x : String × List Snapshot) × Qualifies x × (i ≡ group_insight x))
        → (validate_insight i ≡ ok i)
          × (v : BatchPolicyVerdict) × (adjudicate_batch e i l ≡ ok v)
          × (v.suppression_approved ≡ i.pattern_found)
    unfolding validate_insight pattern_fields_are_consistent is_inconsistent adjudicate_batch
        group_insight approved_suppression_is_an_escalation is_unsafe
    judged_best i (inl n) = rw n (refl, nothing_suppressed, refl, refl)
    judged_best i (inr (x, q, n)) =
        rw n
          (consistent_group x q, group_approval x.0 (expected_ids l x.0), approved_group x q, refl)

    -- The recommendation that needs no model, on the snapshots of a ledger of at most 126 records whose
    -- ids are distinct, passes the validation of its fields, and a gate that asks for no more than
    -- three invoices and three payers of a group answers it: where a pattern is found, its suppression
    -- is approved.
    pub analyze-adjudicate_batch :
        (i : BatchInsight) × (analyze (map (λ r. to_snapshot r as_of tick) l.records) ≡ ok i)
        × (v : BatchPolicyVerdict) × (adjudicate_batch e i l ≡ ok v)
        × (v.suppression_approved ≡ i.pattern_found)
    unfolding analyze
    analyze-adjudicate_batch =
        let best = best_insight (filter is_candidate (group_all [] snapshots)) in
        let (valid, v, answered, agreed) =
          judged_best best
            (best_cases (filter is_candidate (group_all [] snapshots)) all_qualify) in
        (best, valid, v, answered, agreed)
