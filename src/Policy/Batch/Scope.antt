-- ===== src/Policy/Batch/Scope.antt =====
-- The scope of an approved recommendation.
use recoup_ai.Base.{
  All-both, distinct_count, ◌≤◌, ◌<◌, ◌≡◌, refl, sym, ap, inl, inr, Bool, true, false, ◌&&◌, ◌||◌,
  not, Option, none, some, List, [], ◌∷◌, String, arith, ltb, if◌then◌else◌, length, filter, any,
  all, contains, map, All, All-map, Bool-cases, eq_iff,
}
use text.Mathlib.TextPositions.{eq_refl}
use recoup_ai.Base.Errors.{Result, ok, err}
use recoup_ai.Domain.Models.Invoices.{Invoice, outstanding_paise}
use recoup_ai.Ledger.Records.{Ledger, in_group}
use recoup_ai.Policy.Context.{MerchantPolicy}
use recoup_ai.Policy.Engine.{PolicyEngine}
use recoup_ai.Policy.Batch.{
  BatchInsight, BatchExplanation, BatchPolicyVerdict, approved_suppression_is_an_escalation,
  is_unsafe, batch_veto, get_all, expected_ids, same_set, group_approval, judge_group,
  judge_records, judge_named, adjudicate_batch, nothing_suppressed,
}

any-false {ℓ} :
    {A : Type ℓ} (p : A → Bool) (xs : List A) → any p xs ≡ false → All (λ x. p x ≡ false) xs
any-false p [] h = tt
any-false p (x ∷ xs) h = (ground (arith, h), any-false p xs (ground (arith, h)))

all-contains :
    (ys xs : List String) (s : String)
    → all (λ x. contains x ys) xs ≡ true
    → contains s xs ≡ true
    → contains s ys ≡ true
all-contains ys [] s h m = ground (arith, m)
all-contains ys (x ∷ xs) s h m = ground (arith, h, m, all-contains ys xs s, eq_iff x s)

veto_unapproved :
    (i : BatchInsight) (x : BatchExplanation) (v : BatchPolicyVerdict)
    → batch_veto i x ≡ ok v
    → v.suppression_approved ≡ false
unfolding batch_veto approved_suppression_is_an_escalation is_unsafe
veto_unapproved i x v h = ground (arith, h)

validated : (w v : BatchPolicyVerdict) → approved_suppression_is_an_escalation w ≡ ok v → w ≡ v
unfolding approved_suppression_is_an_escalation
validated w v h = ground (arith, h)

-- The tests that an approval has passed.
record Passed (config : MerchantPolicy) (i : BatchInsight) (l : Ledger) (g : String)
    (proposed : List Invoice) (v : BatchPolicyVerdict) : Type 0 where
  enough : ltb (length proposed) config.min_batch_group_invoices ≡ false
  grouped : any (λ r. not (in_group g r.parent_group_id)) proposed ≡ false
  broad :
      ltb (distinct_count (map (λ r. r.payer_id) proposed)) config.min_batch_group_payers ≡ false
  owing : any (λ r. not (ltb 0 (outstanding_paise r))) proposed ≡ false
  whole : same_set i.invoice_ids (expected_ids l g) ≡ true
  answer : group_approval g (expected_ids l g) ≡ v

-- A test whose veto did not answer has not fired.
past_veto :
    (i : BatchInsight) (x : BatchExplanation) (v : BatchPolicyVerdict) {b : Bool}
    {rest : Result BatchPolicyVerdict}
    → (if b then batch_veto i x else rest) ≡ ok v
    → v.suppression_approved ≡ true
    → (b ≡ false) × (rest ≡ ok v)
past_veto i x v {b} {rest} h a = elim (Bool-cases b) [
  | inl q ↦ cc (veto_unapproved i x v (rw q at h), a)
  | inr q ↦ (q, rw q at h)
]

judge_group-Passed :
    (config : MerchantPolicy) (i : BatchInsight) (l : Ledger) (g : String) (proposed : List Invoice)
    (v : BatchPolicyVerdict)
    → judge_group config i l g proposed ≡ ok v
    → v.suppression_approved ≡ true
    → Passed config i l g proposed v
unfolding judge_group
judge_group-Passed config i l g proposed v h a =
    let (enough, h1) =
      past_veto i (BatchExplanation.too_few_invoices config.min_batch_group_invoices) v h a in
    let (grouped, h2) = past_veto i BatchExplanation.other_group v h1 a in
    let (broad, h3) =
      past_veto i (BatchExplanation.too_few_payers config.min_batch_group_payers) v h2 a in
    let (owing, h4) = past_veto i BatchExplanation.settled_invoice v h3 a in
    let (whole, h5) =
      past_veto i BatchExplanation.selected_subset v
        {b = not (same_set i.invoice_ids (expected_ids l g))} h4 a in
    record {
      enough = enough;
      grouped = grouped;
      broad = broad;
      owing = owing;
      whole = ground (arith, whole);
      answer = validated (group_approval g (expected_ids l g)) v h5;
    }

-- A recommendation that may bind: it names one group and at least as many of its invoices and
-- payers as the merchant asks, each of them open, and none of the group's open invoices is left
-- out; the answer is one escalation to a human.
pub record IsWholeGroup (config : MerchantPolicy) (i : BatchInsight) (l : Ledger)
    (v : BatchPolicyVerdict) : Type 0 where
  pub group : String
  pub proposed : List Invoice
  pub named : i.parent_group_id ≡ some group
  pub fetched : get_all l i.invoice_ids ≡ ok proposed
  pub enough : config.min_batch_group_invoices ≤ length proposed
  pub broad : config.min_batch_group_payers ≤ distinct_count (map (λ r. r.payer_id) proposed)
  pub open_members :
      All (λ r. (in_group group r.parent_group_id ≡ true) × (0 < outstanding_paise r)) proposed
  pub covers :
      All
        (λ r.
          in_group group r.parent_group_id ≡ true
          → 0 < outstanding_paise r
          → contains r.invoice_id i.invoice_ids ≡ true)
        l.records
  pub answer : v ≡ group_approval group (expected_ids l group)

-- The ids that a group's open invoices have.
expected-covers :
    (g : String) (rs : List Invoice) (ids : List String)
    → ((s : String)
        → contains s (
            map
              (λ r. r.invoice_id)
              (filter (λ r. in_group g r.parent_group_id && ltb 0 (outstanding_paise r)) rs))
          ≡ true
        → contains s ids ≡ true)
    → All
        (λ r.
          in_group g r.parent_group_id ≡ true
          → 0 < outstanding_paise r
          → contains r.invoice_id ids ≡ true)
        rs
expected-covers g [] ids up = tt
expected-covers g (r ∷ rs) ids up = (
  λ m o. up r.invoice_id (ground (arith, m, o, eq_refl r.invoice_id)),
  expected-covers g rs ids (λ s h. up s (ground (arith, h))),
)

judged :
    (config : MerchantPolicy) (i : BatchInsight) (l : Ledger) (g : String)
    (m : Result (List Invoice)) (v : BatchPolicyVerdict)
    → i.parent_group_id ≡ some g
    → get_all l i.invoice_ids ≡ m
    → judge_records config i l g m ≡ ok v
    → v.suppression_approved ≡ true
    → IsWholeGroup config i l v
judged config i l g (err e) v n f h a =
    cc (veto_unapproved i BatchExplanation.unknown_invoice v (unfold judge_records in h), a)
judged config i l g (ok proposed) v n f h a =
    let p = judge_group-Passed config i l g proposed v (unfold judge_records in h) a in
    record {
      group = g;
      proposed = proposed;
      named = n;
      fetched = f;
      enough = ground (arith, p.enough);
      broad = ground (arith, p.broad);
      open_members =
          All-map proposed (λ r q. (ground (arith, q.0), ground (arith, q.1)))
            (All-both (λ r. not (in_group g r.parent_group_id) ≡ false)
              (λ r. not (ltb 0 (outstanding_paise r)) ≡ false) proposed
              (any-false (λ r. not (in_group g r.parent_group_id)) proposed p.grouped)
              (any-false (λ r. not (ltb 0 (outstanding_paise r))) proposed p.owing));
      covers =
          unfold same_set expected_ids in
          expected-covers g l.records i.invoice_ids
            (λ s q. all-contains i.invoice_ids (expected_ids l g) s (ground (arith, p.whole)) q);
      answer = sym p.answer;
    }

judge_named-IsWholeGroup :
    (config : MerchantPolicy) (i : BatchInsight) (l : Ledger) (o : Option String)
    (v : BatchPolicyVerdict)
    → i.parent_group_id ≡ o
    → judge_named config i l o ≡ ok v
    → v.suppression_approved ≡ true
    → IsWholeGroup config i l v
unfolding judge_named
judge_named-IsWholeGroup config i l none v n h a =
    cc (veto_unapproved i BatchExplanation.no_group v h, a)
judge_named-IsWholeGroup config i l (some g) v n h a =
    judged config i l g (get_all l i.invoice_ids) v n refl h a

-- A suppression is approved only for the complete set of the open invoices of one named group,
-- with at least the merchant's number of invoices and of payers, and as one escalation to a human.
pub adjudicate_batch-IsWholeGroup :
    (e : PolicyEngine) (i : BatchInsight) (l : Ledger) (v : BatchPolicyVerdict)
    → adjudicate_batch e i l ≡ ok v
    → v.suppression_approved ≡ true
    → IsWholeGroup e.config i l v
unfolding adjudicate_batch
adjudicate_batch-IsWholeGroup e i l v h a =
    elim (Bool-cases (not i.pattern_found || not i.suppression_recommended)) [
      | inl q ↦
          let w : nothing_suppressed ≡ v = validated nothing_suppressed v (rw q at h) in
          cc (ap (λ x. x.suppression_approved) w, a)
      | inr q ↦ judge_named-IsWholeGroup e.config i l i.parent_group_id v refl (rw q at h) a
    ]
