-- ===== src/Proposers/Portfolio/Approved.antt =====
-- The recommendation on a ledger's own snapshots, before the batch gate.
use recoup_ai.Base.{
  length-filter-le, distinct_count, ◌≤◌, ◌≡◌, refl, sym, ◌∙◌, ap, Bool, true, false, ◌||◌, not,
  some, List, [], ◌∷◌, String, arith, ltb, ◌=s=◌, if◌then◌else◌, length, filter, any, all, contains,
  map, All, All-map, All-filter, Unique, sort_by, length-sort_by, All-sort_by, contains-sort_by,
  distinct_count-sort_by, Unique-sort_by, map-sort_by,
}
use text.Mathlib.TextPositions.{eq_refl}
use recoup_ai.Base.Errors.{ok}
use recoup_ai.Domain.Models.Invoices.{Invoice, outstanding_paise}
use recoup_ai.Ledger.Records.{Ledger, find, in_group, text_le}
use recoup_ai.Policy.Context.{MerchantPolicy}
use recoup_ai.Policy.Engine.{PolicyEngine}
use recoup_ai.Policy.Batch.{
  max_insight_invoices, BatchInsight, has_repeats, is_nil, get_all, expected_ids, same_set,
  group_approval, judge_group, judge_records, judge_named, adjudicate_batch,
  approved_suppression_is_an_escalation, is_unsafe, nothing_suppressed,
}
use recoup_ai.Proposers.Portfolio.Members.{
  member, filter-passes, Unique-filter, unrepeated, all_found, get_all-found,
}

-- The open invoices of a group in the order of their ids.
pub members : Ledger → String → List Invoice
members l g = sort_by (λ a b. text_le a.invoice_id b.invoice_id) (filter (member g) l.records)

-- A group that may be proposed: it is named, and is broad enough.
pub record IsBroad (l : Ledger) (g : String) : Type 0 where
  pub named : (g =s= "") ≡ false
  pub enough : 3 ≤ length (filter (member g) l.records)
  pub broad : 3 ≤ distinct_count (map (λ r. r.payer_id) (filter (member g) l.records))

pub length-map : {A : Type 0} (f : A → String) (xs : List A) → length (map f xs) ≡ length xs
length-map f [] = refl
length-map f (x ∷ xs) = omega (arith, length-map f xs)

any-none : {A : Type 0} (p : A → Bool) (xs : List A) → All (λ x. p x ≡ false) xs → any p xs ≡ false
any-none p [] a = refl
any-none p (x ∷ xs) a = ground (arith, a.0, any-none p xs a.1)

all-every : {A : Type 0} (p : A → Bool) (xs : List A) → All (λ x. p x ≡ true) xs → all p xs ≡ true
all-every p [] a = refl
all-every p (x ∷ xs) a = ground (arith, a.0, all-every p xs a.1)

self-among :
    (ys xs : List String)
    → ((s : String) → contains s xs ≡ true → contains s ys ≡ true)
    → All (λ x. contains x ys ≡ true) xs
self-among ys [] up = tt
self-among ys (x ∷ xs) up =
    (up x (rw (eq_refl x) refl), self-among ys xs (λ s h. up s (ground (arith, h))))

is_nil-map : {A : Type 0} (f : A → String) (xs : List A) → 3 ≤ length xs → is_nil (map f xs) ≡ false
is_nil-map f [] h = ground arith
is_nil-map f (x ∷ xs) h = refl

map-id : (xs : List String) → map (λ x. x) xs ≡ xs
map-id [] = refl
map-id (x ∷ xs) = ap (λ ys. x ∷ ys) (map-id xs)

contains-sorted : (s : String) (xs : List String) → contains s (sort_by text_le xs) ≡ contains s xs
contains-sorted s xs =
    ap (contains s) (sym (map-id (sort_by text_le xs)))
    ∙ contains-sort_by text_le (λ x. x) s xs
    ∙ ap (contains s) (map-id xs)

same_set-sorted : (xs : List String) → same_set (sort_by text_le xs) xs ≡ true
unfolding same_set
same_set-sorted xs = ground (
  arith,
  all-every (λ x. contains x xs) (sort_by text_le xs)
      (self-among xs (sort_by text_le xs) (λ s h. sym (contains-sorted s xs) ∙ h)),
  all-every (λ y. contains y (sort_by text_le xs)) xs
      (self-among (sort_by text_le xs) xs (λ s h. contains-sorted s xs ∙ h)),
)

module _ (l : Ledger) (u : Unique (map (λ r. r.invoice_id) l.records)) (g : String)
    (b : IsBroad l g) where
  ids_members : map (λ r. r.invoice_id) (members l g) ≡ sort_by text_le (expected_ids l g)
  unfolding members expected_ids
  ids_members = map-sort_by text_le (λ r. r.invoice_id) (filter (member g) l.records)

  fetched : get_all l (sort_by text_le (expected_ids l g)) ≡ ok (members l g)
  unfolding members
  fetched =
      ap (get_all l) (sym ids_members)
      ∙ get_all-found l (members l g) (
          All-sort_by _ (λ r. find r.invoice_id l.records ≡ some r) (filter (member g) l.records)
            (All-filter (λ r. find r.invoice_id l.records ≡ some r) (member g) l.records
              (all_found l.records u)))

  all_members : All (λ r. member g r ≡ true) (members l g)
  unfolding members
  all_members =
      All-sort_by _ (λ r. member g r ≡ true) (filter (member g) l.records)
        (filter-passes (member g) l.records)

  pub open_ids : is_nil (sort_by text_le (expected_ids l g)) ≡ false
  unfolding members
  open_ids =
      ap is_nil (sym ids_members)
      ∙ is_nil-map (λ r. r.invoice_id) (members l g)
          (ground (
            arith,
            b.enough,
            length-sort_by (λ x y. text_le x.invoice_id y.invoice_id) (filter (member g) l.records),
          ))

  group_approval_lem :
      approved_suppression_is_an_escalation (group_approval g (expected_ids l g))
      ≡ ok (group_approval g (expected_ids l g))
  unfolding approved_suppression_is_an_escalation is_unsafe
  group_approval_lem = rw open_ids refl

  judged :
      (config : MerchantPolicy) (i : BatchInsight)
      → config.min_batch_group_invoices ≤ 3
      → config.min_batch_group_payers ≤ 3
      → i.invoice_ids ≡ sort_by text_le (expected_ids l g)
      → judge_group config i l g (members l g) ≡ ok (group_approval g (expected_ids l g))
  unfolding judge_group
  judged config i few narrow ids =
      let sorted = filter (member g) l.records in
      let enough : ltb (length (members l g)) config.min_batch_group_invoices ≡ false =
        unfold members in
        ground (
          arith,
          b.enough,
          few,
          length-sort_by (λ x y. text_le x.invoice_id y.invoice_id) sorted,
        ) in
      let broad : ltb (distinct_count (map (λ r. r.payer_id) (members l g)))
            config.min_batch_group_payers
          ≡ false =
        unfold members in
        ground (
          arith,
          b.broad,
          narrow,
          distinct_count-sort_by (λ x y. text_le x.invoice_id y.invoice_id) (λ r. r.payer_id)
              sorted,
        ) in
      let grouped : any (λ r. not (in_group g r.parent_group_id)) (members l g) ≡ false =
        any-none (λ r. not (in_group g r.parent_group_id)) (members l g)
          (All-map (members l g) (λ r h. ground (arith, h)) all_members) in
      let owing : any (λ r. not (ltb 0 (outstanding_paise r))) (members l g) ≡ false =
        any-none (λ r. not (ltb 0 (outstanding_paise r))) (members l g)
          (All-map (members l g) (λ r h. ground (arith, h)) all_members) in
      let whole : same_set i.invoice_ids (expected_ids l g) ≡ true =
        ap (λ xs. same_set xs (expected_ids l g)) ids ∙ same_set-sorted (expected_ids l g) in
      rw (enough, grouped, broad, owing, whole) group_approval_lem

  -- A recommendation to suppress the whole of the group is approved.
  pub approved_insight :
      (e : PolicyEngine) (i : BatchInsight)
      → e.config.min_batch_group_invoices ≤ 3
      → e.config.min_batch_group_payers ≤ 3
      → i.pattern_found ≡ true
      → i.suppression_recommended ≡ true
      → i.parent_group_id ≡ some g
      → i.invoice_ids ≡ sort_by text_le (expected_ids l g)
      → adjudicate_batch e i l ≡ ok (group_approval g (expected_ids l g))
  unfolding adjudicate_batch judge_named judge_records
  approved_insight e i few narrow found asked named ids =
      let proposes : (not i.pattern_found || not i.suppression_recommended) ≡ false =
        ground (arith, found, asked) in
      ap
        (λ b.
          if b
          then approved_suppression_is_an_escalation nothing_suppressed
          else judge_named e.config i l i.parent_group_id)
        proposes
      ∙ ap (judge_named e.config i l) named
      ∙ ap (judge_records e.config i l g) (ap (get_all l) ids ∙ fetched)
      ∙ judged e.config i few narrow ids

  -- There are no more ids than records.
  pub few_ids :
      length l.records ≤ max_insight_invoices
      → ltb max_insight_invoices (length (sort_by text_le (expected_ids l g))) ≡ false
  unfolding expected_ids
  few_ids h =
      let ids = map (λ r. r.invoice_id) (filter (member g) l.records) in
      ground (
        arith,
        h,
        length-sort_by text_le ids,
        length-map (λ r. r.invoice_id) (filter (member g) l.records),
        length-filter-le (member g) l.records,
      )

  pub unrepeated_ids : has_repeats (sort_by text_le (expected_ids l g)) ≡ false
  unfolding members
  unrepeated_ids =
      ap has_repeats (sym ids_members)
      ∙ unrepeated (map (λ r. r.invoice_id) (members l g)) (
          Unique-sort_by (λ x y. text_le x.invoice_id y.invoice_id) (λ r. r.invoice_id)
            (filter (member g) l.records)
            (Unique-filter (λ r. r.invoice_id) (member g) l.records u))
