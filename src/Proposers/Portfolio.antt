-- ===== src/Proposers/Portfolio.antt =====
-- src/recoup/reasoner/batch_insight.py: `DeterministicBatchFallback.analyze`, the recommendation
-- about a group of invoices that needs no model. The groups are a dictionary, as its items in the
-- order of insertion.
pub mod Groups
pub mod Members
pub mod Approved
pub mod Verdict
use recoup_ai.Base.{
  distinct_count, ℕ, Bool, true, false, ◌&&◌, ◌||◌, not, Option, none, some, List, [], ◌∷◌, ◌++◌,
  String, ltb, leb, ◌==◌, ◌=s=◌, if◌then◌else◌, length, filter, map, sort_by,
}
use recoup_ai.Base.Errors.{Result}
use recoup_ai.Domain.Models.Invoices.{Snapshot}
use recoup_ai.Ledger.Records.{text_le}
use recoup_ai.Policy.Batch.{BatchInsight, validate_insight}

abbrev pub min_candidate_records : ℕ
min_candidate_records = 3

abbrev pub min_candidate_payers : ℕ
min_candidate_payers = 3

-- `if group_id and int(outstanding_paise) > 0`: the group, where the test passes.
abbrev pub open_group : Option String → ℕ → Option String
open_group none outstanding = none
open_group (some g) outstanding = if not (g =s= "") && ltb 0 outstanding then some g else none

-- The group that a snapshot is put in.
unfoldable pub group_of : Snapshot → Option String
group_of s = open_group s.parent_group_id s.outstanding_paise

-- `grouped[g].append(snapshot)`
unfoldable pub append_to :
    String → Snapshot → List (String × List Snapshot) → List (String × List Snapshot)
append_to g s [] = (g, s ∷ []) ∷ []
append_to g s ((h, rows) ∷ rest) =
    let others = append_to g s rest in
    if h =s= g then (h, rows ++ s ∷ []) ∷ rest else (h, rows) ∷ others

abbrev pub append_if :
    Option String → Snapshot → List (String × List Snapshot) → List (String × List Snapshot)
append_if none s groups = groups
append_if (some g) s groups = append_to g s groups

-- The loop over the snapshots.
unfoldable pub group_all :
    List (String × List Snapshot) → List Snapshot → List (String × List Snapshot)
group_all groups [] = groups
group_all groups (s ∷ ss) = group_all (append_if (group_of s) s groups) ss

unfoldable pub is_candidate : String × List Snapshot → Bool
is_candidate (g, rows) =
    leb min_candidate_records (length rows)
    && leb min_candidate_payers (distinct_count (map (λ row. row.payer_id) rows))

-- Whether one group comes before another: it has more rows, or as many and the lesser id.
unfoldable pub precedes : String × List Snapshot → String × List Snapshot → Bool
precedes (g, rows) (h, others) =
    ltb (length others) (length rows) || ((length rows == length others) && not (text_le h g))

-- `min(..., key=...)`: the first least of a group and the groups after it.
unfoldable pub least :
    String × List Snapshot → List (String × List Snapshot) → String × List Snapshot
least x [] = x
least x (y ∷ ys) = least (if precedes y x then y else x) ys

abbrev pub no_pattern : BatchInsight
no_pattern = record {
  pattern_found = false;
  diagnosis = "No defensible parent-group pattern was found.";
  parent_group_id = none;
  invoice_ids = [];
  confidence = record { numerator = 1; denominator = 1 };
  reasoning = "No open parent group met the minimum breadth checks.";
  suppression_recommended = false;
}

unfoldable pub group_insight : String × List Snapshot → BatchInsight
group_insight (g, rows) = record {
  pattern_found = true;
  diagnosis = "Correlated silence is consistent with one account-level process event.";
  parent_group_id = some g;
  invoice_ids = sort_by text_le (map (λ row. row.invoice_id) rows);
  confidence = record { numerator = 7; denominator = 10 };
  reasoning =
      "Several open invoices across distinct payers share one explicit parent group; treating them independently would duplicate contact before relationship review.";
  suppression_recommended = true;
}

unfoldable pub best_insight : List (String × List Snapshot) → BatchInsight
unfolding least group_insight
best_insight [] = no_pattern
best_insight (x ∷ xs) = group_insight (least x xs)

-- `analyze`: the recommendation, past the validation of its fields.
unfoldable pub analyze : List Snapshot → Result BatchInsight
unfolding best_insight group_all validate_insight
analyze snapshots = validate_insight (best_insight (filter is_candidate (group_all [] snapshots)))
