-- ===== src/Tests/Proposals.antt =====
-- The deterministic proposers on the snapshot of one bill.
use recoup_ai.Base.{ℕ, ◌+◌, ◌≡◌, ◌≤◌, ◌<◌, refl, some, none, true, false, String, ℤ}
use recoup_ai.Base.Errors.{ok}
use recoup_ai.Domain.Enums.{Intervention, RecordState}
use recoup_ai.Domain.Interventions.{is_contact}
use recoup_ai.Domain.Models.Invoices.{Snapshot, to_snapshot}
use recoup_ai.Policy.Context.{RuleContext}
use recoup_ai.Policy.Rules.{trai_message_category_check, has_promotional_draft}
use recoup_ai.Policy.Engine.{context}
use recoup_ai.Proposers.Naive.{max_attempts, naive_propose, naive_propose_lem}
use recoup_ai.Proposers.Fallback.{fallback_propose, fallback_propose_lem}
use recoup_ai.Tests.Data.{bill, engine, opening_ledger}

abbrev seen : Snapshot
seen = to_snapshot (bill "inv_1" 250000) 739720 9

naive_propose_lem_example :
    (is_contact (naive_propose seen 9).intervention ≡ true
      → (seen.contacts_made < max_attempts)
        × ((t : ℕ) → seen.last_contact_tick ≡ some t → t + 12 ≤ 9))
    × (max_attempts ≤ seen.contacts_made → (naive_propose seen 9).intervention ≡ Intervention.stop)
naive_propose_lem_example = naive_propose_lem seen 9

abbrev plain : String → String
plain k = k

abbrev terse : ℤ → ℕ → RecordState → String
terse days contacts state = "by the ladder"

abbrev fallback_context : RuleContext
fallback_context =
    context engine (bill "inv_1" 250000) (fallback_propose plain plain terse seen 9) 9
      opening_ledger

fallback_propose_lem_example :
    (trai_message_category_check fallback_context ≡ ok none)
    × (has_promotional_draft fallback_context ≡ false)
fallback_propose_lem_example =
    fallback_propose_lem plain plain terse seen 9 fallback_context (unfold context in refl)
      (unfold context in refl)
