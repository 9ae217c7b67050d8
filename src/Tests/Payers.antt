-- ===== src/Tests/Payers.antt =====
-- The seeded adjudicator on a platform whose hash is the length of the hashed text and whose powers
-- are its bases.
use Prim.Native.String.{len}
use recoup_ai.Base.{◌+◌, ◌-◌, ◌*◌, ◌^◌, ◌<◌, ◌≡◌, refl, some, List, [], ◌∷◌, true, false}
use recoup_ai.Base.Doubles.{
  Double, one, literal, of_nat, minus, times, over, truncate, round_ratio, nearest, excess_digits,
}
use recoup_ai.Base.Decimal.{decimal}
use recoup_ai.Base.Errors.{Error, err}
use recoup_ai.Domain.Enums.{Arm, Intervention, OutcomeKind, RecordState}
use recoup_ai.Domain.Interventions.{is_contact}
use recoup_ai.Domain.Models.Invoices.{Invoice, outstanding_paise}
use recoup_ai.Domain.Models.Rows.{OutcomeRecord}
use recoup_ai.Ledger.Clock.{virtual_date}
use recoup_ai.Ledger.Payers.{profiles}
use recoup_ai.Ledger.Adjudicator.{
  Platform, draw_key, uniform, per_tick, overdue_multiplier, partial_amount, resolve_spontaneous,
  resolve_response,
}
use recoup_ai.Ledger.Adjudicator.Amounts.{IsPart, partial_amount-IsPart}
use recoup_ai.Ledger.Adjudicator.Answers.{
  Settles, Prices, resolve_response_lem, resolve_spontaneous_lem,
}
use recoup_ai.Ledger.Adjudicator.World.{resolve_spontaneous_shared}
use recoup_ai.Policy.Engine.{PolicyEngine}
use recoup_ai.Runner.Batch.{Collaborators}
use recoup_ai.Runner.Batch.Replayed.{IsAccountable}
use recoup_ai.Runner.Batch.Governed.{with_engine}
use recoup_ai.Runner.Batch.Simulated.{with_adjudicator, simulated-IsAccountable}
use recoup_ai.Tests.Data.{by_9999, bill, book, engine, collaborators}

abbrev add_all : List Double → Double
add_all [] = 0
add_all (x ∷ xs) = x + add_all xs

abbrev pub platform : Platform
platform = record { pow = λ x y. x; blake2b = λ s. len s * 2 ^ 58; sum = add_all }

key_example : draw_key 42 "inv_1" 108 "response" ≡ "42|inv_1|108|response"
unfolding draw_key decimal
key_example = refl

abbrev open_bill : Invoice
open_bill = bill "inv_1" 250000

-- The same bill after a promise and a review.
abbrev chased_bill : Invoice
chased_bill = record open_bill {
  state = RecordState.promised;
  promise_phrase = some "by Friday";
  promise_due_tick = some 20;
  next_review_tick = 24;
}

abbrev own_payment : OutcomeRecord
own_payment = record {
  kind = OutcomeKind.paid_full;
  amount_paise = 250000;
  detail = "settled on the payer's own cycle, unprompted";
}

pays_unasked : resolve_spontaneous platform 1 open_bill 0 ≡ some own_payment
unfolding resolve_spontaneous uniform per_tick overdue_multiplier profiles literal of_nat minus
    times over round_ratio nearest excess_digits one draw_key decimal virtual_date
pays_unasked = refl

part_example : partial_amount platform 1 open_bill 0 250000 ≡ 115000
unfolding partial_amount uniform of_nat times over truncate round_ratio nearest excess_digits one
    draw_key decimal
part_example = refl

resolve_spontaneous_lem_example :
    (0 < outstanding_paise open_bill) × Settles (outstanding_paise open_bill) own_payment
resolve_spontaneous_lem_example =
    resolve_spontaneous_lem platform 1 open_bill 0 own_payment pays_unasked

resolve_response_lem_example :
    (is_contact Intervention.payment_link ≡ true
      → Prices platform 1 open_bill
          (resolve_response platform 1 open_bill 4 Intervention.payment_link 5))
    × (is_contact Intervention.payment_link ≡ false
        → resolve_response platform 1 open_bill 4 Intervention.payment_link 5
          ≡ err Error.value_error)
resolve_response_lem_example =
    resolve_response_lem platform 1 open_bill 4 Intervention.payment_link 5

resolve_spontaneous_shared_example :
    resolve_spontaneous platform 1 open_bill 0 ≡ resolve_spontaneous platform 1 chased_bill 0
resolve_spontaneous_shared_example =
    resolve_spontaneous_shared platform 1 open_bill chased_bill 0
      (record { id = refl; archetype = refl; due = refl; bill = refl; paid = refl })

partial_amount-IsPart_example : IsPart 250000 (partial_amount platform 1 open_bill 0 250000)
partial_amount-IsPart_example = partial_amount-IsPart platform 1 open_bill 0 250000

abbrev gated : Collaborators (PolicyEngine × Unit)
gated = collaborators

simulated-IsAccountable_example :
    IsAccountable
      (with_engine (with_adjudicator platform 1 gated))
      book
      "run_1"
      Arm.agent
      6
      (engine, tt)
simulated-IsAccountable_example =
    simulated-IsAccountable platform 1 gated book "run_1" Arm.agent 6 (engine, tt)
      (λ w r i tick. (_, refl)) by_9999

-- A draw of the largest digest is rounded up to 1.0.
largest_draw : uniform (record platform { blake2b = λ s. 2 ^ 64 - 1 }) 1 "inv_1" 0 "amount" ≡ one
unfolding uniform over of_nat round_ratio nearest excess_digits one draw_key decimal
largest_draw = refl
