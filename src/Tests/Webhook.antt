-- ===== src/Tests/Webhook.antt =====
-- The receiver, on a signed delivery of the payment of Tests/Payments.
use recoup_ai.Base.{◌≡◌, refl, true, Option, none, some, List, [], ◌∷◌, String}
use recoup_ai.Ledger.States.{is_terminal, state_after_outcome}
use recoup_ai.Ledger.Records.{init, get, record_outcome, transition, store}
use recoup_ai.Domain.Enums.{arm_eq, state_eq}
use recoup_ai.Audit.Log.{append, next_row, verify_chain, same_run, resume}
use recoup_ai.Audit.Replay.{replay}
use recoup_ai.Audit.Replay.Compare.{compare}
use recoup_ai.Executor.Stored.{ArmDir, Reconciled}
use recoup_ai.Executor.Signature.{verify_webhook_signature}
use recoup_ai.Executor.Sessions.{find_link}
use recoup_ai.Executor.Reconcile.{reconcile_payment}
use recoup_ai.Webhook.{Delivery, reconciled, handled_event, razorpay_webhook}
use recoup_ai.Webhook.Safe.{IsSafe, razorpay_webhook-IsSafe}
use recoup_ai.Webhook.Repeated.{razorpay_webhook-repeated}
use recoup_ai.Tests.Data.{numbered_hash}
use recoup_ai.Tests.Payments.{no_phrase, dir, paid_dir, answered, has_id}

-- A code that is the secret itself.
abbrev plain : String → String → String
plain secret payload = secret

abbrev delivery : Delivery
delivery = record {
  event = some handled_event;
  link_id = some "plink_1";
  payment_id = some "pay_1";
  amount = some 100000;
  amount_paid = none;
  created_at = none;
}

abbrev parse : String → Option Delivery
parse body = some delivery

abbrev arms : List (String × ArmDir)
arms = ("runs/run_1/agent", dir) ∷ []

abbrev arms_after : List (String × ArmDir)
arms_after = ("runs/run_1/agent", paid_dir) ∷ []

acted_on :
    razorpay_webhook no_phrase numbered_hash plain parse "key" "{}" "key" arms
    ≡ (reconciled answered, arms_after)
unfolding razorpay_webhook verify_webhook_signature find_link reconcile_payment append next_row init
    replay verify_chain same_run arm_eq get compare state_eq is_terminal record_outcome transition
    state_after_outcome resume store
acted_on = refl

razorpay_webhook-IsSafe_example :
    let result = razorpay_webhook no_phrase numbered_hash plain parse "key" "{}" "key" arms in
    IsSafe no_phrase numbered_hash plain parse "key" "{}" "key" arms result.0 result.1
razorpay_webhook-IsSafe_example =
    razorpay_webhook-IsSafe no_phrase numbered_hash plain parse "key" "{}" "key" arms

razorpay_webhook-repeated_example :
    (again : Reconciled) × (razorpay_webhook no_phrase numbered_hash plain parse "key" "{}" "key"
        arms_after
      ≡ (reconciled again, arms_after))
    × (again.already_applied ≡ true)
    × (again.row_id ≡ answered.row_id)
    × (again.state_after ≡ answered.state_after)
razorpay_webhook-repeated_example =
    razorpay_webhook-repeated no_phrase numbered_hash plain parse "key" "{}" "key" arms answered
      arms_after delivery (refl, tt) refl has_id acted_on refl
