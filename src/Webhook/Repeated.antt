-- ===== src/Webhook/Repeated.antt =====
-- A delivery that comes twice.
use recoup_ai.Base.{
  ℕ, ◌≡◌, ◌≢◌, refl, sym, ◌∙◌, ap, inl, inr, true, false, Option, some, List, [], ◌∷◌, String,
  ◌=s=◌, map, Unique, Bool-cases,
}
use recoup_ai.Base.Errors.{ok}
use recoup_ai.Domain.Models.Rows.{AuditRow}
use recoup_ai.Executor.Sessions.{find_link}
use recoup_ai.Executor.Stored.{ArmDir, Reconciled, mark_link_paid}
use recoup_ai.Executor.Reconcile.{reconcile_payment}
use recoup_ai.Executor.Reconcile.Applied.{reconcile_payment-Applied, write_payment-Written}
use recoup_ai.Executor.Reconcile.Repeated.{reconcile_payment-repeated}
use recoup_ai.Webhook.{
  Delivery, reconciled, or_empty, sessions, write_arm, reported, razorpay_webhook,
}
use recoup_ai.Webhook.Delivered.{some-injective, find_link-again, write_arm-here, write_arm-other}
use recoup_ai.Webhook.Safe.{ActsOn, acts, razorpay_webhook-IsSafe}

write_arm-again :
    (path : String) (a : ArmDir) (runs : List (String × ArmDir))
    → write_arm path a (write_arm path a runs) ≡ write_arm path a runs
write_arm-again path a [] = unfold write_arm in refl
write_arm-again path a ((p, x) ∷ rest) = elim (Bool-cases (p =s= path)) [
  | inl q ↦
      let e = write_arm-here path p a x rest q in
      ap (write_arm path a) e ∙ write_arm-here path p a a rest q ∙ sym e
  | inr q ↦
      let e = write_arm-other path p a x rest q in
      ap (write_arm path a) e
      ∙ write_arm-other path p a x (write_arm path a rest) q
      ∙ ap (λ r. (p, x) ∷ r) (write_arm-again path a rest)
      ∙ sym e
]

module _ (resolve_phrase : String → ℕ → Option ℕ) (row_hash : AuditRow → String)
    (hmac : String → String → String) (loads : String → Option Delivery) where
  -- The link of a delivery after its payment, and the same payment.
  acts_again :
      (secret body signature : String) (runs : List (String × ArmDir)) (res : Reconciled)
      (after : List (String × ArmDir))
      (a : ActsOn resolve_phrase row_hash hmac loads secret body signature runs res after)
      (again : Reconciled)
      → Unique (map (λ x. x.0) runs)
      → res.already_applied ≡ false
      → reconcile_payment resolve_phrase row_hash a.dir_after (reported a.delivery a.link)
        ≡ ok (again, a.dir_after)
      → ActsOn resolve_phrase row_hash hmac loads secret body signature after again after
  unfolding reported
  acts_again secret body signature runs res after a again u fresh answered =
      let p = reported a.delivery a.link in
      let e =
        reconcile_payment-Applied resolve_phrase row_hash a.dir p res a.dir_after a.applied fresh in
      let w =
        write_payment-Written resolve_phrase row_hash a.dir p e.run e.replayed e.paid res
          a.dir_after e.writes in
      let k = or_empty a.delivery.link_id in
      record {
        configured = a.configured;
        verified = a.verified;
        delivery = a.delivery;
        parsed = a.parsed;
        handled = a.handled;
        path = a.path;
        dir = a.dir_after;
        session = mark_link_paid k a.session;
        link = record a.link { status = "paid" };
        found =
            ap (λ r. find_link (sessions r) k) a.written
            ∙ find_link-again runs k a.path a.dir a.dir_after a.session a.link u a.found
                w.session_file;
        dir_after = a.dir_after;
        applied = answered;
        written =
            a.written
            ∙ sym (write_arm-again a.path a.dir_after runs)
            ∙ ap (write_arm a.path a.dir_after) (sym a.written);
      }

  -- A delivery that comes twice: where the first was acted on and its payment, which has an id, was
  -- not applied before, the second is answered with the row that recorded the payment and with the
  -- state that the record was left in, and no arm on disk changes. No path is there twice.
  pub razorpay_webhook-repeated :
      (secret body signature : String) (runs : List (String × ArmDir)) (res : Reconciled)
      (after : List (String × ArmDir)) (d : Delivery)
      → Unique (map (λ x. x.0) runs)
      → loads body ≡ some d
      → or_empty d.payment_id ≢ ""
      → razorpay_webhook resolve_phrase row_hash hmac loads secret body signature runs
        ≡ (reconciled res, after)
      → res.already_applied ≡ false
      → (again : Reconciled) × (razorpay_webhook resolve_phrase row_hash hmac loads secret body
            signature after
          ≡ (reconciled again, after))
        × (again.already_applied ≡ true)
        × (again.row_id ≡ res.row_id)
        × (again.state_after ≡ res.state_after)
  razorpay_webhook-repeated secret body signature runs res after d u parsed named h fresh =
      let act =
        (razorpay_webhook-IsSafe resolve_phrase row_hash hmac loads secret body signature
            runs).acted
          res (ap (λ x. x.0) h) in
      let a : ActsOn resolve_phrase row_hash hmac loads secret body signature runs res after =
        rw⁻¹ (ap (λ x. x.1) h) act in
      let same = some-injective _ _ (sym a.parsed ∙ parsed) in
      let (again, answered, applied, row, state) =
        reconcile_payment-repeated resolve_phrase row_hash a.dir (reported a.delivery a.link) res
          a.dir_after a.applied fresh
          (unfold reported in λ e. named (ap (λ x. or_empty x.payment_id) (sym same) ∙ e)) in
      (
        again,
        acts resolve_phrase row_hash hmac loads secret body signature after again after
            (acts_again secret body signature runs res after a again u fresh answered),
        applied,
        row,
        state,
      )
