-- ===== src/Webhook/Safe.antt =====
-- What the receiver does with any delivery.
use recoup_ai.Base.{
  ℕ, ◌≡◌, refl, sym, ap, inl, inr, Bool, true, false, Option, none, some, List, String, ◌=s=◌,
  Bool-cases,
}
use recoup_ai.Base.Errors.{Error, Result, ok, err}
use recoup_ai.Domain.Models.Rows.{AuditRow}
use recoup_ai.Executor.Sessions.{LiveLink, LiveSession, find_link}
use recoup_ai.Executor.Signature.{verify_webhook_signature}
use recoup_ai.Executor.Stored.{ArmDir, Reconciled}
use recoup_ai.Executor.Reconcile.{reconcile_payment}
use recoup_ai.Webhook.{
  Delivery, Answer, reconciled, or_empty, handled_event, sessions, write_arm, reported,
  answer_error, answer_payment, answer_located, answer_event, razorpay_webhook,
}

-- Whether an answer says that a payment was reconciled.
abbrev is_reconciled : Answer → Bool
is_reconciled (reconciled r) = true
is_reconciled _ = false

error_unreconciled : (e : Error) → is_reconciled (answer_error e) ≡ false
error_unreconciled Error.refused = refl
error_unreconciled _ = refl

reconciled-injective : (a b : Reconciled) → reconciled a ≡ reconciled b → a ≡ b
reconciled-injective a b e = cc

module _ (resolve_phrase : String → ℕ → Option ℕ) (row_hash : AuditRow → String)
    (hmac : String → String → String) (loads : String → Option Delivery) where
  -- A delivery that has been acted on: it is signed under a secret, it reports the one event that is
  -- handled, some arm's file names its link, and the payment was applied to that arm and to no other.
  pub record ActsOn (secret body signature : String) (runs : List (String × ArmDir))
      (res : Reconciled) (after : List (String × ArmDir)) : Type 0 where
    pub configured : (secret =s= "") ≡ false
    pub verified : verify_webhook_signature hmac body signature secret ≡ true
    pub delivery : Delivery
    pub parsed : loads body ≡ some delivery
    pub handled : (or_empty delivery.event =s= handled_event) ≡ true
    pub path : String
    pub dir : ArmDir
    pub session : LiveSession
    pub link : LiveLink
    pub found :
        find_link (sessions runs) (or_empty delivery.link_id) ≡ some ((path, dir), (session, link))
    pub dir_after : ArmDir
    pub applied :
        reconcile_payment resolve_phrase row_hash dir (reported delivery link) ≡ ok (res, dir_after)
    pub written : after ≡ write_arm path dir_after runs

  pub acts :
      (secret body signature : String) (runs : List (String × ArmDir)) (res : Reconciled)
      (after : List (String × ArmDir))
      → ActsOn secret body signature runs res after
      → razorpay_webhook resolve_phrase row_hash hmac loads secret body signature runs
        ≡ (reconciled res, after)
  unfolding razorpay_webhook answer_event answer_located answer_payment
  acts secret body signature runs res after a =
      rw (a.configured, a.verified, a.parsed, a.handled, a.found, a.applied)
        (ap (λ r. (reconciled res, r)) (sym a.written))

  -- What an answer and the arms after it may be.
  pub record IsSafe (secret body signature : String) (runs : List (String × ArmDir)) (a : Answer)
      (after : List (String × ArmDir)) : Type 0 where
    pub unchanged : is_reconciled a ≡ false → after ≡ runs
    pub acted :
        (res : Reconciled) → a ≡ reconciled res → ActsOn secret body signature runs res after

  -- An answer that reconciles nothing, and changes nothing.
  refuses :
      (secret body signature : String) (runs : List (String × ArmDir)) (a : Answer)
      → is_reconciled a ≡ false
      → IsSafe secret body signature runs a runs
  refuses secret body signature runs a n = record {
    unchanged = λ h. refl;
    acted = λ res e. cc (n, ap is_reconciled e);
  }

  module _ (secret body signature : String) (runs : List (String × ArmDir))
      (configured : (secret =s= "") ≡ false)
      (verified : verify_webhook_signature hmac body signature secret ≡ true) where
    paid-IsSafe :
        (d : Delivery) (path : String) (dir : ArmDir) (s : LiveSession) (l : LiveLink)
        (m : Result (Reconciled × ArmDir))
        → loads body ≡ some d
        → (or_empty d.event =s= handled_event) ≡ true
        → find_link (sessions runs) (or_empty d.link_id) ≡ some ((path, dir), (s, l))
        → reconcile_payment resolve_phrase row_hash dir (reported d l) ≡ m
        → IsSafe secret body signature runs
            (answer_payment runs path m).0
            (answer_payment runs path m).1
    unfolding answer_payment
    paid-IsSafe d path dir s l (err e) p h f q =
        refuses secret body signature runs (answer_error e) (error_unreconciled e)
    paid-IsSafe d path dir s l (ok (res, after)) p h f q = record {
      unchanged = λ n. cc n;
      acted = λ res' e. rw (sym (reconciled-injective res res' e)) (record {
        configured = configured;
        verified = verified;
        delivery = d;
        parsed = p;
        handled = h;
        path = path;
        dir = dir;
        session = s;
        link = l;
        found = f;
        dir_after = after;
        applied = q;
        written = refl;
      });
    }

    located-IsSafe :
        (d : Delivery) (o : Option ((String × ArmDir) × (LiveSession × LiveLink)))
        → loads body ≡ some d
        → (or_empty d.event =s= handled_event) ≡ true
        → find_link (sessions runs) (or_empty d.link_id) ≡ o
        → IsSafe secret body signature runs
            (answer_located resolve_phrase row_hash runs d o).0
            (answer_located resolve_phrase row_hash runs d o).1
    unfolding answer_located
    located-IsSafe d none p h f = refuses secret body signature runs _ refl
    located-IsSafe d (some ((path, dir), (s, l))) p h f =
        paid-IsSafe d path dir s l (reconcile_payment resolve_phrase row_hash dir (reported d l)) p
          h f refl

    event-IsSafe :
        (o : Option Delivery)
        → loads body ≡ o
        → IsSafe secret body signature runs
            (answer_event resolve_phrase row_hash runs o).0
            (answer_event resolve_phrase row_hash runs o).1
    unfolding answer_event
    event-IsSafe none p = refuses secret body signature runs _ refl
    event-IsSafe (some d) p = elim (Bool-cases (or_empty d.event =s= handled_event)) [
      | inl q ↦ rw q (located-IsSafe d (find_link (sessions runs) (or_empty d.link_id)) p q refl)
      | inr q ↦ rw q (refuses secret body signature runs _ refl)
    ]

  -- Whatever is sent to the receiver: the arms on disk stay as they are, unless the delivery is
  -- signed under a secret that is set, reports the one event that is handled, and names a link that
  -- some arm's file has; then the payment has been applied to the first such arm and to no other.
  pub razorpay_webhook-IsSafe :
      (secret body signature : String) (runs : List (String × ArmDir))
      → let result =
          razorpay_webhook resolve_phrase row_hash hmac loads secret body signature runs in
        IsSafe secret body signature runs result.0 result.1
  unfolding razorpay_webhook
  razorpay_webhook-IsSafe secret body signature runs = elim (Bool-cases (secret =s= "")) [
    | inl q ↦ rw q (refuses secret body signature runs _ refl)
    | inr q ↦ elim (Bool-cases (verify_webhook_signature hmac body signature secret)) [
      | inr v ↦ rw (q, v) (refuses secret body signature runs _ refl)
      | inl v ↦ rw (q, v) (event-IsSafe secret body signature runs q v (loads body) refl)
    ]
  ]
