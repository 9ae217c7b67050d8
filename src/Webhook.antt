-- ===== src/Webhook.antt =====
-- webhook/app.py: `razorpay_webhook`, which verifies a delivery and reconciles the payment that it
-- reports. The arms on disk are their paths with their files, in the order of the paths. The parser
-- of a body (`json.loads`) is the parameter `loads`; HMAC-SHA256 in hex is the parameter `hmac`.
pub mod Delivered
pub mod Safe
pub mod Repeated
use recoup_ai.Base.{
  ℕ, Bool, true, false, not, Option, none, some, List, [], ◌∷◌, String, ◌==◌, ◌=s=◌, if◌then◌else◌,
}
use recoup_ai.Base.Errors.{Error, Result, ok, err}
use recoup_ai.Domain.Models.Rows.{AuditRow}
use recoup_ai.Executor.Sessions.{LiveLink, LiveSession, find_link}
use recoup_ai.Executor.Signature.{verify_webhook_signature}
use recoup_ai.Executor.Stored.{Payment, Reconciled, ArmDir}
use recoup_ai.Executor.Reconcile.{reconcile_payment}

-- The fields of a parsed body that are read, those left out being `none`.
pub record Delivery : Type 0 where
  pub event : Option String
  pub link_id : Option String
  pub payment_id : Option String
  pub amount : Option ℕ
  pub amount_paid : Option ℕ
  pub created_at : Option String

-- The answers, by their status codes: 503, 401, 400, 200, 404, 409 and 200. An exception that is
-- not caught is the framework's to answer.
pub data Answer : Type 0 where
  no_secret unverified not_json : Answer
  ignored : String → Answer
  unknown_link : String → Answer
  conflict : Answer
  reconciled : Reconciled → Answer
  raised : Error → Answer

-- `.get(..., "")`
abbrev pub or_empty : Option String → String
or_empty none = ""
or_empty (some s) = s

-- `a or b`, on amounts; 0 is false.
abbrev or_amount : Option ℕ → ℕ → ℕ
or_amount none m = m
or_amount (some n) m = if n == 0 then m else n

abbrev pub handled_event : String
handled_event = "payment_link.paid"

abbrev pub amount_paise : Delivery → ℕ
amount_paise d = or_amount d.amount (or_amount d.amount_paid 0)

-- An arm before the others, if it has a file of live links.
abbrev pub listed :
    String × ArmDir
    → Option LiveSession
    → List ((String × ArmDir) × LiveSession)
    → List ((String × ArmDir) × LiveSession)
listed arm none others = others
listed arm (some s) others = (arm, s) ∷ others

-- The files of live links on disk.
unfoldable pub sessions : List (String × ArmDir) → List ((String × ArmDir) × LiveSession)
sessions [] = []
sessions ((path, dir) ∷ rest) = listed (path, dir) dir.session (sessions rest)

-- The arm at a path, with other files.
unfoldable pub write_arm : String → ArmDir → List (String × ArmDir) → List (String × ArmDir)
write_arm path dir [] = []
write_arm path dir ((p, d) ∷ rest) =
    let others = write_arm path dir rest in if p =s= path then (p, dir) ∷ rest else (p, d) ∷ others

-- The arguments of `reconcile_payment`.
unfoldable pub reported : Delivery → LiveLink → Payment
reported d link = record {
  invoice_id = link.invoice_id;
  payment_id = or_empty d.payment_id;
  payment_link_id = or_empty d.link_id;
  amount_paise = amount_paise d;
  received_at = or_empty d.created_at;
}

-- `except ReconcileRefused`
abbrev answer_error : Error → Answer
answer_error Error.refused = conflict
answer_error e = raised e

unfoldable pub answer_payment :
    List (String × ArmDir) → String → Result (Reconciled × ArmDir) → Answer × List (String × ArmDir)
unfolding write_arm
answer_payment runs path (ok (result, dir)) = (reconciled result, write_arm path dir runs)
answer_payment runs path (err e) = (answer_error e, runs)

module _ (resolve_phrase : String → ℕ → Option ℕ) (row_hash : AuditRow → String) where
  -- `located`
  unfoldable pub answer_located :
      List (String × ArmDir)
      → Delivery
      → Option ((String × ArmDir) × (LiveSession × LiveLink))
      → Answer × List (String × ArmDir)
  unfolding reported answer_payment
  answer_located runs d none = (unknown_link (or_empty d.link_id), runs)
  answer_located runs d (some ((path, dir), (session, link))) =
      answer_payment runs path (reconcile_payment resolve_phrase row_hash dir (reported d link))

  -- `event`
  unfoldable pub answer_event :
      List (String × ArmDir) → Option Delivery → Answer × List (String × ArmDir)
  unfolding answer_located sessions
  answer_event runs none = (not_json, runs)
  answer_event runs (some d) =
      if or_empty d.event =s= handled_event
      then answer_located runs d (find_link (sessions runs) (or_empty d.link_id))
      else (ignored (or_empty d.event), runs)

  module _ (hmac : String → String → String) (loads : String → Option Delivery) where
    -- `razorpay_webhook`: the answer, and the arms on disk after it.
    unfoldable pub razorpay_webhook :
        String → String → String → List (String × ArmDir) → Answer × List (String × ArmDir)
    unfolding answer_event
    razorpay_webhook secret body signature runs =
        if secret =s= ""
        then (no_secret, runs)
        else if not (verify_webhook_signature hmac body signature secret)
        then (unverified, runs)
        else answer_event runs (loads body)
