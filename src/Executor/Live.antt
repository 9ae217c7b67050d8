-- ===== src/Executor/Live.antt =====
-- src/recoup/executor/live_razorpay.py: the executor that creates real payment links. The client is
-- one operation over a state `C` of the service's; a call that raises is a text of the exception.
-- The digest of a run id (`blake2b(...).hexdigest()`) is the parameter `hexdigest`.
pub mod Booked
pub mod Spending
use Prim.Native.String.{◌++◌ as ◌+s+◌, slice}
use recoup_ai.Base.{
  ℕ, Bool, true, false, not, ◌||◌, Option, none, some, List, [], ◌∷◌, ◌++◌, String, ltb, ◌==◌,
  ◌=s=◌, if◌then◌else◌,
}
use recoup_ai.Base.Decimal.{decimal}
use recoup_ai.Base.Errors.{Error, Result, ok, err, ◌>>=◌, ◌>>◌, raise_if}
use recoup_ai.Base.Substrings.{begins_with}
use recoup_ai.Domain.Enums.{Arm, ExecutorKind, Intervention}
use recoup_ai.Domain.Interventions.{spec}
use recoup_ai.Domain.Models.Invoices.{Invoice, outstanding_paise}
use recoup_ai.Runner.Batch.{ExecutionResult, not_executed}
use recoup_ai.Executor.Budget.{LinkAllocator, may_spend, spend}
use recoup_ai.Executor.Sessions.{LiveLink, LiveSession}

abbrev pub min_link_paise : ℕ
min_link_paise = 100

abbrev pub reference_digest_chars : ℕ
reference_digest_chars = 8

-- `link_payload`'s dictionary; `notify` and `reminder_enable` are false in each.
pub record LinkPayload : Type 0 where
  pub amount : ℕ
  pub currency : String
  pub description : String
  pub reference_id : String
  pub notify_sms : Bool
  pub notify_email : Bool
  pub reminder_enable : Bool
  pub note_invoice_id : String
  pub note_run_id : String
  pub note_tick : String
  pub callback_url : Option String
  pub callback_method : Option String

-- What the service answers: the fields that are read of it.
pub record CreatedLink : Type 0 where
  pub id : Option String
  pub reference_id : Option String
  pub short_url : Option String
  pub status : Option String

pub data ClientAnswer : Type 0 where
  created : CreatedLink → ClientAnswer
  raised : String → ClientAnswer

-- `str(created.get(key) or default)`
abbrev pub text_or : Option String → String → String
text_or none d = d
text_or (some s) d = if s =s= "" then d else s

-- `payload["callback_url"] = callback_url`, if there is one; the method goes with it.
abbrev callback : Option String → Option String
callback none = none
callback (some url) = if url =s= "" then none else some url

abbrev callback_with : Option String → Option String
callback_with none = none
callback_with (some url) = if url =s= "" then none else some "get"

-- `RazorpayPaymentLinkClient.__init__`: the key of a client that is accepted.
unfoldable pub accept_key : String → String → Result String
unfolding begins_with
accept_key key_id key_secret = do
  raise_if ((key_id =s= "") || (key_secret =s= "")) Error.value_error
  raise_if (not (begins_with key_id "rzp_test_")) Error.value_error
  ok key_id

-- `LiveRazorpayExecutor`'s fields that a call changes, with the client's state.
pub record LiveExecutor (C : Type 0) : Type 0 where
  pub allocator : LinkAllocator
  pub session : LiveSession
  pub failures : List String
  pub client : C

-- `_read_link`; `none` where it raises.
unfoldable pub read_link : LiveSession → CreatedLink → Invoice → ℕ → Option LiveLink
unfolding begins_with
read_link session answer r tick =
    let payment_link_id = text_or answer.id "" in
    if not (begins_with payment_link_id "plink_")
    then none
    else some (record {
      payment_link_id = payment_link_id;
      reference_id = text_or answer.reference_id "";
      short_url = text_or answer.short_url "";
      invoice_id = r.invoice_id;
      run_id = session.run_id;
      arm = session.arm;
      tick = tick;
      amount_paise = outstanding_paise r;
      status = text_or answer.status "created";
    })

abbrev pub live_result : String → ExecutionResult
live_result payment_link_id = record {
  kind = ExecutorKind.live;
  external_ref = some payment_link_id;
}

module _ {C : Type 0} where
  -- `LiveRazorpayExecutor.__init__`
  abbrev pub new_executor : C → LinkAllocator → String → Arm → String → LiveExecutor C
  new_executor client allocator run_id arm key_id = record {
    allocator = allocator;
    session = record { run_id = run_id; arm = arm; key_id = key_id; links = [] };
    failures = [];
    client = client;
  }

  -- What follows the validated answer: a failure is noted, a link takes its unit of the budget.
  unfoldable pub book :
      LiveExecutor C → Invoice → Option LiveLink → ExecutionResult × LiveExecutor C
  book e r none = (not_executed, record e { failures = e.failures ++ r.invoice_id ∷ [] })
  book e r (some link) = (
    live_result link.payment_link_id,
    record e {
      allocator = (spend e.allocator r.invoice_id).1;
      session = record e.session { links = e.session.links ++ link ∷ [] };
    },
  )

  unfoldable pub receive :
      LiveExecutor C → Invoice → ℕ → ClientAnswer → ExecutionResult × LiveExecutor C
  unfolding book read_link
  receive e r tick (ClientAnswer.raised text) = book e r none
  receive e r tick (ClientAnswer.created answer) = book e r (read_link e.session answer r tick)

  module _ (hexdigest : String → String) (create : C → LinkPayload → ClientAnswer × C)
      (run_id : String) (callback_url : Option String) where
    unfoldable pub reference_id : String → ℕ → String
    reference_id invoice_id tick =
        invoice_id
        +s+ ("-t"
            +s+ (decimal tick +s+ ("-" +s+ slice (hexdigest run_id) 0 reference_digest_chars)))

    unfoldable pub link_payload : Invoice → ℕ → LinkPayload
    unfolding reference_id
    link_payload r tick = record {
      amount = outstanding_paise r;
      currency = "INR";
      description = "Recoup test-mode recovery link for invoice " +s+ r.invoice_id;
      reference_id = reference_id r.invoice_id tick;
      notify_sms = false;
      notify_email = false;
      reminder_enable = false;
      note_invoice_id = r.invoice_id;
      note_run_id = run_id;
      note_tick = decimal tick;
      callback_url = callback callback_url;
      callback_method = callback_with callback_url;
    }

    -- `LiveRazorpayExecutor.perform`
    unfoldable pub live_perform :
        LiveExecutor C → Invoice → Intervention → ℕ → ExecutionResult × LiveExecutor C
    unfolding link_payload receive
    live_perform e r i tick =
        let called = create e.client (link_payload r tick) in
        if (spec i).api_units == 0
        then (not_executed, e)
        else if ltb (outstanding_paise r) min_link_paise
        then (not_executed, e)
        else if not (may_spend e.allocator r.invoice_id)
        then (not_executed, e)
        else receive (record e { client = called.1 }) r tick called.0
