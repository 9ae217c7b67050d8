-- ===== src/Executor/Fake.antt =====
-- src/recoup/executor/fake_razorpay.py: the client of rehearsals, which creates nothing.
use Prim.Native.String.{◌++◌ as ◌+s+◌, slice, len}
use recoup_ai.Base.{◌-◌, ℕ, Option, none, some, List, ◌∷◌, [], ◌++◌, String}
use recoup_ai.Executor.Live.{LinkPayload, CreatedLink, ClientAnswer}

-- `_ID_CHARS`
abbrev id_chars : ℕ
id_chars = 14

-- `FakePaymentLinkClient`; `fail_with` is the text of the exception it is to raise.
pub record FakeClient : Type 0 where
  pub calls : List LinkPayload
  pub created : List CreatedLink
  pub fail_with : Option String

module _ (hexdigest : String → String) where
  -- `_deterministic_id`
  unfoldable pub deterministic_id : String → String → String
  deterministic_id prefix seed = prefix +s+ slice (hexdigest seed) 0 id_chars

  -- The fields of the entity that the executor reads; `short_url` ends in the last ten characters
  -- of the id.
  unfoldable pub entity : LinkPayload → CreatedLink
  unfolding deterministic_id
  entity payload =
      let link_id = deterministic_id "plink_" payload.reference_id in
      record {
        id = some link_id;
        reference_id = some payload.reference_id;
        short_url = some ("https://rzp.io/i/" +s+ slice link_id (len link_id - 10) (len link_id));
        status = some "created";
      }

  -- What a call answers, once it is noted.
  unfoldable pub answer_call : FakeClient → LinkPayload → Option String → ClientAnswer × FakeClient
  unfolding entity
  answer_call c payload (some text) = (ClientAnswer.raised text, c)
  answer_call c payload none = (
    ClientAnswer.created (entity payload),
    record c { created = c.created ++ entity payload ∷ [] },
  )

  -- `FakePaymentLinkClient.create`
  unfoldable pub fake_create : FakeClient → LinkPayload → ClientAnswer × FakeClient
  unfolding answer_call
  fake_create c payload =
      answer_call (record c { calls = c.calls ++ payload ∷ [] }) payload c.fail_with
