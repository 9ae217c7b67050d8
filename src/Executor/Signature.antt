-- ===== src/Executor/Signature.antt =====
-- src/recoup/executor/signature.py: which deliveries are taken for the service's own. HMAC-SHA256 in
-- hex is the parameter `hmac`; `compare_digest` is equality of texts.
use Prim.Native.String.{◌++◌ as ◌+s+◌}
use recoup_ai.Base.{
  Bool, false, ◌||◌, Option, none, some, List, [], ◌∷◌, String, ◌=s=◌, if◌then◌else◌,
}

-- `params[key]`, from a mapping as its list of pairs.
unfoldable pub param : String → List (String × String) → Option String
param k [] = none
param k ((j, v) ∷ rest) = if j =s= k then some v else param k rest

abbrev pub callback_fields : List String
callback_fields =
    "payment_link_id" ∷ "payment_link_reference_id" ∷ "payment_link_status" ∷ "razorpay_payment_id"
    ∷ []

-- `f"{value}|{message}"`, where both are there.
abbrev piped : Option String → Option String → Option String
piped (some v) (some m) = some (v +s+ ("|" +s+ m))
piped _ _ = none

-- `"|".join(...)` over the fields; none where one is missing.
unfoldable pub joined : List String → List (String × String) → Option String
unfolding param
joined [] params = some ""
joined (k ∷ []) params = param k params
joined (k ∷ j ∷ ks) params = piped (param k params) (joined (j ∷ ks) params)

module _ (hmac : String → String → String) where
  -- `expected_signature`
  abbrev pub expected_signature : String → String → String
  expected_signature payload secret = hmac secret payload

  unfoldable pub verify_webhook_signature : String → String → String → Bool
  verify_webhook_signature body signature secret =
      if (signature =s= "") || (secret =s= "")
      then false
      else expected_signature body secret =s= signature

  -- The comparison, where the message is there.
  abbrev signed : Option String → String → String → Bool
  signed none signature secret = false
  signed (some message) signature secret = expected_signature message secret =s= signature

  -- `params.get("razorpay_signature", "")`
  abbrev given_signature : Option String → String
  given_signature none = ""
  given_signature (some s) = s

  unfoldable pub verify_payment_link_callback : List (String × String) → String → Bool
  unfolding joined
  verify_payment_link_callback params key_secret =
      let signature = given_signature (param "razorpay_signature" params) in
      if (signature =s= "") || (key_secret =s= "")
      then false
      else signed (joined callback_fields params) signature key_secret
