-- ===== src/Executor/Sessions.antt =====
-- src/recoup/executor/session.py: the links that a live run created, by which a payment finds its
-- invoice. The file of a session is its value.
use recoup_ai.Base.{ℕ, Option, none, some, List, [], ◌∷◌, String, ◌=s=◌, if◌then◌else◌}
use recoup_ai.Domain.Enums.{Arm}

pub record LiveLink : Type 0 where
  pub payment_link_id : String
  pub reference_id : String
  pub short_url : String
  pub invoice_id : String
  pub run_id : String
  pub arm : Arm
  pub tick : ℕ
  pub amount_paise : ℕ
  pub status : String

pub record LiveSession : Type 0 where
  pub run_id : String
  pub arm : Arm
  pub key_id : String
  pub links : List LiveLink

-- `LiveSession.find`
unfoldable pub find_in : String → List LiveLink → Option LiveLink
find_in k [] = none
find_in k (l ∷ ls) = if l.payment_link_id =s= k then some l else find_in k ls

-- `find_link`, over the sessions on disk in the order of their paths.
unfoldable pub find_link :
    {D : Type 0} → List (D × LiveSession) → String → Option (D × (LiveSession × LiveLink))
unfolding find_in
find_link [] k = none
find_link ((d, session) ∷ rest) k = elim (find_in k session.links) [
  | some l ↦ some (d, (session, l))
  | none ↦ find_link rest k
]

-- `link.status = "paid"` on the link that `find` returns.
unfoldable pub mark_paid : String → List LiveLink → List LiveLink
mark_paid k [] = []
mark_paid k (l ∷ ls) =
    let rest = mark_paid k ls in
    if l.payment_link_id =s= k then record l { status = "paid" } ∷ ls else l ∷ rest
