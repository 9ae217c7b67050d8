-- ===== src/Ledger/Adjudicator/World.antt =====
-- One world for every arm of a comparison: what the payers do unasked is drawn from the record's
-- own terms, whatever was done about it.
use recoup_ai.Base.{ℕ, ◌≡◌, refl}
use recoup_ai.Domain.Models.Invoices.{Invoice}
use recoup_ai.Ledger.Adjudicator.{Platform, partial_amount, resolve_spontaneous}

-- Two states of one bill: the same terms and the same money paid so far.
pub record IsSameBill (r s : Invoice) : Type 0 where
  pub id : r.invoice_id ≡ s.invoice_id
  pub archetype : r.payer_archetype ≡ s.payer_archetype
  pub due : r.due_on ≡ s.due_on
  pub bill : r.amount_paise ≡ s.amount_paise
  pub paid : r.recovered_paise ≡ s.recovered_paise

module _ (m : Platform) (seed : ℕ) where
  -- What a payer does unasked at a tick is the same for two states of one bill with the same money
  -- paid, whatever contacts, promises, reviews or states the two have behind them.
  pub resolve_spontaneous_shared :
      (r s : Invoice) (tick : ℕ)
      → IsSameBill r s
      → resolve_spontaneous m seed r tick ≡ resolve_spontaneous m seed s tick
  unfolding resolve_spontaneous partial_amount
  resolve_spontaneous_shared r s tick h = rw (h.id, h.archetype, h.due, h.bill, h.paid) refl
