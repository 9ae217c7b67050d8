-- ===== src/Runner/Live/Choices.antt =====
-- The decisions of a tick keep two passes alike, if the proposer is steady.
use recoup_ai.Base.{ℕ, ◌+◌, ◌≡◌, refl, ◌∙◌, ap, Bool, true, false, Option, none, some, ◌++◌, ◌++◌}
use recoup_ai.Base.Errors.{Result, ok, err, ◌>>=◌}
use recoup_ai.Domain.Enums.{Intervention}
use recoup_ai.Domain.Interventions.{is_contact}
use recoup_ai.Domain.Models.Invoices.{Invoice, Snapshot, to_snapshot}
use recoup_ai.Domain.Models.Proposals.{PolicyVerdict, Proposal}
use recoup_ai.Ledger.Clock.{virtual_date}
use recoup_ai.Ledger.Records.{Ledger, store, due_for_review, record_action}
use recoup_ai.Audit.Replay.{deferral}
use recoup_ai.Executor.Simulated.{Executor, Returns}
use recoup_ai.Runner.Batch.{ExecutionResult, Collaborators, Run, final_of}
use recoup_ai.Runner.Batch.Decisions.{gate, act, decide, take_decisions, perform, awaited}
use recoup_ai.Runner.Live.{Parts, assemble, policy_beside}
use recoup_ai.Runner.Live.Alike.{Alike, then-Alike, call-Alike, append-SameLog, Same, loop-Alike}
use recoup_ai.Runner.Live.Steps.{turn-Alike}

module _ {P G E F : Type 0} (parts : Parts P G) (ex : Executor E) (fx : Executor F) where
  -- The collaborators of the two passes.
  abbrev rehearsing : Collaborators (G × (P × E))
  rehearsing = assemble parts ex

  abbrev acting : Collaborators (G × (P × F))
  acting = assemble parts fx

  -- The answers of a gate that sees only its own state.
  SameAnswer : Option PolicyVerdict × (G × (P × E)) → Option PolicyVerdict × (G × (P × F)) → Type 0
  SameAnswer a b = (a.0 ≡ b.0) × (a.1.0 ≡ b.1.0)

  -- The gate's own state with the rest, and its verdict as one that there is.
  abbrev kept : {X : Type 0} → X → PolicyVerdict × G → Result (PolicyVerdict × (G × X))
  kept x a = ok (a.0, (a.1, x))

  abbrev shown : {X : Type 0} → PolicyVerdict × (G × X) → Result (Option PolicyVerdict × (G × X))
  shown b = ok (some b.0, b.1)

  SameAnswer-Alike :
      (n : Result (PolicyVerdict × G)) (x : P × E) (y : P × F)
      → Alike SameAnswer ((n >>= kept x) >>= shown) ((n >>= kept y) >>= shown)
  unfolding SameAnswer
  SameAnswer-Alike (err e) x y = refl
  SameAnswer-Alike (ok a) x y = (refl, refl)

  answer-Alike :
      (m n : Result (PolicyVerdict × G)) (x : P × E) (y : P × F)
      → m ≡ n
      → Alike SameAnswer ((m >>= kept x) >>= shown) ((n >>= kept y) >>= shown)
  answer-Alike m n x y e = rw e (SameAnswer-Alike n x y)

  gate-Alike :
      (policy : Option (G → Invoice → Proposal → ℕ → Ledger → Result (PolicyVerdict × G)))
      (w : G × (P × E)) (v : G × (P × F)) (r : Invoice) (p : Proposal) (tick : ℕ) (l n : Ledger)
      → w.0 ≡ v.0
      → l ≡ n
      → Alike SameAnswer
          (gate rehearsing (policy_beside policy) w r p tick l)
          (gate acting (policy_beside policy) v r p tick n)
  unfolding gate SameAnswer
  gate-Alike none w v r p tick l n h e = (refl, h)
  gate-Alike (some g) w v r p tick l n h e =
      answer-Alike (g w.0 r p tick l) (g v.0 r p tick n) w.1 v.1
        (ap (λ x. g x r p tick l) h ∙ ap (λ x. g v.0 r p tick x) e)

  -- What two executors did, whatever was real of it.
  SameWorld : ExecutionResult × (G × (P × E)) → ExecutionResult × (G × (P × F)) → Type 0
  SameWorld a b = a.1.0 ≡ b.1.0

  module _ (rehearses : Returns ex) (executes : Returns fx) where
    perform-Alike :
        (w : G × (P × E)) (v : G × (P × F)) (r : Invoice) (i : Intervention) (tick : ℕ) (b : Bool)
        → w.0 ≡ v.0
        → Alike SameWorld (perform rehearsing w r i tick b) (perform acting v r i tick b)
    unfolding perform SameWorld
    perform-Alike w v r i tick true h =
        let (done, e) = rehearses w.1.1 r i tick in
        let (other, f) = executes v.1.1 r i tick in rw (e, f) h
    perform-Alike w v r i tick false h = h

    act-Alike :
        (r : Invoice) (s : Snapshot) (p : Proposal) (v : Option PolicyVerdict) (tick : ℕ)
        (final : Option Intervention) (run : Run (G × (P × E))) (other : Run (G × (P × F)))
        → Same run other
        → Alike Same (act rehearsing r s p v tick final run) (act acting r s p v tick final other)
    unfolding act SameWorld
    act-Alike r s p v tick none run other h =
        call-Alike Same (record_action r p.intervention tick false (deferral v)) _ _ (λ a. record {
          ledger = ap (λ l. store l a.0) h.ledger;
          log = append-SameLog parts.row_hash run.log other.log _ _ h.log refl;
          contacts = h.contacts;
          api_units = h.api_units;
          vetoed = ap (λ n. n + 1) h.vetoed;
          decisions = h.decisions;
          written_off = h.written_off;
          pending = h.pending;
          gate = h.gate;
        })
    act-Alike r s p v tick (some i) run other h =
        then-Alike {R = SameWorld} Same (perform rehearsing run.world r i tick (is_contact i))
          (perform acting other.world r i tick (is_contact i)) _ _
          (perform-Alike run.world other.world r i tick (is_contact i) h.gate)
          (λ x y k. call-Alike Same (record_action r i tick true none) _ _ (λ a. record {
            ledger = ap (λ l. store l a.0) h.ledger;
            log = append-SameLog parts.row_hash run.log other.log _ _ h.log refl;
            contacts = ap (λ n. n + a.1.contact_units) h.contacts;
            api_units = ap (λ n. n + a.1.api_units) h.api_units;
            vetoed = h.vetoed;
            decisions = h.decisions;
            written_off = h.written_off;
            pending =
                ap (λ l. run.pending ++ awaited acting l r i tick) h.ledger
                ∙ ap (λ ps. ps ++ awaited acting other.ledger r i tick) h.pending;
            gate = k;
          }))

    verdict-Alike :
        (r : Invoice) (s : Snapshot) (p : Proposal) (tick : ℕ) (v x : Option PolicyVerdict)
        (run : Run (G × (P × E))) (other : Run (G × (P × F)))
        → v ≡ x
        → Same run other
        → Alike Same
            (act rehearsing r s p v tick (final_of p v) run)
            (act acting r s p x tick (final_of p x) other)
    verdict-Alike r s p tick v x run other e h =
        rw e (act-Alike r s p x tick (final_of p x) run other h)

    -- What follows a proposal: the gate, and what its verdict leads to.
    decided-Alike :
        (r : Invoice) (s : Snapshot) (p q : Proposal) (tick : ℕ) (w : G × (P × E)) (v : G × (P × F))
        (run : Run (G × (P × E))) (other : Run (G × (P × F)))
        → p ≡ q
        → w.0 ≡ v.0
        → Same run other
        → Alike Same
            (gate rehearsing (policy_beside parts.policy) w r p tick run.ledger >>= λ a.
              act rehearsing r s p a.0 tick
                (final_of p a.0)
                (record run { decisions = run.decisions + 1; world = a.1 }))
            (gate acting (policy_beside parts.policy) v r q tick other.ledger >>= λ a.
              act acting r s q a.0 tick
                (final_of q a.0)
                (record other { decisions = other.decisions + 1; world = a.1 }))
    unfolding SameAnswer
    decided-Alike r s p q tick w v run other e g h = rw e (
        then-Alike Same (gate rehearsing (policy_beside parts.policy) w r q tick run.ledger)
          (gate acting (policy_beside parts.policy) v r q tick other.ledger) _ _
          (gate-Alike parts.policy w v r q tick run.ledger other.ledger g h.ledger)
          (λ a b k. verdict-Alike r s q tick a.0 b.0 _ _ k.0 (record {
            ledger = h.ledger;
            log = h.log;
            contacts = h.contacts;
            api_units = h.api_units;
            vetoed = h.vetoed;
            decisions = ap (λ n. n + 1) h.decisions;
            written_off = h.written_off;
            pending = h.pending;
            gate = k.1;
          })))

    -- A proposer whose proposals depend on the snapshot and the tick alone.
    module _
        (steady : (p q : P) (s : Snapshot) (tick : ℕ)
          → (parts.propose p s tick).0 ≡ (parts.propose q s tick).0) where
      decide-Alike :
          (tick : ℕ) (listed : Invoice) (run : Run (G × (P × E))) (other : Run (G × (P × F)))
          → Same run other
          → Alike Same (decide rehearsing tick listed run) (decide acting tick listed other)
      unfolding decide
      decide-Alike tick listed run other h =
          turn-Alike parts ex fx listed.invoice_id run other _ _ h (λ r.
            let s = to_snapshot r (virtual_date tick) tick in
            decided-Alike r s _ _ tick _ _ run other (steady run.world.1.0 other.world.1.0 s tick)
              h.gate h)

      pub take_decisions-Alike :
          (tick : ℕ) (run : Run (G × (P × E))) (other : Run (G × (P × F)))
          → Same run other
          → Alike Same (take_decisions rehearsing tick run) (take_decisions acting tick other)
      unfolding take_decisions
      take_decisions-Alike tick run other h =
          loop-Alike (decide rehearsing tick) (decide acting tick) (due_for_review run.ledger tick)
            (due_for_review other.ledger tick) run other (decide-Alike tick)
            (ap (λ l. due_for_review l tick) h.ledger) h
