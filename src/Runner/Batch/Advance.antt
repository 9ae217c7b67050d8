-- ===== src/Runner/Batch/Advance.antt =====
-- The invariant of a run and what it takes for a step to keep it. A step of the loop advances a
-- run when it returns, keeps the invariant and loses no record.
use recoup_ai.Base.{
  ℕ, ◌≡◌, refl, sym, ap, ◌∙◌, true, false, Option, none, some, List, [], ◌∷◌, ◌++◌, String, length,
  length-append, All, All-map,
}
use recoup_ai.Base.Errors.{Result, ok, ◌>>=◌}
use recoup_ai.Domain.Enums.{Intervention}
use recoup_ai.Domain.Interventions.{is_contact}
use recoup_ai.Domain.Models.Invoices.{Invoice}
use recoup_ai.Domain.Models.Proposals.{PolicyVerdict, Proposal}
use recoup_ai.Domain.Models.Rows.{OutcomeRecord}
use recoup_ai.Ledger.Records.{Ledger, get, not_later}
use recoup_ai.Ledger.Records.Lookup.{knows}
use recoup_ai.Audit.Log.{RowContent, next_row, append}
use recoup_ai.Audit.Log.Chain.{IsIntact, append-IsIntact}
use recoup_ai.Audit.Replay.{ReplayResult, apply_row, replay_rows, start}
use recoup_ai.Audit.Replay.Rows.{replay_rows-snoc}
use recoup_ai.Runner.Batch.{ExecutionResult, Pending, Collaborators, Run, each, final_of}

-- A verdict that refuses defers, if at all, to a later tick; one that lets pass defers nothing.
abbrev pub IsTimely : ℕ → Option ℕ → Option Intervention → Type 0
IsTimely tick d none = not_later d tick ≡ false
IsTimely tick d (some i) = d ≡ none

-- What the loop needs of its collaborators: the gate, if there is one, always answers, with a
-- verdict of that form; the adjudicator answers for every contact, and the executor returns.
pub record IsReliable {W : Type 0} (c : Collaborators W) : Type 0 where
  pub gate_answers :
      (f : W → Invoice → Proposal → ℕ → Ledger → Result (PolicyVerdict × W)) (w : W) (r : Invoice)
      (p : Proposal) (tick : ℕ) (l : Ledger)
      → c.policy ≡ some f
      → (v : PolicyVerdict) × (w' : W) × (f w r p tick l ≡ ok (v, w'))
        × IsTimely tick v.defer_to_tick (final_of p (some v))
  pub response_answers :
      (r : Invoice) (tick : ℕ) (i : Intervention) (contacts : ℕ)
      → is_contact i ≡ true
      → (o : OutcomeRecord) × (c.resolve_response r tick i contacts ≡ ok o)
  pub executor_returns :
      (w : W) (r : Invoice) (i : Intervention) (tick : ℕ)
      → (done : ExecutionResult × W) × (c.perform w r i tick ≡ ok done)

module _ {W : Type 0} (c : Collaborators W) (records : List Invoice) where
  -- What the replay of the run's rows must give.
  abbrev pub replayed : Run W → ReplayResult
  replayed run = record {
    ledger = run.ledger;
    rows_applied = length run.log.rows;
    contacts = run.contacts;
    api_units = run.api_units;
    vetoed = run.vetoed;
  }

  -- A pending response is of a known record and to a contact.
  abbrev pub IsAwaited : Ledger → Pending → Type 0
  IsAwaited l p = (knows l p.record_id ≡ true) × (is_contact p.intervention ≡ true)

  pub record IsTracked (run : Run W) : Type 0 where
    pub intact : IsIntact c.row_hash run.log
    pub tracks :
        replay_rows c.resolve_promise_phrase (start records) run.log.rows ≡ ok (replayed run)
    pub awaits : All (IsAwaited run.ledger) run.pending

  pub record Advances (run : Run W) (m : Result (Run W)) : Type 0 where
    pub next : Run W
    pub returns : m ≡ ok next
    pub tracked : IsTracked next
    pub remembers : (k : String) → knows run.ledger k ≡ true → knows next.ledger k ≡ true

  pub stays : (run : Run W) → IsTracked run → Advances run (ok run)
  stays run t = record { next = run; returns = refl; tracked = t; remembers = λ k h. h }

  -- Two steps, the second from wherever the first leads.
  pub then-Advances :
      {run : Run W} {m : Result (Run W)} (f : Run W → Result (Run W)) (a : Advances run m)
      → Advances a.next (f a.next)
      → Advances run (m >>= f)
  then-Advances f a b = record {
    next = b.next;
    returns = rw a.returns b.returns;
    tracked = b.tracked;
    remembers = λ k h. b.remembers k (a.remembers k h);
  }

  -- A loop over items that stay known advances if each turn does.
  pub each-Advances {ℓ} :
      {A : Type ℓ} (id : A → String) (ok_for : A → Type 0) (f : A → Run W → Result (Run W))
      (xs : List A) (run : Run W)
      → ((x : A) (s : Run W)
          → ok_for x
          → knows s.ledger (id x) ≡ true
          → IsTracked s
          → Advances s (f x s))
      → All (λ x. (knows run.ledger (id x) ≡ true) × ok_for x) xs
      → IsTracked run
      → Advances run (each f xs run)
  unfolding each
  each-Advances id ok_for f [] run turn a t = stays run t
  each-Advances id ok_for f (x ∷ xs) run turn a t =
      let first = turn x run a.0.1 a.0.0 t in
      then-Advances (each f xs) first (
        each-Advances id ok_for f xs first.next turn
          (All-map xs (λ y h. (first.remembers (id y) h.0, h.1)) a.1) first.tracked)

  -- A step that appends one row advances, if replaying that row from the run before gives the run
  -- after and its pending responses are known.
  pub logs_advance :
      (run next : Run W) (row : RowContent) (r : Invoice)
      → IsTracked run
      → next.log ≡ append c.row_hash run.log row
      → get run.ledger row.record_id ≡ ok r
      → apply_row c.resolve_promise_phrase (replayed run) r (next_row run.log row) row.kind
        ≡ ok (record (replayed next) { rows_applied = length run.log.rows })
      → All (IsAwaited next.ledger) next.pending
      → ((k : String) → knows run.ledger k ≡ true → knows next.ledger k ≡ true)
      → Advances run (ok next)
  unfolding next_row
  logs_advance run next row r t e g a w m =
      let q : next.log.rows ≡ run.log.rows ++ next_row run.log row ∷ [] =
        ap (λ l. l.rows) e ∙ unfold append in refl in
      record {
        next = next;
        returns = refl;
        tracked = record {
          intact = rw e (append-IsIntact c.row_hash run.log row t.intact);
          tracks = rw q (
              replay_rows-snoc c.resolve_promise_phrase (start records) (replayed run)
                (record (replayed next) { rows_applied = length run.log.rows }) run.log.rows
                (next_row run.log row) r t.tracks g a
              ∙ ap (λ n. ok (record (replayed next) { rows_applied = n }))
                  (sym (length-append run.log.rows (next_row run.log row ∷ []))));
          awaits = w;
        };
        remembers = m;
      }
