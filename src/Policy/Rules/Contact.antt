-- ===== src/Policy/Rules/Contact.antt =====
-- src/recoup/policy/rules: the rules on when, how often and as what a payer may be contacted.
use recoup_ai.Base.{
  ℕ, zero, suc, ◌+◌, ◌-◌, Bool, false, ◌&&◌, ◌||◌, not, Option, none, some, List, [], ◌∷◌, max, leb,
  ltb, filter, length, get_last?, if◌then◌else◌,
}
use recoup_ai.Base.Errors.{Result, ok}
use recoup_ai.Domain.Enums.{MessageCategory, category_eq}
use recoup_ai.Domain.Interventions.{spec, is_contact}
use recoup_ai.Domain.Models.Proposals.{PolicyVerdict, LlmProposal, DraftedMessage, Explanation}
use recoup_ai.Ledger.Clock.{hour_of_day}
use recoup_ai.Policy.Context.{Rule, RuleContext, payer_contact_ticks, veto}
use recoup_ai.Policy.Sources

-- `while not allowed(candidate): candidate += 1`, for as many rounds as the fuel.
unfoldable pub next_allowed : (ℕ → Bool) → ℕ → ℕ → ℕ
next_allowed allowed zero candidate = candidate
next_allowed allowed (suc fuel) candidate =
    let rest = next_allowed allowed fuel (candidate + 1) in
    if allowed candidate then candidate else rest

-- `8 <= hour <= 19`
unfoldable pub in_contact_hours : ℕ → Bool
in_contact_hours tick = leb 8 (hour_of_day tick) && leb (hour_of_day tick) 19

-- `10 <= hour < 21`
unfoldable pub in_promotional_band : ℕ → Bool
in_promotional_band tick = leb 10 (hour_of_day tick) && ltb (hour_of_day tick) 21

-- `_next_allowed_tick` of each window; a day has four ticks, so four rounds are enough.
unfoldable pub next_contact_tick : ℕ → ℕ
unfolding next_allowed
next_contact_tick tick = next_allowed in_contact_hours 4 (tick + 1)

unfoldable pub next_promotional_tick : ℕ → ℕ
unfolding next_allowed
next_promotional_tick tick = next_allowed in_promotional_band 4 (tick + 1)

unfoldable pub rbi_contact_hours_check : RuleContext → Result (Option PolicyVerdict)
rbi_contact_hours_check ctx =
    if not (is_contact ctx.current) || in_contact_hours ctx.tick
    then ok none
    else veto ctx Sources.rbi_contact_hours
        (Explanation.outside_contact_hours (hour_of_day ctx.tick))
        (some (next_contact_tick ctx.tick))

abbrev pub rbi_contact_hours : Rule
rbi_contact_hours = record { rule_id = "rbi-contact-hours"; check = rbi_contact_hours_check }

abbrev draft_of : Option LlmProposal → Option DraftedMessage
draft_of none = none
draft_of (some p) = p.drafted_message

-- `ctx.llm_proposal.drafted_message if ctx.llm_proposal is not None else None`
abbrev pub drafted : RuleContext → Option DraftedMessage
drafted ctx = draft_of ctx.llm_proposal

abbrev is_promotional : Option DraftedMessage → Bool
is_promotional none = false
is_promotional (some d) = category_eq d.category MessageCategory.promotional

unfoldable pub has_promotional_draft : RuleContext → Bool
has_promotional_draft ctx = is_promotional (drafted ctx)

unfoldable pub trai_promotional_window_check : RuleContext → Result (Option PolicyVerdict)
trai_promotional_window_check ctx =
    if not (is_contact ctx.current)
      || (not (has_promotional_draft ctx) || in_promotional_band ctx.tick)
    then ok none
    else veto ctx Sources.trai_time_bands (Explanation.promotional_off_band (hour_of_day ctx.tick))
        (some (next_promotional_tick ctx.tick))

abbrev pub trai_promotional_window : Rule
trai_promotional_window = record {
  rule_id = "trai-promotional-window";
  check = trai_promotional_window_check;
}

-- The rule's tests, on the draft and the category that the intervention must carry.
unfoldable pub category_verdict :
    RuleContext → Option DraftedMessage → Option MessageCategory → Result (Option PolicyVerdict)
category_verdict ctx none expected = ok none
category_verdict ctx (some d) none = ok none
category_verdict ctx (some d) (some expected) =
    if category_eq d.category expected
    then ok none
    else veto ctx Sources.trai_message_category
        (Explanation.wrong_category d.category ctx.current expected) none

unfoldable pub trai_message_category_check : RuleContext → Result (Option PolicyVerdict)
unfolding category_verdict
trai_message_category_check ctx =
    category_verdict ctx (drafted ctx) (spec ctx.current).correct_category

abbrev pub trai_message_category : Rule
trai_message_category = record {
  rule_id = "trai-message-category";
  check = trai_message_category_check;
}

-- `[tick for tick in ctx.payer_contact_ticks() if tick >= floor]`
unfoldable pub qualifying : RuleContext → List ℕ
qualifying ctx =
    filter (λ t. leb (ctx.tick - ctx.config.contact_window_ticks) t) (payer_contact_ticks ctx)

unfoldable pub frequency_defer : RuleContext → List ℕ → ℕ
frequency_defer ctx (first ∷ _) = max (ctx.tick + 1) (first + ctx.config.contact_window_ticks + 1)
frequency_defer ctx [] = ctx.tick + max 1 ctx.config.contact_window_ticks

unfoldable pub payer_contact_frequency_check : RuleContext → Result (Option PolicyVerdict)
unfolding frequency_defer
payer_contact_frequency_check ctx =
    if not (is_contact ctx.current)
    then ok none
    else if ltb (length (qualifying ctx)) ctx.config.max_contacts_per_payer
    then ok none
    else veto ctx Sources.merchant_policy (Explanation.contacts_in_window (length (qualifying ctx)))
        (some (frequency_defer ctx (qualifying ctx)))

abbrev pub payer_contact_frequency : Rule
payer_contact_frequency = record {
  rule_id = "payer-contact-frequency";
  check = payer_contact_frequency_check;
}

-- `ctx.tick - last_tick >= spacing` over the integers is `last_tick + spacing <= ctx.tick`.
unfoldable pub spacing_verdict : RuleContext → Option ℕ → Result (Option PolicyVerdict)
spacing_verdict ctx none = ok none
spacing_verdict ctx (some last_tick) =
    if leb (last_tick + ctx.config.min_contact_spacing_ticks) ctx.tick
    then ok none
    else veto ctx Sources.merchant_policy Explanation.contacted_too_recently
        (some (max (ctx.tick + 1) (last_tick + ctx.config.min_contact_spacing_ticks)))

unfoldable pub payer_contact_spacing_check : RuleContext → Result (Option PolicyVerdict)
unfolding spacing_verdict
payer_contact_spacing_check ctx =
    if not (is_contact ctx.current)
    then ok none
    else spacing_verdict ctx (get_last? (payer_contact_ticks ctx))

abbrev pub payer_contact_spacing : Rule
payer_contact_spacing = record {
  rule_id = "payer-contact-spacing";
  check = payer_contact_spacing_check;
}
