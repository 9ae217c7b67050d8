-- ===== src/Policy/Sources.antt =====
-- src/recoup/policy/sources.py: the provenance of each rule.
use recoup_ai.Base.{
  ◌≡◌, refl, Bool, true, false, Option, none, some, List, [], ◌∷◌, filter, ◌&&◌, not,
}
use recoup_ai.Base.Errors.{ok}
use recoup_ai.Domain.Enums.{RuleKind}
use recoup_ai.Domain.Models.Proposals.{RuleSource, verification_matches_source_kind}

abbrev pub rbi_contact_hours : RuleSource
rbi_contact_hours = record {
  kind = RuleKind.regulatory;
  title =
      "RBI, Outsourcing of Financial Services - Responsibilities of regulated entities employing Recovery Agents";
  cited_date = some "2022-08-12";
  url = some "https://www.rbi.org.in/scripts/NotificationUser.aspx?Id=12378&Mode=0";
  verified = some true;
  scope_caveat =
      some
        "Binds banks, NBFCs, All-India Financial Institutions, co-operative banks and ARCs recovering OVERDUE LOANS. A merchant chasing its own trade receivables is not a regulated entity under this circular. Recoup adopts the 08:00-19:00 window as a standard, and does not claim it is legally bound by it.";
}

abbrev pub trai_time_bands : RuleSource
trai_time_bands = record {
  kind = RuleKind.regulatory;
  title =
      "TRAI, Telecom Commercial Communications Customer Preference Regulations, 2018 - Schedule III time bands";
  cited_date = some "2018-07-19";
  url = some "https://www.trai.gov.in/sites/default/files/2024-09/RegulationUcc19072018.pdf";
  verified = some true;
  scope_caveat =
      some
        "A default customer PREFERENCE, not a blanket prohibition, and it binds only promotional communication. Service, transactional and government messages are explicitly outside the BLOCK PROMO option. Recoup sends no promotional traffic, so this rule is wired and tested but does not fire on the seeded batch.";
}

abbrev pub trai_message_category : RuleSource
trai_message_category = record {
  kind = RuleKind.regulatory;
  title =
      "TRAI, Telecom Commercial Communications Customer Preference (Second Amendment) Regulations, 2025 - header category suffixes";
  cited_date = some "2025-02-12";
  url = some "https://www.trai.gov.in/sites/default/files/2025-02/Regulation_12022025.pdf";
  verified = some true;
  scope_caveat =
      some
        "Recoup does not send SMS through a DLT-registered header in this build, so the classification is checked rather than transmitted. The rule catches a proposal that would carry the wrong category if it were sent.";
}

abbrev pub merchant_policy : RuleSource
merchant_policy = record {
  kind = RuleKind.merchant;
  title = "Recoup merchant collections policy (configurable)";
  cited_date = none;
  url = none;
  verified = none;
  scope_caveat = none;
}

-- The values of `ALL_SOURCES`, in order.
abbrev pub all_sources : List RuleSource
all_sources = rbi_contact_hours ∷ trai_time_bands ∷ trai_message_category ∷ merchant_policy ∷ []

abbrev is_regulatory : RuleKind → Bool
is_regulatory RuleKind.regulatory = true
is_regulatory RuleKind.merchant = false

abbrev is_true : Option Bool → Bool
is_true (some true) = true
is_true _ = false

unfoldable pub unverified : List RuleSource
unverified = filter (λ s. is_regulatory s.kind && not (is_true s.verified)) all_sources

-- Each source passes the validator that its construction runs, and none is unverified.
sources_valid :
    (verification_matches_source_kind rbi_contact_hours ≡ ok rbi_contact_hours)
    × (verification_matches_source_kind trai_time_bands ≡ ok trai_time_bands)
    × (verification_matches_source_kind trai_message_category ≡ ok trai_message_category)
    × (verification_matches_source_kind merchant_policy ≡ ok merchant_policy)
    × (unverified ≡ [])
unfolding verification_matches_source_kind unverified
sources_valid = (refl, refl, refl, refl, refl)
