-- ===== src/Policy/Rules.antt =====
-- src/recoup/policy/rules: the eleven rules and their fixed order.
mod Contact
mod Routing
unfoldable pub use Contact.*
unfoldable pub use Routing.*
use recoup_ai.Base.{List, [], ◌∷◌}
use recoup_ai.Policy.Context.{Rule}

abbrev pub rule_order : List Rule
rule_order =
    nothing_outstanding ∷ visible_dispute ∷ batch_cluster_suppression ∷ rbi_contact_hours
    ∷ trai_promotional_window ∷ trai_message_category ∷ payer_contact_frequency
    ∷ payer_contact_spacing ∷ invoice_link_cap ∷ link_budget ∷ high_value_escalation ∷ []
