-- ===== src/Offboarding/Tests.antt =====
-- Two access attempts after a disablement, in either order and one of them twice.
use incident_intelligence_pl.Prelude.{List, [], ◌∷◌, inl, inr}
use incident_intelligence_pl.Schemas.{Priority, TicketSource}
use incident_intelligence_pl.Offboarding.{
  AccessEvent, OffboardingFixture, allowed, denied, adapt_offboarding_fixture,
}
use incident_intelligence_pl.Offboarding.Order.{
  AgreesUpToMessage, with_events, adapt_offboarding_fixture-order,
}

abbrev refused : AccessEvent
refused = record {
  event_id = "evt-2";
  observed_at = 2000;
  synthetic_user_id = "synthetic-user-1";
  synthetic_endpoint_id = "synthetic-endpoint-1";
  result = denied;
}

abbrev admitted : AccessEvent
admitted = record {
  event_id = "evt-3";
  observed_at = 1500;
  synthetic_user_id = "synthetic-user-1";
  synthetic_endpoint_id = "synthetic-endpoint-1";
  result = allowed;
}

abbrev two : List AccessEvent
two = refused ∷ admitted ∷ []

abbrev repeated : List AccessEvent
repeated = admitted ∷ refused ∷ admitted ∷ []

abbrev fixture : OffboardingFixture
fixture = record {
  correlation_id = "corr-1";
  ticket = record {
    ticket_id = "TCK-1";
    subject = "Offboarding";
    description = "Access after the account was disabled.";
    priority = Priority.high;
    source = TicketSource.helpdesk;
    requester_role = "analyst";
    created_at = 4;
    tags = [];
  };
  identity = record {
    event_id = "evt-1";
    synthetic_user_id = "synthetic-user-1";
    disabled_at = 1000;
  };
  endpoint = record {
    synthetic_endpoint_id = "synthetic-endpoint-1";
    assigned_synthetic_user_id = "synthetic-user-1";
  };
  access_events = two;
}

adapt_offboarding_fixture-order_example :
    AgreesUpToMessage
      (adapt_offboarding_fixture (with_events fixture two))
      (adapt_offboarding_fixture (with_events fixture repeated))
adapt_offboarding_fixture-order_example =
    adapt_offboarding_fixture-order fixture two repeated
      (λ e i. elim i [ inl p ↦ inr (inl p) | inr j ↦ elim j [ inl p ↦ inl p | inr k ↦ absurd k ] ])
      (λ e i. elim i [
        | inl p ↦ inr (inl p)
        | inr j ↦ elim j [
          | inl p ↦ inl p
          | inr k ↦ elim k [ inl p ↦ inr (inl p) | inr l ↦ absurd l ]
        ]
      ])
