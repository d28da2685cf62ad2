-- ===== src/Webhooks/Tests.antt =====
-- A delivery, another one, and the first again.
use incident_intelligence_pl.Prelude.{◌≡◌, refl, true, [], ◌∷◌, str_eq, if◌then◌else◌}
use incident_intelligence_pl.Prelude.Dicts
use incident_intelligence_pl.Failure.{ok, err, idempotency_conflict}
use incident_intelligence_pl.Schemas.{EventBundle, Priority, TicketSource}
use incident_intelligence_pl.Webhooks.{
  WebhookDeliveryRecord, InMemoryWebhookDeliveryStore, RequestHashing, request_hash, new_delivery,
  record_webhook_delivery, deliver_locked, get_delivery,
}
use incident_intelligence_pl.Webhooks.Replay.{Call, call, calls, record_webhook_delivery-replay}

abbrev bundle : EventBundle
bundle = record {
  correlation_id = "corr-1";
  ticket = record {
    ticket_id = "TCK-1";
    subject = "Webhook";
    description = "A delivery that is sent twice.";
    priority = Priority.high;
    source = TicketSource.helpdesk;
    requester_role = "analyst";
    created_at = 4;
    tags = [];
  };
  logs = [];
}

abbrev by_name : RequestHashing
by_name = record { canonical_request = λ r. r.destination_name; sha256 = λ s. s }

abbrev sent : Call
sent = record {
  key = "key-0001";
  request = record { destination_name = "pager"; event_type = "incident"; payload = bundle };
  uuid4_hex = "a";
  status_code = 202;
}

abbrev other : Call
other = record {
  key = "key-0002";
  request = record { destination_name = "mail"; event_type = "incident"; payload = bundle };
  uuid4_hex = "b";
  status_code = 503;
}

abbrev no_deliveries : InMemoryWebhookDeliveryStore
no_deliveries = record { records_by_key = []; request_hash_by_key = [] }

abbrev receipt : WebhookDeliveryRecord
receipt = new_delivery "a" "key-0001" sent.request 202

delivered_first : (call by_name sent no_deliveries).0 ≡ ok receipt
unfolding record_webhook_delivery deliver_locked get_delivery Dicts.get
delivered_first = refl

record_webhook_delivery-replay_example :
    call by_name sent (calls by_name (other ∷ []) (call by_name sent no_deliveries).1) ≡ (
      if str_eq (request_hash by_name sent.request) (request_hash by_name sent.request)
      then (
        ok (record receipt { duplicate = true }),
        calls by_name (other ∷ []) (call by_name sent no_deliveries).1,
      )
      else (
        err idempotency_conflict,
        calls by_name (other ∷ []) (call by_name sent no_deliveries).1,
      ))
record_webhook_delivery-replay_example =
    record_webhook_delivery-replay by_name sent sent receipt (other ∷ []) no_deliveries
      delivered_first refl
