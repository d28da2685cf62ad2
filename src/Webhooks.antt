-- ===== src/Webhooks.antt =====
-- webhooks.py: the receipts of webhook deliveries. The canonical JSON dump of a request and SHA-256
-- are arguments, and so is the identifier that a call draws. The lock makes each call one step.
pub mod Replay
mod Tests
use incident_intelligence_pl.Prelude.{
  ℕ, ◌||◌, ◌&&◌, String, Bool, true, false, Option, none, some, List, [], ◌∷◌, concat, leb, ◌==◌,
  str_eq, if◌then◌else◌,
}
use incident_intelligence_pl.Prelude.Dicts
use incident_intelligence_pl.Prelude.Dicts.{Dict}
use incident_intelligence_pl.Failure.{idempotency_conflict, Result, ok, err}
use incident_intelligence_pl.Schemas.{EventBundle}

pub data WebhookDeliveryStatus : Type 0 where
  delivered retry_pending failed : WebhookDeliveryStatus

pub record WebhookDeliveryRequest : Type 0 where
  pub destination_name : String
  pub event_type : String
  pub payload : EventBundle

pub record WebhookDeliveryRecord : Type 0 where
  pub delivery_id : String
  pub idempotency_key : String
  pub destination_name : String
  pub event_type : String
  pub status : WebhookDeliveryStatus
  pub attempt_count : ℕ
  pub duplicate : Bool
  pub next_retry_after_seconds : Option ℕ

pub record InMemoryWebhookDeliveryStore : Type 0 where
  pub records_by_key : Dict WebhookDeliveryRecord
  pub request_hash_by_key : Dict String

-- `json.dumps(request.model_dump(…), …)` and `sha256(…).hexdigest()`
pub record RequestHashing : Type 0 where
  pub canonical_request : WebhookDeliveryRequest → String
  pub sha256 : String → String

unfoldable pub request_hash : RequestHashing → WebhookDeliveryRequest → String
request_hash h request = h.sha256 (h.canonical_request request)

-- `_status_from_code`
unfoldable pub status_from_code : ℕ → WebhookDeliveryStatus
status_from_code status_code =
    if leb 200 status_code && leb status_code 299
    then delivered
    else if (status_code == 408 || (status_code == 425 || status_code == 429))
        || (leb 500 status_code && leb status_code 599)
    then retry_pending
    else failed

abbrev pub retry_after : WebhookDeliveryStatus → Option ℕ
retry_after delivered = none
retry_after retry_pending = some 30
retry_after failed = none

-- `get` and `save` of the store
unfoldable pub get_delivery : String → InMemoryWebhookDeliveryStore → Option WebhookDeliveryRecord
get_delivery idempotency_key store = Dicts.get idempotency_key store.records_by_key

unfoldable pub save_delivery :
    WebhookDeliveryRecord → InMemoryWebhookDeliveryStore → InMemoryWebhookDeliveryStore
save_delivery delivery store = record store {
  records_by_key = Dicts.put delivery.idempotency_key delivery store.records_by_key;
}

-- The receipt of a request that is delivered for the first time.
unfoldable pub new_delivery : String → String → WebhookDeliveryRequest → ℕ → WebhookDeliveryRecord
new_delivery uuid4_hex idempotency_key request status_code =
    let status = status_from_code status_code in
    record {
      delivery_id = concat ("whd_" ∷ uuid4_hex ∷ []);
      idempotency_key = idempotency_key;
      destination_name = request.destination_name;
      event_type = request.event_type;
      status = status;
      attempt_count = 1;
      duplicate = false;
      next_retry_after_seconds = retry_after status;
    }

-- `self._request_hash_by_key.get(idempotency_key) != request_hash`
abbrev pub same_hash : Option String → String → Bool
same_hash none hash = false
same_hash (some stored) hash = str_eq stored hash

unfoldable pub deliver_locked :
    Option WebhookDeliveryRecord
    → String
    → WebhookDeliveryRecord
    → InMemoryWebhookDeliveryStore
    → Result WebhookDeliveryRecord × InMemoryWebhookDeliveryStore
unfolding save_delivery
deliver_locked (some existing) hash delivery store =
    if same_hash (Dicts.get delivery.idempotency_key store.request_hash_by_key) hash
    then (ok (record existing { duplicate = true }), store)
    else (err idempotency_conflict, store)
deliver_locked none hash delivery store =
    let saved = save_delivery delivery store in
    (
      ok delivery,
      record saved {
        request_hash_by_key = Dicts.put delivery.idempotency_key hash saved.request_hash_by_key;
      },
    )

unfoldable pub record_webhook_delivery :
    RequestHashing
    → String
    → String
    → WebhookDeliveryRequest
    → ℕ
    → InMemoryWebhookDeliveryStore
    → Result WebhookDeliveryRecord × InMemoryWebhookDeliveryStore
unfolding deliver_locked get_delivery
record_webhook_delivery h uuid4_hex idempotency_key request status_code store =
    deliver_locked (get_delivery idempotency_key store) (request_hash h request)
      (new_delivery uuid4_hex idempotency_key request status_code) store
