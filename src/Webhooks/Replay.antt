-- ===== src/Webhooks/Replay.antt =====
-- A delivery is recorded once: later calls with its key give its receipt again.
use incident_intelligence_pl.Prelude.{
  ℕ, ◌≡◌, refl, sym, subst, ap, ◌∙◌, String, Bool, true, false, Option, none, some, List, [], ◌∷◌,
  str_eq, eq_iff, eq_refl, arith, Option-cases, Bool-cases, inl, inr, if◌then◌else◌,
}
use incident_intelligence_pl.Prelude.Dicts
use incident_intelligence_pl.Failure.{idempotency_conflict, Result, ok, err}
use incident_intelligence_pl.Webhooks.{
  WebhookDeliveryRequest, WebhookDeliveryRecord, InMemoryWebhookDeliveryStore, RequestHashing,
  request_hash, new_delivery, get_delivery, save_delivery, same_hash, deliver_locked,
  record_webhook_delivery,
}

-- One call: its key, its request, the identifier it draws and the status code.
pub record Call : Type 0 where
  pub key : String
  pub request : WebhookDeliveryRequest
  pub uuid4_hex : String
  pub status_code : ℕ

abbrev pub call :
    RequestHashing
    → Call
    → InMemoryWebhookDeliveryStore
    → Result WebhookDeliveryRecord × InMemoryWebhookDeliveryStore
call h c store = record_webhook_delivery h c.uuid4_hex c.key c.request c.status_code store

unfoldable pub calls :
    RequestHashing → List Call → InMemoryWebhookDeliveryStore → InMemoryWebhookDeliveryStore
calls h [] store = store
calls h (c ∷ cs) store = calls h cs (call h c store).1

-- The store holds a receipt and a request hash under the key.
record Held (key : String) (old : WebhookDeliveryRecord) (hash : String)
    (store : InMemoryWebhookDeliveryStore) : Type 0 where
  receipt : Dicts.get key store.records_by_key ≡ some old
  stored : Dicts.get key store.request_hash_by_key ≡ some hash

call-Held :
    (h : RequestHashing) (key : String) (old : WebhookDeliveryRecord) (hash : String) (c : Call)
    (store : InMemoryWebhookDeliveryStore)
    → Held key old hash store
    → Held key old hash (call h c store).1
unfolding record_webhook_delivery deliver_locked get_delivery save_delivery new_delivery
call-Held h key old hash c store held = elim (Option-cases (Dicts.get c.key store.records_by_key)) [
  | inr (r, e) ↦ rw e (
      replayed (same_hash (Dicts.get c.key store.request_hash_by_key) (request_hash h c.request)) r)
  | inl e ↦ rw e record {
    receipt =
        Dicts.get-put c.key key _ store.records_by_key
        ∙ other _ _ (λ q. clash q e held.receipt)
        ∙ held.receipt;
    stored =
        Dicts.get-put c.key key (request_hash h c.request) store.request_hash_by_key
        ∙ other _ _ (λ q. clash q e held.receipt)
        ∙ held.stored;
  }
]
  where
    answer :
        Bool → WebhookDeliveryRecord → Result WebhookDeliveryRecord × InMemoryWebhookDeliveryStore
    answer b r =
        if b then (ok (record r { duplicate = true }), store) else (err idempotency_conflict, store)

    replayed : (b : Bool) (r : WebhookDeliveryRecord) → Held key old hash (answer b r).1
    replayed true r = held
    replayed false r = held

    clash :
        c.key ≡ key
        → Dicts.get c.key store.records_by_key ≡ none
        → Dicts.get key store.records_by_key ≡ some old
        → ⊥
    clash q e f = absurd (apart (sym e ∙ ap (λ k. Dicts.get k store.records_by_key) q ∙ f))
      where
        apart : none ≡ some old → ⊥
        apart p = cc

    other : {A : Type 0} (x y : A) → (c.key ≡ key → ⊥) → (if str_eq c.key key then x else y) ≡ y
    other x y n = elim (Bool-cases (str_eq c.key key)) [
      | inl e ↦ absurd (n ((eq_iff c.key key).0 e))
      | inr e ↦ rw e refl
    ]

calls-Held :
    (h : RequestHashing) (key : String) (old : WebhookDeliveryRecord) (hash : String)
    (cs : List Call) (store : InMemoryWebhookDeliveryStore)
    → Held key old hash store
    → Held key old hash (calls h cs store)
unfolding calls
calls-Held h key old hash [] store held = held
calls-Held h key old hash (c ∷ cs) store held =
    calls-Held h key old hash cs (call h c store).1 (call-Held h key old hash c store held)

-- The answer to a call whose key is held.
Held-call :
    (h : RequestHashing) (old : WebhookDeliveryRecord) (hash : String) (c : Call)
    (store : InMemoryWebhookDeliveryStore)
    → Held c.key old hash store
    → call h c store ≡ (
        if str_eq hash (request_hash h c.request)
        then (ok (record old { duplicate = true }), store)
        else (err idempotency_conflict, store))
unfolding record_webhook_delivery deliver_locked get_delivery new_delivery
Held-call h old hash c store held = rw (held.receipt, held.stored) refl

same_hash-eq : (o : Option String) (hash : String) → same_hash o hash ≡ true → o ≡ some hash
same_hash-eq none hash e = absurd (ground (arith, e))
same_hash-eq (some s) hash e = ap some ((eq_iff s hash).0 e)

-- A call that succeeds leaves its receipt held.
ok-Held :
    (h : RequestHashing) (c : Call) (r : WebhookDeliveryRecord)
    (store : InMemoryWebhookDeliveryStore)
    → (call h c store).0 ≡ ok r
    → (old : WebhookDeliveryRecord) × Path WebhookDeliveryRecord
        (record old { duplicate = true })
        (record r { duplicate = true })
      × Held c.key old (request_hash h c.request) (call h c store).1
unfolding record_webhook_delivery deliver_locked get_delivery new_delivery save_delivery
ok-Held h c r store e = elim (Option-cases (Dicts.get c.key store.records_by_key)) [
  | inl none_yet ↦
      let new : WebhookDeliveryRecord = new_delivery c.uuid4_hex c.key c.request c.status_code in
      (
        new,
        ap (λ (x : WebhookDeliveryRecord). record x { duplicate = true })
            (from_ok (rw none_yet at e)),
        rw none_yet record {
          receipt = Dicts.get-put c.key c.key new store.records_by_key ∙ itself (some new) _;
          stored =
              Dicts.get-put c.key c.key (request_hash h c.request) store.request_hash_by_key
              ∙ itself (some (request_hash h c.request)) _;
        },
      )
  | inr (old, found) ↦
      elim (Bool-cases
        (same_hash (Dicts.get c.key store.request_hash_by_key) (request_hash h c.request))) [
          | inr differs ↦ absurd (refused (rw (found, differs) at e))
          | inl same ↦ (
            old,
            ap (λ (x : WebhookDeliveryRecord). record x { duplicate = true })
                (from_ok (rw (found, same) at e)),
            rw (found, same)
                record {
                  receipt = found;
                  stored =
                      same_hash-eq (Dicts.get c.key store.request_hash_by_key)
                        (request_hash h c.request) same;
                },
          )
        ]
]
  where
    from_ok : {a b : WebhookDeliveryRecord} → ok a ≡ ok b → a ≡ b
    from_ok p = cc

    refused : Path (Result WebhookDeliveryRecord) (err idempotency_conflict) (ok r) → ⊥
    refused p = cc

    itself : {A : Type 0} (x y : A) → (if str_eq c.key c.key then x else y) ≡ x
    itself x y = rw (eq_refl c.key) refl

-- Once a call has given a receipt, and after any other calls, a call with the same key is answered with
-- that receipt, marked as a duplicate, if its request has the same hash, and with a conflict if not; the
-- store does not change.
pub record_webhook_delivery-replay :
    (h : RequestHashing) (first again : Call) (r : WebhookDeliveryRecord) (others : List Call)
    (store : InMemoryWebhookDeliveryStore)
    → (call h first store).0 ≡ ok r
    → again.key ≡ first.key
    → call h again (calls h others (call h first store).1) ≡ (
        if str_eq (request_hash h first.request) (request_hash h again.request)
        then (ok (record r { duplicate = true }), calls h others (call h first store).1)
        else (err idempotency_conflict, calls h others (call h first store).1))
record_webhook_delivery-replay h c again r others store e k =
    let (old, same, held) = ok-Held h c r store e in
    let later = calls h others (call h c store).1 in
    let kept : Held c.key old (request_hash h c.request) later =
      calls-Held h c.key old (request_hash h c.request) others (call h c store).1 held in
    rw same at (
      Held-call h old (request_hash h c.request) again later
        (subst (λ k. Held k old (request_hash h c.request) later) (sym k) kept))
