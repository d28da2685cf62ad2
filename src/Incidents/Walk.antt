-- ===== src/Incidents/Walk.antt =====
-- Walking the pages of `list_incidents` by their cursors.
use Prim.Native.String.{◌++◌ as append}
use incident_intelligence_pl.Prelude.{
  ℕ, zero, suc, ◌+◌, ◌-◌, ◌%◌, ◌≤◌, ◌<◌, ◌≡◌, refl, sym, ap, ◌∙◌, subst, ◌⊎◌, inl, inr, Bool, true,
  false, ◌&&◌, ltb, leb, Option, none, some, String, List, [], ◌∷◌, ◌++◌, length, take, map, codes,
  arith,
}
use incident_intelligence_pl.Prelude.Keyed.{Distinct}
use incident_intelligence_pl.Prelude.Ordered.{In}
use incident_intelligence_pl.Failure.{Result, ok, ◌>>=◌, up}
use incident_intelligence_pl.Database.{Database, IncidentRow}
use incident_intelligence_pl.Jobs.Repository.{incident_key}
use incident_intelligence_pl.Auth.Tokens.{rstrip_equals, equals}
use incident_intelligence_pl.Auth.RoundTrip.{Plain, rstrip_equals-Plain}
use incident_intelligence_pl.Incidents.{IncidentSummary, summary_from_row}
use incident_intelligence_pl.Incidents.Paging.{
  CursorPayload, CursorLibrary, IncidentPage, encode_incident_cursor, decode_incident_cursor,
  position_of, last_item, cursor_after, page_of, selected, list_incidents,
}
use incident_intelligence_pl.Incidents.Rest.{position, append-In, selected-In, selected-rest}

-- What is documented of the libraries, for the cursors of the rows: base64 decodes what it encodes, to
-- which it gives a length divisible by 4 with at most three `=`, all of them at the end; pydantic reads
-- back the JSON that it dumps; and the text of a cursor has from 1 to 512 characters.
pub record CursorLaws (lib : CursorLibrary) (rows : List IncidentRow) : Type 0 where
  pub b64decode-encode :
      (r : IncidentRow)
      → In r rows
      → lib.b64decode (lib.urlsafe_b64encode (lib.model_dump_json (position r)))
        ≡ some (lib.model_dump_json (position r))
  pub padded :
      (r : IncidentRow)
      → In r rows
      → (s : String) × (k : ℕ) × Plain s
        × (k ≤ 3)
        × ((length (codes s) + k) % 4 ≡ 0)
        × (1 ≤ length (codes s))
        × (length (codes s) ≤ 512)
        × (lib.urlsafe_b64encode (lib.model_dump_json (position r)) ≡ append s (equals k))
  pub validate-dump :
      (r : IncidentRow)
      → In r rows
      → lib.model_validate_json (lib.model_dump_json (position r)) ≡ some (position r)

decode-encode :
    (lib : CursorLibrary) (rows : List IncidentRow)
    → CursorLaws lib rows
    → (r : IncidentRow) → In r rows
    → decode_incident_cursor lib (encode_incident_cursor lib (summary_from_row r)) ≡ ok (position r)
unfolding encode_incident_cursor summary_from_row decode_incident_cursor
decode-encode lib rows laws r i =
    let (s, k, p, le, m, lo, hi, e) = laws.padded r i in
    let shown : rstrip_equals (lib.urlsafe_b64encode (lib.model_dump_json (position r))) ≡ s =
      ap rstrip_equals e ∙ rstrip_equals-Plain s k p in
    ap (decode_incident_cursor lib) shown
    ∙ restored s k le m lo hi (ap lib.b64decode (sym e) ∙ laws.b64decode-encode r i)
  where
    restored :
        (s : String) (k : ℕ)
        → k ≤ 3
        → (length (codes s) + k) % 4 ≡ 0
        → 1 ≤ length (codes s)
        → length (codes s) ≤ 512
        → lib.b64decode (append s (equals k)) ≡ some (lib.model_dump_json (position r))
        → decode_incident_cursor lib s ≡ ok (position r)
    restored s k le m lo hi d =
        let same : ((4 - length (codes s) % 4) % 4) ≡ k = omega (arith, le, m) in
        let fits : (leb 1 (length (codes s)) && leb (length (codes s)) 512) ≡ true =
          ground (arith, lo, hi) in
        rw (fits, same, d, laws.validate-dump r i) refl

abbrev follow :
    List IncidentSummary
    → Option String
    → (String → Result (List IncidentSummary))
    → Result (List IncidentSummary)
follow items none next_pages = ok items
follow items (some next) next_pages = next_pages next >>= λ rest. ok (items ++ rest)

-- The items of the page at the cursor and of at most `n - 1` pages after it.
unfoldable pub walk :
    ℕ
    → CursorLibrary
    → ℕ
    → Option String
    → Option String
    → Option String
    → Database
    → Result (List IncidentSummary)
walk zero lib limit cursor status priority db = ok []
walk (suc n) lib limit cursor status priority db =
    list_incidents lib up limit cursor status priority db >>= λ page.
    follow page.items page.next_cursor (λ next. walk n lib limit (some next) status priority db)

-- A page takes all the rows, or some of them up to the last on the page.
record Cut (limit : ℕ) (rows : List IncidentRow) : Type 0 where
  us : List IncidentRow
  vs : List IncidentRow
  r : IncidentRow
  is : rows ≡ us ++ (r ∷ vs)
  taken : take limit (take (suc limit) rows) ≡ us ++ (r ∷ [])
  more : ltb limit (length (take (suc limit) rows)) ≡ true
  less : length vs < length rows

cut :
    (limit : ℕ) (rows : List IncidentRow)
    → 1 ≤ limit
    → ((take limit (take (suc limit) rows) ≡ rows)
        × (ltb limit (length (take (suc limit) rows)) ≡ false))
      ⊎ Cut limit rows
cut zero rows le = absurd (ground (arith, le))
cut (suc n) [] le = inl (refl, ground arith)
cut (suc zero) (x ∷ []) le = inl (refl, refl)
cut (suc zero) (x ∷ y ∷ ys) le = inr record {
  us = [];
  vs = y ∷ ys;
  r = x;
  is = refl;
  taken = refl;
  more = refl;
  less = ground arith;
}
cut (suc (suc n)) (x ∷ xs) le = elim (cut (suc n) xs (omega arith)) [
  | inl (e, m) ↦ inl (ap (λ t. x ∷ t) e, ground (arith, m))
  | inr c ↦ inr record {
    us = x ∷ c.us;
    vs = c.vs;
    r = c.r;
    is = ap (λ t. x ∷ t) c.is;
    taken = ap (λ t. x ∷ t) c.taken;
    more = ground (arith, c.more);
    less = ground (arith, c.less);
  }
]

last_item-append :
    (us : List IncidentRow) (r : IncidentRow)
    → last_item (map summary_from_row (us ++ (r ∷ []))) ≡ some (summary_from_row r)
last_item-append [] r = refl
last_item-append (u ∷ []) r = refl
last_item-append (u ∷ v ∷ us) r = last_item-append (v ∷ us) r

map-split :
    (us vs : List IncidentRow) (r : IncidentRow)
    → (map summary_from_row (us ++ (r ∷ [])) ++ map summary_from_row vs)
      ≡ map summary_from_row (us ++ (r ∷ vs))
map-split [] vs r = refl
map-split (u ∷ us) vs r = ap (λ t. summary_from_row u ∷ t) (map-split us vs r)

module _ (lib : CursorLibrary) (limit : ℕ) (lo : 1 ≤ limit) (hi : limit ≤ 100)
    (status priority : Option String) (db : Database)
    (distinct : Distinct incident_key db.incidents) (laws : CursorLaws lib db.incidents) where
  listed :
      (cursor : Option String) (at : Option CursorPayload)
      → position_of lib cursor ≡ ok at
      → list_incidents lib up limit cursor status priority db
        ≡ ok (page_of lib limit (take (suc limit) (selected status priority at db)))
  unfolding list_incidents
  listed cursor at e =
      let within : (leb 1 limit && leb limit 100) ≡ true = ground (arith, lo, hi) in
      let next : limit + 1 ≡ suc limit = omega arith in rw (within, e, next) refl

  walk-from :
      (n : ℕ) (cursor : Option String) (at : Option CursorPayload)
      → position_of lib cursor ≡ ok at
      → length (selected status priority at db) < n
      → walk n lib limit cursor status priority db
        ≡ ok (map summary_from_row (selected status priority at db))
  unfolding walk page_of
  walk-from zero cursor at e short = absurd (ground (arith, short))
  walk-from (suc n) cursor at e short =
      ap turn (listed cursor at e) ∙ (elim (cut limit (selected status priority at db) lo) [
        | inl (t, m) ↦
            ap
              (λ (more : Bool).
                follow
                  (map summary_from_row
                    (take limit (take (suc limit) (selected status priority at db))))
                  (cursor_after lib more (
                    last_item (
                      map summary_from_row
                        (take limit (take (suc limit) (selected status priority at db))))))
                  onward)
              m
            ∙ ap (λ rows. ok (map summary_from_row rows)) t
        | inr c ↦
            let rest : selected status priority (some (position c.r)) db ≡ c.vs =
              selected-rest status priority db distinct at c.us c.vs c.r c.is in
            let shorter : length (selected status priority (some (position c.r)) db) < n =
              subst (λ rows. length rows < n) (sym rest) (ground (arith, c.less, short)) in
            let stored : In c.r db.incidents =
              selected-In status priority db distinct at c.r
                (subst (In c.r) (sym c.is) (append-In c.r c.us (c.r ∷ c.vs) (inl refl))) in
            passed c (
              walk-from n (some (encode_incident_cursor lib (summary_from_row c.r)))
                (some (position c.r))
                (ap (λ p. p >>= λ q. ok (some q)) (decode-encode lib db.incidents laws c.r stored))
                shorter
              ∙ ap (λ rows. ok (map summary_from_row rows)) rest)
      ])
    where
      onward : String → Result (List IncidentSummary)
      onward next = walk n lib limit (some next) status priority db

      turn : Result IncidentPage → Result (List IncidentSummary)
      turn found = found >>= λ page. follow page.items page.next_cursor onward

      shown : List IncidentRow → Bool → Result (List IncidentSummary)
      shown rows more =
          follow (map summary_from_row rows)
            (cursor_after lib more (last_item (map summary_from_row rows))) onward

      passed :
          (c : Cut limit (selected status priority at db))
          → onward (encode_incident_cursor lib (summary_from_row c.r))
            ≡ ok (map summary_from_row c.vs)
          → shown
              (take limit (take (suc limit) (selected status priority at db)))
              (ltb limit (length (take (suc limit) (selected status priority at db))))
            ≡ ok (map summary_from_row (selected status priority at db))
      passed c ih =
          ap
            (λ rows.
              shown rows (ltb limit (length (take (suc limit) (selected status priority at db)))))
            c.taken
          ∙ ap (shown (c.us ++ (c.r ∷ []))) c.more
          ∙ ap
              (λ o.
                follow (map summary_from_row (c.us ++ (c.r ∷ []))) (cursor_after lib true o) onward)
              (last_item-append c.us c.r)
          ∙ ap (λ r. r >>= λ later. ok (map summary_from_row (c.us ++ (c.r ∷ [])) ++ later)) ih
          ∙ ap ok (map-split c.us c.vs c.r)
          ∙ ap (λ rows. ok (map summary_from_row rows)) (sym c.is)

-- While the database answers, with a limit from 1 to 100, identifiers that differ from row to row and
-- libraries that handle the cursors of the rows as documented, the pages from the first one on, each
-- found by the cursor of the one before, hold together exactly what one page without a limit would:
-- the incidents of the asked status and priority, the newest first.
pub walk-selected :
    (lib : CursorLibrary) (limit : ℕ) (status priority : Option String) (db : Database) (n : ℕ)
    → CursorLaws lib db.incidents
    → 1 ≤ limit
    → limit ≤ 100
    → Distinct incident_key db.incidents
    → length (selected status priority none db) < n
    → walk n lib limit none status priority db
      ≡ ok (map summary_from_row (selected status priority none db))
walk-selected lib limit status priority db n laws lo hi distinct short =
    walk-from lib limit lo hi status priority db distinct laws n none none refl short
