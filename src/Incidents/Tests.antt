-- ===== src/Incidents/Tests.antt =====
-- Two incidents on pages of one.
use incident_intelligence_pl.Prelude.{
  ℕ, ◌≤◌, ◌+◌, ◌%◌, ◌≡◌, ◌≢◌, refl, sym, subst, inl, inr, String, false, none, some, [], ◌∷◌,
  length, map, codes, ◌==◌, str_eq, if◌then◌else◌, arith, filter_by, sort_by,
}
use incident_intelligence_pl.Prelude.Keyed.{Distinct}
use incident_intelligence_pl.Failure.{ok}
use incident_intelligence_pl.Database.{Database, IncidentRow, empty_database}
use incident_intelligence_pl.Schemas.{Priority}
use incident_intelligence_pl.Jobs.Repository.{incident_key}
use incident_intelligence_pl.Auth.Tokens.{equals}
use incident_intelligence_pl.Auth.RoundTrip.{Plain}
use incident_intelligence_pl.Incidents.{summary_from_row}
use incident_intelligence_pl.Incidents.Paging.{CursorPayload, CursorLibrary, selected}
use incident_intelligence_pl.Incidents.Rest.{position}
use incident_intelligence_pl.Incidents.Walk.{CursorLaws, walk, walk-selected}

abbrev older : IncidentRow
older = record {
  id = 7;
  correlation_id = "corr-7";
  status = "open";
  priority = Priority.high;
  summary = "Locked out";
  created_at = 100;
  updated_at = 100;
}

abbrev later : IncidentRow
later = record {
  id = 3;
  correlation_id = "corr-3";
  status = "open";
  priority = Priority.low;
  summary = "Printer";
  created_at = 200;
  updated_at = 200;
}

abbrev stored : Database
stored = record empty_database { incidents = older ∷ later ∷ [] }

abbrev cursors : CursorLibrary
cursors = record {
  Bytes = CursorPayload;
  model_dump_json = λ p. p;
  model_validate_json = some;
  urlsafe_b64encode = λ p. if p.created_at == 100 then "Yg==" else "YWI=";
  b64decode = λ s. if str_eq s "Yg==" then some (position older) else some (position later);
}

plain : (n : ℕ) → (n == 46) ≡ false → (n == 61) ≡ false → (n ≢ 46) × (n ≢ 61)
plain n d e = (λ p. ground (arith, p, d), λ p. ground (arith, p, e))

abbrev Padded : IncidentRow → Type 0
Padded r =
    (s : String) × (k : ℕ) × Plain s
    × (k ≤ 3)
    × ((length (codes s) + k) % 4 ≡ 0)
    × (1 ≤ length (codes s))
    × (length (codes s) ≤ 512)
    × (cursors.urlsafe_b64encode (position r) ≡ Prim.Native.String.◌++◌ s (equals k))

cursors-CursorLaws : CursorLaws cursors stored.incidents
unfolding equals
cursors-CursorLaws = record {
  b64decode-encode =
      λ r i. elim i [ inl e ↦ rw e refl | inr j ↦ elim j [ inl e ↦ rw e refl | inr k ↦ absurd k ] ];
  padded = λ r i. elim i [
    | inl e ↦ subst Padded (sym e) (
      "Yg",
      2,
      (plain 89 refl refl, (plain 103 refl refl, tt)),
      omega arith,
      refl,
      omega arith,
      omega arith,
      refl,
    )
    | inr j ↦ elim j [
      | inl e ↦ subst Padded (sym e) (
        "YWI",
        1,
        (plain 89 refl refl, (plain 87 refl refl, (plain 73 refl refl, tt))),
        omega arith,
        refl,
        omega arith,
        omega arith,
        refl,
      )
      | inr k ↦ absurd k
    ]
  ];
  validate-dump = λ r i. refl;
}

stored-Distinct : Distinct incident_key stored.incidents
stored-Distinct = ((λ e. ground (arith, e), tt), (tt, tt))

two_rows : length (selected (some "open") none none stored) ≡ 2
unfolding selected filter_by sort_by
two_rows = refl

walk-selected_example :
    walk 3 cursors 1 none (some "open") none stored
    ≡ ok (map summary_from_row (selected (some "open") none none stored))
walk-selected_example =
    walk-selected cursors 1 (some "open") none stored 3 cursors-CursorLaws (omega arith)
      (omega arith) stored-Distinct (omega (arith, two_rows))
