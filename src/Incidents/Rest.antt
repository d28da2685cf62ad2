-- ===== src/Incidents/Rest.antt =====
-- What a cursor leaves: the rows behind it in the order of the pages.
use incident_intelligence_pl.Prelude.{
  ◌≡◌, ◌≢◌, refl, sym, ap, ◌∙◌, subst, ◌⊎◌, inl, inr, Bool, true, ◌&&◌, Option, none, some, String,
  List, [], ◌∷◌, ◌++◌, arith, Bool-cases, filter_by, sort_by,
}
use incident_intelligence_pl.Prelude.Keyed.{Distinct}
use incident_intelligence_pl.Prelude.Ordered.{
  In, Sorted, IsOrder, All-In, In-sort_by, In-filter_by, Sorted-sort_by,
}
use incident_intelligence_pl.Prelude.Unique.{
  Within, NoRepeats, filter_by-In, sort_by-In, Sorted-unique, NoRepeats-sort_by,
}
use incident_intelligence_pl.Database.{Database, IncidentRow}
use incident_intelligence_pl.Jobs.Repository.{incident_key}
use incident_intelligence_pl.Incidents.Paging.{
  CursorPayload, equals_text, behind, behind_cursor, newer, priority_name, selected,
}

newer-IsOrder : IsOrder newer
newer-IsOrder = record { trans = λ x y z p q. ground arith; total = λ x y p. ground arith }

module _ {A : Type 0} where
  In-append : (x : A) (us vs : List A) → In x (us ++ vs) → In x us ⊎ In x vs
  In-append x [] vs i = inr i
  In-append x (u ∷ us) vs (inl e) = inl (inl e)
  In-append x (u ∷ us) vs (inr i) = elim (In-append x us vs i) [
    | inl j ↦ inl (inr j)
    | inr j ↦ inr j
  ]

  pub append-In : (x : A) (us vs : List A) → In x vs → In x (us ++ vs)
  append-In x [] vs i = i
  append-In x (u ∷ us) vs i = inr (append-In x us vs i)

  Sorted-behind : (leq : A → A → Bool) (us vs : List A) → Sorted leq (us ++ vs) → Sorted leq vs
  Sorted-behind leq [] vs s = s
  Sorted-behind leq (u ∷ us) vs s = Sorted-behind leq us vs s.1

  Sorted-ahead :
      (leq : A → A → Bool) (x r : A) (us vs : List A)
      → Sorted leq (us ++ (r ∷ vs))
      → In x us
      → leq x r ≡ true
  Sorted-ahead leq x r (u ∷ us) vs s (inl e) =
      subst (λ y. leq y r ≡ true) (sym e)
        (All-In (λ z. leq u z ≡ true) r (us ++ (r ∷ vs)) s.0 (append-In r us (r ∷ vs) (inl refl)))
  Sorted-ahead leq x r (u ∷ us) vs s (inr i) = Sorted-ahead leq x r us vs s.1 i
  Sorted-ahead leq x r [] vs s i = absurd i

  NoRepeats-behind : (us vs : List A) → NoRepeats (us ++ vs) → NoRepeats vs
  NoRepeats-behind [] vs n = n
  NoRepeats-behind (u ∷ us) vs n = NoRepeats-behind us vs n.1

  NoRepeats-filter_by :
      (test : A → Bool) (xs : List A) → NoRepeats xs → NoRepeats (filter_by test xs)
  unfolding filter_by
  NoRepeats-filter_by test [] n = n
  NoRepeats-filter_by test (x ∷ xs) n = elim (Bool-cases (test x)) [
    | inl e ↦ rw e (λ i. n.0 (filter_by-In test x xs i).0, NoRepeats-filter_by test xs n.1)
    | inr e ↦ rw e (NoRepeats-filter_by test xs n.1)
  ]

-- Rows of one identifier are one row.
Distinct-Identified :
    (rows : List IncidentRow)
    → Distinct incident_key rows
    → (r s : IncidentRow) → In r rows
    → In s rows
    → r.id ≡ s.id
    → r ≡ s
Distinct-Identified (x ∷ xs) d r s (inl e) (inl f) h = e ∙ sym f
Distinct-Identified (x ∷ xs) d r s (inl e) (inr j) h =
    absurd (All-In (λ y. y.id ≢ x.id) s xs d.0 j (sym h ∙ ap (λ y. y.id) e))
Distinct-Identified (x ∷ xs) d r s (inr i) (inl f) h =
    absurd (All-In (λ y. y.id ≢ x.id) r xs d.0 i (h ∙ ap (λ y. y.id) f))
Distinct-Identified (x ∷ xs) d r s (inr i) (inr j) h = Distinct-Identified xs d.1 r s i j h
Distinct-Identified [] d r s i j h = absurd i

Distinct-NoRepeats : (rows : List IncidentRow) → Distinct incident_key rows → NoRepeats rows
Distinct-NoRepeats [] d = tt
Distinct-NoRepeats (x ∷ xs) d =
    (λ i. All-In (λ y. y.id ≢ x.id) x xs d.0 i refl, Distinct-NoRepeats xs d.1)

abbrev pub position : IncidentRow → CursorPayload
position r = record { created_at = r.created_at; incident_id = r.id }

module _ (status priority : Option String) (db : Database)
    (distinct : Distinct incident_key db.incidents) where
  abbrev test : Option CursorPayload → IncidentRow → Bool
  test at row =
      equals_text status row.status
      && equals_text priority (priority_name row.priority)
      && behind_cursor at row

  abbrev chosen : Option CursorPayload → List IncidentRow
  chosen at = sort_by newer (filter_by (test at) db.incidents)

  member :
      (at : Option CursorPayload) (x : IncidentRow)
      → In x (chosen at)
      → In x db.incidents × (test at x ≡ true)
  member at x i =
      filter_by-In (test at) x db.incidents
        (sort_by-In newer x (filter_by (test at) db.incidents) i)

  pub selected-In :
      (at : Option CursorPayload) (x : IncidentRow)
      → In x (selected status priority at db)
      → In x db.incidents
  unfolding selected
  selected-In at x i = (member at x i).0

  unique : (at : Option CursorPayload) → NoRepeats (chosen at)
  unique at =
      NoRepeats-sort_by newer (filter_by (test at) db.incidents)
        (NoRepeats-filter_by (test at) db.incidents (Distinct-NoRepeats db.incidents distinct))

  sorted : (at : Option CursorPayload) → Sorted newer (chosen at)
  sorted at = Sorted-sort_by newer newer-IsOrder (filter_by (test at) db.incidents)

  known : (r s : IncidentRow) → In r db.incidents → In s db.incidents → r.id ≡ s.id → r ≡ s
  known = Distinct-Identified db.incidents distinct

  -- Rows that pass for a row of the list are those behind it.
  pub selected-rest :
      (at : Option CursorPayload) (us vs : List IncidentRow) (r : IncidentRow)
      → selected status priority at db ≡ us ++ (r ∷ vs)
      → selected status priority (some (position r)) db ≡ vs
  unfolding selected
  selected-rest at us vs r e =
      Sorted-unique newer (chosen (some (position r))) vs
        (λ x y i j p q.
          known x y (member (some (position r)) x i).0 (member (some (position r)) y j).0
            (ground (arith, p, q)))
        (sorted (some (position r))) tail_sorted.1 (unique (some (position r))) tail_unique.1 to
        from
    where
      whole : Sorted newer (us ++ (r ∷ vs))
      whole = subst (Sorted newer) e (sorted at)

      tail_sorted : Sorted newer (r ∷ vs)
      tail_sorted = Sorted-behind newer us (r ∷ vs) whole

      tail_unique : NoRepeats (r ∷ vs)
      tail_unique = NoRepeats-behind us (r ∷ vs) (subst NoRepeats e (unique at))

      mine : (x : IncidentRow) → In x (us ++ (r ∷ vs)) → In x db.incidents × (test at x ≡ true)
      mine x i = member at x (subst (In x) (sym e) i)

      here : In r db.incidents × (test at r ≡ true)
      here = mine r (append-In r us (r ∷ vs) (inl refl))

      through :
          (o : Option CursorPayload) (x : IncidentRow)
          → behind_cursor o r ≡ true
          → behind (position r) x ≡ true
          → behind_cursor o x ≡ true
      through none x p q = refl
      through (some c) x p q = ground (arith, p, q)

      to : Within (chosen (some (position r))) vs
      to x i =
          let (j, t) = member (some (position r)) x i in
          let was : behind (position r) x ≡ true = ground (arith, t) in
          let passes : test at x ≡ true =
            ground (arith, t, through at x (ground (arith, here.1)) was) in
          let k : In x (us ++ (r ∷ vs)) = subst (In x) e (
            In-sort_by newer x (filter_by (test at) db.incidents)
              (In-filter_by (test at) x db.incidents passes j)) in
          elim (In-append x us (r ∷ vs) k) [
            | inl ahead ↦ absurd (ground (arith, was, Sorted-ahead newer x r us vs whole ahead))
            | inr (inl p) ↦ absurd (ground (arith, was, ap (λ y. y.id) p, ap (λ y. y.created_at) p))
            | inr (inr l) ↦ l
          ]

      from : Within vs (chosen (some (position r)))
      from x l =
          let (j, t) = mine x (append-In x us (r ∷ vs) (inr l)) in
          let later : newer r x ≡ true = All-In (λ z. newer r z ≡ true) x vs tail_sorted.0 l in
          let other : r.id ≢ x.id =
            λ h. tail_unique.0 (subst (λ y. In y vs) (sym (known r x here.0 j h)) l) in
          let was : behind (position r) x ≡ true = ground (arith, later, other) in
          In-sort_by newer x (filter_by (test (some (position r))) db.incidents)
            (In-filter_by (test (some (position r))) x db.incidents (ground (arith, t, was)) j)
