-- ===== src/Db/ReportedAssignments/Reports.antt =====
-- What the reports of a device leave in the table
-- (api-server/src/api_v1/routes/device/apps.rs, `apps_put_report`).
use amos2026ss01_zero_downti.Prelude.{
  ℕ, ◌≡◌, refl, sym, ap, ◌∙◌, subst, Bool, true, false, ◌&&◌, ◌||◌, List, [], ◌∷◌, ◌++◌, any,
  Result, ok, err, ◌==◌, ==_iff, if◌then◌else◌, both, Bool-cases, inl, inr, arith,
}
use amos2026ss01_zero_downti.Db.Table.{DbErr}
use amos2026ss01_zero_downti.Db.Table.Laws.{>>=-ok}
use amos2026ss01_zero_downti.Db.ReportedAssignments.{
  Report, same_report, touch, ReportTable, reported, add_reported, apps_put_report, has_reported,
}

any-touch :
    (d i device rep now : ℕ) (xs : List Report)
    → any (same_report d i) (touch device rep now xs) ≡ any (same_report d i) xs
any-touch d i device rep now [] = refl
any-touch d i device rep now (x ∷ xs) =
    let ih = any-touch d i device rep now xs in
    elim (Bool-cases (same_report device rep x)) [
      | inl e ↦ rw (e, ih) refl
      | inr e ↦ rw (e, ih) refl
    ]

any-append :
    (p : Report → Bool) (xs : List Report) (y : Report) → any p (xs ++ y ∷ []) ≡ (any p xs || p y)
any-append p [] y = ground arith
any-append p (x ∷ xs) y = let ih = any-append p xs y in ground (arith, ih)

same_row :
    (d i device rep : ℕ) (xs : List Report)
    → any (same_report device rep) xs ≡ true
    → ((device == d) && (rep == i)) ≡ true
    → any (same_report d i) xs ≡ true
same_row d i device rep xs h e =
    let (x, y) = both _ _ e in
    subst (λ k. any (same_report k i) xs ≡ true) ((==_iff device d).0 x)
      (subst (λ k. any (same_report device k) xs ≡ true) ((==_iff rep i).0 y) h)

absorb : (a b : Bool) → (b ≡ true → a ≡ true) → a ≡ (a || b)
absorb true b h = refl
absorb false true h = h refl
absorb false false h = refl

upserted :
    (d i device rep : ℕ) (now k : ℕ) (xs : List Report)
    → any (same_report d i) (
        if any (same_report device rep) xs
        then touch device rep now xs
        else xs ++ record { id = k; device_id = device; reported_id = rep; updated_at = now } ∷ [])
      ≡ (any (same_report d i) xs || ((device == d) && (rep == i)))
upserted d i device rep now k xs = elim (Bool-cases (any (same_report device rep) xs)) [
  | inl e ↦
      rw e (any-touch d i device rep now xs ∙ absorb _ _ (λ h. same_row d i device rep xs e h))
  | inr e ↦ rw e (
      any-append (same_report d i) xs
        (record { id = k; device_id = device; reported_id = rep; updated_at = now }))
]

or_assoc : (a b c : Bool) → ((a || b) || c) ≡ (a || (b || c))
or_assoc true b c = refl
or_assoc false b c = refl

and_or : (a b c : Bool) → ((a && b) || (a && c)) ≡ (a && (if b then true else c))
and_or true true c = refl
and_or true false c = refl
and_or false b c = refl

no_more : (a b : Bool) → (a || (b && false)) ≡ a
no_more true b = refl
no_more false true = refl
no_more false false = refl

module _ (t : ReportTable) where
  open t use {Conn, rows, upsert, upsert_rows}

  reported-ok :
      (c c' : Conn) (r : Result DbErr Conn) (u : Unit {0}) → reported t c r ≡ (ok u, c') → r ≡ ok c'
  reported-ok c c' (ok d) u h = ap ok (ap (λ (x : Result DbErr (Unit {0}) × Conn). x.1) h)
  reported-ok c c' (err e) u h = cc

  add_reported-has :
      (now d i device id : ℕ) (c c' : Conn) (u : Unit {0})
      → add_reported t now device id c ≡ (ok u, c')
      → has_reported t d i c' ≡ (has_reported t d i c || ((device == d) && (id == i)))
  unfolding add_reported
  add_reported-has now d i device id c c' u h =
      let (k, rows_is) = upsert_rows (reported-ok c c' (upsert device id now c) u h) in
      ap (any (same_report d i)) rows_is ∙ upserted d i device id now k (rows c)

  -- After a report of applications that succeeded, a device has reported a config exactly when it
  -- had before or it is the one that reported and the config is in its list: no report of another
  -- device, and none of an earlier list, is lost.
  pub apps_put_report-has :
      (now : ℕ → ℕ) (device : ℕ) (ids : List ℕ) (c c' : Conn) (u : Unit {0})
      → apps_put_report t now device ids c ≡ (ok u, c')
      → (d i : ℕ)
      → has_reported t d i c' ≡ (has_reported t d i c || ((device == d) && any (λ id. id == i) ids))
  unfolding apps_put_report
  apps_put_report-has now device [] c c' u h d i =
      let same : c ≡ c' = ap (λ (x : Result DbErr (Unit {0}) × Conn). x.1) h in
      ap (has_reported t d i) (sym same) ∙ sym (no_more (has_reported t d i c) (device == d))
  apps_put_report-has now device (id ∷ ids) c c' u h d i =
      let (v, c1, one, h1) = >>=-ok (add_reported t (now id) device id) _ h in
      apps_put_report-has now device ids c1 c' u h1 d i
      ∙ ap (λ b. b || ((device == d) && any (λ id. id == i) ids))
          (add_reported-has (now id) d i device id c c1 v one)
      ∙ or_assoc (has_reported t d i c) ((device == d) && (id == i))
          ((device == d) && any (λ id. id == i) ids)
      ∙ ap (λ b. has_reported t d i c || b)
          (and_or (device == d) (id == i) (any (λ id. id == i) ids))
