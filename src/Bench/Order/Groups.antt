-- ===== src/Bench/Order/Groups.antt =====
-- The groups of the report: what ran and was cached, what ran and was not, what failed.
use mathlib.Core.List.{Perm}
use mcp_content_guard.Base.{
  ◌≡◌, ◌≤◌, refl, ap, ◌∙◌, subst, Bool, true, false, not, ◌||◌, List, [], ◌∷◌, ◌++◌, append-nil,
  arith, inl, inr, Bool-cases, All, map, if◌then◌else◌,
}
use mcp_content_guard.Bench.{
  Measured, savings, has_failed, less, Row, report_row, report_rows, token_row, token_rows,
  print_report,
}
use mcp_content_guard.Bench.Order.{IsSortedBy, Sorts, less-IsWeakOrder}

abbrev pub IsSaved : Measured → Type 0
IsSaved a = (has_failed a ≡ false) × (a.cached ≡ true)

abbrev pub IsPlain : Measured → Type 0
IsPlain a = (has_failed a ≡ false) × (a.cached ≡ false)

abbrev pub HasFailed : Measured → Type 0
HasFailed a = has_failed a ≡ true

-- No row saves more than one in front of it.
abbrev pub IsDescending : List Measured → Type 0
IsDescending [] = Unit
IsDescending (x ∷ l) = All (λ y. savings y ≤ savings x) l × IsDescending l

-- A list in three groups.
pub record Groups (l : List Measured) : Type 0 where
  pub saved : List Measured
  pub plain : List Measured
  pub broken : List Measured
  pub whole : l ≡ saved ++ (plain ++ broken)
  pub are_saved : All IsSaved saved
  pub descending : IsDescending saved
  pub are_plain : All IsPlain plain
  pub are_broken : All HasFailed broken

-- What an entry without a smaller one behind it says of those.
IsBelow : Measured → Measured → Type 0
IsBelow x y = less y x ≡ false

HasFailed-IsBelow : (x y : Measured) → HasFailed x → less y x ≡ false → HasFailed y
unfolding less
HasFailed-IsBelow x y h k = ground arith

IsSaved-IsBelow : (x y : Measured) → IsPlain x → IsSaved y → less y x ≡ true
unfolding less
IsSaved-IsBelow x y h k = ground arith

savings-IsBelow :
    (x y : Measured) → IsSaved x → IsSaved y → less y x ≡ false → savings y ≤ savings x
unfolding less
savings-IsBelow x y h k b = ground arith

All-HasFailed :
    (x : Measured) (l : List Measured) → HasFailed x → All (IsBelow x) l → All HasFailed l
unfolding IsBelow
All-HasFailed x [] f h = tt
All-HasFailed x (y ∷ l) f (h, hs) = (HasFailed-IsBelow x y f h, All-HasFailed x l f hs)

All-savings :
    (x : Measured) (l rest : List Measured)
    → IsSaved x
    → All IsSaved l
    → All (IsBelow x) (l ++ rest)
    → All (λ y. savings y ≤ savings x) l
unfolding IsBelow
All-savings x [] rest f a h = tt
All-savings x (y ∷ l) rest f (a, ks) (h, hs) =
    (savings-IsBelow x y f a h, All-savings x l rest f ks hs)

-- Nothing that is saved stands behind a row that is not.
none_saved :
    (x : Measured) (l rest : List Measured)
    → IsPlain x
    → All IsSaved l
    → All (IsBelow x) (l ++ rest)
    → l ≡ []
unfolding IsBelow
none_saved x [] rest f a h = refl
none_saved x (y ∷ l) rest f (a, ks) (h, hs) = (let k = IsSaved-IsBelow x y f a in grind arith)

groups : (l : List Measured) → IsSortedBy less l → Groups l
unfolding IsBelow
groups [] s = record {
  saved = [];
  plain = [];
  broken = [];
  whole = refl;
  are_saved = tt;
  descending = tt;
  are_plain = tt;
  are_broken = tt;
}
groups (x ∷ l) (h, s) =
    let g = groups l s in
    let h' = subst (All (IsBelow x)) g.whole h in
    elim (Bool-cases (has_failed x)) [
      | inl f ↦ record {
        saved = [];
        plain = [];
        broken = x ∷ l;
        whole = refl;
        are_saved = tt;
        descending = tt;
        are_plain = tt;
        are_broken = (f, All-HasFailed x l f h);
      }
      | inr f ↦ elim (Bool-cases x.cached) [
        | inl c ↦ record {
          saved = x ∷ g.saved;
          plain = g.plain;
          broken = g.broken;
          whole = ap (◌∷◌ x) g.whole;
          are_saved = ((f, c), g.are_saved);
          descending =
              (All-savings x g.saved (g.plain ++ g.broken) (f, c) g.are_saved h', g.descending);
          are_plain = g.are_plain;
          are_broken = g.are_broken;
        }
        | inr c ↦ record {
          saved = [];
          plain = x ∷ g.plain;
          broken = g.broken;
          whole = ap (◌∷◌ x) (
              g.whole
              ∙ ap (λ k. k ++ (g.plain ++ g.broken))
                  (none_saved x g.saved (g.plain ++ g.broken) (f, c) g.are_saved h'));
          are_saved = tt;
          descending = tt;
          are_plain = ((f, c), g.are_plain);
          are_broken = g.are_broken;
        }
      ]
    ]

-- What a row of what ran and was cached adds.
row_added :
    (failed cached : Bool) (row : Row) (rest : List Row)
    → failed ≡ false
    → cached ≡ true
    → (if failed || not cached then rest else row ∷ rest) ≡ row ∷ rest
row_added failed cached row rest f c = rw f (rw c refl)

token_rows-saved :
    (a rest : List Measured)
    → All IsSaved a
    → token_rows (a ++ rest) ≡ map token_row a ++ token_rows rest
unfolding token_rows
token_rows-saved [] rest h = refl
token_rows-saved (x ∷ a) rest ((f, c), h) =
    row_added (has_failed x) x.cached (token_row x) (token_rows (a ++ rest)) f c
    ∙ ap (◌∷◌ (token_row x)) (token_rows-saved a rest h)

token_rows-plain :
    (b rest : List Measured) → All IsPlain b → token_rows (b ++ rest) ≡ token_rows rest
unfolding token_rows
token_rows-plain [] rest h = refl
token_rows-plain (x ∷ b) rest ((f, c), h) = rw f (rw c (token_rows-plain b rest h))

token_rows-broken : (c : List Measured) → All HasFailed c → token_rows c ≡ []
unfolding token_rows
token_rows-broken [] h = refl
token_rows-broken (x ∷ c) (f, h) = rw f (token_rows-broken c h)

report_rows-map : (l : List Measured) → report_rows l ≡ map report_row l
unfolding report_rows
report_rows-map [] = refl
report_rows-map (r ∷ l) = ap (◌∷◌ (report_row r)) (report_rows-map l)

-- What the two tables are, in three groups of the results.
pub record Reported (results : List Measured) (tables : List Row × List Row) : Type 0 where
  pub sorted : List Measured
  pub permuted : Perm sorted results
  pub grouped : Groups sorted
  pub rows : tables.0 ≡ map report_row sorted
  pub tokens : tables.1 ≡ map token_row grouped.saved

-- For a sort that gives, for every comparison that is irreflexive and transitive and whose
-- incomparability is transitive, a permutation in which nothing stands behind an entry that it is less
-- than: the first table of `printReport` has one row for each result, and its rows are three groups in
-- this order, each possibly empty: what ran and was cached, in descending order of the savings; what
-- ran and was not cached; what failed. The second table has a row for each result of the first group,
-- in the same order, and no other.
pub print_report-Reported :
    (sort : (Measured → Measured → Bool) → List Measured → List Measured)
    → Sorts sort
    → (results : List Measured) → Reported results (print_report sort results)
unfolding print_report
print_report-Reported sort sorts results =
    let (p, s) = sorts less less-IsWeakOrder results in
    let g = groups (sort less results) s in
    record {
      sorted = sort less results;
      permuted = p;
      grouped = g;
      rows = report_rows-map (sort less results);
      tokens =
          ap token_rows g.whole
          ∙ (token_rows-saved g.saved (g.plain ++ g.broken) g.are_saved
              ∙ (ap (λ k. map token_row g.saved ++ k)
                    (token_rows-plain g.plain g.broken g.are_plain
                      ∙ token_rows-broken g.broken g.are_broken)
                  ∙ append-nil (map token_row g.saved)));
    }
