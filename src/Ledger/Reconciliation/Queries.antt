-- ===== src/Ledger/Reconciliation/Queries.antt =====
-- reconciliation.service.ts `run`: when its queries, added one after the other, report nothing.
use aegis_shield_phase.Prelude.{
  ◌≡◌, refl, Bool, true, false, Option, List, [], ◌∷◌, ◌++◌, arith, filter, any, All, ◌||◌, ◌↔◌,
  inl, inr, Bool-cases,
}
use aegis_shield_phase.Ledger.Schema.{Ident}
use aegis_shield_phase.Ledger.Reconciliation.{
  IssueCode, ReconciliationIssue, add_issues, issue, is_error, rows_of,
}

-- Rows of queries, each under its code, in the order they are added.
abbrev pub Queries : Type 0
Queries = List (IssueCode × List (Option Ident))

abbrev pub add_all : Queries → List ReconciliationIssue → List ReconciliationIssue
add_all [] issues = issues
add_all (q ∷ qs) issues = add_all qs (add_issues q.0 q.1 issues)

any-append :
    (xs ys : List ReconciliationIssue)
    → any is_error (xs ++ ys) ≡ (any is_error xs || any is_error ys)
any-append [] ys = refl
any-append (x ∷ xs) ys = ground (arith, any-append xs ys)

errors_kept :
    (code : IssueCode) (rows : List (Option Ident)) (issues : List ReconciliationIssue)
    → any is_error issues ≡ true
    → any is_error (add_issues code rows issues) ≡ true
unfolding add_issues
errors_kept code [] issues h = h
errors_kept code (row ∷ rows) issues h = ground (
  arith,
  errors_kept code rows (issues ++ issue code row ∷ []),
  any-append issues (issue code row ∷ []),
)

errors_kept_all :
    (qs : Queries) (issues : List ReconciliationIssue)
    → any is_error issues ≡ true
    → any is_error (add_all qs issues) ≡ true
errors_kept_all [] issues h = h
errors_kept_all (q ∷ qs) issues h =
    errors_kept_all qs (add_issues q.0 q.1 issues) (errors_kept q.0 q.1 issues h)

-- A first row is reported: there are no issues yet, or there is an error already.
row_reported :
    (code : IssueCode) (row : Option Ident) (rows : List (Option Ident))
    → any is_error (add_issues code (row ∷ rows) []) ≡ true
unfolding add_issues
row_reported code row rows = errors_kept code rows (issue code row ∷ []) refl

-- Queries that report no error have no rows.
pub no_errors :
    (qs : Queries)
    → any is_error (add_all qs []) ≡ false
    → All (λ (q : IssueCode × List (Option Ident)). q.1 ≡ []) qs
unfolding add_issues
no_errors [] h = tt
no_errors ((code, []) ∷ qs) h = (refl, no_errors qs h)
no_errors ((code, row ∷ rows) ∷ qs) h = absurd (
    ground
      (arith, errors_kept_all qs (add_issues code (row ∷ rows) []), row_reported code row rows))

pub no_rows :
    (qs : Queries) → All (λ (q : IssueCode × List (Option Ident)). q.1 ≡ []) qs → add_all qs [] ≡ []
unfolding add_issues
no_rows [] h = refl
no_rows ((code, rows) ∷ qs) (none_here, h) = rw none_here (no_rows qs h)

rows_of-none :
    {A : Type 0} (shorten : Ident → Ident) (identify : A → Ident) (xs : List A)
    → rows_of shorten identify xs ≡ []
    → xs ≡ []
rows_of-none shorten identify [] h = refl
rows_of-none shorten identify (x ∷ xs) h = cc

module _ {A : Type 0} (bad : A → Bool) (Good : A → Type 0) where
  filter-none :
      ((x : A) → bad x ≡ false → Good x) → (xs : List A) → filter bad xs ≡ [] → All Good xs
  filter-none good [] h = tt
  filter-none good (x ∷ xs) h = elim (Bool-cases (bad x)) [
    | inl hit ↦ absurd (ground (arith, hit))
    | inr miss ↦ (good x miss, filter-none good xs (ground (arith, miss)))
  ]

  none-filter :
      ((x : A) → Good x → bad x ≡ false) → (xs : List A) → All Good xs → filter bad xs ≡ []
  none-filter good [] h = refl
  none-filter good (x ∷ xs) (here, h) = rw (good x here) (none-filter good xs h)

-- A query reports nothing where every row is good.
pub query_lem :
    {A : Type 0} (bad : A → Bool) (Good : A → Type 0) (shorten : Ident → Ident)
    (identify : A → Ident)
    → ((x : A) → bad x ≡ false ↔ Good x)
    → (xs : List A) → rows_of shorten identify (filter bad xs) ≡ [] ↔ All Good xs
query_lem bad Good shorten identify lem xs = (
  λ h. filter-none bad Good (λ x. (lem x).0) xs (rows_of-none shorten identify (filter bad xs) h),
  λ h. rw (none-filter bad Good (λ x. (lem x).1) xs h) refl,
)

pub group_query_lem :
    (shorten : Ident → Ident) (cs : List Ident) → rows_of shorten (λ i. i) cs ≡ [] ↔ cs ≡ []
group_query_lem shorten cs = (rows_of-none shorten (λ i. i) cs, λ h. rw h refl)
