-- ===== src/Ledger/Journal/Tables.antt =====
-- The rows that a journal locks, the rows that it writes back, and its checks.
use aegis_shield_phase.Prelude.{
  ◌<◌, ◌≡◌, refl, sym, ◌∙◌, true, false, Option, none, some, List, [], ◌∷◌, inl, inr, arith, ◌==◌,
  ==→≡, find_sound, All, Bool-cases, Option-cases, if◌then◌else◌,
}
use aegis_shield_phase.Ledger.Schema.{Ident, LedgerAccount}
use aegis_shield_phase.Ledger.Requests.{LockedAccount}
use aegis_shield_phase.Ledger.Journal.{
  account_by_id, locked_row, select_rows, write_projection, update_projection, update_projections,
}
use aegis_shield_phase.Ledger.Journal.Order.{IsAscending}
use aegis_shield_phase.Ledger.Journal.Effect.{locate, ids}

locked_row-id :
    (i : Ident) (accounts : List LedgerAccount) {row : LockedAccount}
    → locked_row i accounts ≡ some row
    → row.id ≡ i
locked_row-id i accounts {row} h = elim (Option-cases (account_by_id i accounts)) [
  | inl missing ↦ absurd (ground arith)
  | inr (a, found) ↦ elim (Option-cases a.balance_projection) [
    | inl bare ↦ absurd (ground arith)
    | inr (p, has) ↦
        let key : a.id ≡ i =
          ==→≡ a.id i (find_sound (λ (b : LedgerAccount). b.id == i) accounts found) in
        ground arith
  ]
]

-- What the query returns for an account, by its identifier.
pub locate-select_rows :
    (accounts : List LedgerAccount) (is : List Ident) (i : Ident) {row : LockedAccount}
    → locate i (select_rows accounts is) ≡ some row
    → locked_row i accounts ≡ some row
unfolding select_rows
locate-select_rows accounts [] i h = cc
locate-select_rows accounts (j ∷ is) i {row} h = elim (Option-cases (locked_row j accounts)) [
  | inl missing ↦ locate-select_rows accounts is i (rw (missing, select_rows) at h)
  | inr (r, found) ↦
      let key = locked_row-id j accounts found in
      let h' : locate i (r ∷ select_rows accounts is) ≡ some row = rw (found, select_rows) at h in
      elim (Bool-cases (r.id == i)) [
        | inl here ↦
            let same : j ≡ i = sym key ∙ ==→≡ r.id i here in rw (← same) (found ∙ (rw here at h'))
        | inr there ↦ locate-select_rows accounts is i (rw there at h')
      ]
]

All-select_rows :
    (P : Ident → Type 0) (accounts : List LedgerAccount) (is : List Ident)
    → All P is
    → All P (ids (select_rows accounts is))
unfolding select_rows
All-select_rows P accounts [] h = tt
All-select_rows P accounts (j ∷ is) h = elim (Option-cases (locked_row j accounts)) [
  | inl missing ↦ rw (missing, select_rows, ids, All) (All-select_rows P accounts is h.1)
  | inr (r, found) ↦
      let key = locked_row-id j accounts found in
      rw (found, select_rows, ids, All) ((rw key h.0), All-select_rows P accounts is h.1)
]

pub select_rows-IsAscending :
    (accounts : List LedgerAccount) (is : List Ident)
    → IsAscending is
    → IsAscending (ids (select_rows accounts is))
unfolding select_rows
select_rows-IsAscending accounts [] h = tt
select_rows-IsAscending accounts (j ∷ is) h = elim (Option-cases (locked_row j accounts)) [
  | inl missing ↦
      rw (missing, select_rows, ids, IsAscending) (select_rows-IsAscending accounts is h.1)
  | inr (r, found) ↦
      let key = locked_row-id j accounts found in
      rw (found, select_rows, ids, IsAscending)
        (
          (rw key (All-select_rows (λ k. j < k) accounts is h.0)),
          select_rows-IsAscending accounts is h.1,
        )
]

-- A row after the projections of the locked accounts were written.
abbrev pub written : Option LockedAccount → Option LedgerAccount → Option LedgerAccount
written none row = row
written (some a) none = none
written (some a) (some row) = some (record row {
  balance_projection = elim row.balance_projection [
    | none ↦ none
    | some p ↦ some (write_projection a p)
  ];
})

written-update_projection :
    (a : LockedAccount) (i : Ident) (accounts : List LedgerAccount)
    → account_by_id i (update_projection a accounts)
      ≡ written (if a.id == i then some a else none) (account_by_id i accounts)
unfolding update_projection
written-update_projection a i [] = ground arith
written-update_projection a i (row ∷ accounts) =
    let ih = written-update_projection a i accounts in
    elim (Bool-cases (row.id == a.id)) [
      | inl hit ↦ elim (Bool-cases (row.id == i)) [
        | inl here ↦ let at : (a.id == i) ≡ true = ground arith in rw (hit, here, at)
        | inr there ↦
            let at : (a.id == i) ≡ false = ground arith in rw (hit, there, at) (rw at at ih)
      ]
      | inr miss ↦ elim (Bool-cases (row.id == i)) [
        | inl here ↦ let at : (a.id == i) ≡ false = ground arith in rw (miss, here, at)
        | inr there ↦ rw (miss, there) ih
      ]
    ]

locate_absent :
    (i k : Ident) (as_ : List LockedAccount)
    → i ≡ k
    → All (λ j. k < j) (ids as_)
    → locate i as_ ≡ none
locate_absent i k [] e h = refl
locate_absent i k (a ∷ as_) e h = ground (arith, locate_absent i k as_ e h.1)

-- With one projection for each account, an account holds what was written to it.
pub account_by_id-update_projections :
    (as_ : List LockedAccount) (i : Ident) (accounts : List LedgerAccount)
    → IsAscending (ids as_)
    → account_by_id i (update_projections as_ accounts)
      ≡ written (locate i as_) (account_by_id i accounts)
unfolding update_projections
account_by_id-update_projections [] i accounts h = refl
account_by_id-update_projections (a ∷ as_) i accounts h =
    account_by_id-update_projections as_ i (update_projection a accounts) h.1
    ∙ (rw (written-update_projection a i accounts) (elim (Bool-cases (a.id == i)) [
      | inl here ↦ rw (here, locate_absent i a.id as_ (sym (==→≡ a.id i here)) h.0)
      | inr there ↦ rw there
    ]))
