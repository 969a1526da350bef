-- ===== src/Ledger/Journal/Effect.antt =====
-- What a posted journal does to the tables: the projections of the accounts, and the postings.
use aegis_shield_phase.Prelude.{
  ap, ◌⊎◌, ℕ, suc, ◌≡◌, refl, ◌∙◌, true, false, ◌&&◌, Option, none, some, List, [], ◌∷◌, ◌++◌, map,
  inl, inr, arith, ◌==◌, find, Bool-cases, Option-cases, if◌then◌else◌, ok,
}
use aegis_shield_phase.Prelude.Int.{ℤ, pos, ◌+ℤ◌, int_laws}
use aegis_shield_phase.Ledger.Schema.{
  Ident, PostingDirection, debit, credit, JournalPosting, same_direction,
}
use aegis_shield_phase.Ledger.Money.{apply_direction}
use aegis_shield_phase.Ledger.Requests.{Posting, LockedAccount, PostEnv}
use aegis_shield_phase.Ledger.Journal.{project_one, post_to, project_postings, posting_rows}

-- The sum of the amounts on one side of one account.
abbrev pub posted : PostingDirection → Ident → List Posting → ℤ
posted d i [] = pos 0
posted d i (p ∷ ps) =
    let rest = posted d i ps in
    if p.ledger_account_id == i && same_direction p.direction d
    then p.amount_minor +ℤ rest
    else rest

-- The sum of the amounts on one side.
abbrev pub total : PostingDirection → List Posting → ℤ
total d [] = pos 0
total d (p ∷ ps) =
    let rest = total d ps in if same_direction p.direction d then p.amount_minor +ℤ rest else rest

-- The same sums over rows of the postings table.
abbrev pub posted_rows : PostingDirection → Ident → List JournalPosting → ℤ
posted_rows d i [] = pos 0
posted_rows d i (r ∷ rs) =
    let rest = posted_rows d i rs in
    if r.ledger_account_id == i && same_direction r.direction d
    then r.amount_minor +ℤ rest
    else rest

abbrev pub total_rows : PostingDirection → List JournalPosting → ℤ
total_rows d [] = pos 0
total_rows d (r ∷ rs) =
    let rest = total_rows d rs in
    if same_direction r.direction d then r.amount_minor +ℤ rest else rest

pub posted_rows-append :
    (d : PostingDirection) (i : Ident) (xs ys : List JournalPosting)
    → posted_rows d i (xs ++ ys) ≡ posted_rows d i xs +ℤ posted_rows d i ys
posted_rows-append d i [] ys = omega int_laws
posted_rows-append d i (x ∷ xs) ys = grind (int_laws, posted_rows-append d i xs ys)

pub total_rows-append :
    (d : PostingDirection) (xs ys : List JournalPosting)
    → total_rows d (xs ++ ys) ≡ total_rows d xs +ℤ total_rows d ys
total_rows-append d [] ys = omega int_laws
total_rows-append d (x ∷ xs) ys = grind (int_laws, total_rows-append d xs ys)

pub posted-posting_rows :
    (env : PostEnv) (currency : Ident) (n : ℕ) (d : PostingDirection) (i : Ident)
    (ps : List Posting)
    → posted_rows d i (posting_rows env currency n ps) ≡ posted d i ps
unfolding posting_rows
posted-posting_rows env currency n d i [] = refl
posted-posting_rows env currency n d i (p ∷ ps) =
    ground (arith, posted-posting_rows env currency (suc n) d i ps)

pub total-posting_rows :
    (env : PostEnv) (currency : Ident) (n : ℕ) (d : PostingDirection) (ps : List Posting)
    → total_rows d (posting_rows env currency n ps) ≡ total d ps
unfolding posting_rows
total-posting_rows env currency n d [] = refl
total-posting_rows env currency n d (p ∷ ps) =
    ground (arith, total-posting_rows env currency (suc n) d ps)

-- A locked account by its identifier.
abbrev pub locate : Ident → List LockedAccount → Option LockedAccount
locate i = find (λ (a : LockedAccount). a.id == i)

pub Direction-cases : (d : PostingDirection) → (d ≡ debit) ⊎ (d ≡ credit)
Direction-cases debit = inl refl
Direction-cases credit = inr refl

-- `b` is `a` after the postings to it.
abbrev pub Advanced : List Posting → Ident → LockedAccount → LockedAccount → Type 0
Advanced ps i a b =
    (b.debit_total_minor ≡ a.debit_total_minor +ℤ posted debit i ps)
    × (b.credit_total_minor ≡ a.credit_total_minor +ℤ posted credit i ps)
    × (b.account_class ≡ a.account_class)
    × (b.allow_negative_balance ≡ a.allow_negative_balance)

-- An account that is not among the locked ones has no posting.
abbrev pub Advances : List Posting → Ident → Option LockedAccount → Option LockedAccount → Type 0
Advances ps i none none = (posted debit i ps ≡ pos 0) × (posted credit i ps ≡ pos 0)
Advances ps i (some a) (some b) = Advanced ps i a b
Advances ps i _ _ = ⊥

abbrev pub ids : List LockedAccount → List Ident
ids = map (λ (a : LockedAccount). a.id)

Advances-refl :
    (p : Posting) (i : Ident) (o : Option LockedAccount)
    → (p.ledger_account_id == i) ≡ false
    → Advances (p ∷ []) i o o
Advances-refl p i none n = ground arith
Advances-refl p i (some a) n = rw n (omega int_laws, omega int_laws, refl, refl)

post_to-Advanced :
    (p : Posting) (i : Ident) (a : LockedAccount)
    → (p.ledger_account_id == i) ≡ true
    → Advanced (p ∷ []) i a (post_to p a)
unfolding apply_direction
post_to-Advanced p i a e = elim (Direction-cases p.direction) [
  | inl d ↦ rw (e, d) (omega int_laws, omega int_laws, refl, refl)
  | inr c ↦ rw (e, c) (omega int_laws, omega int_laws, refl, refl)
]

-- The head of the map takes the posting.
project_here :
    (p : Posting) (i : Ident) (a : LockedAccount) (others : List LockedAccount)
    → (a.id == p.ledger_account_id) ≡ true
    → Advances (p ∷ []) i (locate i (a ∷ others)) (locate i (post_to p a ∷ others))
project_here p i a others e = elim (Bool-cases (a.id == i)) [
  | inl here ↦ rw here (post_to-Advanced p i a (ground arith))
  | inr there ↦ rw there (Advances-refl p i (locate i others) (ground arith))
]

-- The head of the map is passed over.
project_there :
    (p : Posting) (i : Ident) (a : LockedAccount) (others next : List LockedAccount)
    → (a.id == p.ledger_account_id) ≡ false
    → Advances (p ∷ []) i (locate i others) (locate i next)
    → Advances (p ∷ []) i (locate i (a ∷ others)) (locate i (a ∷ next))
project_there p i a others next e ih = elim (Bool-cases (a.id == i)) [
  | inl here ↦ rw here (Advances-refl p i (some a) (ground arith))
  | inr there ↦ rw there ih
]

Advances-project_one :
    (p : Posting) (i : Ident) (before : List LockedAccount) {after : List LockedAccount}
    → project_one p before ≡ some after
    → Advances (p ∷ []) i (locate i before) (locate i after) × (ids after ≡ ids before)
unfolding project_one
Advances-project_one p i [] h = cc
Advances-project_one p i (a ∷ others) {after} h = elim (Bool-cases (a.id == p.ledger_account_id)) [
  | inl e ↦
      let same : post_to p a ∷ others ≡ after = ground arith in
      rw (← same) (project_here p i a others e, refl)
  | inr n ↦ elim (Option-cases (project_one p others)) [
    | inl missing ↦ absurd (ground arith)
    | inr (next, found) ↦
        let same : a ∷ next ≡ after = ground arith in
        let (ih, keys) = Advances-project_one p i others found in
        rw (← same) (project_there p i a others next n ih, ap (λ ks. a.id ∷ ks) keys)
  ]
]

posted-cons :
    (d : PostingDirection) (i : Ident) (p : Posting) (ps : List Posting)
    → posted d i (p ∷ ps) ≡ posted d i (p ∷ []) +ℤ posted d i ps
posted-cons d i p ps = grind int_laws

Advances-trans :
    (p : Posting) (ps : List Posting) (i : Ident) (a b c : Option LockedAccount)
    → Advances (p ∷ []) i a b
    → Advances ps i b c
    → Advances (p ∷ ps) i a c
Advances-trans p ps i none none none h k = (
  rw posted-cons (rw (h.0, k.0) (omega int_laws)),
  rw posted-cons (rw (h.1, k.1) (omega int_laws)),
)
Advances-trans p ps i (some a) (some b) (some c) h k = (
  rw posted-cons (rw (k.0, h.0) (omega int_laws)),
  rw posted-cons (rw (k.1, h.1) (omega int_laws)),
  k.2 ∙ h.2,
  k.3 ∙ h.3,
)
Advances-trans p ps i none none (some c) h k = absurd k
Advances-trans p ps i none (some b) c h k = absurd h
Advances-trans p ps i (some a) none c h k = absurd h
Advances-trans p ps i (some a) (some b) none h k = absurd k

Advances-none : (i : Ident) (o : Option LockedAccount) → Advances [] i o o
Advances-none i none = (refl, refl)
Advances-none i (some a) = (omega int_laws, omega int_laws, refl, refl)

-- The loop over the postings moves each account by the sums of its own postings, and no other.
pub Advances-project_postings :
    (i : Ident) (before : List LockedAccount) (ps : List Posting) {after : List LockedAccount}
    → project_postings before ps ≡ ok after
    → Advances ps i (locate i before) (locate i after) × (ids after ≡ ids before)
unfolding project_postings
Advances-project_postings i before [] {after} h =
    let same : before ≡ after = ground arith in
    rw (← same) (Advances-none i (locate i before), refl)
Advances-project_postings i before (p ∷ ps) {after} h = elim (Option-cases (project_one p before)) [
  | inl missing ↦ absurd (ground arith)
  | inr (next, found) ↦
      let (first, keys) = Advances-project_one p i before found in
      let (rest, keys') = Advances-project_postings i next ps {after = after} (ground arith) in
      (
        Advances-trans p ps i (locate i before) (locate i next) (locate i after) first rest,
        keys' ∙ keys,
      )
]
