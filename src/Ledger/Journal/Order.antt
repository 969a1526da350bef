-- ===== src/Ledger/Journal/Order.antt =====
-- The order in which `lockAccounts` takes its locks (`deterministicAccountOrder`).
use aegis_shield_phase.Prelude.{
  ◌<◌, ◌≡◌, refl, sym, ◌∙◌, ◌≢◌, Bool, true, not, ◌&&◌, ◌||◌, List, [], ◌∷◌, inl, inr, arith, ltb,
  ◌==◌, filter, contains, All, All-filter, Bool-cases,
}
use aegis_shield_phase.Ledger.Schema.{Ident}
use aegis_shield_phase.Ledger.Journal.{
  unique_ids, insert_sorted, sort_ids, deterministic_account_order,
}

abbrev pub IsAscending : List Ident → Type 0
IsAscending [] = Unit
IsAscending (x ∷ xs) = All (λ y. x < y) xs × IsAscending xs

abbrev IsDistinct : List Ident → Type 0
IsDistinct [] = Unit
IsDistinct (x ∷ xs) = All (λ y. y ≢ x) xs × IsDistinct xs

All-insert_sorted :
    (P : Ident → Type 0) (x : Ident) (ys : List Ident) → P x → All P ys → All P (insert_sorted x ys)
unfolding insert_sorted
All-insert_sorted P x [] h t = (h, tt)
All-insert_sorted P x (y ∷ ys) h t = ground (arith, All-insert_sorted P x ys h t.1)

All-sort_ids : (P : Ident → Type 0) (xs : List Ident) → All P xs → All P (sort_ids xs)
unfolding sort_ids
All-sort_ids P [] h = tt
All-sort_ids P (x ∷ xs) h = All-insert_sorted P x (sort_ids xs) h.0 (All-sort_ids P xs h.1)

All-below : (x y : Ident) (xs : List Ident) → x < y → All (λ z. y < z) xs → All (λ z. x < z) xs
All-below x y [] h t = tt
All-below x y (z ∷ xs) h t = (omega arith, All-below x y xs h t.1)

insert_sorted-IsAscending :
    (x : Ident) (ys : List Ident)
    → All (λ y. y ≢ x) ys
    → IsAscending ys
    → IsAscending (insert_sorted x ys)
unfolding insert_sorted
insert_sorted-IsAscending x [] n h = (tt, tt)
insert_sorted-IsAscending x (y ∷ ys) n h = elim (Bool-cases (ltb x y)) [
  | inl lt ↦ rw lt ((ground arith, All-below x y ys (ground arith) h.0), h)
  | inr ge ↦ rw ge (
    All-insert_sorted (λ z. y < z) x ys (ground (arith, n.0)) h.0,
    insert_sorted-IsAscending x ys n.1 h.1,
  )
]

sort_ids-IsAscending : (xs : List Ident) → IsDistinct xs → IsAscending (sort_ids xs)
unfolding sort_ids
sort_ids-IsAscending [] h = tt
sort_ids-IsAscending (x ∷ xs) h =
    insert_sorted-IsAscending x (sort_ids xs) (All-sort_ids (λ y. y ≢ x) xs h.0)
      (sort_ids-IsAscending xs h.1)

All-ne_filter : (x : Ident) (xs : List Ident) → All (λ y. y ≢ x) (filter (λ y. not (y == x)) xs)
All-ne_filter x [] = tt
All-ne_filter x (y ∷ xs) = elim (Bool-cases (y == x)) [
  | inl e ↦ rw e (All-ne_filter x xs)
  | inr n ↦ rw n (ground arith, All-ne_filter x xs)
]

filter-IsDistinct : (p : Ident → Bool) (xs : List Ident) → IsDistinct xs → IsDistinct (filter p xs)
filter-IsDistinct p [] h = tt
filter-IsDistinct p (x ∷ xs) h = elim (Bool-cases (p x)) [
  | inl e ↦ rw e (All-filter (λ y. y ≢ x) p xs h.0, filter-IsDistinct p xs h.1)
  | inr n ↦ rw n (filter-IsDistinct p xs h.1)
]

unique_ids-IsDistinct : (xs : List Ident) → IsDistinct (unique_ids xs)
unfolding unique_ids
unique_ids-IsDistinct [] = tt
unique_ids-IsDistinct (x ∷ xs) = (
  All-ne_filter x (unique_ids xs),
  filter-IsDistinct (λ y. not (y == x)) (unique_ids xs) (unique_ids-IsDistinct xs),
)

contains-insert_sorted :
    (x : Ident) (ys : List Ident) (a : Ident)
    → contains (insert_sorted x ys) a ≡ ((x == a) || contains ys a)
unfolding insert_sorted
contains-insert_sorted x [] a = refl
contains-insert_sorted x (y ∷ ys) a = ground (arith, contains-insert_sorted x ys a)

contains-sort_ids : (xs : List Ident) (a : Ident) → contains (sort_ids xs) a ≡ contains xs a
unfolding sort_ids
contains-sort_ids [] a = refl
contains-sort_ids (x ∷ xs) a = rw (contains-insert_sorted x (sort_ids xs) a, contains-sort_ids xs a)

contains-filter_ne :
    (x : Ident) (xs : List Ident) (a : Ident)
    → contains (filter (λ y. not (y == x)) xs) a ≡ (not (a == x) && contains xs a)
contains-filter_ne x [] a = ground arith
contains-filter_ne x (y ∷ xs) a = ground (arith, contains-filter_ne x xs a)

contains-unique_ids : (xs : List Ident) (a : Ident) → contains (unique_ids xs) a ≡ contains xs a
unfolding unique_ids
contains-unique_ids [] a = refl
contains-unique_ids (x ∷ xs) a =
    ground (arith, contains-filter_ne x (unique_ids xs) a, contains-unique_ids xs a)

-- The order in which a journal locks its accounts is ascending without repetition.
pub order-IsAscending : (ids : List Ident) → IsAscending (deterministic_account_order ids)
unfolding deterministic_account_order
order-IsAscending ids = sort_ids-IsAscending (unique_ids ids) (unique_ids-IsDistinct ids)

pub contains-order :
    (ids : List Ident) (a : Ident) → contains (deterministic_account_order ids) a ≡ contains ids a
unfolding deterministic_account_order
contains-order ids a = contains-sort_ids (unique_ids ids) a ∙ contains-unique_ids ids a

lt_of_contains :
    (x a : Ident) (xs : List Ident) → All (λ y. x < y) xs → contains xs a ≡ true → x < a
lt_of_contains x a [] h c = cc
lt_of_contains x a (y ∷ xs) h c = ground (arith, lt_of_contains x a xs h.1)

-- An ascending list is determined by what it contains.
ascending_ext :
    (xs ys : List Ident)
    → IsAscending xs
    → IsAscending ys
    → ((a : Ident) → contains xs a ≡ contains ys a)
    → xs ≡ ys
ascending_ext [] [] h k e = refl
ascending_ext [] (y ∷ ys) h k e = ground (arith, e y)
ascending_ext (x ∷ xs) [] h k e = ground (arith, e x)
ascending_ext (x ∷ xs) (y ∷ ys) h k e =
    let heads : x ≡ y =
      ground (arith, e x, e y, lt_of_contains y x ys k.0, lt_of_contains x y xs h.0) in
    let tails : (a : Ident) → contains xs a ≡ contains ys a =
      λ a. ground (arith, e a, lt_of_contains x a xs h.0, lt_of_contains y a ys k.0, heads) in
    λ i. heads i ∷ ascending_ext xs ys h.1 k.1 tails i

-- Two journals over the same accounts, in whatever order and however often each is named, lock
-- them in one and the same order.
pub order_same_accounts :
    (xs ys : List Ident)
    → ((a : Ident) → contains xs a ≡ contains ys a)
    → deterministic_account_order xs ≡ deterministic_account_order ys
order_same_accounts xs ys e =
    ascending_ext (deterministic_account_order xs) (deterministic_account_order ys)
      (order-IsAscending xs) (order-IsAscending ys)
      (λ a. contains-order xs a ∙ e a ∙ sym (contains-order ys a))
