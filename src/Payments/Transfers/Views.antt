-- ===== src/Payments/Transfers/Views.antt =====
-- transfers.service.ts `asSummary`, `asDetail`, `list` and `detail`.
-- The texts of a cursor and of its filter are parameters.
use aegis_shield_phase.Prelude.{
  ℕ, Bool, true, false, not, ◌&&◌, ◌||◌, Option, none, some, List, [], ◌∷◌, map, leb, ltb, ◌==◌,
  if◌then◌else◌, length, filter, find, take, Result, ok, err, ◌>>=◌, or_throw,
}
use aegis_shield_phase.Prelude.Int.{ℤ, pos, negsuc, ltb_ℤ}
use aegis_shield_phase.Payments.Calls.{DetailFormats}
use aegis_shield_phase.Payments.Schema.{
  Ident, TransferStatus, processing, completed, failed, requires_review, FailureCode, Transfer, Db,
}

pub data TransferDirection : Type 0 where
  sent received : TransferDirection

pub record TransferSummary : Type 0 where
  pub id : Ident
  pub display_reference : Ident
  pub direction : TransferDirection
  pub status : TransferStatus
  pub account_id : Ident
  pub counterparty_masked_reference : Ident
  pub currency : Ident
  pub amount_minor : ℤ
  pub created_at : ℕ
  pub completed_at : Option ℕ

abbrev pub is_sent : Transfer → Ident → Bool
is_sent row customer = row.sender_customer_id == customer

abbrev pub as_summary : Transfer → Ident → TransferSummary
as_summary row customer = record {
  id = row.id;
  display_reference = row.display_reference;
  direction = if is_sent row customer then sent else received;
  status = row.status;
  account_id = if is_sent row customer then row.sender_account_id else row.recipient_account_id;
  counterparty_masked_reference =
      if is_sent row customer then row.recipient_masked_reference else row.sender_masked_reference;
  currency = row.currency;
  amount_minor = row.amount_minor;
  created_at = row.created_at;
  completed_at = row.completed_at;
}

pub record TransferDetail : Type 0 where
  pub summary : TransferSummary
  pub transaction_id : Option Ident
  pub balance_after : Option ℤ
  pub failure_code : Option FailureCode
  pub own_masked_reference : Ident

abbrev pub detail_of : Transfer → Ident → TransferDetail
detail_of row customer = record {
  summary = as_summary row customer;
  transaction_id = if is_sent row customer then row.sender_posting_id else row.recipient_posting_id;
  balance_after =
      if is_sent row customer
      then row.sender_balance_after_minor
      else row.recipient_balance_after_minor;
  failure_code = row.failure_code;
  own_masked_reference =
      if is_sent row customer then row.sender_masked_reference else row.recipient_masked_reference;
}

-- `signedMinorUnitsSchema`: 24 digits at most.
abbrev pub fits_minor_units : ℤ → Bool
fits_minor_units z =
    ltb_ℤ (negsuc 999999999999999999999999) z && ltb_ℤ z (pos 1000000000000000000000000)

abbrev pub fits_balance : Option ℤ → Bool
fits_balance none = true
fits_balance (some z) = fits_minor_units z

-- `transferDetailSchema` (packages/contracts/src/payments/v1.ts). Identifiers, currencies and dates
-- are of their schema's form.
unfoldable pub accepts_detail : DetailFormats → TransferDetail → Bool
accepts_detail formats d =
    formats.is_display_reference d.summary.display_reference
    && formats.is_masked_reference d.summary.counterparty_masked_reference
    && formats.is_masked_reference d.own_masked_reference
    && fits_minor_units d.summary.amount_minor
    && fits_balance d.balance_after

-- `asDetail`: nothing where the schema refuses the view.
unfoldable pub as_detail : DetailFormats → Transfer → Ident → Option TransferDetail
unfolding accepts_detail
as_detail formats row customer =
    if accepts_detail formats (detail_of row customer) then some (detail_of row customer) else none

pub data ViewError : Type 0 where
  invalid_request transfer_not_found response_invalid : ViewError

abbrev pub is_party : Ident → Transfer → Bool
is_party customer row = row.sender_customer_id == customer || row.recipient_customer_id == customer

unfoldable pub transfer_detail :
    DetailFormats → Ident → Ident → Db → Result ViewError TransferDetail
unfolding as_detail
transfer_detail formats customer id db = do
  row ←
      or_throw (find (λ (t : Transfer). t.id == id && is_party customer t) db.transfers)
        transfer_not_found
  or_throw (as_detail formats row customer) response_invalid

pub record TransferListQuery : Type 0 where
  pub direction : Option TransferDirection
  pub status : Option TransferStatus
  pub date_from : Option ℕ
  pub date_to : Option ℕ
  pub cursor : Option Ident
  pub page_size : ℕ

pub record ListCursor : Type 0 where
  pub created_at : ℕ
  pub id : Ident
  pub filter_text : Ident

pub record ListTexts : Type 0 where
  pub filter_text : TransferListQuery → Ident
  pub parse_cursor : Ident → Option ListCursor
  pub encode_cursor : ListCursor → Ident
  pub is_identifier : Ident → Bool

abbrev pub read_cursor : ListTexts → TransferListQuery → Result ViewError (Option ListCursor)
read_cursor texts query = elim query.cursor [
  | none ↦ ok none
  | some text ↦ elim (texts.parse_cursor text) [
    | none ↦ err invalid_request
    | some c ↦
        if not (c.filter_text == texts.filter_text query) || not (texts.is_identifier c.id)
        then err invalid_request
        else ok (some c)
  ]
]

abbrev pub same_status : TransferStatus → TransferStatus → Bool
same_status processing processing = true
same_status completed completed = true
same_status failed failed = true
same_status requires_review requires_review = true
same_status _ _ = false

abbrev pub has_status : TransferListQuery → Transfer → Bool
has_status query row = elim query.status [ none ↦ true | some s ↦ same_status row.status s ]

abbrev pub is_between : TransferListQuery → Transfer → Bool
is_between query row =
    (elim query.date_from [ none ↦ true | some from ↦ leb from row.created_at ])
    && (elim query.date_to [ none ↦ true | some to ↦ leb row.created_at to ])

-- `orderBy: [{ createdAt: 'desc' }, { id: 'desc' }]`
abbrev pub is_newer : Transfer → Transfer → Bool
is_newer t u = ltb u.created_at t.created_at || (t.created_at == u.created_at && leb u.id t.id)

unfoldable pub insert_transfer : Transfer → List Transfer → List Transfer
insert_transfer t [] = t ∷ []
insert_transfer t (u ∷ us) =
    let rest = insert_transfer t us in if is_newer t u then t ∷ u ∷ us else u ∷ rest

unfoldable pub sort_transfers : List Transfer → List Transfer
unfolding insert_transfer
sort_transfers [] = []
sort_transfers (t ∷ ts) = insert_transfer t (sort_transfers ts)

abbrev pub list_limit : ℕ
list_limit = 500

unfoldable pub listed_rows : Ident → TransferListQuery → Db → List Transfer
unfolding sort_transfers
listed_rows customer query db = take list_limit (
    sort_transfers
      (filter (λ t. is_party customer t && has_status query t && is_between query t) db.transfers))

abbrev pub has_direction : Ident → TransferListQuery → Transfer → Bool
has_direction customer query row = elim query.direction [
  | none ↦ true
  | some direction ↦ elim direction [
    | sent ↦ row.sender_customer_id == customer
    | received ↦ row.recipient_customer_id == customer
  ]
]

abbrev pub is_after : Option ListCursor → Transfer → Bool
is_after none row = true
is_after (some c) row =
    ltb row.created_at c.created_at || (row.created_at == c.created_at && ltb row.id c.id)

abbrev pub last_row : List Transfer → Option Transfer
last_row [] = none
last_row (t ∷ []) = some t
last_row (t ∷ u ∷ ts) = last_row (u ∷ ts)

pub record TransferListResponse : Type 0 where
  pub transfers : List TransferSummary
  pub next_cursor : Option Ident

abbrev pub next_cursor_of :
    ListTexts → TransferListQuery → List Transfer → List Transfer → Option Ident
next_cursor_of texts query after page = elim (last_row page) [
  | none ↦ none
  | some tail ↦
      if ltb (length page) (length after)
      then some (
          texts.encode_cursor (record {
            created_at = tail.created_at;
            id = tail.id;
            filter_text = texts.filter_text query;
          }))
      else none
]

abbrev pub transfer_page :
    ListTexts → Ident → TransferListQuery → List Transfer → TransferListResponse
transfer_page texts customer query after = record {
  transfers = map (λ row. as_summary row customer) (take query.page_size after);
  next_cursor = next_cursor_of texts query after (take query.page_size after);
}

unfoldable pub list_transfers :
    ListTexts → Ident → TransferListQuery → Db → Result ViewError TransferListResponse
unfolding listed_rows
list_transfers texts customer query db = do
  cursor ← read_cursor texts query
  ok (
      transfer_page texts customer query (
        filter (is_after cursor)
          (filter (has_direction customer query) (listed_rows customer query db))))
