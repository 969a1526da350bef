-- ===== src/Ledger/Post.antt =====
-- `JournalService.post` (services/ledger/src/ledger/journal.service.ts): the journal's checks, its
-- idempotency record and its transaction.
pub mod Laws
use aegis_shield_phase.Prelude.{
  ℕ, leb, length, Bool, true, false, ◌&&◌, ◌||◌, Option, none, some, List, [], ◌∷◌, map, ltb, ◌==◌,
  if◌then◌else◌, Result, ok, err, ◌>>=◌,
}
use aegis_shield_phase.Prelude.Int.{ℤ}
use aegis_shield_phase.Ledger.Schema.{
  Ident, Chars, PostingDirection, debit, credit, JournalEntryType, Failure, type_error,
  IdempotencyScope, journal_entry, StoredResponse, journal_response, JournalResult, PostingResult,
  Db,
}
use aegis_shield_phase.Ledger.Money.{is_positive_minor_units, serialize_minor_units}
use aegis_shield_phase.Ledger.Requests.{
  InternalJournalRequest, PostingRequest, JournalActor, Posting, PostEnv,
}
use aegis_shield_phase.Ledger.Journal.{normalise_postings, assert_balanced, run_journal}
use aegis_shield_phase.Ledger.Idempotency.{ExecuteOptions, ExecuteEnv, IdempotentOutcome, execute}

-- What is hashed: the request, its lines combined and in the order of their keys.
pub record JournalPayload : Type 0 where
  pub entry_type : JournalEntryType
  pub currency : Ident
  pub reference : Option Ident
  pub description : Option Ident
  pub effective_at : Option ℕ
  pub metadata : Option Ident
  pub postings : List PostingRequest

-- `credit` sorts before `debit`, as the texts do.
abbrev pub key_lt : PostingRequest → PostingRequest → Bool
key_lt p q =
    ltb p.ledger_account_id q.ledger_account_id
    || p.ledger_account_id == q.ledger_account_id && before p.direction q.direction
  where
    before : PostingDirection → PostingDirection → Bool
    before credit debit = true
    before _ _ = false

pub insert_by_key : PostingRequest → List PostingRequest → List PostingRequest
insert_by_key p [] = p ∷ []
insert_by_key p (q ∷ qs) = if key_lt p q then p ∷ q ∷ qs else q ∷ insert_by_key p qs

pub sort_by_key : List PostingRequest → List PostingRequest
unfolding insert_by_key
sort_by_key [] = []
sort_by_key (p ∷ ps) = insert_by_key p (sort_by_key ps)

abbrev pub posting_payload : Posting → PostingRequest
posting_payload p = record {
  ledger_account_id = p.ledger_account_id;
  direction = p.direction;
  amount_minor = serialize_minor_units p.amount_minor;
}

unfoldable pub journal_payload : InternalJournalRequest → List Posting → JournalPayload
unfolding sort_by_key
journal_payload request postings = record {
  entry_type = request.entry_type;
  currency = request.currency;
  reference = request.reference;
  description = request.description;
  effective_at = request.effective_at;
  metadata = request.metadata;
  postings = sort_by_key (map posting_payload postings);
}

-- What the call takes from outside: the two hashes, the database's and the session's choices.
pub record PostCall : Type 0 where
  pub sha256 : Ident → Ident
  pub canonical_request_hash : JournalPayload → Ident
  pub post_env : PostEnv
  pub execute_env : ExecuteEnv

-- `journalPostingResultSchema`
abbrev pub accepts_posting : PostingResult → Bool
accepts_posting p = is_positive_minor_units p.amount_minor && leb p.sequence 31

abbrev pub all_postings : List PostingResult → Bool
all_postings [] = true
all_postings (p ∷ ps) = accepts_posting p && all_postings ps

-- `journalResultSchema`. Identifiers, references and times are numbers here, each a text of its
-- schema's form.
unfoldable pub accepts_result : JournalResult → Bool
unfolding is_positive_minor_units
accepts_result r =
    is_positive_minor_units r.total_minor
    && leb 2 (length r.postings)
    && leb (length r.postings) 32
    && all_postings r.postings

unfoldable pub parse_result : JournalResult → Result Failure JournalResult
unfolding accepts_result
parse_result r = if accepts_result r then ok r else err type_error

-- A response that another caller stored does not parse as a journal's.
unfoldable pub decode_journal : StoredResponse → Result Failure JournalResult
unfolding parse_result
decode_journal (journal_response r) = parse_result r
decode_journal _ = err type_error

unfoldable pub post_options :
    PostCall
    → InternalJournalRequest
    → Ident
    → JournalActor
    → List Posting
    → ℤ
    → ExecuteOptions JournalResult
unfolding run_journal decode_journal
post_options call request correlation_id actor postings total = record {
  scope = journal_entry;
  key_hash = call.sha256 request.idempotency_key;
  request_hash = call.canonical_request_hash (journal_payload request postings);
  run = run_journal call.post_env request correlation_id actor postings total;
  encode = journal_response;
  decode = decode_journal;
}

-- `outcome.result`, with the tables after the call.
abbrev pub outcome_result :
    Result Failure (IdempotentOutcome JournalResult) × Db → Result Failure JournalResult × Db
outcome_result (ok o, db) = (ok o.result, db)
outcome_result (err e, db) = (err e, db)

-- The checks that come before the transaction.
pub prepare_post : InternalJournalRequest → Result Failure (List Posting × ℤ)
prepare_post request = do
  postings ← normalise_postings request.postings
  total ← assert_balanced postings
  ok (postings, total)

unfoldable pub post :
    PostCall
    → InternalJournalRequest
    → Ident
    → JournalActor
    → Db
    → Result Failure JournalResult × Db
unfolding prepare_post post_options execute
post call request correlation_id actor db = elim (prepare_post request) [
  | err e ↦ (err e, db)
  | ok prepared ↦ outcome_result (
      execute (post_options call request correlation_id actor prepared.0 prepared.1)
        call.execute_env db)
]
