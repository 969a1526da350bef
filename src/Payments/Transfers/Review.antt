-- ===== src/Payments/Transfers/Review.antt =====
-- transfers.service.ts `recover`: a transfer that the Ledger never answers goes to review.
use aegis_shield_phase.Prelude.{
  ℕ, suc, ◌+◌, ◌*◌, ◌≤◌, ◌<◌, ◌≡◌, refl, ◌∙◌, ap, true, false, Option, none, some, List, [], ◌∷◌,
  ◌++◌, arith, leb, ==_refl, get_or, length, All, err, Bool-cases, inl, inr,
}
use aegis_shield_phase.Payments.Schema.{
  processing, requires_review, TransferIntent, TransferEvent, Transfer, Db,
}
use aegis_shield_phase.Payments.Calls.{CallEnv, other_exception}
use aegis_shield_phase.Payments.Settlement.{settle}
use aegis_shield_phase.Payments.Transfers.Recovery.{
  RecoveryConfig, is_stale, insert_stale, sort_stale, selected, reviewed_row, retried_row,
  review_event, retry_event, add_row, claim_row, claim_all, settle_all, recover,
}

-- Tables with one transfer.
abbrev pub lone : List TransferIntent → List TransferEvent → Transfer → Db
lone intents events t = record { intents = intents; transfers = t ∷ []; events = events }

abbrev pub gap : RecoveryConfig → ℕ
gap cfg = cfg.recovery_stale_seconds * 1000

-- Recoveries, one after the other.
unfoldable pub recover_all : RecoveryConfig → List CallEnv → Db → Db
unfolding recover
recover_all cfg [] db = db
recover_all cfg (env ∷ envs) db = recover_all cfg envs (recover cfg env db).1

-- Each recovery comes more than the stale period after the one before.
abbrev pub IsSpaced : RecoveryConfig → ℕ → List CallEnv → Type 0
IsSpaced cfg last [] = Unit
IsSpaced cfg last (env ∷ envs) = (last + gap cfg < env.now) × IsSpaced cfg env.now envs

abbrev pub IsSilent : CallEnv → Type 0
IsSilent env = (row : Transfer) → env.ledger_transfer row ≡ err other_exception

module _ (cfg : RecoveryConfig) (env : CallEnv) (intents : List TransferIntent)
    (events : List TransferEvent) (t : Transfer) where
  picked : is_stale cfg env t ≡ true → selected cfg env (lone intents events t) ≡ t ∷ []
  unfolding selected sort_stale insert_stale
  picked stale = rw (stale, sort_stale) refl

  claimed_all :
      (row : Option Transfer) (after : Db)
      → claim_row cfg env t (lone intents events t) ≡ (row, after)
      → claim_all cfg env (t ∷ []) (lone intents events t) ≡ (add_row row [], after)
  unfolding claim_all
  claimed_all row after h = rw (==_refl t.id, h, claim_all) refl

  retry :
      leb cfg.max_processing_attempts (suc t.attempt_count) ≡ false
      → claim_row cfg env t (lone intents events t) ≡ (
        some (retried_row cfg env (suc t.attempt_count) t),
        lone intents
            (events ++ retry_event env t.id ∷ [])
            (retried_row cfg env (suc t.attempt_count) t),
      )
  unfolding claim_row
  retry more = rw (more, ==_refl t.id) (rw (==_refl t.id) refl)

  review :
      leb cfg.max_processing_attempts (suc t.attempt_count) ≡ true
      → claim_row cfg env t (lone intents events t) ≡ (
        none,
        lone intents
            (events ++ review_event env t.id ∷ [])
            (reviewed_row env (suc t.attempt_count) t),
      )
  unfolding claim_row
  review last = rw (last, ==_refl t.id) refl

  retried :
      is_stale cfg env t ≡ true
      → leb cfg.max_processing_attempts (suc t.attempt_count) ≡ false
      → IsSilent env
      → (recover cfg env (lone intents events t)).1
        ≡ lone intents
            (events ++ retry_event env t.id ∷ [])
            (retried_row cfg env (suc t.attempt_count) t)
  unfolding recover settle_all settle
  retried stale more silent =
      rw
        (
          picked stale,
          claimed_all (some (retried_row cfg env (suc t.attempt_count) t))
              (lone intents (events ++ retry_event env t.id ∷ [])
                (retried_row cfg env (suc t.attempt_count) t))
              (retry more),
          silent (retried_row cfg env (suc t.attempt_count) t),
          settle,
          settle_all,
        )
        refl

  reviewed :
      is_stale cfg env t ≡ true
      → leb cfg.max_processing_attempts (suc t.attempt_count) ≡ true
      → (recover cfg env (lone intents events t)).1
        ≡ lone intents
            (events ++ review_event env t.id ∷ [])
            (reviewed_row env (suc t.attempt_count) t)
  unfolding recover settle_all settle
  reviewed stale last =
      rw
        (
          picked stale,
          claimed_all none
              (lone intents (events ++ review_event env t.id ∷ [])
                (reviewed_row env (suc t.attempt_count) t))
              (review last),
        )
        refl

  left_alone :
      is_stale cfg env t ≡ false
      → (recover cfg env (lone intents events t)).1 ≡ lone intents events t
  unfolding recover selected sort_stale claim_all settle_all
  left_alone fresh = rw (fresh, sort_stale, claim_all, settle_all) refl

-- A transfer in PROCESSING, due again no later than the stale period after its last change.
record IsWaiting (cfg : RecoveryConfig) (t : Transfer) : Type 0 where
  open_still : t.status ≡ processing
  due : get_or t.next_attempt_at 0 ≤ t.updated_at + gap cfg

waiting-stale :
    (cfg : RecoveryConfig) (env : CallEnv) (t : Transfer)
    → IsWaiting cfg t
    → t.updated_at + gap cfg < env.now
    → is_stale cfg env t ≡ true
waiting-stale cfg env t w late = ground (arith, w.open_still, w.due, late)

stays_reviewed :
    (cfg : RecoveryConfig) (envs : List CallEnv) (intents : List TransferIntent)
    (events : List TransferEvent) (t : Transfer)
    → t.status ≡ requires_review
    → recover_all cfg envs (lone intents events t) ≡ lone intents events t
unfolding recover_all
stays_reviewed cfg [] intents events t h = refl
stays_reviewed cfg (env ∷ envs) intents events t h =
    ap (recover_all cfg envs) (left_alone cfg env intents events t (ground (arith, h)))
    ∙ stays_reviewed cfg envs intents events t h

-- A transfer alone in its table, in PROCESSING and due, whose Ledger never answers, is in review
-- after as many recoveries as it has attempts left, one at least, if each comes more than the stale
-- period after the one before, and stays there in the recoveries that follow.
pub recover_all-reviewed :
    (cfg : RecoveryConfig) (envs : List CallEnv) (intents : List TransferIntent)
    (events : List TransferEvent) (t : Transfer)
    → t.status ≡ processing
    → get_or t.next_attempt_at 0 ≤ t.updated_at + gap cfg
    → IsSpaced cfg t.updated_at envs
    → All IsSilent envs
    → 1 ≤ length envs
    → cfg.max_processing_attempts ≤ t.attempt_count + length envs
    → (es : List TransferEvent) × (u : Transfer) × (recover_all cfg envs (lone intents events t)
        ≡ lone intents es u)
      × (u.status ≡ requires_review)
unfolding recover_all
recover_all-reviewed cfg [] intents events t o d spaced silent some_left enough =
    absurd (omega (arith, some_left))
recover_all-reviewed cfg (env ∷ envs) intents events t o d (late, spaced) (quiet, silent) some_left
      enough =
    let stale = waiting-stale cfg env t (record { open_still = o; due = d }) late in
    elim (Bool-cases (leb cfg.max_processing_attempts (suc t.attempt_count))) [
      | inl last ↦ (
        events ++ review_event env t.id ∷ [],
        reviewed_row env (suc t.attempt_count) t,
        ap (recover_all cfg envs) (reviewed cfg env intents events t stale last)
            ∙ stays_reviewed cfg envs intents (events ++ review_event env t.id ∷ [])
                (reviewed_row env (suc t.attempt_count) t) refl,
        refl,
      )
      | inr more ↦
          let next = retried_row cfg env (suc t.attempt_count) t in
          let (es, u, ends, done) =
            recover_all-reviewed cfg envs intents (events ++ retry_event env t.id ∷ []) next o
              (omega arith) spaced silent (ground (arith, more, enough)) (omega (arith, enough)) in
          (
            es,
            u,
            ap (recover_all cfg envs) (retried cfg env intents events t stale more quiet) ∙ ends,
            done,
          )
    ]
