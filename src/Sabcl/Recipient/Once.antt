-- ===== src/Sabcl/Recipient/Once.antt =====
-- sabcl-recipient.ts `handle`: a message is dispatched once while its identifier is kept.
use aegis_shield_phase.Prelude.{
  ℕ, ◌+◌, ◌*◌, ◌/◌, ◌≤◌, ◌<◌, ◌≡◌, refl, Bool, true, false, Option, none, some, List, [], ◌∷◌,
  arith, All, Result, ok, err, Result-cases, inl, inr,
}
use aegis_shield_phase.Sabcl.Protocol.{Bytes, SabclFailure, SabclHeader, SabclEnvelope}
use aegis_shield_phase.Sabcl.Replay.{Claims}
use aegis_shield_phase.Sabcl.Replay.Laws.{IsClaimStore}
use aegis_shield_phase.Sabcl.Recipient.{
  SabclInnerRequest, SabclRecipient, OpenedRequest, open_request, ttl_of, Clock, serve_claimed,
  handle,
}

-- One call of a recipient: its configuration, its times and what was parsed.
pub record Call : Type 0 where
  pub recipient : SabclRecipient
  pub clock : Clock
  pub message : Option SabclEnvelope

unfoldable pub run_calls : {S : Type 0} → Claims S → List Call → S → S
unfolding handle
run_calls claim [] s = s
run_calls claim (c ∷ cs) s = run_calls claim cs (handle c.recipient claim c.clock c.message s).1

claim-cases :
    (cfg : SabclRecipient) (opened : OpenedRequest) (claimed : Result SabclFailure Bool)
    {inner : SabclInnerRequest}
    → (serve_claimed cfg opened claimed).dispatched ≡ some inner
    → claimed ≡ ok true
claim-cases cfg opened (err e) h = cc
claim-cases cfg opened (ok false) h = cc
claim-cases cfg opened (ok true) h = refl

-- The store keeps an identifier past the last second in which its message is accepted.
kept_long_enough :
    (now later : ℕ) (h : SabclHeader)
    → now ≤ later
    → (h.exp + 1) * 1000 ≤ later + ttl_of (now / 1000) h * 1000
kept_long_enough now later h ordered = omega (arith, ordered)

module _ {S : Type 0} (claim : Claims S) (laws : IsClaimStore claim) where
  -- What a dispatch says of the claim before it.
  record IsClaimed (clock : Clock) (e : SabclEnvelope) (s after : S) : Type 0 where
    claimed :
        (claim clock.claimed_at e.header.mid (ttl_of (clock.ttl_at / 1000) e.header) s).0 ≡ ok true
    stored :
        after ≡ (claim clock.claimed_at e.header.mid (ttl_of (clock.ttl_at / 1000) e.header) s).1

  handle-IsClaimed :
      (cfg : SabclRecipient) (clock : Clock) (e : SabclEnvelope) (s : S) {inner : SabclInnerRequest}
      → (handle cfg claim clock (some e) s).0.dispatched ≡ some inner
      → IsClaimed clock e s (handle cfg claim clock (some e) s).1
  unfolding handle
  handle-IsClaimed cfg clock e s {inner} h =
      elim (Result-cases (open_request cfg (clock.opened_at / 1000) e)) [
        | inr (f, failed) ↦ absurd (ground (arith, rw failed at h))
        | inl (opened, made) ↦ record {
          claimed =
              claim-cases cfg opened
                (claim clock.claimed_at e.header.mid (ttl_of (clock.ttl_at / 1000) e.header) s).0
                {inner = inner} (rw made at h);
          stored = rw made refl;
        }
      ]

  handle_kept :
      (cfg : SabclRecipient) (mid : Bytes) (limit : ℕ) (clock : Clock)
      (message : Option SabclEnvelope) (s : S)
      → clock.claimed_at < limit
      → laws.Holds mid limit s
      → laws.Holds mid limit (handle cfg claim clock message s).1
  unfolding handle
  handle_kept cfg mid limit clock none s before h = h
  handle_kept cfg mid limit clock (some e) s before h =
      elim (Result-cases (open_request cfg (clock.opened_at / 1000) e)) [
        | inr (f, failed) ↦ rw failed h
        | inl (opened, made) ↦ rw made (
            laws.kept clock.claimed_at mid e.header.mid (ttl_of (clock.ttl_at / 1000) e.header)
              limit s before h)
      ]

  run_calls_kept :
      (mid : Bytes) (limit last : ℕ) (calls : List Call) (s : S)
      → last < limit
      → All (λ (c : Call). c.clock.claimed_at ≤ last) calls
      → laws.Holds mid limit s
      → laws.Holds mid limit (run_calls claim calls s)
  unfolding run_calls
  run_calls_kept mid limit last [] s before times h = h
  run_calls_kept mid limit last (c ∷ cs) s before (now, times) h =
      run_calls_kept mid limit last cs (handle c.recipient claim c.clock c.message s).1 before times
        (handle_kept c.recipient mid limit c.clock c.message s (omega (arith, now, before)) h)

  -- After a recipient has dispatched an envelope, no recipient on the same store dispatches it
  -- again, whatever other messages were handled between: if the store keeps a claim for its time
  -- and refuses it meanwhile, the expiry was computed no later than the first claim, the other
  -- claims were made no later than the second, and the second is made before the end of the last
  -- second in which the envelope is accepted.
  pub dispatched_once :
      (cfg cfg' : SabclRecipient) (clock later : Clock) (e : SabclEnvelope) (calls : List Call)
      (s : S) {inner inner' : SabclInnerRequest}
      → clock.ttl_at ≤ clock.claimed_at
      → (handle cfg claim clock (some e) s).0.dispatched ≡ some inner
      → All (λ (c : Call). c.clock.claimed_at ≤ later.claimed_at) calls
      → later.claimed_at < (e.header.exp + 1) * 1000
      → ¬ (
          (handle cfg' claim later
            (some e)
            (run_calls claim calls (handle cfg claim clock (some e) s).1)).0.dispatched
          ≡ some inner')
  dispatched_once cfg cfg' clock later e calls s {inner} {inner'} ordered first times before again =
      let limit = (e.header.exp + 1) * 1000 in
      let after = (handle cfg claim clock (some e) s).1 in
      let between = run_calls claim calls after in
      let one = handle-IsClaimed cfg clock e s {inner = inner} first in
      let two = handle-IsClaimed cfg' later e between {inner = inner'} again in
      let ttl = ttl_of (clock.ttl_at / 1000) e.header in
      let held : laws.Holds e.header.mid limit after = rw one.stored (
        laws.shorter (kept_long_enough clock.ttl_at clock.claimed_at e.header ordered)
          (laws.claimed clock.claimed_at e.header.mid ttl s one.claimed)) in
      laws.refused later.claimed_at e.header.mid (ttl_of (later.ttl_at / 1000) e.header) limit
        between before
        (run_calls_kept e.header.mid limit later.claimed_at calls after before times held)
        two.claimed
