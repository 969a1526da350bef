-- ===== src/Payments/Qr/Steps/Scanned.antt =====
-- qr.service.ts: a code that was scanned is not scanned again, whatever happens between.
use aegis_shield_phase.Prelude.{
  ◌≡◌, refl, ◌∙◌, ap, Bool, true, ◌||◌, some, List, [], ◌∷◌, ◌++◌, arith, ◌==◌, find, any,
  update_where, ok, ==_refl, Bool-cases, inl, inr,
}
use aegis_shield_phase.Payments.Schema.{Ident}
use aegis_shield_phase.Payments.Qr.Schema.{Chars, QrPaymentRequest, QrRedemption, QrDb}
use aegis_shield_phase.Payments.Qr.Codes.{SignedQrPayload}
use aegis_shield_phase.Payments.Qr.Env.{QrEnv}
use aegis_shield_phase.Payments.Qr.Preview.{
  PreviewInput, QrPreview, clashes, find_by_nonce, preview,
}
use aegis_shield_phase.Payments.Qr.Steps.{
  Steps, stay, go, Change, kept, added, changed, RequestChange, appended, revised,
  preview-IsScanned, Step-Changes,
}

abbrev pub redeems : Ident → QrRedemption → Bool
redeems i r = r.qr_payment_request_id == i

-- A code is scanned: its nonce is the one of a request, and a redemption of the request is stored.
record WasScanned (nonce_hash : Ident) (db : QrDb) : Type 0 where
  request : QrPaymentRequest
  found : find_by_nonce nonce_hash db ≡ some request
  taken : any (redeems request.id) db.redemptions ≡ true

any-append :
    (p : QrRedemption → Bool) (rows : List QrRedemption) (new : QrRedemption)
    → any p (rows ++ new ∷ []) ≡ (any p rows || p new)
any-append p [] new = ground arith
any-append p (r ∷ rows) new = ground (arith, any-append p rows new)

any-update_where :
    (p hit : QrRedemption → Bool) (f : QrRedemption → QrRedemption) (rows : List QrRedemption)
    → ((r : QrRedemption) → p (f r) ≡ p r)
    → any p (update_where hit f rows) ≡ any p rows
any-update_where p hit f [] same = refl
any-update_where p hit f (r ∷ rows) same =
    ground (arith, same r, any-update_where p hit f rows same)

Change-taken :
    (i : Ident) (rows rows' : List QrRedemption)
    → Change rows rows'
    → any (redeems i) rows ≡ true
    → any (redeems i) rows' ≡ true
Change-taken i rows rows' (kept same) h = rw same h
Change-taken i rows rows' (added new free same) h =
    rw (same, any-append (redeems i) rows new, h) refl
Change-taken i rows rows' (changed hit f stays same) h =
    rw (same, any-update_where (redeems i) hit f rows (λ r. ap (λ q. q == i) (stays r))) h

find-more :
    (p : QrPaymentRequest → Bool) (rows new : List QrPaymentRequest) {q : QrPaymentRequest}
    → find p rows ≡ some q
    → find p (rows ++ new) ≡ some q
find-more p [] new h = ground (arith, h)
find-more p (r ∷ rows) new {q} h = ground (arith, h, find-more p rows new {q = q})

-- The request of a nonce, after the rows that are hit were changed.
find-revised :
    (n : Ident) (hit : QrPaymentRequest → Bool) (f : QrPaymentRequest → QrPaymentRequest)
    (rows : List QrPaymentRequest) (q : QrPaymentRequest)
    → ((r : QrPaymentRequest) → ((f r).id ≡ r.id) × ((f r).nonce_hash ≡ r.nonce_hash))
    → find (λ (r : QrPaymentRequest). r.nonce_hash == n) rows ≡ some q
    → (q' : QrPaymentRequest) × (find
          (λ (r : QrPaymentRequest). r.nonce_hash == n)
          (update_where hit f rows)
        ≡ some q')
      × (q'.id ≡ q.id)
find-revised n hit f [] q same h = absurd (ground (arith, h))
find-revised n hit f (r ∷ rows) q same h = elim (Bool-cases (r.nonce_hash == n)) [
  | inr other ↦
      let (q', found, ident) = find-revised n hit f rows q same (ground (arith, other, h)) in
      (q', ground (arith, other, found, (same r).1), ident)
  | inl here ↦ elim (Bool-cases (hit r)) [
    | inl touched ↦
        (f r, ground (arith, here, touched, (same r).1), (same r).0 ∙ ground (arith, here, h))
    | inr apart ↦ (r, ground (arith, here, apart), ground (arith, here, h))
  ]
]

RequestChange-found :
    (n : Ident) (rows rows' : List QrPaymentRequest) (q : QrPaymentRequest)
    → RequestChange rows rows'
    → find (λ (r : QrPaymentRequest). r.nonce_hash == n) rows ≡ some q
    → (q' : QrPaymentRequest) × (find (λ (r : QrPaymentRequest). r.nonce_hash == n) rows' ≡ some q')
      × (q'.id ≡ q.id)
RequestChange-found n rows rows' q (appended new same) h =
    (q, rw same (find-more _ rows new h), refl)
RequestChange-found n rows rows' q (revised hit f keeps same) h =
    rw same (find-revised n hit f rows q keeps h)

Steps-WasScanned : (n : Ident) {db db' : QrDb} → Steps db db' → WasScanned n db → WasScanned n db'
Steps-WasScanned n (stay db) h = h
Steps-WasScanned n (go a b c before step) h =
    let s = Steps-WasScanned n before h in
    let change = Step-Changes step in
    let (q', found, ident) =
      RequestChange-found n b.requests c.requests s.request change.1 s.found in
    record {
      request = q';
      found = found;
      taken = rw ident (Change-taken s.request.id b.redemptions c.redemptions change.0 s.taken);
    }

taken-clashes :
    (i : Ident) (new : QrRedemption) (rows : List QrRedemption)
    → new.qr_payment_request_id ≡ i
    → any (redeems i) rows ≡ true
    → any (clashes new) rows ≡ true
taken-clashes i new [] own h = cc
taken-clashes i new (r ∷ rows) own h = ground (arith, own, h, taken-clashes i new rows own)

preview-WasScanned :
    (env : QrEnv) (input : PreviewInput) (db : QrDb) {db' : QrDb} {v : QrPreview}
    → preview env input db ≡ ok (v, db')
    → (payload : SignedQrPayload) × (env.decode input.payload ≡ some payload)
      × WasScanned (env.sha256 payload.data_of.nonce) db'
preview-WasScanned env input db {db'} h =
    let s = preview-IsScanned env input db {db' = db'} h in
    (
      s.payload,
      s.decoded,
      record {
        request = s.qr;
        found = rw s.same s.found;
        taken =
            rw
              (
                s.written,
                any-append (redeems s.qr.id) db.redemptions s.new,
                s.of_qr,
                ==_refl s.qr.id,
              )
              (ground arith);
      },
    )

-- A code that was previewed is never previewed again, whether it is static or dynamic, by whom,
-- when, and whatever steps come between: if the decoding and the hash are functions.
pub scanned_once :
    (env env' : QrEnv) (input input' : PreviewInput) (db : QrDb) {mid after last : QrDb}
    {v w : QrPreview}
    → input'.payload ≡ input.payload
    → ((text : Chars) → env'.decode text ≡ env.decode text)
    → ((text : Chars) → env'.sha256 text ≡ env.sha256 text)
    → preview env input db ≡ ok (v, mid)
    → Steps mid after
    → ¬ (preview env' input' after ≡ ok (w, last))
scanned_once env env' input input' db {mid} {after} {last} same decode sha first steps again =
    let (payload, decoded, scanned) = preview-WasScanned env input db {db' = mid} first in
    let before = Steps-WasScanned (env.sha256 payload.data_of.nonce) steps scanned in
    let s = preview-IsScanned env' input' after {db' = last} again in
    let one_payload : s.payload ≡ payload =
      ground (arith, s.decoded, decode input'.payload, ap env.decode same, decoded) in
    let one_request : s.qr ≡ before.request = ground (
      arith,
      s.found,
      before.found,
      sha s.payload.data_of.nonce,
      ap (λ (p : SignedQrPayload). env.sha256 p.data_of.nonce) one_payload,
    ) in
    ground (
      arith,
      s.free,
      taken-clashes before.request.id s.new after.redemptions
          (s.of_qr ∙ ap (λ (q : QrPaymentRequest). q.id) one_request) before.taken,
    )
