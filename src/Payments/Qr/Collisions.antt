-- ===== src/Payments/Qr/Collisions.antt =====
-- qr-crypto.ts `canonicalPayloadString`: two codes with one text to sign.
use mathlib.Core.List.{append_assoc}
use aegis_shield_phase.Prelude.{Option-cases, inl, inr, ℕ, ◌≡◌, refl, some, [], ◌∷◌, ◌++◌}
use aegis_shield_phase.Payments.Qr.Schema.{Chars}
use aegis_shield_phase.Payments.Qr.Codes.{
  QrPayloadData, Signing, ref_key, canonical_payload_string, verify_qr_signature,
}

-- `&recipientRef=`
abbrev pub separator : Chars
separator = b'&' ∷ ref_key ++ b'=' ∷ []

abbrev pub with_reference : QrPayloadData → Chars → Chars → QrPayloadData
with_reference d purpose reference = record d { purpose = some purpose; recipient_ref = reference }

same_text :
    (digits : ℕ → Chars) (d : QrPayloadData) (x y z : Chars)
    → canonical_payload_string digits (with_reference d (x ++ separator ++ y) z)
      ≡ canonical_payload_string digits (with_reference d x (y ++ separator ++ z))
unfolding canonical_payload_string
same_text digits d x y z = elim (Option-cases d.amount_minor) [
  | inl gone ↦ rw gone (simp append_assoc)
  | inr (amount, given) ↦ rw given (simp append_assoc)
]

-- Moving text from the purpose to the reference leaves the text that is signed as it was, so a
-- signature of the one code verifies for the other.
pub verify_qr_signature-moved :
    (s : Signing) (d : QrPayloadData) (x y z signature : Chars)
    → verify_qr_signature s
        (record { data_of = with_reference d (x ++ separator ++ y) z; signature = signature })
      ≡ verify_qr_signature s
          (record { data_of = with_reference d x (y ++ separator ++ z); signature = signature })
unfolding verify_qr_signature
verify_qr_signature-moved s d x y z signature = rw (same_text s.digits d x y z) refl
