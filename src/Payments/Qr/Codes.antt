-- ===== src/Payments/Qr/Codes.antt =====
-- qr-crypto.ts: the text that a code's signature is taken of, and the check of a signature.
-- The HMAC, the decoding of hexadecimal text and the decimal text of a version are parameters.
use aegis_shield_phase.Prelude.{
  ℕ, Bool, true, false, not, ◌&&◌, Option, none, some, List, [], ◌∷◌, ◌++◌, length, ◌==◌,
}
use aegis_shield_phase.Payments.Qr.Schema.{Chars, QrType, static, dynamic}

pub record QrPayloadData : Type 0 where
  pub version : ℕ
  pub recipient_ref : Chars
  pub currency : Chars
  pub amount_minor : Option Chars
  pub nonce : Chars
  pub expires_at : Chars
  pub type : QrType
  pub purpose : Option Chars
  pub key_id : Chars

pub record SignedQrPayload : Type 0 where
  pub data_of : QrPayloadData
  pub signature : Chars

abbrev pub qr_protocol_version : ℕ
qr_protocol_version = 1

abbrev pub same_chars : Chars → Chars → Bool
same_chars [] [] = true
same_chars (a ∷ rest) (b ∷ bs) = a == b && same_chars rest bs
same_chars _ _ = false

abbrev pub amount_key : Chars
amount_key = b'a' ∷ b'm' ∷ b'o' ∷ b'u' ∷ b'n' ∷ b't' ∷ b'M' ∷ b'i' ∷ b'n' ∷ b'o' ∷ b'r' ∷ []

abbrev pub currency_key : Chars
currency_key = b'c' ∷ b'u' ∷ b'r' ∷ b'r' ∷ b'e' ∷ b'n' ∷ b'c' ∷ b'y' ∷ []

abbrev pub expires_key : Chars
expires_key = b'e' ∷ b'x' ∷ b'p' ∷ b'i' ∷ b'r' ∷ b'e' ∷ b's' ∷ b'A' ∷ b't' ∷ []

abbrev pub id_key : Chars
id_key = b'k' ∷ b'e' ∷ b'y' ∷ b'I' ∷ b'd' ∷ []

abbrev pub nonce_key : Chars
nonce_key = b'n' ∷ b'o' ∷ b'n' ∷ b'c' ∷ b'e' ∷ []

abbrev pub purpose_key : Chars
purpose_key = b'p' ∷ b'u' ∷ b'r' ∷ b'p' ∷ b'o' ∷ b's' ∷ b'e' ∷ []

abbrev pub ref_key : Chars
ref_key = b'r' ∷ b'e' ∷ b'c' ∷ b'i' ∷ b'p' ∷ b'i' ∷ b'e' ∷ b'n' ∷ b't' ∷ b'R' ∷ b'e' ∷ b'f' ∷ []

abbrev pub type_key : Chars
type_key = b't' ∷ b'y' ∷ b'p' ∷ b'e' ∷ []

abbrev pub version_key : Chars
version_key = b'v' ∷ b'e' ∷ b'r' ∷ b's' ∷ b'i' ∷ b'o' ∷ b'n' ∷ []

abbrev type_text : QrType → Chars
type_text static = b'S' ∷ b'T' ∷ b'A' ∷ b'T' ∷ b'I' ∷ b'C' ∷ []
type_text dynamic = b'D' ∷ b'Y' ∷ b'N' ∷ b'A' ∷ b'M' ∷ b'I' ∷ b'C' ∷ []

abbrev pub Entries : Type 0
Entries = List (Chars × Chars)

abbrev optional_entry : Chars → Option Chars → Entries
optional_entry key none = []
optional_entry key (some v) = (key, v) ∷ []

-- The entries as they are once sorted by their keys.
abbrev pub sorted_entries : (ℕ → Chars) → QrPayloadData → Entries
sorted_entries digits d =
    optional_entry amount_key d.amount_minor
    ++ (currency_key, d.currency)
      ∷ (expires_key, d.expires_at)
      ∷ (id_key, d.key_id)
      ∷ (nonce_key, d.nonce)
      ∷ optional_entry purpose_key d.purpose
    ++ (ref_key, d.recipient_ref)
      ∷ (type_key, type_text d.type)
      ∷ (version_key, digits d.version)
      ∷ []

-- `${k}=${v}`, joined by `&`.
abbrev entry_text : Chars × Chars → Chars
entry_text (k, v) = k ++ b'=' ∷ v

abbrev pub join_entries : Entries → Chars
join_entries [] = []
join_entries (e ∷ []) = entry_text e
join_entries (e ∷ f ∷ es) = entry_text e ++ b'&' ∷ join_entries (f ∷ es)

unfoldable pub canonical_payload_string : (ℕ → Chars) → QrPayloadData → Chars
canonical_payload_string digits d = join_entries (sorted_entries digits d)

pub record Signing : Type 0 where
  pub digits : ℕ → Chars
  pub hmac : Chars → Chars
  pub from_hex : Chars → List ℕ

unfoldable pub verify_qr_signature : Signing → SignedQrPayload → Bool
unfolding canonical_payload_string
verify_qr_signature s p =
    let given = s.from_hex p.signature in
    let expected = s.from_hex (s.hmac (canonical_payload_string s.digits p.data_of)) in
    length given == length expected && not (length given == 0) && same_chars given expected
