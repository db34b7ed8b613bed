-- ===== src/Email.antt =====
-- internal/emaildelivery/crypto.go and delivery_error.go: the payload of an email, its encryption
-- and the errors of the mail service.
use rtk_account_manager.Common.{
  ℕ, String, Bool, false, Option, none, some, List, ℤ, Result, ok, err, ◌>>=◌, map_error, GoError,
  plain, wrapped, publish_error, delivery_error,
}

abbrev pub Bytes : Type 0
Bytes = List ℕ

pub record Payload : Type 0 where
  pub recipient_email : String
  pub recipient_name : Option String
  pub token : String
  pub expires_at : String
  pub organization_id : String
  pub organization_name : String
  pub requested_quota : ℤ
  pub approved_quota : Option ℤ
  pub decision_reason : Option String

pub record Message : Type 0 where
  pub recipient : String
  pub reply_to : String
  pub subject : String
  pub text : String
  pub html : String

-- crypto/cipher's AEAD and encoding/json, which the source calls.
pub record Cipher : Type 0 where
  pub seal : Bytes → Bytes → Bytes
  pub open_sealed : Bytes → Bytes → Result Bytes
  pub marshal : Payload → Result Bytes
  pub unmarshal : Bytes → Result Payload

-- Encrypt; `random` is what reading a nonce gives and a nil cipher is `none`
pub encrypt : Option Cipher → Result Bytes → Payload → Result (Bytes × Bytes)
encrypt none random payload = err (plain "email outbox cipher unavailable")
encrypt (some c) random payload = do
  text ← c.marshal payload
  nonce ← random
  ok (nonce, c.seal nonce text)

pub decrypt : Option Cipher → Bytes → Bytes → Result Payload
decrypt none nonce ciphertext = err (plain "email outbox cipher unavailable")
decrypt (some c) nonce ciphertext = do
  text ← map_error (wrapped "decrypt email payload") (c.open_sealed nonce ciphertext)
  map_error (wrapped "decode email payload") (c.unmarshal text)

-- IsTransient: the first DeliveryError of the chain decides
unfoldable pub is_transient_delivery : GoError → Bool
is_transient_delivery (delivery_error e b) = b
is_transient_delivery (wrapped s e) = is_transient_delivery e
is_transient_delivery (publish_error e b) = is_transient_delivery e
is_transient_delivery _ = false
