-- ===== src/Subscription/Signed.antt =====
-- app/utils/jwt.py: which tokens are answered.
use marzban.Common.{
  ℕ, ◌-◌, Bool, true, false, Option, none, some, [], ◌∷◌, ◌==◌, ◌&&◌, if◌then◌else◌, ◌≡◌, refl,
  arith, ap₂, length,
}
use marzban.Subscription.{
  SubscriptionPayload, Reading, answer, Secret, sign, take_bytes, drop_bytes, starts_with, bytes_eq,
  jwt_prefix, get_subscription_payload, read_signed, read_data, is_utf8, read_decoded,
}
use marzban.Subscription.Base64.{Bytes, b64decode}

and_true : {c d : ℕ} {b : Bool} → ((c == d) && b) ≡ true → (c ≡ d) × (b ≡ true)
and_true h = (ground arith, ground arith)

bytes_eq→eq : (s t : Bytes) → bytes_eq s t ≡ true → s ≡ t
bytes_eq→eq [] [] h = refl
bytes_eq→eq [] (d ∷ t) h = absurd cc
bytes_eq→eq (c ∷ s) [] h = absurd cc
bytes_eq→eq (c ∷ s) (d ∷ t) h =
    let parts = and_true h in ap₂ (λ x xs. x ∷ xs) parts.0 (bytes_eq→eq s t parts.1)

module _ (p : SubscriptionPayload) where
  checked_answer :
      (valid utf8 : Bool) (r : Reading)
      → (if utf8 && valid then r else answer none) ≡ answer (some p)
      → (valid ≡ true) × (r ≡ answer (some p))
  checked_answer true true r h = (refl, h)
  checked_answer false true r h = absurd cc
  checked_answer valid false r h = absurd cc

  -- What is behind the length and the prefix.
  token_answer :
      (short prefixed : Bool) (jwt r : Reading)
      → prefixed ≡ false
      → (if short then answer none else if prefixed then jwt else r) ≡ answer (some p)
      → r ≡ answer (some p)
  token_answer true prefixed jwt r e h = absurd cc
  token_answer false true jwt r e h = absurd cc
  token_answer false false jwt r e h = h

  read_decoded_answer :
      (valid : Bool) (o : Option Bytes)
      → read_decoded valid o ≡ answer (some p)
      → (valid ≡ true) × (s : Bytes) × (o ≡ some s) × (read_data s ≡ answer (some p))
  unfolding read_decoded
  read_decoded_answer valid none h = absurd cc
  read_decoded_answer valid (some s) h =
      let (e, f) = checked_answer valid (is_utf8 s) (read_data s) h in (e, s, refl, f)

-- A token that is no JWT is answered only if its last ten characters are the signature, with the secret
-- key, of the characters before them, these are base 64, and the answer is what their text says.
pub get_subscription_payload_signed :
    (k : Secret) (token : Bytes) (p : SubscriptionPayload)
    → starts_with jwt_prefix token ≡ false
    → get_subscription_payload k token ≡ answer (some p)
    → (drop_bytes (length token - 10) token ≡ sign k (take_bytes (length token - 10) token))
      × (s : Bytes) × (b64decode (take_bytes (length token - 10) token) ≡ some s)
      × (read_data s ≡ answer (some p))
unfolding get_subscription_payload read_signed
get_subscription_payload_signed k token p prefix h =
    let read = token_answer p _ _ _ _ prefix h in
    let (valid, s, decoded, data_read) = read_decoded_answer p _ _ read in
    (bytes_eq→eq _ _ valid, s, decoded, data_read)
