-- ===== src/NativeEap.antt =====
-- src/native_eap.rs: the credentials of the validation utility.
use Prim.Native.String.{len}
use text.Mathlib.Text.{◌==◌ as str_eq}
use sysu_netauth.Common.{
  ℕ, ◌≡◌, ◌≤◌, ◌<◌, Bool, false, not, ◌&&◌, any, List, [], ◌∷◌, leb, ◌==◌, length, is_empty, Result,
  ok, ◌>>=◌, ◌>>◌, ensure, Option, String, arith, refl, Result-cases, inl, inr,
}
use sysu_netauth.Protocol.{Packet, Md5, Encoder, gbk, answer}
use sysu_netauth.Update.Text.{codes}

abbrev pub max_username : ℕ
max_username = 256

abbrev pub max_password : ℕ
max_password = 1024

pub record Credentials : Type 0 where
  pub username : String
  pub password : List ℕ

abbrev pub has_nul : String → Bool
has_nul text = any (λ c. c == 0) (codes text)

unfoldable pub new : Encoder → String → String → Result Credentials
new encode username password = do
  ensure (not (str_eq username "") && leb (len username) max_username) "invalid NetID length"
  ensure (not (has_nul username) && not (has_nul password)) "credentials contain NUL"
  user ← gbk encode username
  secret ← gbk encode password
  ensure (not (is_empty secret) && leb (length secret) max_password) "invalid password length"
  ok (record { username = username; password = secret })

unfoldable pub credentials_answer :
    Md5 → Encoder → Credentials → List ℕ → List ℕ → Packet → Result (Option (List ℕ))
credentials_answer md5 encode c source destination packet = do
  user ← gbk encode c.username
  answer md5 source destination packet user c.password

filled : (l : List ℕ) → is_empty l ≡ false → 0 < length l
filled [] e = absurd (cc)
filled (x ∷ xs) e = omega arith

-- Accepted credentials are answered with: the name is encoded again without an error, and the
-- password has a byte and at most 1024.
pub new-credentials_answer :
    (encode : Encoder) (username password : String) (c : Credentials)
    → new encode username password ≡ ok c
    → (user : List ℕ) × (gbk encode username ≡ ok user)
      × (0 < length c.password)
      × (length c.password ≤ max_password)
      × ((md5 : Md5) (source destination : List ℕ) (packet : Packet)
          → credentials_answer md5 encode c source destination packet
            ≡ answer md5 source destination packet user c.password)
unfolding new credentials_answer
new-credentials_answer encode username password c h = elim (Result-cases (gbk encode username)) [
  | inr u ↦ absurd (ground (arith))
  | inl u ↦ elim (Result-cases (gbk encode password)) [
    | inr p ↦ absurd (ground (arith))
    | inl p ↦
        let n : c.username ≡ username = ground (arith) in
        let s : c.password ≡ p.0 = ground (arith) in
        let g : gbk encode c.username ≡ ok u.0 = rw n u.1 in
        let e : is_empty p.0 ≡ false = ground (arith) in
        (u.0, u.1, rw s (filled p.0 e), ground (arith), λ md5 source destination packet. rw g refl)
  ]
]
