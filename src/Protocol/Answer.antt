-- ===== src/Protocol/Answer.antt =====
-- src/protocol.rs: what `answer` sends back, and when it sends nothing.
use sysu_netauth.Common.{
  ℕ, ◌+◌, ◌-◌, ◌≡◌, refl, sym, ap, ◌<◌, inl, inr, Option, none, some, List, [], ◌∷◌, ◌++◌, length,
  take, drop, zero, suc, length-take, ok, arith, ◌==◌, Bool-cases,
}
use sysu_netauth.Common.Bytes.{slice}
use sysu_netauth.Protocol.{
  Packet, IsMac, Md5, parse, response, answer, answer_kind, answer_identity, answer_challenge,
}
use sysu_netauth.Protocol.RoundTrip.{returned, parse-response}

-- An MD5 challenge is a length byte, that many bytes of value, and a rest.
pub record Challenge (payload value : List ℕ) : Type 0 where
  pub size : ℕ
  pub rest : List ℕ
  pub nonempty : 0 < size
  pub layout : payload ≡ size ∷ (value ++ rest)
  pub value_size : length value ≡ size

take-append-drop : (n : ℕ) (xs : List ℕ) → take n xs ++ drop n xs ≡ xs
take-append-drop zero xs = refl
take-append-drop (suc n) [] = refl
take-append-drop (suc n) (x ∷ xs) = ap (◌∷◌ x) (take-append-drop n xs)

take_suc : (n : ℕ) (x : ℕ) (xs : List ℕ) → slice (x ∷ xs) 1 (n + 1) ≡ take n xs
take_suc n x xs = let e : n + 1 - 1 ≡ n = omega arith in rw e

-- The payload that a request is answered with.
pub data Replies (md5 : Md5) (p : Packet) (username password : List ℕ) : ℕ → List ℕ → Type 0 where
  identity : p.kind ≡ some 1 → Replies md5 p username password 1 username
  digest :
      (value : List ℕ)
      → p.kind ≡ some 4
      → Challenge p.payload value
      → Replies md5 p username password 4
          ((16 ∷ []) ++ (md5 ((p.id ∷ []) ++ (password ++ value)) ++ username))

module _ (md5 : Md5) (source destination : List ℕ) (p : Packet) (username password : List ℕ) where
  challenge_ok :
      (payload : List ℕ) {bytes : List ℕ}
      → p.kind ≡ some 4
      → p.payload ≡ payload
      → answer_challenge md5 source destination p.id payload username password ≡ ok (some bytes)
      → (body : List ℕ) × Replies md5 p username password 4 body
        × (response source destination p.id 4 body ≡ ok bytes)
  unfolding answer_challenge response
  challenge_ok [] k e h = absurd (ground arith)
  challenge_ok (len ∷ xs) k e h = (
    _,
    digest (take len xs) k (record {
      size = len;
      rest = drop len xs;
      nonempty = ground arith;
      layout = rw e (ap (◌∷◌ len) (sym (take-append-drop len xs)));
      value_size = ground (arith, length-take len xs);
    }),
    ground arith,
  )

  identity_ok :
      {bytes : List ℕ}
      → answer_identity source destination p username ≡ ok (some bytes)
      → response source destination p.id 1 username ≡ ok bytes
  unfolding answer_identity response
  identity_ok h = ground arith

  kind_ok :
      (kind : Option ℕ) {bytes : List ℕ}
      → p.kind ≡ kind
      → answer_kind md5 source destination kind p username password ≡ ok (some bytes)
      → (k : ℕ) × (body : List ℕ) × Replies md5 p username password k body
        × (response source destination p.id k body ≡ ok bytes)
  unfolding answer_kind
  kind_ok none e h = absurd (ground arith)
  kind_ok (some k) {bytes} e h = elim (Bool-cases (k == 1)) [
    | inl one ↦ (1, username, identity (ground arith), identity_ok {bytes = bytes} (ground arith))
    | inr other ↦ elim (Bool-cases (k == 4)) [
      | inl four ↦
          let (body, r, q) =
            challenge_ok p.payload {bytes = bytes} (ground arith) refl (ground arith) in
          (4, body, r, q)
      | inr neither ↦ absurd (ground arith)
    ]
  ]

  -- Whatever is sent answers a request, and parses back to a response with the request's
  -- identifier that carries the user name, or the digest of a well-formed challenge.
  pub answer-parse :
      (padding : List ℕ) {bytes : List ℕ}
      → IsMac source
      → IsMac destination
      → answer md5 source destination p username password ≡ ok (some bytes)
      → (p.code ≡ 1)
        × (k : ℕ) × (body : List ℕ) × Replies md5 p username password k body
        × (parse (bytes ++ padding) ≡ some (returned source destination p.id k body))
  unfolding answer
  answer-parse padding {bytes} src dst h =
      let (k, body, r, q) = kind_ok p.kind {bytes = bytes} refl (ground arith) in
      (ground arith, k, body, r, parse-response source destination p.id k body padding src dst q)
