-- ===== src/Protocol/Bounds.antt =====
-- src/protocol.rs: `parse` stays inside the frame, and rejects what is cut short.
use sysu_netauth.Common.{
  ℕ, ◌+◌, ◌-◌, ◌≡◌, refl, ◌≤◌, ◌<◌, ◌≢◌, ◌&&◌, Option, none, some, List, [], ◌∷◌, ◌++◌, length,
  take, drop, length-take, length-drop, ok, arith, get_or, leb, ltb, if◌then◌else◌, ◌==◌, zero, suc,
}
use sysu_netauth.Common.Bytes.{bytes_eq, slice, from_be16, to_be16}
use sysu_netauth.Protocol.{
  Packet, IsMac, six, frame, parse, response, control, ethertype, code_ok, lengths_ok,
}

-- A computation that may index out of bounds, where the program would panic.
pub data Outcome {ℓ} (A : Type ℓ) : Type ℓ where
  returns : A → Outcome A
  panics : Outcome A

infixl 5 ◌>>=◌
abbrev ◌>>=◌ {ℓ κ} : {A : Type ℓ} {B : Type κ} → Outcome A → (A → Outcome B) → Outcome B
returns a >>= f = f a
panics >>= f = panics

-- `xs[i]`
abbrev index : List ℕ → ℕ → Outcome ℕ
index xs i = if ltb i (length xs) then returns (get_or xs i 0) else panics

-- `&xs[a..b]`
abbrev range : List ℕ → ℕ → ℕ → Outcome (List ℕ)
range xs a b = if leb a b && leb b (length xs) then returns (slice xs a b) else panics

-- The body of `parse` after the first test, with every access checked.
parse_body : List ℕ → Outcome (Option Packet)
unfolding lengths_ok code_ok
parse_body raw = do
  o0 ← index raw 16
  o1 ← index raw 17
  l0 ← index raw 20
  l1 ← index raw 21
  code ← index raw 18
  id ← index raw 19
  source ← range raw 6 12
  destination ← range raw 0 6
  let len = from_be16 l0 l1
  let bare : Packet = record {
    source = source;
    destination = destination;
    code = code;
    id = id;
    kind = none;
    payload = [];
  }
  let full =
      λ (kind : ℕ) (payload : List ℕ). some (record bare { kind = some kind; payload = payload })
  let tail =
      index raw 22 >>= λ kind. range raw 23 (18 + len) >>= λ payload. returns (full kind payload)
  if lengths_ok (length raw) (from_be16 o0 o1) len && code_ok code len
      then (if leb code 2 then tail else returns (some bare))
      else returns none

-- `parse` with checked accesses: the operands of `||` and `return None` stand in the source's order.
pub parse_checked : List ℕ → Outcome (Option Packet)
unfolding parse_body
parse_checked raw = if ltb (length raw) 22 then returns none else (do
  kind ← range raw 12 14
  reserved ← index raw 15
  version ← index raw 14
  if (bytes_eq kind (to_be16 ethertype) && (reserved == 0) && (leb 1 version && leb version 3))
      then parse_body raw
      else returns none)

-- No access of `parse` is out of bounds, for any input, and the checked run gives what `parse` gives.
pub parse_never_panics : (raw : List ℕ) → parse_checked raw ≡ returns (parse raw)
unfolding parse_checked parse
parse_never_panics raw = ground arith

-- What a parsed frame guarantees.
pub record Fits (raw : List ℕ) (p : Packet) : Type 0 where
  pub code_range : (1 ≤ p.code) × (p.code ≤ 4)
  pub source_size : length p.source ≡ 6
  pub destination_size : length p.destination ≡ 6
  pub request_kind : p.code ≤ 2 → p.kind ≢ none
  pub request_payload : p.code ≤ 2 → 23 + length p.payload ≤ length raw
  pub result_bare : 3 ≤ p.code → (p.kind ≡ none) × (p.payload ≡ [])

-- A frame that parses has a code from 1 to 4 and addresses of six bytes; a request or a response
-- has a kind and a payload that is inside the frame, a success or a failure has neither.
pub parse-Fits : (raw : List ℕ) (p : Packet) → parse raw ≡ some p → Fits raw p
unfolding parse
parse-Fits raw p h =
    let len = from_be16 (get_or raw 20 0) (get_or raw 21 0) in
    ground (
      arith,
      length-take 6 (drop 6 raw),
      length-drop 6 raw,
      length-take 6 raw,
      length-take (18 + len - 23) (drop 23 raw),
      length-drop 23 raw,
    )

get_or-take : (xs : List ℕ) (n i : ℕ) → i < n → get_or (take n xs) i 0 ≡ get_or xs i 0
get_or-take xs zero i h = elim h [ ]
get_or-take [] (suc n) i h = refl
get_or-take (x ∷ xs) (suc n) zero h = refl
get_or-take (x ∷ xs) (suc n) (suc i) h = get_or-take xs n i (omega arith)

-- The declared body length is in the frame.
parse_declares :
    (raw : List ℕ) (p : Packet)
    → parse raw ≡ some p
    → (22 ≤ length raw) × (18 + from_be16 (get_or raw 16 0) (get_or raw 17 0) ≤ length raw)
unfolding parse
parse_declares raw p h = ground arith

parse_truncated :
    (raw : List ℕ) (n : ℕ) (o : Option Packet)
    → n < 18 + from_be16 (get_or raw 16 0) (get_or raw 17 0)
    → n ≤ length raw
    → parse (take n raw) ≡ o
    → o ≡ none
parse_truncated raw n none short fits e = refl
parse_truncated raw n (some p) short fits e =
    let (header, body) = parse_declares (take n raw) p e in
    absurd (omega (arith, length-take n raw, get_or-take raw n 16, get_or-take raw n 17))

-- A response that is built, between two hardware addresses, is rejected when it is cut short
-- anywhere.
pub parse-response_truncated :
    (source destination : List ℕ) (id kind : ℕ) (payload : List ℕ) (n : ℕ) {bytes : List ℕ}
    → IsMac source
    → IsMac destination
    → response source destination id kind payload ≡ ok bytes
    → n < length bytes
    → parse (take n bytes) ≡ none
unfolding response frame
parse-response_truncated source destination id kind payload n {bytes} six six h short =
    parse_truncated bytes n _ (ground arith) (omega arith) refl

-- An EAPOL-Start or EAPOL-Logoff frame is never taken for an EAP packet, padded or not.
pub parse-control :
    (source padding : List ℕ) (kind : ℕ)
    → IsMac source
    → kind ≢ 0
    → parse (control source kind ++ padding) ≡ none
unfolding parse control bytes_eq
parse-control source padding kind six h = ground arith
