-- ===== src/Protocol.antt =====
-- src/protocol.rs: the EAPOL frames. A frame is a list of bytes, a hardware address a list of six
-- of them. MD5 is code of the `md-5` crate, and so a parameter.
pub mod RoundTrip
pub mod Bounds
pub mod Answer
use sysu_netauth.Common.{
  ℕ, ◌+◌, ◌-◌, ◌≡◌, ◌≤◌, Bool, true, false, not, ◌&&◌, ◌||◌, Option, none, some, List, [], ◌∷◌,
  ◌++◌, leb, ltb, ◌==◌, if◌then◌else◌, length, get_or, Result, ok, err, ◌>>=◌, ◌>>◌, ensure, take,
  drop, String,
}
use sysu_netauth.Common.Bytes.{bytes_eq, slice, to_be16, from_be16}

abbrev pub pae : List ℕ
pae = 1 ∷ 0x80 ∷ 0xc2 ∷ 0 ∷ 0 ∷ 3 ∷ []

abbrev pub ethertype : ℕ
ethertype = 0x888e

abbrev pub max_frame : ℕ
max_frame = 2048

abbrev pub zero_mac : List ℕ
zero_mac = 0 ∷ 0 ∷ 0 ∷ 0 ∷ 0 ∷ 0 ∷ []

pub record Packet : Type 0 where
  pub source : List ℕ
  pub destination : List ℕ
  pub code : ℕ
  pub id : ℕ
  pub kind : Option ℕ
  pub payload : List ℕ

-- A hardware address has six bytes.
pub data IsMac : List ℕ → Type 0 where
  six : {a b c d e f : ℕ} → IsMac (a ∷ b ∷ c ∷ d ∷ e ∷ f ∷ [])

-- The header tests that stand before the length fields are read.
header_ok : List ℕ → Bool
header_ok raw =
    not (ltb (length raw) 22)
    && bytes_eq (slice raw 12 14) (to_be16 ethertype)
    && (get_or raw 15 0 == 0)
    && (leb 1 (get_or raw 14 0) && leb (get_or raw 14 0) 3)

-- `outer` is the length of the EAPOL body, `len` that of the EAP packet.
lengths_ok : ℕ → ℕ → ℕ → Bool
lengths_ok size outer len = not (ltb outer 4 || ltb (size - 18) outer || ltb len 4 || ltb outer len)

code_ok : ℕ → ℕ → Bool
code_ok code len = leb 1 code && leb code 4 && not (leb code 2 && ltb len 5)

-- `raw[23..18 + len]` is read only for requests and responses.
packet_of : List ℕ → ℕ → Packet
packet_of raw len = record {
  source = slice raw 6 12;
  destination = take 6 raw;
  code = get_or raw 18 0;
  id = get_or raw 19 0;
  kind = if leb (get_or raw 18 0) 2 then some (get_or raw 22 0) else none;
  payload = if leb (get_or raw 18 0) 2 then slice raw 23 (18 + len) else [];
}

unfoldable pub parse : List ℕ → Option Packet
unfolding header_ok lengths_ok code_ok packet_of
parse raw =
    let outer = from_be16 (get_or raw 16 0) (get_or raw 17 0) in
    let len = from_be16 (get_or raw 20 0) (get_or raw 21 0) in
    if header_ok raw
    then (if lengths_ok (length raw) outer len
        then (if code_ok (get_or raw 18 0) len then some (packet_of raw len) else none)
        else none)
    else none

-- The GBK encoder of the `encoding_rs` crate: `none` where a character has no encoding.
abbrev pub Encoder : Type 0
Encoder = String → Option (List ℕ)

unfoldable pub gbk : Encoder → String → Result (List ℕ)
gbk encode text = elim (encode text) [
  | none ↦ err "credentials contain characters unavailable in GBK"
  | some bytes ↦ ok bytes
]

unfoldable pub control : List ℕ → ℕ → List ℕ
control source kind = pae ++ source ++ to_be16 ethertype ++ 1 ∷ kind ∷ 0 ∷ 0 ∷ []

-- The frame that `response` builds once its size is checked.
unfoldable pub frame : List ℕ → List ℕ → ℕ → ℕ → List ℕ → List ℕ
frame source destination id kind payload =
    destination
    ++ (source
        ++ (to_be16 ethertype
            ++ (1 ∷ 0 ∷ [])
            ++ to_be16 (5 + length payload)
            ++ (2 ∷ id ∷ [])
            ++ to_be16 (5 + length payload)
            ++ (kind ∷ payload)))

unfoldable pub response : List ℕ → List ℕ → ℕ → ℕ → List ℕ → Result (List ℕ)
unfolding frame
response source destination id kind payload = do
  ensure (leb (length payload + 23) max_frame) "EAP response too large"
  ok (frame source destination id kind payload)

-- The digest of an MD5 challenge: the identifier, the password and the challenge's value.
abbrev pub Md5 : Type 0
Md5 = List ℕ → List ℕ

answer_identity : List ℕ → List ℕ → Packet → List ℕ → Result (Option (List ℕ))
answer_identity source destination packet username = do
  bytes ← response source destination packet.id 1 username
  ok (some bytes)

answer_challenge : Md5 → List ℕ → List ℕ → ℕ → List ℕ → List ℕ → List ℕ → Result (Option (List ℕ))
answer_challenge md5 source destination id [] username password = err "empty MD5 challenge"
answer_challenge md5 source destination id (len ∷ rest) username password = do
  ensure (ltb 0 len && ltb len (length (len ∷ rest))) "truncated MD5 challenge"
  let digest = md5 ((id ∷ []) ++ (password ++ slice (len ∷ rest) 1 (len + 1)))
  bytes ← response source destination id 4 ((16 ∷ []) ++ (digest ++ username))
  ok (some bytes)

-- `match packet.kind` of `answer`
answer_kind : Md5 → List ℕ → List ℕ → Option ℕ → Packet → List ℕ → List ℕ → Result (Option (List ℕ))
unfolding answer_identity answer_challenge
answer_kind md5 source destination none packet username password = ok none
answer_kind md5 source destination (some kind) packet username password =
    if kind == 1
    then answer_identity source destination packet username
    else if kind == 4
    then answer_challenge md5 source destination packet.id packet.payload username password
    else ok none

unfoldable pub answer : Md5 → List ℕ → List ℕ → Packet → List ℕ → List ℕ → Result (Option (List ℕ))
unfolding answer_kind
answer md5 source destination packet username password =
    if packet.code == 1
    then answer_kind md5 source destination packet.kind packet username password
    else ok none
