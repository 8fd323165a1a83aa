-- ===== src/Protocol/RoundTrip.antt =====
-- src/protocol.rs: what `parse` reads back from the frames that `response` and `control` build.
use sysu_netauth.Common.{
  ℕ, ◌+◌, ◌-◌, ◌*◌, ◌%◌, ◌/◌, ◌≡◌, ◌≤◌, some, List, ◌++◌, length, take, length-append, take-append,
  ok, arith,
}
use sysu_netauth.Common.Bytes.{bytes_eq}
use sysu_netauth.Protocol.{Packet, IsMac, six, frame, parse, response, max_frame}

-- What comes back from a response: a packet with code 2 that holds the given fields.
abbrev pub returned : List ℕ → List ℕ → ℕ → ℕ → List ℕ → Packet
returned source destination id kind payload = record {
  source = source;
  destination = destination;
  code = 2;
  id = id;
  kind = some kind;
  payload = payload;
}

-- The length field of a response is what `parse` cuts the payload by.
cut_payload :
    (payload padding : List ℕ)
    → length payload + 23 ≤ max_frame
    → let n = 5 + length payload in
      take (18 + (n / 256 % 256 * 256 + n % 256) - 23) (payload ++ padding) ≡ payload
cut_payload payload padding h =
    let n = 5 + length payload in
    let size : 18 + (n / 256 % 256 * 256 + n % 256) - 23 ≡ length payload = omega arith in
    rw size (take-append payload padding)

parse-frame :
    (source destination : List ℕ) (id kind : ℕ) (payload padding : List ℕ)
    → IsMac source
    → IsMac destination
    → length payload + 23 ≤ max_frame
    → parse (frame source destination id kind payload ++ padding)
      ≡ some (returned source destination id kind payload)
unfolding parse frame bytes_eq
parse-frame source destination id kind payload padding six six h =
    ground (arith, length-append payload padding, cut_payload payload padding)

response-ok :
    (source destination : List ℕ) (id kind : ℕ) (payload : List ℕ) {bytes : List ℕ}
    → response source destination id kind payload ≡ ok bytes
    → (bytes ≡ frame source destination id kind payload) × (length payload + 23 ≤ max_frame)
unfolding response
response-ok source destination id kind payload h = ground arith

-- A response that is built, between two hardware addresses, parses back to its fields, whatever
-- padding the link appends.
pub parse-response :
    (source destination : List ℕ) (id kind : ℕ) (payload padding : List ℕ) {bytes : List ℕ}
    → IsMac source
    → IsMac destination
    → response source destination id kind payload ≡ ok bytes
    → parse (bytes ++ padding) ≡ some (returned source destination id kind payload)
parse-response source destination id kind payload padding src dst h =
    let (e, fits) = response-ok source destination id kind payload h in
    rw e (parse-frame source destination id kind payload padding src dst fits)
