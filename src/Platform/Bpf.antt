-- ===== src/Platform/Bpf.antt =====
-- src/platform/bpf.rs: the records of a BPF buffer, and src/platform/macos.rs: the capture that
-- reads them. The targets are little-endian; a buffer is a list of bytes.
pub mod Drain
pub mod Records
use sysu_netauth.Common.{
  ℕ, zero, suc, ◌+◌, ◌-◌, ◌*◌, ◌%◌, ◌^◌, Bool, true, false, not, ◌&&◌, Option, none, some, List, [],
  ◌∷◌, leb, ltb, ◌==◌, if◌then◌else◌, length, get_or, drop, take, Result, ok, err, ◌>>=◌, ◌>>◌,
  ensure, String,
}
use sysu_netauth.Common.Bytes.{slice}
use sysu_netauth.Protocol.{max_frame}

-- `from_ne_bytes`
abbrev pub from_le16 : ℕ → ℕ → ℕ
from_le16 lo hi = lo + hi * 256

abbrev pub from_le32 : ℕ → ℕ → ℕ → ℕ → ℕ
from_le32 a b c d = a + b * 256 + c * 65536 + d * 16777216

-- `(end + 3) & !3`
abbrev pub align : ℕ → ℕ
align n = n + 3 - (n + 3) % 4

abbrev pub captured : List ℕ → ℕ
captured r = from_le32 (get_or r 8 0) (get_or r 9 0) (get_or r 10 0) (get_or r 11 0)

abbrev pub original : List ℕ → ℕ
original r = from_le32 (get_or r 12 0) (get_or r 13 0) (get_or r 14 0) (get_or r 15 0)

abbrev pub header : List ℕ → ℕ
header r = from_le16 (get_or r 16 0) (get_or r 17 0)

-- The checks of one record: where its packet ends.
unfoldable pub record_end : List ℕ → Result ℕ
record_end r = do
  ensure (leb 18 (length r)) "truncated BPF record header"
  ensure (leb 18 (header r) && leb (header r) (length r)) "invalid BPF header length"
  ensure (captured r == original r && leb (captured r) max_frame)
      "truncated or oversized BPF packet"
  ensure (ltb (header r + captured r) (2 ^ 64)) "BPF length overflow"
  ensure (leb (header r + captured r) (length r)) "truncated BPF packet data"
  ok (header r + captured r)

-- The offset is a `&mut`: it comes back beside the result.
unfoldable pub taken : List ℕ → ℕ → Result ℕ → ℕ × Result (Option (List ℕ))
taken r offset (err e) = (offset, err e)
taken r offset (ok end) = (offset + align end, ok (some (slice r (header r) end)))

unfoldable pub next_frame : List ℕ → ℕ → ℕ × Result (Option (List ℕ))
next_frame bytes offset =
    if leb (length bytes) offset
    then (offset, ok none)
    else taken (drop offset bytes) offset (record_end (drop offset bytes))
