-- ===== src/Platform/Bpf/Records.antt =====
-- src/platform/bpf.rs: the layout that the kernel writes, and that `next_frame` reads it back.
use sysu_netauth.Common.{
  ℕ, ◌+◌, ◌-◌, ◌/◌, ◌%◌, ◌≡◌, ◌≤◌, ◌<◌, List, [], ◌∷◌, ◌++◌, length, ok, arith, length-append,
}
use sysu_netauth.Protocol.{max_frame}
use sysu_netauth.Platform.Bpf.{align, record_end}

abbrev pub to_le16 : ℕ → List ℕ
to_le16 n = n % 256 ∷ n / 256 % 256 ∷ []

abbrev pub to_le32 : ℕ → List ℕ
to_le32 n = n % 256 ∷ n / 256 % 256 ∷ n / 65536 % 256 ∷ n / 16777216 % 256 ∷ []

-- The eight bytes of a time stamp, as the kernel writes them.
pub record Stamp : Type 0 where
  pub s0 : ℕ
  pub s1 : ℕ
  pub s2 : ℕ
  pub s3 : ℕ
  pub u0 : ℕ
  pub u1 : ℕ
  pub u2 : ℕ
  pub u3 : ℕ

abbrev pub stamp_bytes : Stamp → List ℕ
stamp_bytes t = t.s0 ∷ t.s1 ∷ t.s2 ∷ t.s3 ∷ t.u0 ∷ t.u1 ∷ t.u2 ∷ t.u3 ∷ []

-- A captured packet: the time stamp, the rest of a longer header, the bytes, and whatever bytes are
-- left between this record and the next one.
pub record Captured : Type 0 where
  pub stamp : Stamp
  pub extra : List ℕ
  pub packet : List ℕ
  pub padding : List ℕ

-- The bytes of a record without its padding.
abbrev pub extent : Captured → ℕ
extent c = 18 + length c.extra + length c.packet

-- A packet that fits a frame, behind a short header, and padded to a multiple of four bytes.
pub record Fits (c : Captured) : Type 0 where
  pub small : length c.packet ≤ max_frame
  pub short : length c.extra < 1000
  pub padded : length c.padding ≡ align (extent c) - extent c

-- A record without the padding that follows it.
unfoldable pub body : Captured → List ℕ
body c =
    stamp_bytes c.stamp
    ++ (to_le32 (length c.packet)
        ++ (to_le32 (length c.packet) ++ (to_le16 (18 + length c.extra) ++ (c.extra ++ c.packet))))

unfoldable pub record_of : Captured → List ℕ
record_of c = body c ++ c.padding

pub length-body : (c : Captured) → length (body c) ≡ 18 + length c.extra + length c.packet
unfolding body
length-body c = omega (arith, length-append c.extra c.packet)

-- What follows the record, padding included, does not matter.
pub record_end-body :
    (c : Captured) (rest : List ℕ)
    → Fits c
    → record_end (body c ++ rest) ≡ ok (18 + length c.extra + length c.packet)
unfolding record_end body
record_end-body c rest h =
    let s = h.small in
    let t = h.short in
    ground (arith, length-append c.extra c.packet, length-append (c.extra ++ c.packet) rest)
