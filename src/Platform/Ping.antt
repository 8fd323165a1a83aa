-- ===== src/Platform/Ping.antt =====
-- src/platform/unix.rs: the echo request of the reachability check, and waiting for a descriptor.
use sysu_netauth.Common.{
  ℕ, ◌+◌, ◌-◌, ◌*◌, ◌/◌, ◌%◌, ◌≡◌, ◌≤◌, ◌⊎◌, Bool, true, false, ◌&&◌, ◌||◌, Option, none, some,
  List, [], ◌∷◌, ◌++◌, leb, ◌==◌, if◌then◌else◌, length, get_or, Result, ok, err, String, arith,
  refl, Bool-cases, inl, inr,
}
use sysu_netauth.Common.Bytes.{slice, bytes_eq, to_be16, bytes_eq_sound}

-- The sum of `chunks(2)`; an odd byte stands for its word.
unfoldable pub words : List ℕ → ℕ
words [] = 0
words (c ∷ []) = c * 256
words (c ∷ (d ∷ cs)) = c * 256 + d + words cs

abbrev pub with_carry : ℕ → ℕ
with_carry n = n % 65536 + n / 65536

-- `!x as u16`
unfoldable pub checksum : List ℕ → ℕ
checksum bytes = 65535 - with_carry (with_carry (words bytes)) % 65536

abbrev pub echo : ℕ → List ℕ → List ℕ
echo process check = 8 ∷ 0 ∷ check ++ (to_be16 (process % 65536) ++ (0 ∷ 1 ∷ []))

unfoldable pub echo_request : ℕ → List ℕ
echo_request process = echo process (to_be16 (checksum (echo process (0 ∷ 0 ∷ []))))

-- The test of a datagram, whose bytes are those that `recv` gave.
unfoldable pub is_reply : ℕ → List ℕ → List ℕ → Bool
is_reply process target bytes =
    let header_size = get_or bytes 0 0 % 16 * 4 in
    leb 28 (length bytes)
    && leb 20 header_size
    && leb (header_size + 8) (length bytes)
    && (get_or bytes header_size 0 == 0)
    && bytes_eq (slice bytes (header_size + 4) (header_size + 6)) (to_be16 (process % 65536))
    && bytes_eq (slice bytes 12 16) target

-- One pass: whether the time is left, whether the wait found something, and what was received.
pub record Reply : Type 0 where
  pub in_time : Bool
  pub readable : Bool
  pub datagram : List ℕ

unfoldable pub await_reply : ℕ → List ℕ → List Reply → Bool
await_reply process target [] = false
await_reply process target (r ∷ rs) =
    let rest = await_reply process target rs in
    r.in_time && r.readable && (is_reply process target r.datagram || rest)

unfoldable pub ping : Bool → Bool → ℕ → List ℕ → List Reply → Bool
ping opens sends process target rs = opens && sends && await_reply process target rs

-- `poll`: an error, or the number of ready descriptors with their flags.
pub data Polled : Type 0 where
  interrupted : Polled
  poll_failed : String → Polled
  ready : ℕ → Bool → Bool → Bool → Polled

abbrev pub poll_flags : Bool → Bool → Bool → Option (Result Bool) → Option (Result Bool)
poll_flags true broken input again = some (ok false)
poll_flags false true input again = some (err "network handle closed")
poll_flags false false true again = some (ok true)
poll_flags false false false again = again

abbrev pub poll_step : Polled → Option (Result Bool) → Option (Result Bool)
poll_step interrupted again = again
poll_step (poll_failed e) again = some (err e)
poll_step (ready n stop broken input) again =
    if n == 0 then some (ok false) else poll_flags stop broken input again

-- No result while the loop goes on.
unfoldable pub wait_readable : List Polled → Option (Result Bool)
wait_readable [] = none
wait_readable (p ∷ ps) = let again = wait_readable ps in poll_step p again

words_bytes :
    (a b c d e f g h : ℕ)
    → words (a ∷ b ∷ c ∷ d ∷ e ∷ f ∷ g ∷ h ∷ [])
      ≡ a * 256 + b + (c * 256 + d + (e * 256 + f + (g * 256 + h)))
unfolding words
words_bytes a b c d e f g h = omega arith

-- A receiver that sums the request up finds no error.
pub checksum-echo_request : (process : ℕ) → checksum (echo_request process) ≡ 0
unfolding checksum echo_request words
checksum-echo_request process = omega arith

-- What an accepted datagram looks like: no access was out of bounds.
pub record Fits (process : ℕ) (target bytes : List ℕ) : Type 0 where
  pub header_size : ℕ
  pub starts : header_size ≡ get_or bytes 0 0 % 16 * 4
  pub least : 20 ≤ header_size
  pub inside : header_size + 8 ≤ length bytes
  pub answers : get_or bytes header_size 0 ≡ 0
  pub same_id : slice bytes (header_size + 4) (header_size + 6) ≡ to_be16 (process % 65536)
  pub same_host : slice bytes 12 16 ≡ target

is_reply-Fits :
    (process : ℕ) (target bytes : List ℕ)
    → is_reply process target bytes ≡ true
    → Fits process target bytes
unfolding is_reply
is_reply-Fits process target bytes h =
    let n : ℕ = get_or bytes 0 0 % 16 * 4 in
    let a = bytes_eq_sound (slice bytes (n + 4) (n + 6)) (to_be16 (process % 65536)) in
    let b = bytes_eq_sound (slice bytes 12 16) target in
    record {
      header_size = n;
      starts = refl;
      least = ground (arith);
      inside = ground (arith);
      answers = ground (arith);
      same_id = a (ground (arith));
      same_host = b (ground (arith));
    }

-- One of the datagrams is accepted.
unfoldable pub Answered : ℕ → List ℕ → List Reply → Type 0
Answered process target [] = ⊥
Answered process target (r ∷ rs) =
    (r.in_time ≡ true)
    × (r.readable ≡ true)
    × (Fits process target r.datagram ⊎ Answered process target rs)

pub await_reply-Answered :
    (process : ℕ) (target : List ℕ) (rs : List Reply)
    → await_reply process target rs ≡ true
    → Answered process target rs
unfolding await_reply Answered
await_reply-Answered process target [] h = absurd (cc)
await_reply-Answered process target (r ∷ rs) h =
    let a : r.in_time ≡ true = ground (arith) in
    let b : r.readable ≡ true = ground (arith) in
    (
      a,
      b,
      elim (Bool-cases (is_reply process target r.datagram)) [
        | inl e ↦ inl (is_reply-Fits process target r.datagram e)
        | inr e ↦ inr (await_reply-Answered process target rs (ground (arith)))
      ],
    )
