-- ===== src/Platform/Capture.antt =====
-- src/platform/macos.rs: how a capture hands out frames. A turn is one pass of the loop of
-- `receive`: whether it finds the capture stopped, and what its wait and its read give.
use sysu_netauth.Common.{
  ℕ, zero, suc, ◌+◌, ◌≡◌, ◌∙◌, ap, Bool, true, false, Option, none, some, List, [], ◌∷◌, ◌++◌,
  if◌then◌else◌, length, take, drop, map, Result, ok, err, arith, refl, sym, take-append, String,
}
use mathlib.Core.List.{append_assoc, append-nil}
use sysu_netauth.Platform.Bpf.{next_frame, align}
use sysu_netauth.Platform.Bpf.Records.{Captured, Fits, extent, body, record_of}
use sysu_netauth.Platform.Bpf.Drain.{records, AllFit, next_frame-record, next_frame-body}

pub record ReadBuffer : Type 0 where
  pub bytes : List ℕ
  pub used : ℕ
  pub offset : ℕ

-- `libc::read`: some bytes, an interruption or nothing there, or another error.
pub data Reading : Type 0 where
  got : List ℕ → Reading
  retry : Reading
  failed : String → Reading

pub record Turn : Type 0 where
  pub signalled : Bool
  pub readable : Result Bool
  pub reading : Reading

abbrev pub Receipt : Type 0
Receipt = Result (Option (List ℕ))

-- The outcome is missing while the turns are used up before it.
pub record Received : Type 0 where
  pub outcome : Option Receipt
  pub buffer : ReadBuffer
  pub left : List Turn

-- A read puts its bytes at the start of the buffer.
abbrev pub after_read : ReadBuffer → Reading → ReadBuffer
after_read b (got bs) = record {
  bytes = bs ++ drop (length bs) b.bytes;
  used = length bs;
  offset = 0;
}
after_read b retry = b
after_read b (failed e) = b

abbrev pub read_step : ReadBuffer → List Turn → Reading → Received → Received
read_step b ts (got []) again = record {
  outcome = some (err "BPF device closed");
  buffer = b;
  left = ts;
}
read_step b ts (got (x ∷ xs)) again = again
read_step b ts retry again = again
read_step b ts (failed e) again = record { outcome = some (err e); buffer = b; left = ts }

abbrev pub wait_step : ReadBuffer → List Turn → Result Bool → Reading → Received → Received
wait_step b ts (err e) r again = record { outcome = some (err e); buffer = b; left = ts }
wait_step b ts (ok false) r again = record { outcome = some (ok none); buffer = b; left = ts }
wait_step b ts (ok true) r again = read_step b ts r again

abbrev pub frame_step : ReadBuffer → Turn → List Turn → Receipt → Received → Received
frame_step b t ts (err e) again = record { outcome = some (err e); buffer = b; left = ts }
frame_step b t ts (ok (some p)) again = record {
  outcome = some (ok (some p));
  buffer = b;
  left = ts;
}
frame_step b t ts (ok none) again = wait_step b ts t.readable t.reading again

unfoldable pub receive : ReadBuffer → List Turn → Received
receive b [] = record { outcome = none; buffer = b; left = [] }
receive b (t ∷ ts) =
    let frame = next_frame (take b.used b.bytes) b.offset in
    let moved : ReadBuffer = record { bytes = b.bytes; used = b.used; offset = frame.0 } in
    let again = receive (after_read moved t.reading) ts in
    if t.signalled
    then record { outcome = some (ok none); buffer = b; left = ts }
    else frame_step moved t ts frame.1 again

-- Some calls in a row.
abbrev pub with_answer : Option Receipt → List Receipt → List Receipt
with_answer none l = l
with_answer (some r) l = r ∷ l

unfoldable pub receive_times : ℕ → ReadBuffer → List Turn → List Receipt × ReadBuffer × List Turn
receive_times zero b ts = ([], b, ts)
receive_times (suc n) b ts =
    let r = receive b ts in
    let l = receive_times n r.buffer r.left in (with_answer r.outcome l.0, l.1, l.2)

abbrev pub Unsignalled : List Turn → Type 0
Unsignalled [] = Unit
Unsignalled (t ∷ ts) = (t.signalled ≡ false) × Unsignalled ts

receive-frame :
    (b : ReadBuffer) (t : Turn) (ts : List Turn) (n : ℕ) (p : List ℕ)
    → t.signalled ≡ false
    → next_frame (take b.used b.bytes) b.offset ≡ (n, ok (some p))
    → receive b (t ∷ ts) ≡ (record {
      outcome = some (ok (some p));
      buffer = record { bytes = b.bytes; used = b.used; offset = n };
      left = ts;
    })
unfolding receive
receive-frame b t ts n p s e = rw (s, e) refl

-- What a read left in the buffer: bytes before the offset, the records after it, of which the last is
-- not padded, and older bytes.
abbrev pub holding : List ℕ → List Captured → Captured → List ℕ → ReadBuffer
holding before cs last stale = record {
  bytes = before ++ (records cs ++ body last) ++ stale;
  used = length (before ++ (records cs ++ body last));
  offset = length before;
}

-- The same buffer with its offset past the last record.
abbrev pub used_up : List ℕ → List Captured → Captured → List ℕ → ReadBuffer
used_up before cs last stale = record (holding before cs last stale) {
  offset = length (before ++ records cs) + align (extent last);
}

abbrev pub answered_all : List Captured → List Receipt
answered_all = map (λ c. ok (some c.packet))

receive_times-suc :
    (n : ℕ) (b c : ReadBuffer) (ts left : List Turn) (r : Receipt)
    → receive b ts ≡ record { outcome = some r; buffer = c; left = left }
    → receive_times (suc n) b ts
      ≡ (r ∷ (receive_times n c left).0, (receive_times n c left).1, (receive_times n c left).2)
unfolding receive_times
receive_times-suc n b c ts left r e = rw e refl

receive_times_none : (b : ReadBuffer) (ts : List Turn) → receive_times 0 b ts ≡ ([], b, ts)
unfolding receive_times
receive_times_none b ts = refl

-- As long as the capture is not stopped, the calls on a buffer that holds records, each with any time
-- stamp of eight bytes, a header of 18 bytes or more and fewer than 1018, a packet that fits a frame
-- and, but for the last, any padding to a multiple of four bytes, give the packets in order, without
-- headers and padding, and move the offset past the last record, without another read.
pub receive_times-holding :
    (before : List ℕ) (cs : List Captured) (last : Captured) (stale : List ℕ) (ts : List Turn)
    (rest : List Turn)
    → AllFit cs
    → Fits last
    → Unsignalled ts
    → length ts ≡ suc (length cs)
    → receive_times (suc (length cs)) (holding before cs last stale) (ts ++ rest)
      ≡ (answered_all (cs ++ (last ∷ [])), used_up before cs last stale, rest)
unfolding records AllFit
receive_times-holding before [] last stale [] rest h k u l = absurd (omega (arith, l))
receive_times-holding before [] last stale (t ∷ (s ∷ ts)) rest h k u l = absurd (omega (arith, l))
receive_times-holding before [] last stale (t ∷ []) rest h k u l =
    let b : ReadBuffer = holding before [] last stale in
    let e : take b.used b.bytes ≡ before ++ body last = take-append (before ++ body last) stale in
    let f = next_frame-body before last k in
    let r = receive-frame b t rest (length before + align (extent last)) last.packet u.0 (rw e f) in
    let q =
      receive_times-suc 0 b (used_up before [] last stale) (t ∷ rest) rest (ok (some last.packet))
        (r ∙ simp (append-nil) refl) in
    q ∙ simp (receive_times_none) refl
receive_times-holding before (c ∷ cs) last stale [] rest h k u l = absurd (omega (arith, l))
receive_times-holding before (c ∷ cs) last stale (t ∷ ts) rest h k u l =
    let b : ReadBuffer = holding before (c ∷ cs) last stale in
    let y : List ℕ = records cs ++ body last in
    let w : (record_of c ++ records cs) ++ body last ≡ record_of c ++ y =
      append_assoc (record_of c) (records cs) (body last) in
    let e : take b.used b.bytes ≡ before ++ (record_of c ++ y) =
      rw w (take-append (before ++ (record_of c ++ y)) stale) in
    let f = next_frame-record before c y h.0 in
    let r = receive-frame b t (ts ++ rest) (length (before ++ record_of c)) c.packet u.0 (rw e f) in
    let n : length ts ≡ suc (length cs) = omega (arith, l) in
    let i = receive_times-holding (before ++ record_of c) cs last stale ts rest h.1 k u.1 n in
    let a : before ++ (record_of c ++ y) ≡ (before ++ record_of c) ++ y =
      sym (append_assoc before (record_of c) y) in
    let z : before ++ (record_of c ++ records cs) ≡ (before ++ record_of c) ++ records cs =
      sym (append_assoc before (record_of c) (records cs)) in
    let d : ReadBuffer = holding (before ++ record_of c) cs last stale in
    let m : receive b (t ∷ (ts ++ rest))
        ≡ record { outcome = some (ok (some c.packet)); buffer = d; left = ts ++ rest } =
      r ∙ rw (w, a) refl in
    receive_times-suc (suc (length cs)) b d (t ∷ (ts ++ rest)) (ts ++ rest) (ok (some c.packet)) m
    ∙ ap (λ l. (ok (some c.packet) ∷ l.0, l.1, l.2)) i
    ∙ rw (w, a, z) refl
