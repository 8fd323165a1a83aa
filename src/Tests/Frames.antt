-- ===== src/Tests/Frames.antt =====
-- src/protocol.rs and src/authentication.rs: theorems at concrete frames.
use sysu_netauth.Common.{
  ℕ, ◌≡◌, ◌⊎◌, inl, ◌<◌, true, false, Option, none, some, List, [], ◌∷◌, ◌++◌, ok, err, refl,
  length, arith,
}
use sysu_netauth.Common.Bytes.{bytes_eq}
use sysu_netauth.Protocol.{six, Packet, parse, frame, response, answer}
use sysu_netauth.Protocol.RoundTrip.{returned, parse-response}
use sysu_netauth.Protocol.Bounds.{Fits, parse-Fits}
use sysu_netauth.Protocol.Answer.{Replies, answer-parse}
use sysu_netauth.Authentication.{
  Exchange, ignore, success, failure, addressed_to, code_arm, request_arm, receive,
}
use sysu_netauth.Authentication as Authentication
use sysu_netauth.Authentication.Pinning.{receive-repins, receive_verdict}
use sysu_netauth.Authentication.Exchanges.{receive-response, receive_error}
use sysu_netauth.Tests.World.{station, server, world, request}

abbrev name : List ℕ
name = 0x73 ∷ 0x74 ∷ []

abbrev sent : List ℕ
sent = frame station server 5 1 name

sent-response : response station server 5 1 name ≡ ok sent
unfolding response
sent-response = refl

sent_long : 10 < length sent
unfolding frame
sent_long = omega arith

parse-response_example : parse (sent ++ (0 ∷ 0 ∷ [])) ≡ some (returned station server 5 1 name)
parse-response_example = parse-response station server 5 1 name (0 ∷ 0 ∷ []) six six sent-response

parse-Fits_example : Fits (sent ++ (0 ∷ 0 ∷ [])) (returned station server 5 1 name)
parse-Fits_example =
    parse-Fits (sent ++ (0 ∷ 0 ∷ [])) (returned station server 5 1 name) parse-response_example

-- The request for the identity of `student`, and its answer.
request-answer : answer world.md5 station server request name [] ≡ ok (some sent)
unfolding answer response
request-answer = refl

answer-parse_example :
    (request.code ≡ 1)
    × (k : ℕ) × (body : List ℕ) × Replies world.md5 request name [] k body
    × (parse (sent ++ (0 ∷ [])) ≡ some (returned station server request.id k body))
answer-parse_example =
    answer-parse world.md5 station server request name [] (0 ∷ []) six six request-answer

abbrev none_pinned : Option (List ℕ)
none_pinned = none

receive-repins_example :
    let r = receive world.md5 none_pinned station request name [] false in
    (r.0 ≡ none_pinned)
    ⊎ ((r.0 ≡ some request.source)
        × (request.code ≡ 1)
        × ((false ≡ true) ⊎ (none_pinned ≡ none) ⊎ (none_pinned ≡ some request.source)))
receive-repins_example = receive-repins world.md5 none_pinned station request name [] false

-- A success frame of the authenticator.
abbrev accepted : Packet
accepted = record request { code = 3; kind = none }

accepted_passes : (receive world.md5 (some server) station accepted name [] false).1 ≡ ok success
unfolding receive addressed_to bytes_eq code_arm
accepted_passes = refl

receive_verdict_example :
    (some server ≡ some accepted.source)
    × (addressed_to accepted station ≡ true)
    × ((receive world.md5 (some server) station accepted name [] false).0 ≡ some server)
receive_verdict_example =
    receive_verdict world.md5 (some server) station accepted name [] false (inl accepted_passes)

request_received :
    (receive world.md5 none station request name [] false).1
    ≡ ok (Authentication.response sent false)
unfolding receive addressed_to bytes_eq code_arm request_arm answer response
request_received = refl

receive-response_example :
    (addressed_to request station ≡ true)
    × ((receive world.md5 none station request name [] false).0 ≡ some request.source)
    × (request.code ≡ 1)
    × (k : ℕ) × (body : List ℕ) × Replies world.md5 request name [] k body
    × (parse (sent ++ (0 ∷ [])) ≡ some (returned station server request.id k body))
receive-response_example =
    receive-response world.md5 none station request name [] false (0 ∷ []) sent false six six
      request_received

-- A challenge with no value, from the pinned station.
abbrev malformed : Packet
malformed = record request { kind = some 4; payload = 0 ∷ [] }

malformed_fails :
    (receive world.md5 (some server) station malformed name [] false).1
    ≡ err "truncated MD5 challenge"
unfolding receive addressed_to bytes_eq code_arm request_arm answer
malformed_fails = refl

receive_error_example :
    ((some server ≡ none) ⊎ (some server ≡ some malformed.source))
    × ((receive world.md5 (some server) station malformed name [] false).0 ≡ some server)
receive_error_example =
    receive_error world.md5 (some server) station malformed name [] false "truncated MD5 challenge"
      malformed_fails
