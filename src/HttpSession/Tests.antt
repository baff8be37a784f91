-- ===== src/HttpSession/Tests.antt =====
-- Runs of `HttpSession` (ttw/http/http_session.cc) on small sockets and a small parser, and the theorems at them.
use ttw.Prelude.{
  ℕ, zero, suc, ◌-◌, ◌^◌, ◌<◌, ◌≤◌, ◌≡◌, refl, Bool, true, false, Option, none, some, List, [], ◌∷◌,
  ◌++◌, arith, ltb, take, drop, length, ap,
}
use ttw.Prelude.Int.{ℤ, pos, negsuc}
use ttw.Prelude.Text.{Bytes, codes}
use ttw.Messages.{HttpRequest, HttpResponse, http_request, init, response_to_string}
use ttw.Servlets.{ServletDispatch, servlet_dispatch}
use ttw.HttpParser.{
  Engine, RequestEvent, request_path, request_parser, execute_request, request_has_error,
  request_finished, request_content_length, on_requests,
}
use ttw.HttpSession.{
  Sock, received, refused, with_body, recv_request, recv_rounds, next_round, parse_round, parsed,
  end_header, with_cast, with_length, end_body, recvlen, recv_left, read_body, hand_client,
}
use ttw.HttpSession.Transfers.{IsStream, IsSink}
use ttw.HttpSession.Bodies.{read_body-take, read_body_long}
use ttw.HttpSession.Rounds.{IsCut, is_running, recv_request_total}
use ttw.HttpSession.Serving.{after_servlet, hand_client-sent}

-- The bytes that are to come, and those that were sent; each call moves one byte.
abbrev Pair : Type 0
Pair = Bytes × Bytes

abbrev recv_one : ℕ → Pair → Option Bytes × Pair
recv_one zero s = (some [], s)
recv_one (suc n) ([], o) = (none, ([], o))
recv_one (suc n) (b ∷ bs, o) = (some (b ∷ []), (bs, o))

abbrev send_one : Bytes → Pair → ℤ × Pair
send_one [] s = (pos 0, s)
send_one (c ∷ cs) (i, o) = (pos 1, (i, o ++ (c ∷ [])))

abbrev slow : Sock Pair
slow = record { recv = recv_one; send = send_one; close = λ s. s }

abbrev to_come : Pair → Bytes
to_come (i, o) = i

abbrev sent_so_far : Pair → Bytes
sent_so_far (i, o) = o

slow-IsStream : IsStream slow to_come
slow-IsStream = record { gives = go }
  where
    go :
        (n : ℕ) (s : Pair)
        → 0 < n
        → 0 < length (to_come s)
        → (b : ℕ) × (bs : Bytes) × (t : Pair) × (recv_one n s ≡ (some (b ∷ bs), t))
          × (to_come s ≡ (b ∷ bs) ++ to_come t)
          × (suc (length bs) ≤ n)
    go zero s p q = absurd (omega (arith, p))
    go (suc n) ([], o) p q = absurd (omega (arith, q))
    go (suc n) (b ∷ bs, o) p q = (b, [], (bs, o), refl, refl, omega arith)

slow-IsCut : IsCut slow to_come
slow-IsCut = record { cut = go }
  where
    go :
        (n : ℕ) (s : Pair)
        → 0 < n
        → length (to_come s) ≡ 0
        → (t : Pair) × (recv_one n s ≡ (none, t))
    go zero s p q = absurd (omega (arith, p))
    go (suc n) ([], o) p q = (([], o), refl)
    go (suc n) (b ∷ bs, o) p q = absurd (omega (arith, q))

slow-IsSink : IsSink slow sent_so_far
slow-IsSink = record { takes = go }
  where
    go :
        (c : ℕ) (cs : Bytes) (s : Pair)
        → (n : ℕ) × (t : Pair) × (send_one (c ∷ cs) s ≡ (pos (suc n), t))
          × (sent_so_far t ≡ sent_so_far s ++ (c ∷ take n cs))
    go c cs (i, o) = (0, (i, o ++ (c ∷ [])), refl, refl)

-- A parser whose header is three bytes long; it calls back with the first one as the path.
abbrev step : ℕ → Bytes → ℕ × ℕ × List RequestEvent
step p [] = (p, 0, [])
step p (c ∷ cs) = (suc p, 1, request_path (c ∷ cs) 1 ∷ [])

abbrev three : Engine ℕ RequestEvent
three = record { init = 0; execute = step; finish = λ p. ltb 2 p; has_error = λ p. false }

abbrev five : Bytes → Option ℕ
five t = some 5

abbrev any : ℕ → Bool
any n = true

read_body-take_example :
    (t : Pair) × (read_body slow three five any
        (http_request 0x11 false)
        5
        (codes "ab")
        (codes "cdefg", [])
      ≡ (
        received
            (init (with_body (take 5 (codes "ab" ++ codes "cdefg")) (http_request 0x11 false))),
        t,
      ))
    × (to_come t ≡ drop (5 - 2) (codes "cdefg"))
read_body-take_example =
    read_body-take slow three five any to_come slow-IsStream (http_request 0x11 false) 5
      (codes "ab") (codes "cdefg", []) refl (omega arith) (omega arith)

recv_request_total_example :
    is_running (recv_request slow three five any 9 (codes "/ab12345", [])).0 ≡ false
recv_request_total_example =
    recv_request_total slow three five any to_come slow-IsStream slow-IsCut 9 (codes "/ab12345", [])
      (omega arith)

abbrev echo : ServletDispatch (HttpRequest × HttpResponse × Pair)
echo = servlet_dispatch (λ w. w)

abbrev asked : HttpRequest
asked = with_body (codes "12345") (record (http_request 0x11 false) { path = codes "b" })

receives :
    recv_request slow three five any 9 (codes "/ab12345", []) ≡ (received (init asked), ([], []))
unfolding recv_request recv_rounds next_round parse_round parsed end_header with_cast with_length
    read_body end_body recvlen recv_left request_parser execute_request request_has_error
    request_finished request_content_length on_requests
receives = refl

hand_client-sent_example :
    (u : Pair) × (hand_client slow three five any (λ a b. false) echo false 9 (codes "/ab12345", [])
      ≡ (true, slow.close u))
    × (sent_so_far u
        ≡ sent_so_far
            (after_servlet slow three five any sent_so_far slow-IsSink
              (λ a b. false)
              echo
              false
              (init asked)
              ([], [])).2
          ++ response_to_string
              (after_servlet slow three five any sent_so_far slow-IsSink
                (λ a b. false)
                echo
                false
                (init asked)
                ([], [])).1)
hand_client-sent_example =
    hand_client-sent slow three five any sent_so_far slow-IsSink (λ a b. false) echo false 9
      (init asked) (codes "/ab12345", []) ([], []) receives

-- A peer that sends zeros.
abbrev recv_zero : ℕ → ℕ → Option Bytes × ℕ
recv_zero n zero = (none, 0)
recv_zero n (suc k) = (some (0 ∷ []), k)

zero_bytes : ℕ → Bytes
zero_bytes zero = []
zero_bytes (suc k) = 0 ∷ zero_bytes k

abbrev zeros : Sock ℕ
zeros = record { recv = recv_zero; send = λ t s. (negsuc 0, s); close = λ s. s }

length-zero_bytes : (k : ℕ) → length (zero_bytes k) ≡ k
unfolding zero_bytes
length-zero_bytes zero = refl
length-zero_bytes (suc k) = ap suc (length-zero_bytes k)

zeros-IsStream : IsStream zeros zero_bytes
unfolding zero_bytes
zeros-IsStream = record { gives = go }
  where
    go :
        (n k : ℕ)
        → 0 < n
        → 0 < length (zero_bytes k)
        → (b : ℕ) × (bs : Bytes) × (t : ℕ) × (recv_zero n k ≡ (some (b ∷ bs), t))
          × (zero_bytes k ≡ (b ∷ bs) ++ zero_bytes t)
          × (suc (length bs) ≤ n)
    go n zero p q = absurd (omega (arith, q))
    go n (suc k) p q = (0, [], k, refl, refl, omega (arith, p))

read_body_long_example :
    (t : ℕ) × (read_body zeros three five any (http_request 0x11 false) (2 ^ 31) [] (2 ^ 31)
      ≡ (refused, zeros.close t))
    × (zero_bytes t ≡ drop (2 ^ 31 - 0) (zero_bytes (2 ^ 31)))
read_body_long_example =
    read_body_long zeros three five any zero_bytes zeros-IsStream (http_request 0x11 false) (2 ^ 31)
      [] (2 ^ 31) refl (omega (arith, length-zero_bytes (2 ^ 31))) (omega arith) (omega arith)
