-- ===== src/HttpSession/Rounds.antt =====
-- The loop of `recvRequest` in ttw/http/http_session.cc: when it ends.
use ttw.Prelude.{
  ℕ, zero, suc, ◌-◌, ◌≤◌, ◌<◌, ◌≡◌, refl, Bool, true, false, Option, none, some, [], ◌∷◌, ◌++◌,
  arith, ◌==◌, length, length-append, length-drop, ap, ◌∙◌, Bool-cases, inl, inr,
}
use ttw.Prelude.Int.{ℤ, pos, negsuc}
use ttw.Prelude.Text.{Bytes}
use ttw.Messages.{HttpRequest}
use ttw.HttpParser.{
  Engine, RequestEvent, HttpRequestParser, request_parser, execute_request, request_content_length,
}
use ttw.HttpSession.{
  Sock, Transfer, going, ends, to_int64, recvlen, Outcome, running, end_body, read_body, end_header,
  with_length, with_cast, parsed, parse_round, next_round, recv_rounds, recv_request, buff_size,
}
use ttw.HttpSession.Transfers.{IsStream, is_going, recvlen-going}

-- Where no byte of the stream is left, `recv` fails.
pub record IsCut {S : Type 0} (sock : Sock S) (stream : S → Bytes) : Type 0 where
  pub cut : (n : ℕ) (s : S) → 0 < n → length (stream s) ≡ 0 → (t : S) × (sock.recv n s ≡ (none, t))

pub is_running : Outcome → Bool
is_running running = true
is_running _ = false

module _ {S : Type 0} {P : Type 0} (sock : Sock S) (engine : Engine P RequestEvent)
    (lexical_cast : Bytes → Option ℕ) (can_hold : ℕ → Bool) where
  end_body-is_running :
      (r : HttpRequest) (front : Bytes) (x : Transfer × S)
      → is_going x.0 ≡ false
      → is_running (end_body sock engine lexical_cast can_hold r front x).0 ≡ false
  unfolding end_body is_running is_going
  end_body-is_running r front (going, t) h = cc
  end_body-is_running r front (ends n rest, t) h = ground arith

  read_body-is_running :
      (r : HttpRequest) (n : ℕ) (buf : Bytes) (s : S)
      → is_running (read_body sock engine lexical_cast can_hold r n buf s).0 ≡ false
  unfolding read_body is_running
  read_body-is_running r n buf s = ground (
    arith,
    end_body-is_running r buf (recvlen sock (n - length buf) s)
        (recvlen-going sock (n - length buf) s),
  )

  with_length-is_running :
      (r : HttpRequest) (buf : Bytes) (s : S) (z : ℤ)
      → is_running (with_length sock engine lexical_cast can_hold r buf s z).0 ≡ false
  unfolding is_running with_length
  with_length-is_running r buf s (negsuc k) = refl
  with_length-is_running r buf s (pos zero) = refl
  with_length-is_running r buf s (pos (suc k)) = read_body-is_running r (suc k) buf s

  with_cast-is_running :
      (r : HttpRequest) (buf : Bytes) (s : S) (n : Option ℕ)
      → is_running (with_cast sock engine lexical_cast can_hold r buf s n).0 ≡ false
  unfolding is_running with_cast
  with_cast-is_running r buf s none = refl
  with_cast-is_running r buf s (some n) = with_length-is_running r buf s (to_int64 n)

  end_header-is_running :
      (p : HttpRequestParser P) (buf : Bytes) (s : S)
      → is_running (end_header sock engine lexical_cast can_hold p buf s).0 ≡ false
  unfolding end_header
  end_header-is_running p buf s =
      with_cast-is_running p.request buf s (request_content_length lexical_cast p)

  -- The bytes that the parser leaves are the end of those that it was given.
  execute_request_short :
      (p : HttpRequestParser P) (text : Bytes)
      → length (execute_request engine p text).2 ≤ length text
  unfolding execute_request
  execute_request_short p text = omega (arith, length-drop (engine.execute p.parser text).1 text)

  parsed-is_running :
      (again : HttpRequestParser P → Bytes → S → Outcome × S) (s : S)
      (x : HttpRequestParser P × ℕ × Bytes)
      → length x.2 ≤ buff_size
      → ((q : HttpRequestParser P) (rest : Bytes)
          → length rest < buff_size
          → is_running (again q rest s).0 ≡ false)
      → is_running (parsed sock engine lexical_cast can_hold again s x).0 ≡ false
  unfolding parsed is_running
  parsed-is_running again s (q, nparse, rest) l h =
      let ended = end_header-is_running q rest s in
      elim (Bool-cases (length rest == buff_size)) [
        | inl y ↦ rw y (ground arith)
        | inr n ↦ let more = h q rest (ground (arith, l, n)) in rw n (ground (arith, more, ended))
      ]

  parse_round-is_running :
      (again : HttpRequestParser P → Bytes → S → Outcome × S) (p : HttpRequestParser P)
      (text : Bytes) (s : S)
      → length text ≤ buff_size
      → ((q : HttpRequestParser P) (rest : Bytes)
          → length rest < buff_size
          → is_running (again q rest s).0 ≡ false)
      → is_running (parse_round sock engine lexical_cast can_hold again p text s).0 ≡ false
  unfolding parse_round
  parse_round-is_running again p text s l h =
      parsed-is_running again s (execute_request engine p text)
        (omega (arith, l, execute_request_short p text)) h

  module _ (stream : S → Bytes) (law : IsStream sock stream) (broken : IsCut sock stream) where
    recv_rounds-is_running :
        (fuel : ℕ) (p : HttpRequestParser P) (buf : Bytes) (s : S)
        → length buf < buff_size
        → length (stream s) < fuel
        → is_running (recv_rounds sock engine lexical_cast can_hold fuel p buf s).0 ≡ false
    unfolding recv_rounds is_running next_round
    recv_rounds-is_running zero p buf s room few = absurd (omega (arith, few))
    recv_rounds-is_running (suc fuel) p buf s room few =
        let again = recv_rounds sock engine lexical_cast can_hold fuel in
        let ahead = λ (x : Option Bytes × S).
          is_running (next_round sock engine lexical_cast can_hold again p buf x).0 in
        elim (Bool-cases (length (stream s) == 0)) [
          | inl y ↦
              let (t, e) =
                broken.cut (buff_size - length buf) s (omega (arith, room)) (ground (arith, y)) in
              ap ahead e
          | inr n ↦
              let (b, bs, t, e, splits, short) =
                law.gives (buff_size - length buf) s (omega (arith, room)) (ground (arith, n)) in
              let size = ap length splits ∙ length-append (b ∷ bs) (stream t) in
              ap ahead e
              ∙ parse_round-is_running again p (buf ++ (b ∷ bs)) t
                  (omega (arith, short, room, length-append buf (b ∷ bs)))
                  (λ q rest small.
                    recv_rounds-is_running fuel q rest t small (omega (arith, size, few)))
        ]

    -- On a socket that gives the bytes of a stream, however split, and then fails, recvRequest comes to an end: its loop
    -- ends within one round more than the stream has bytes.
    pub recv_request_total :
        (fuel : ℕ) (s : S)
        → length (stream s) < fuel
        → is_running (recv_request sock engine lexical_cast can_hold fuel s).0 ≡ false
    unfolding recv_request
    recv_request_total fuel s few =
        recv_rounds-is_running fuel (request_parser engine) [] s (omega arith) few
