-- ===== src/HttpSession.antt =====
-- `HttpSession` of ttw/http/http_session.h and http_session.cc, and `HttpServer::handClient` of ttw/http/httpserver.cc.
-- The socket is the interface `Sock` with the state `S`; the bytes that were read and are not parsed are the front of the
-- buffer. The loop of recvRequest runs on fuel. Whether `resize` finds the memory is the parameter `can_hold`.
pub mod Transfers
pub mod Bodies
pub mod Rounds
pub mod Serving
mod Tests
use ttw.Prelude.{
  ℕ, zero, suc, ◌+◌, ◌-◌, ◌*◌, ◌%◌, ◌^◌, Bool, true, false, not, ◌||◌, Option, none, some, List, [],
  ◌∷◌, ◌++◌, ◌==◌, leb, ltb, if◌then◌else◌, length, take, drop,
}
use ttw.Prelude.Int.{ℤ, pos, negsuc}
use ttw.Prelude.Text.{Bytes}
use ttw.Messages.{HttpRequest, HttpResponse, http_response, init, response_to_string}
use ttw.Servlets.{ServletDispatch, dispatch_request}
use ttw.HttpParser.{
  Engine, RequestEvent, HttpRequestParser, request_parser, execute_request, request_finished,
  request_has_error, request_content_length,
}

-- `recv` of at most so many bytes, none for -1; `send` with the number it returns; `close`.
pub record Sock (S : Type 0) : Type 0 where
  pub recv : ℕ → S → Option Bytes × S
  pub send : Bytes → S → ℤ × S
  pub close : S → S

-- A `size_t` as an `int`, and a `uint64_t` as an `int64_t`.
abbrev pub signed : ℕ → ℕ → ℤ
signed half m = if ltb m half then pos m else negsuc (half + half - 1 - m)

abbrev pub to_int : ℕ → ℤ
to_int n = signed (2 ^ 31) (n % 2 ^ 32)

abbrev pub to_int64 : ℕ → ℤ
to_int64 n = signed (2 ^ 63) (n % 2 ^ 64)

abbrev pub positive : ℤ → Bool
positive (pos n) = not (n == 0)
positive (negsuc n) = false

-- What a transfer returns, and the bytes that it has put into the buffer.
pub data Transfer : Type 0 where
  going : Transfer
  ends : ℤ → Bytes → Transfer

abbrev pub before : Bytes → Transfer → Transfer
before bs going = going
before bs (ends r cs) = ends r (bs ++ cs)

pub data Outcome : Type 0 where
  running : Outcome
  refused : Outcome
  threw : Outcome
  received : HttpRequest → Outcome

-- `HttpRequestParser::GetHttpRequestBufferSize()`
abbrev pub buff_size : ℕ
buff_size = 10 * 64 * 1024

module _ {S : Type 0} (sock : Sock S) where
  -- What a round of `recvlen` does with what `recv` gave; `again` is the next round.
  abbrev pub got_bytes : (ℕ → S → Transfer × S) → ℕ → Option Bytes × S → Transfer × S
  got_bytes again left (none, t) = (ends (negsuc 0) [], t)
  got_bytes again left (some [], t) = (ends (pos 0) [], t)
  got_bytes again left (some (b ∷ bs), t) =
      let (r, u) = again (left - length bs) t in (before (b ∷ bs) r, u)

  -- The loop of `recvlen(buffer, len)` where `left` bytes are to come.
  pub recv_left : ℕ → ℕ → ℕ → S → Transfer × S
  recv_left len fuel zero s = (ends (to_int len) [], s)
  recv_left len zero (suc left) s = (going, s)
  recv_left len (suc fuel) (suc left) s =
      got_bytes (recv_left len fuel) left (sock.recv (suc left) s)

  pub recvlen : ℕ → S → Transfer × S
  unfolding recv_left
  recvlen len s = recv_left len len len s

  abbrev pub took_bytes : (Bytes → S → Option ℤ × S) → Bytes → ℤ × S → Option ℤ × S
  took_bytes again cs (negsuc n, t) = (some (negsuc n), t)
  took_bytes again cs (pos zero, t) = (some (pos 0), t)
  took_bytes again cs (pos (suc n), t) = again (drop n cs) t

  -- The loop of `sendlen`, and what it returns.
  pub send_left : ℕ → ℕ → Bytes → S → Option ℤ × S
  send_left len fuel [] s = (some (to_int len), s)
  send_left len zero (c ∷ cs) s = (none, s)
  send_left len (suc fuel) (c ∷ cs) s = took_bytes (send_left len fuel) cs (sock.send (c ∷ cs) s)

  pub sendlen : Bytes → S → Option ℤ × S
  unfolding send_left
  sendlen text s = send_left (length text) (length text) text s

  pub send_response : HttpResponse → S → Option ℤ × S
  unfolding sendlen
  send_response rsp s = sendlen (response_to_string rsp) s

abbrev pub with_body : Bytes → HttpRequest → HttpRequest
with_body body r = record r { msg = record r.msg { body = body } }

module _ {S : Type 0} {P : Type 0} (sock : Sock S) (engine : Engine P RequestEvent)
    (lexical_cast : Bytes → Option ℕ) (can_hold : ℕ → Bool) where
  -- What recvRequest does with what `recvlen` returned.
  pub end_body : HttpRequest → Bytes → Transfer × S → Outcome × S
  end_body r front (going, t) = (running, t)
  end_body r front (ends n rest, t) =
      if positive n
      then (received (init (with_body (front ++ rest) r)), t)
      else (refused, sock.close t)

  -- The body of a positive length, of which the buffer holds the front.
  pub read_body : HttpRequest → ℕ → Bytes → S → Outcome × S
  unfolding recvlen end_body
  read_body r n buf s =
      if not (can_hold n)
      then (threw, s)
      else if leb n (length buf)
      then (received (init (with_body (take n buf) r)), s)
      else end_body r buf (recvlen sock (n - length buf) s)

  abbrev pub with_length : HttpRequest → Bytes → S → ℤ → Outcome × S
  unfolding read_body
  with_length r buf s (negsuc k) = (received (init r), s)
  with_length r buf s (pos zero) = (received (init r), s)
  with_length r buf s (pos (suc k)) = read_body r (suc k) buf s

  abbrev pub with_cast : HttpRequest → Bytes → S → Option ℕ → Outcome × S
  unfolding read_body
  with_cast r buf s none = (threw, s)
  with_cast r buf s (some n) = with_length r buf s (to_int64 n)

  pub end_header : HttpRequestParser P → Bytes → S → Outcome × S
  end_header p buf s = with_cast p.request buf s (request_content_length lexical_cast p)

  -- What a round does after the parser has run; `again` is the next round.
  pub parsed :
      (HttpRequestParser P → Bytes → S → Outcome × S)
      → S
      → HttpRequestParser P × ℕ × Bytes
      → Outcome × S
  unfolding end_header
  parsed again s (q, nparse, rest) =
      if request_has_error engine q
      then (refused, sock.close s)
      else if length rest == buff_size
      then (refused, sock.close s)
      else elim (request_finished engine q) [ true ↦ end_header q rest s | false ↦ again q rest s ]

  pub parse_round :
      (HttpRequestParser P → Bytes → S → Outcome × S)
      → HttpRequestParser P
      → Bytes
      → S
      → Outcome × S
  unfolding parsed
  parse_round again p text s = parsed again s (execute_request engine p text)

  abbrev pub next_round :
      (HttpRequestParser P → Bytes → S → Outcome × S)
      → HttpRequestParser P
      → Bytes
      → Option Bytes × S
      → Outcome × S
  unfolding parse_round
  next_round again p buf (none, t) = (refused, sock.close t)
  next_round again p buf (some bs, t) = parse_round again p (buf ++ bs) t

  pub recv_rounds : ℕ → HttpRequestParser P → Bytes → S → Outcome × S
  recv_rounds zero p buf s = (running, s)
  recv_rounds (suc fuel) p buf s =
      next_round (recv_rounds fuel) p buf (sock.recv (buff_size - length buf) s)

  pub recv_request : ℕ → S → Outcome × S
  unfolding recv_rounds
  recv_request fuel s = recv_rounds fuel (request_parser engine) [] s

  -- The response that `handClient` makes for a request.
  pub new_response : Bool → HttpRequest → HttpResponse
  new_response keep_live req = http_response req.msg.version (req.msg.close || not keep_live)

  abbrev Served : Type 0
  Served = HttpRequest × HttpResponse × S

  pub serve : (Bytes → Bytes → Bool) → ServletDispatch Served → Bool → HttpRequest → S → S
  unfolding new_response send_response
  serve matches dispatch keep_live req s =
      let (_, (_, rsp, t)) =
        dispatch_request matches req.path dispatch (req, new_response keep_live req, s) in
      sock.close (send_response sock rsp t).1

  abbrev pub answer :
      (Bytes → Bytes → Bool) → ServletDispatch Served → Bool → Outcome × S → Bool × S
  unfolding serve
  answer matches dispatch keep_live (running, t) = (false, t)
  answer matches dispatch keep_live (refused, t) = (true, sock.close t)
  answer matches dispatch keep_live (threw, t) = (false, t)
  answer matches dispatch keep_live (received req, t) =
      (true, serve matches dispatch keep_live req t)

  -- `handClient`: the flag tells whether it returns.
  pub hand_client : (Bytes → Bytes → Bool) → ServletDispatch Served → Bool → ℕ → S → Bool × S
  unfolding recv_request
  hand_client matches dispatch keep_live fuel s =
      answer matches dispatch keep_live (recv_request fuel s)
