-- ===== src/HttpSession/Bodies.antt =====
-- The body of a request in `recvRequest` of ttw/http/http_session.cc.
use ttw.Prelude.{
  ℕ, ◌+◌, ◌-◌, ◌%◌, ◌^◌, ◌≤◌, ◌<◌, ◌≡◌, Bool, true, false, not, ◌&&◌, Option, ◌++◌, arith, ◌==◌,
  leb, ltb, if_true, if_false, length, take, drop, take-append, take_front, sym, ap, ◌∙◌,
  Bool-cases, inl, inr,
}
use ttw.Prelude.Text.{Bytes}
use ttw.Messages.{HttpRequest, init}
use ttw.HttpParser.{Engine, RequestEvent}
use ttw.HttpSession.{
  Sock, to_int, signed, positive, recvlen, Outcome, received, refused, with_body, end_body,
  read_body,
}
use ttw.HttpSession.Transfers.{IsStream, recvlen-stream}

positive-signed : (h m : ℕ) → positive (signed h m) ≡ (ltb m h && not (m == 0))
positive-signed h m = ground arith

positive-to_int : (n : ℕ) → 0 < n → n < 2 ^ 31 → positive (to_int n) ≡ true
positive-to_int n a b = ground (arith, positive-signed (2 ^ 31) (n % 2 ^ 32))

negative-to_int : (n : ℕ) → 2 ^ 31 ≤ n → n ≤ 2 ^ 32 → positive (to_int n) ≡ false
negative-to_int n a b = ground (arith, positive-signed (2 ^ 31) (n % 2 ^ 32))

module _ {S : Type 0} {P : Type 0} (sock : Sock S) (engine : Engine P RequestEvent)
    (lexical_cast : Bytes → Option ℕ) (can_hold : ℕ → Bool) (stream : S → Bytes)
    (law : IsStream sock stream) where
  abbrev body_of : HttpRequest → ℕ → Bytes → S → Outcome × S
  body_of = read_body sock engine lexical_cast can_hold

  read_body-rest :
      (r : HttpRequest) (n : ℕ) (buf : Bytes) (s : S)
      → can_hold n ≡ true
      → length buf < n
      → body_of r n buf s
        ≡ end_body sock engine lexical_cast can_hold r buf (recvlen sock (n - length buf) s)
  unfolding read_body
  read_body-rest r n buf s h l = rw h (if_false {b = leb n (length buf)} _ _ (ground arith))

  read_body-front :
      (r : HttpRequest) (n : ℕ) (buf : Bytes) (s : S)
      → can_hold n ≡ true
      → n ≤ length buf
      → body_of r n buf s ≡ (received (init (with_body (take n buf) r)), s)
  unfolding read_body
  read_body-front r n buf s h l = rw h (if_true {b = leb n (length buf)} _ _ (ground arith))

  take-rest :
      (n : ℕ) (buf : Bytes) (s : S)
      → length buf < n
      → buf ++ take (n - length buf) (stream s) ≡ take n (buf ++ stream s)
  take-rest n buf s l = sym (take-append n buf (stream s) (omega (arith, l)))

  none_dropped :
      (n : ℕ) (buf : Bytes) (s : S) → n ≤ length buf → stream s ≡ drop (n - length buf) (stream s)
  none_dropped n buf s l =
      let none_left : 0 ≡ n - length buf = omega (arith, l) in ap (λ k. drop k (stream s)) none_left

  -- Where there is memory for a body of this length, and the buffer and the stream hold one, of which fewer than 2^31
  -- bytes are not in the buffer, the request gets just these bytes as its body, however they are split, and the
  -- socket is left behind them.
  pub read_body-take :
      (r : HttpRequest) (n : ℕ) (buf : Bytes) (s : S)
      → can_hold n ≡ true
      → n ≤ length buf + length (stream s)
      → n - length buf < 2 ^ 31
      → (t : S) × (body_of r n buf s
          ≡ (received (init (with_body (take n (buf ++ stream s)) r)), t))
        × (stream t ≡ drop (n - length buf) (stream s))
  unfolding end_body
  read_body-take r n buf s h m small = elim (Bool-cases (leb n (length buf))) [
    | inl y ↦ (
      s,
      read_body-front r n buf s h (ground (arith, y))
          ∙ ap (λ x. (received (init (with_body x r)), s))
              (sym (take_front n buf (stream s) (ground (arith, y)))),
      none_dropped n buf s (ground (arith, y)),
    )
    | inr y ↦
        let long : length buf < n = ground (arith, y) in
        let (t, e, after) = recvlen-stream sock stream law (n - length buf) s (omega (arith, m)) in
        (
          t,
          read_body-rest r n buf s h long
              ∙ ap (end_body sock engine lexical_cast can_hold r buf) e
              ∙ if_true _ _ (positive-to_int (n - length buf) (omega (arith, long)) small)
              ∙ ap (λ x. (received (init (with_body x r)), t)) (take-rest n buf s long),
          after,
        )
  ]

  -- Where there is memory for the body, the buffer and the stream hold it, and 2^31 to 2^32 of its bytes are not in the
  -- buffer, they are all received, and then the request is dropped and the socket closed.
  pub read_body_long :
      (r : HttpRequest) (n : ℕ) (buf : Bytes) (s : S)
      → can_hold n ≡ true
      → n ≤ length buf + length (stream s)
      → 2 ^ 31 ≤ n - length buf
      → n - length buf ≤ 2 ^ 32
      → (t : S) × (body_of r n buf s ≡ (refused, sock.close t))
        × (stream t ≡ drop (n - length buf) (stream s))
  unfolding end_body
  read_body_long r n buf s h m large few =
      let (t, e, after) = recvlen-stream sock stream law (n - length buf) s (omega (arith, m)) in
      (
        t,
        read_body-rest r n buf s h (omega (arith, large))
            ∙ ap (end_body sock engine lexical_cast can_hold r buf) e
            ∙ if_false _ _ (negative-to_int (n - length buf) large few),
        after,
      )
