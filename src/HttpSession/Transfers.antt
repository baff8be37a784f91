-- ===== src/HttpSession/Transfers.antt =====
-- `recvlen` and `sendlen` of ttw/http/http_session.cc.
use ttw.Prelude.{
  ℕ, zero, suc, ◌-◌, ◌≤◌, ◌<◌, ◌≡◌, refl, Bool, true, false, Option, none, some, [], ◌∷◌, ◌++◌,
  arith, length, take, drop, length-append, length-drop, take-append, drop-append, append_assoc,
  append_nil, take-drop, sym, ap, ◌∙◌,
}
use ttw.Prelude.Int.{pos}
use ttw.Prelude.Text.{Bytes}
use ttw.HttpSession.{
  Sock, Transfer, going, ends, before, to_int, got_bytes, took_bytes, recv_left, recvlen, send_left,
  sendlen,
}

-- The socket gives the bytes of a stream in order: where there are any, at least one and at most as many as asked for.
pub record IsStream {S : Type 0} (sock : Sock S) (stream : S → Bytes) : Type 0 where
  pub gives :
      (n : ℕ) (s : S)
      → 0 < n
      → 0 < length (stream s)
      → (b : ℕ) × (bs : Bytes) × (t : S) × (sock.recv n s ≡ (some (b ∷ bs), t))
        × (stream s ≡ (b ∷ bs) ++ stream t)
        × (suc (length bs) ≤ n)

-- The socket takes at least one of the bytes that it is given, and they are what the peer gets.
pub record IsSink {S : Type 0} (sock : Sock S) (sent : S → Bytes) : Type 0 where
  pub takes :
      (c : ℕ) (cs : Bytes) (s : S)
      → (n : ℕ) × (t : S) × (sock.send (c ∷ cs) s ≡ (pos (suc n), t))
        × (sent t ≡ sent s ++ (c ∷ take n cs))

unfoldable pub is_going : Transfer → Bool
is_going going = true
is_going (ends r bs) = false

module _ {S : Type 0} (sock : Sock S) where
  recv_left-got :
      (len fuel left b : ℕ) (bs : Bytes) (s t : S)
      → sock.recv (suc left) s ≡ (some (b ∷ bs), t)
      → recv_left sock len (suc fuel) (suc left) s ≡ (
        before (b ∷ bs) (recv_left sock len fuel (left - length bs) t).0,
        (recv_left sock len fuel (left - length bs) t).1,
      )
  unfolding recv_left
  recv_left-got len fuel left b bs s t e = ap (got_bytes sock (recv_left sock len fuel) left) e

  is_going-before : (bs : Bytes) (r : Transfer) → is_going (before bs r) ≡ is_going r
  unfolding is_going
  is_going-before bs going = refl
  is_going-before bs (ends k cs) = refl

  got_bytes-going :
      (again : ℕ → S → Transfer × S) (left : ℕ) (x : Option Bytes × S)
      → ((k : ℕ) (u : S) → k ≤ left → is_going (again k u).0 ≡ false)
      → is_going (got_bytes sock again left x).0 ≡ false
  unfolding is_going
  got_bytes-going again left (none, t) h = refl
  got_bytes-going again left (some [], t) h = refl
  got_bytes-going again left (some (b ∷ bs), t) h =
      is_going-before (b ∷ bs) (again (left - length bs) t).0 ∙ h (left - length bs) t (omega arith)

  recv_left-going :
      (len fuel left : ℕ) (s : S)
      → left ≤ fuel
      → is_going (recv_left sock len fuel left s).0 ≡ false
  unfolding recv_left is_going
  recv_left-going len fuel zero s l = refl
  recv_left-going len zero (suc left) s l = absurd (omega (arith, l))
  recv_left-going len (suc fuel) (suc left) s l =
      got_bytes-going (recv_left sock len fuel) left (sock.recv (suc left) s)
        (λ k u few. recv_left-going len fuel k u (omega (arith, few, l)))

  pub recvlen-going : (len : ℕ) (s : S) → is_going (recvlen sock len s).0 ≡ false
  unfolding recvlen
  recvlen-going len s = recv_left-going len len len s (omega arith)

  module _ (stream : S → Bytes) (law : IsStream sock stream) where
    recv_left-stream :
        (len fuel left : ℕ) (s : S)
        → left ≤ fuel
        → left ≤ length (stream s)
        → (t : S) × (recv_left sock len fuel left s ≡ (ends (to_int len) (take left (stream s)), t))
          × (stream t ≡ drop left (stream s))
    unfolding recv_left
    recv_left-stream len fuel zero s l m = (s, refl, refl)
    recv_left-stream len zero (suc left) s l m = absurd (omega (arith, l))
    recv_left-stream len (suc fuel) (suc left) s l m =
        let (b, bs, t, got, splits, few) =
          law.gives (suc left) s (omega arith) (omega (arith, m)) in
        let size = ap length splits ∙ length-append (b ∷ bs) (stream t) in
        let (u, e, after) =
          recv_left-stream len fuel (left - length bs) t (omega (arith, l))
            (omega (arith, size, m)) in
        (
          u,
          recv_left-got len fuel left b bs s t got
              ∙ ap (λ x. (before (b ∷ bs) x.0, x.1)) e
              ∙ ap (λ x. (ends (to_int len) x, u))
                  (sym (
                    ap (take (suc left)) splits
                    ∙ take-append (suc left) (b ∷ bs) (stream t) few
                    ∙ ap (λ k. (b ∷ bs) ++ take k (stream t)) (omega arith))),
          after
              ∙ sym (
                  ap (drop (suc left)) splits
                  ∙ drop-append (suc left) (b ∷ bs) (stream t) few
                  ∙ ap (λ k. drop k (stream t)) (omega arith)),
        )

    -- Where the stream has that many bytes, `recvlen` puts just its next ones into the buffer, in their order and however
    -- they are split, leaves the stream behind them, and returns their number as an `int`.
    pub recvlen-stream :
        (len : ℕ) (s : S)
        → len ≤ length (stream s)
        → (t : S) × (recvlen sock len s ≡ (ends (to_int len) (take len (stream s)), t))
          × (stream t ≡ drop len (stream s))
    unfolding recvlen
    recvlen-stream len s m = recv_left-stream len len len s (omega arith) m

  send_left-took :
      (len fuel c : ℕ) (cs : Bytes) (n : ℕ) (s t : S)
      → sock.send (c ∷ cs) s ≡ (pos (suc n), t)
      → send_left sock len (suc fuel) (c ∷ cs) s ≡ send_left sock len fuel (drop n cs) t
  unfolding send_left
  send_left-took len fuel c cs n s t e = ap (took_bytes sock (send_left sock len fuel) cs) e

  module _ (sent : S → Bytes) (law : IsSink sock sent) where
    send_left-sent :
        (len fuel : ℕ) (text : Bytes) (s : S)
        → length text ≤ fuel
        → (t : S) × (send_left sock len fuel text s ≡ (some (to_int len), t))
          × (sent t ≡ sent s ++ text)
    unfolding send_left
    send_left-sent len fuel [] s l = (s, refl, sym (append_nil (sent s)))
    send_left-sent len zero (c ∷ cs) s l = absurd (omega (arith, l))
    send_left-sent len (suc fuel) (c ∷ cs) s l =
        let (n, t, took, more) = law.takes c cs s in
        let (u, e, all) =
          send_left-sent len fuel (drop n cs) t (omega (arith, l, length-drop n cs)) in
        (
          u,
          send_left-took len fuel c cs n s t took ∙ e,
          all
              ∙ ap (λ x. x ++ drop n cs) more
              ∙ append_assoc (sent s) (c ∷ take n cs) (drop n cs)
              ∙ ap (λ x. sent s ++ (c ∷ x)) (take-drop n cs),
        )

    -- `sendlen` gives the peer just the bytes of the text, in their order, and returns their number as an `int`.
    pub sendlen-sent :
        (text : Bytes) (s : S)
        → (t : S) × (sendlen sock text s ≡ (some (to_int (length text)), t))
          × (sent t ≡ sent s ++ text)
    unfolding sendlen
    sendlen-sent text s = send_left-sent (length text) (length text) text s (omega arith)
