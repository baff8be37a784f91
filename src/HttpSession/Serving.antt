-- ===== src/HttpSession/Serving.antt =====
-- `HttpServer::handClient` of ttw/http/httpserver.cc.
use ttw.Prelude.{ℕ, ◌≡◌, Bool, true, Option, ◌++◌, ap, ◌∙◌}
use ttw.Prelude.Text.{Bytes}
use ttw.Messages.{HttpRequest, HttpResponse, response_to_string}
use ttw.Servlets.{ServletDispatch, dispatch_request}
use ttw.HttpParser.{Engine, RequestEvent}
use ttw.HttpSession.{
  Sock, received, recv_request, new_response, serve, answer, hand_client, send_response,
}
use ttw.HttpSession.Transfers.{IsSink, sendlen-sent}

module _ {S : Type 0} {P : Type 0} (sock : Sock S) (engine : Engine P RequestEvent)
    (lexical_cast : Bytes → Option ℕ) (can_hold : ℕ → Bool) (sent : S → Bytes)
    (law : IsSink sock sent) (matches : Bytes → Bytes → Bool)
    (dispatch : ServletDispatch (HttpRequest × HttpResponse × S)) (keep_live : Bool) where
  -- What the servlet of the request leaves.
  abbrev pub after_servlet : HttpRequest → S → HttpRequest × HttpResponse × S
  after_servlet req t =
      (dispatch_request matches req.path dispatch
        (req, new_response sock engine lexical_cast can_hold keep_live req, t)).1

  serve-sent :
      (req : HttpRequest) (t : S)
      → (u : S) × (serve sock engine lexical_cast can_hold matches dispatch keep_live req t
          ≡ sock.close u)
        × (sent u ≡ sent (after_servlet req t).2 ++ response_to_string (after_servlet req t).1)
  unfolding serve send_response
  serve-sent req t =
      let (u, e, all) =
        sendlen-sent sock sent law (response_to_string (after_servlet req t).1)
          (after_servlet req t).2 in
      (u, ap (λ x. sock.close x.1) e, all)

  -- Where recvRequest gives a request, handClient returns, and on a socket that takes what it is given the peer gets, after
  -- what the servlet itself sent, just the text of the response that the servlet of the path leaves; then the socket is
  -- closed.
  pub hand_client-sent :
      (fuel : ℕ) (req : HttpRequest) (s t : S)
      → recv_request sock engine lexical_cast can_hold fuel s ≡ (received req, t)
      → (u : S) × (hand_client sock engine lexical_cast can_hold matches dispatch keep_live fuel s
          ≡ (true, sock.close u))
        × (sent u ≡ sent (after_servlet req t).2 ++ response_to_string (after_servlet req t).1)
  unfolding hand_client answer
  hand_client-sent fuel req s t e =
      let (u, same, all) = serve-sent req t in
      (
        u,
        ap (answer sock engine lexical_cast can_hold matches dispatch keep_live) e
            ∙ ap (λ x. (true, x)) same,
        all,
      )
