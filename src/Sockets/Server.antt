-- ===== src/Sockets/Server.antt =====
-- `TcpServer` of ttw/tcpserver.h and ttw/tcpserver.cc.
use ttw.Prelude.{ℕ, Bool, true, false, not, Option, none, some, List, [], ◌∷◌, if◌then◌else◌}
use ttw.Timer.{Callback}
use ttw.Addresses.{Ipv4Address}
use ttw.Io.{IoScheduler, add_cb}
use ttw.Sockets.{
  Call, Ending, going, thrown, unset, Socket, new_socket, accept, set_timeout, is_valid_socket,
  bind, listen, close,
}

pub record TcpServer : Type 0 where
  pub stop : Bool
  pub timeout : ℕ
  pub accept_socket : Option Socket

-- The constructor, but for the scheduler that it starts.
pub tcp_server : ℕ → TcpServer
tcp_server timeout = record { stop = true; timeout = timeout; accept_socket = none }

-- `bind(IPv4Address::ptr)`: what `::socket`, `::bind`, `getsockname` and `::listen` give.
pub bind_server : Option ℕ → Bool → Option Ipv4Address → Bool → TcpServer → TcpServer × Bool
unfolding bind listen
bind_server made bound asked listens v =
    let (k, done) = bind made bound asked new_socket in
    if not done
    then (v, false)
    else if not (listen listens k)
    then (v, false)
    else (record v { accept_socket = some k }, true)

-- `stop`, with a socket that was bound.
pub stop_server : TcpServer → TcpServer
unfolding close
stop_server v = record v {
  stop = true;
  accept_socket = elim v.accept_socket [ none ↦ none | some k ↦ some (close k).0 ];
}

-- `start`, for the function that runs startAcceptr.
pub start_server : Callback → TcpServer → IoScheduler → TcpServer × IoScheduler
start_server acceptr v s =
    if not v.stop then (v, s) else (record v { stop = false }, add_cb acceptr s)

-- What a round of startAcceptr meets: the calls of `accept` and the addresses, the function that is
-- bound for the socket, and whether the server has been stopped by the end of it.
pub record Visit : Type 0 where
  pub calls : List Call
  pub local : Option Ipv4Address
  pub remote : Option Ipv4Address
  pub hand : Socket → Callback
  pub stopped : Bool

-- A round of startAcceptr on what `accept` gave; a socket gets the time of the server and a coroutine.
unfoldable pub hand_over : ℕ → (Socket → Callback) → Option Socket → IoScheduler → IoScheduler
unfolding is_valid_socket set_timeout
hand_over timeout hand none s = s
hand_over timeout hand (some k) s =
    if not (is_valid_socket k) then s else add_cb (hand (set_timeout timeout k)) s

-- Whether the loop goes on after `accept`: it may not return, or let an exception through.
unfoldable pub comes_back : Ending → Bool
comes_back going = false
comes_back thrown = false
comes_back unset = false
comes_back _ = true

-- The loop of startAcceptr, up to the end of the visits.
unfoldable pub start_acceptr : ℕ → Socket → List Visit → IoScheduler → IoScheduler
unfolding accept hand_over comes_back
start_acceptr timeout k [] s = s
start_acceptr timeout k (v ∷ vs) s =
    let (e, got, t) = accept v.calls v.local v.remote k s in
    let next = start_acceptr timeout k vs (hand_over timeout v.hand got t) in
    if not (comes_back e) then t else if v.stopped then hand_over timeout v.hand got t else next
