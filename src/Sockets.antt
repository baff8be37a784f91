-- ===== src/Sockets.antt =====
-- `Socket` of ttw/socket.h and ttw/socket.cc, over the timers and events of Io.
-- What the calls of the system return is a list, one entry for each call; an entry for a call that would block holds
-- what happens until the coroutine goes on. What the constructor leaves unset is `none`.
pub mod Server
pub mod Waits
pub mod Transfers
pub mod Accepting
pub mod Invariant
pub mod Handed
mod Tests
use ttw.Prelude.{
  ℕ, zero, suc, Bool, true, false, ◌&&◌, ◌||◌, not, Option, none, some, List, [], ◌∷◌, ◌==◌,
  if◌then◌else◌,
}
use ttw.Prelude.Word.{u64_max}
use ttw.Timer.{Callback, empty, call, add_condition_timer, cancel_timer}
use ttw.Addresses.{Ipv4Address}
use ttw.Io.Events.{Event, on_read, on_write}
use ttw.Io.{
  IoScheduler, Outcome, returned, threw, add_event, cancel_event, cancel_all, delete_event_cb,
}

-- `ETIMEDOUT`
abbrev pub etimedout : ℕ
etimedout = 110

-- What happens while a coroutine is suspended: its timer runs, where the argument is whether `epoll_ctl`
-- succeeds, or the rest of the program changes the scheduler.
pub data Happening : Type 0 where
  timer_runs : Bool → Happening
  elsewhere : (IoScheduler → IoScheduler) → Happening

-- One wait: whether `epoll_ctl` succeeds, the running coroutine, the address of the new timer, the clock,
-- the object `t`, the function that the timer is given, and what happens while it is suspended.
pub record Pause : Type 0 where
  pub ctl : Bool
  pub current : ℕ
  pub fresh : ℕ
  pub now : ℕ
  pub weak : ℕ
  pub fn : ℕ
  pub meanwhile : List Happening

-- What a call of the system gives: a result that is not -1, or -1 with EINTR, with EWOULDBLOCK, or with another error.
pub data Call : Type 0 where
  gave : ℕ → Call
  interrupted : Call
  would_block : Pause → Call
  failed : ℕ → Call

-- How an operation ends: still in its loop, an exception of `addEvent`, the value of a field that was never set, or a result:
-- -1 as the socket is not connected, -1 after `addEvent` has failed, -1 with ETIMEDOUT, or what the call gave.
pub data Ending : Type 0 where
  going : Ending
  thrown : Ending
  unset : Ending
  refused : Ending
  unwatched : Ending
  timed_out : Ending
  got : ℕ → Ending

-- The function of the timer: the flag `*i` and the scheduler, where `alive` is whether the flag still exists.
pub on_timeout : Bool → Bool → ℕ → Event → ℕ × IoScheduler → ℕ × IoScheduler
on_timeout alive ctl fd event (t, s) =
    if not alive || not (t == 0) then (t, s) else (etimedout, (cancel_event ctl fd event s).0)

-- What happens until the coroutine goes on; the flag is alive, and a timer can run if there is one.
pub suspended : Option ℕ → ℕ → Event → List Happening → ℕ × IoScheduler → ℕ × IoScheduler
unfolding on_timeout
suspended timer fd event [] p = p
suspended timer fd event (elsewhere f ∷ hs) (t, s) = suspended timer fd event hs (t, f s)
suspended none fd event (timer_runs ctl ∷ hs) p = suspended none fd event hs p
suspended (some m) fd event (timer_runs ctl ∷ hs) p =
    suspended (some m) fd event hs (on_timeout true ctl fd event p)

-- The timer of a wait, unless the time is `(uint64_t) -1`.
pub start_timer : Pause → ℕ → IoScheduler → Option ℕ × IoScheduler
start_timer w timeout s =
    if timeout == u64_max
    then (none, s)
    else (let (m, t) = add_condition_timer w.fresh w.now timeout (call w.fn) w.weak false s.timer in
        (some t, record s { timer = m }))

pub stop_timer : Option ℕ → IoScheduler → IoScheduler
stop_timer none s = s
stop_timer (some t) s = record s { timer = (cancel_timer t s.timer).0 }

-- What a wait comes to: the call is made again, or the operation ends.
pub data Waited : Type 0 where
  again : Waited
  ends : Ending → Waited

-- The branch for EWOULDBLOCK.
pub wait_for : Pause → Option ℕ → ℕ → Event → IoScheduler → Waited × IoScheduler
unfolding start_timer stop_timer suspended
wait_for w none fd event s = (ends unset, s)
wait_for w (some timeout) fd event s =
    let (timer, t) = start_timer w timeout s in
    let (u, out) = add_event w.ctl w.current fd event empty t in
    elim out [
      | threw ↦ (ends thrown, u)
      | returned done ↦
          if not done
          then (ends unwatched, stop_timer timer u)
          else (let (flag, v) = suspended timer fd event w.meanwhile (0, u) in
              (if flag == 0 then again else ends timed_out, stop_timer timer v))
    ]

abbrev after_wait :
    (IoScheduler → Ending × IoScheduler) → Waited × IoScheduler → Ending × IoScheduler
after_wait next (again, s) = next s
after_wait next (ends e, s) = (e, s)

-- The loop of `connect`, `send`, `sendTo` and `recv`, which differ in the call, the event and the time; the loop
-- at EINTR makes the call again, and so does a round that neither returns nor waits.
pub transfer : Option ℕ → ℕ → Event → List Call → IoScheduler → Ending × IoScheduler
unfolding wait_for
transfer timeout fd event [] s = (going, s)
transfer timeout fd event (gave (suc n) ∷ cs) s = (got (suc n), s)
transfer timeout fd event (gave zero ∷ cs) s = transfer timeout fd event cs s
transfer timeout fd event (interrupted ∷ cs) s = transfer timeout fd event cs s
transfer timeout fd event (failed e ∷ cs) s = transfer timeout fd event cs s
transfer timeout fd event (would_block w ∷ cs) s =
    after_wait (transfer timeout fd event cs) (wait_for w timeout fd event s)

-- The loop of `accept`, which waits without a timer. The test for a descriptor stands before the loop at EINTR, so what the
-- call gives when it is made again there is not looked at; the flag is whether the call is this one.
pub accept_loop : Bool → ℕ → List Call → IoScheduler → Ending × IoScheduler
unfolding wait_for
accept_loop retried fd [] s = (going, s)
accept_loop false fd (gave (suc n) ∷ cs) s = (got (suc n), s)
accept_loop true fd (gave (suc n) ∷ cs) s = accept_loop false fd cs s
accept_loop retried fd (gave zero ∷ cs) s = accept_loop false fd cs s
accept_loop retried fd (interrupted ∷ cs) s = accept_loop true fd cs s
accept_loop retried fd (failed e ∷ cs) s = accept_loop false fd cs s
accept_loop retried fd (would_block w ∷ cs) s =
    after_wait (accept_loop false fd cs) (wait_for w (some u64_max) fd on_read s)

pub record Socket : Type 0 where
  pub sock : Option ℕ
  pub is_conned : Bool
  pub time_out : Option ℕ
  pub receipt_time : Option ℕ
  pub send_time : Option ℕ
  pub local : Option Ipv4Address
  pub remote : Option Ipv4Address

-- The constructor leaves `m_receipttime` and `m_sendtime` unset.
pub new_socket : Socket
new_socket = record {
  sock = none;
  is_conned = false;
  time_out = some 0;
  receipt_time = none;
  send_time = none;
  local = none;
  remote = none;
}

pub set_timeout : ℕ → Socket → Socket
set_timeout val k = record k { time_out = some val; receipt_time = some val; send_time = some val }

-- `isValid`
pub is_valid_socket : Socket → Bool
is_valid_socket k = elim k.sock [ none ↦ false | some fd ↦ true ]

-- `m_local` or `m_remote`, asked of the system the first time.
pub get_local_address : Option Ipv4Address → Socket → Option Ipv4Address × Socket
get_local_address asked k = elim k.local [
  | some a ↦ (some a, k)
  | none ↦ (asked, record k { local = asked })
]

pub get_remote_address : Option Ipv4Address → Socket → Option Ipv4Address × Socket
get_remote_address asked k = elim k.remote [
  | some a ↦ (some a, k)
  | none ↦ (asked, record k { remote = asked })
]

-- `newSocket`, where `made` is what `::socket` returns, none for -1.
pub make_socket : Option ℕ → Socket → Socket
make_socket made k = record k { sock = made }

-- The system refuses every call on the descriptor -1, so the loop does not end.
abbrev on_descriptor : (ℕ → Ending × IoScheduler) → Option ℕ → IoScheduler → Ending × IoScheduler
on_descriptor run none s = (going, s)
on_descriptor run (some fd) s = run fd

pub recv : List Call → Socket → IoScheduler → Ending × IoScheduler
unfolding transfer
recv cs k s =
    if not k.is_conned
    then (refused, s)
    else on_descriptor (λ fd. transfer k.receipt_time fd on_read cs s) k.sock s

pub send : List Call → Socket → IoScheduler → Ending × IoScheduler
unfolding transfer
send cs k s =
    if not k.is_conned
    then (refused, s)
    else on_descriptor (λ fd. transfer k.send_time fd on_write cs s) k.sock s

-- The forms with `iovec`, and those for an address, repeat `recv` and `send` for `recvmsg`, `sendmsg` and `sendto`.
pub recv_iovec : List Call → Socket → IoScheduler → Ending × IoScheduler
unfolding recv
recv_iovec = recv

pub send_iovec : List Call → Socket → IoScheduler → Ending × IoScheduler
unfolding send
send_iovec = send

pub send_to_iovec : List Call → Socket → IoScheduler → Ending × IoScheduler
unfolding send
send_to_iovec = send

pub send_to : List Call → Socket → IoScheduler → Ending × IoScheduler
unfolding send
send_to = send

-- `init(int)` on a descriptor that is not negative: the socket, and whether its address is known.
pub init_socket : ℕ → Option Ipv4Address → Option Ipv4Address → Socket → Socket × Bool
unfolding get_local_address get_remote_address
init_socket fd local remote k =
    let (a, l) = get_local_address local (record k { sock = some fd; is_conned = true }) in
    let (b, r) = get_remote_address remote l in (r, elim a [ none ↦ false | some x ↦ true ])

-- The end of `accept`: a socket for a descriptor, or a null pointer.
pub accepted : Option Ipv4Address → Option Ipv4Address → Ending → Option Socket
unfolding init_socket new_socket
accepted local remote (got n) =
    let (k, known) = init_socket n local remote new_socket in if known then some k else none
accepted local remote _ = none

pub accept :
    List Call
    → Option Ipv4Address
    → Option Ipv4Address
    → Socket
    → IoScheduler
    → Ending × Option Socket × IoScheduler
unfolding accept_loop accepted
accept cs local remote k s =
    let (e, t) = on_descriptor (λ fd. accept_loop false fd cs s) k.sock s in
    (e, accepted local remote e, t)

-- The end of `connect`.
pub connected : Option Ipv4Address → Ending → Socket → Socket
unfolding get_local_address
connected asked (got n) k = (get_local_address asked (record k { is_conned = true })).1
connected asked _ k = k

-- `connect`: 0 if no socket can be made.
pub connect :
    List Call
    → Option ℕ
    → Option Ipv4Address
    → Ipv4Address
    → ℕ
    → Socket
    → IoScheduler
    → Ending × Socket × IoScheduler
unfolding is_valid_socket make_socket transfer connected
connect cs made asked addr timeout k s =
    let named = record k { remote = some addr } in
    let open_socket = if is_valid_socket named then named else make_socket made named in
    elim open_socket.sock [
      | none ↦ (got 0, open_socket, s)
      | some fd ↦
          let (e, t) = transfer (some timeout) fd on_read cs s in
          (e, connected asked e open_socket, t)
    ]

-- An `int` result as a `bool`; nothing for an operation that does not return.
pub as_bool : Ending → Option Bool
as_bool going = none
as_bool thrown = none
as_bool unset = none
as_bool (got zero) = some false
as_bool _ = some true

pub reconnect :
    List Call
    → Option ℕ
    → Option Ipv4Address
    → ℕ
    → Socket
    → IoScheduler
    → Option Bool × Socket × IoScheduler
unfolding connect as_bool
reconnect cs made asked timeout k s = elim k.remote [
  | none ↦ (some false, k, s)
  | some addr ↦
      let (e, l, t) = connect cs made asked addr timeout (record k { local = none }) s in
      (as_bool e, l, t)
]

-- `bind` and `listen`, where `done` is whether the call of the system succeeds.
pub bind : Option ℕ → Bool → Option Ipv4Address → Socket → Socket × Bool
unfolding is_valid_socket make_socket get_local_address
bind made done asked k =
    let l = if is_valid_socket k then k else make_socket made k in
    if not done then (l, false) else ((get_local_address asked l).1, true)

pub listen : Bool → Socket → Bool
unfolding is_valid_socket
listen done k = is_valid_socket k && done

pub close : Socket → Socket × Bool
unfolding is_valid_socket
close k =
    if not k.is_conned && not (is_valid_socket k)
    then (k, true)
    else (record k { is_conned = false; sock = none }, true)

-- `cancelAccept`, `cancelRead` and `cancelWrite`; no context is held for -1.
pub cancel : Bool → Event → Socket → IoScheduler → IoScheduler × Bool
cancel ctl event k s = elim k.sock [ none ↦ (s, false) | some fd ↦ cancel_event ctl fd event s ]

pub cancel_all_events : Bool → Socket → IoScheduler → IoScheduler × Bool
cancel_all_events ctl k s = elim k.sock [ none ↦ (s, false) | some fd ↦ cancel_all ctl fd s ]

pub delete_events : Socket → IoScheduler → IoScheduler
delete_events k s = elim k.sock [ none ↦ s | some fd ↦ delete_event_cb fd s ]
