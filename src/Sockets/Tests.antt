-- ===== src/Sockets/Tests.antt =====
-- Runs of the operations of ttw/socket.cc, and the lemmas at small states.
use ttw.Prelude.{◌≡◌, ◌≢◌, refl, true, false, none, some, [], ◌∷◌, ◌++◌, arith, has, if◌then◌else◌}
use ttw.Prelude.Dict.{find, assign, nat_key}
use ttw.Prelude.Int.{pos}
use ttw.Prelude.Word.{u64_max}
use ttw.Timer.{call}
use ttw.Addresses.{Ipv4Address}
use ttw.Io.Events.{on_read}
use ttw.Io.{spawn, IoScheduler, add_event, obtain, register, get_context, wait_with}
use ttw.Io.Untimed.{add_event-returned}
use ttw.Sockets.{
  timer_runs, elsewhere, Pause, gave, interrupted, would_block, failed, going, thrown, got,
  timed_out, again, ends, wait_for, Socket, new_socket, recv, connect, accept_loop, transfer,
  start_timer,
}
use ttw.Sockets.Server.{Visit, start_acceptr}
use ttw.Sockets.Invariant.{IsScheduler}
use ttw.Sockets.Waits.{wait_for-has_timeout, wait_for-stopped, has_timeout}
use ttw.Sockets.Transfers.{recv-Idle, connect-Documented}
use ttw.Sockets.Accepting.{kept, accept_loop-kept}
use ttw.Sockets.Handed.{start_acceptr-queue}

abbrev nothing : IoScheduler
nothing = record {
  timer = record {
    heap = λ p. record { ms = 0; cb = call 7; recurr = false; next = 50 };
    timers = [];
    pre_time = 0;
    notified = 0;
  };
  contexts = [];
  event_count = pos 0;
  interest = [];
  queue = [];
  notified = 0;
  stop = false;
}

nothing-IsScheduler : IsScheduler nothing
unfolding find
nothing-IsScheduler = record {
  counted = record { distinct = tt; placed = tt; count = refl };
  timers = record { sorted = tt; no_null = refl };
}

-- A wait with a timer at address 1, which runs.
abbrev too_long : Pause
too_long = record {
  ctl = true;
  current = 8;
  fresh = 1;
  now = 20;
  weak = 3;
  fn = 4;
  meanwhile = elsewhere (λ s. s) ∷ timer_runs true ∷ [];
}

abbrev local_host : Ipv4Address
local_host = record { sin_port = 80; s_addr = 127 }

abbrev peer : Socket
peer = record new_socket {
  sock = some 5;
  is_conned = true;
  receipt_time = some 1000;
  send_time = some 1000;
}

wait_for-has_timeout_example :
    (wait_for too_long (some 1000) 5 on_read nothing).0
    ≡ (if has_timeout too_long.meanwhile then ends timed_out else again)
unfolding start_timer find
wait_for-has_timeout_example =
    wait_for-has_timeout too_long 1000 5 on_read nothing (λ e. ground (arith, e))
      (add_event-returned 8 5 (start_timer too_long 1000 nothing).1 refl)

wait_for-stopped_example :
    has 1 (wait_for too_long (some 1000) 5 on_read nothing).1.timer.timers ≡ false
unfolding start_timer find
wait_for-stopped_example =
    wait_for-stopped too_long 1000 5 on_read nothing (λ e. ground (arith, e)) (λ e. cc)
      (λ e. ground (arith, e), refl) (λ s is. is, tt) nothing-IsScheduler ended
  where
    ended : (wait_for too_long (some 1000) 5 on_read nothing).0 ≢ ends thrown
    ended e =
        let too_late : (wait_for too_long (some 1000) 5 on_read nothing).0 ≡ ends timed_out =
          wait_for-has_timeout_example in
        cc

recv-Idle_example :
    (recv (gave 0 ∷ failed 104 ∷ []) peer nothing ≡ (going, nothing))
    × (recv ((gave 0 ∷ failed 104 ∷ []) ++ (gave 3 ∷ [])) peer nothing ≡ (got 3, nothing))
recv-Idle_example = recv-Idle (gave 0 ∷ failed 104 ∷ []) [] 2 5 peer nothing refl refl tt

connect-Documented_example :
    ((connect (gave 0 ∷ failed 106 ∷ []) (some 5) none local_host u64_max new_socket nothing).0
      ≢ got 1)
    × ((connect
          (gave 0 ∷ failed 106 ∷ [])
          (some 5)
          none
          local_host
          u64_max
          new_socket
          nothing).1.is_conned
        ≡ new_socket.is_conned)
connect-Documented_example =
    connect-Documented (gave 0 ∷ failed 106 ∷ []) (some 5) none local_host u64_max new_socket
      nothing 0 tt

abbrev first_visit : Visit
first_visit = record {
  calls = would_block (record too_long { meanwhile = elsewhere (λ s. s) ∷ [] }) ∷ gave 9 ∷ [];
  local = some local_host;
  remote = none;
  hand = λ k. call 6;
  stopped = false;
}

abbrev last_visit : Visit
last_visit = record first_visit {
  calls = interrupted ∷ gave 10 ∷ gave 11 ∷ [];
  hand = λ k. elim k.sock [ none ↦ call 0 | some n ↦ call n ];
  stopped = true;
}

-- The server waits for descriptor 9; then descriptor 10 is lost, and 11 is served.
start_acceptr-queue_example :
    (start_acceptr 500 peer (first_visit ∷ last_visit ∷ []) nothing).queue
    ≡ spawn (call 6) ∷ spawn (call 11) ∷ []
unfolding wait_for add_event obtain register get_context wait_with find assign start_timer
start_acceptr-queue_example =
    start_acceptr-queue 500 5 peer (first_visit ∷ last_visit ∷ []) nothing refl
      ((refl, refl, tt), (tt, tt))

accept_loop-kept_example :
    accept_loop false 4 (interrupted ∷ gave 9 ∷ gave 10 ∷ []) nothing
    ≡ transfer (some u64_max) 4 on_read (kept false (interrupted ∷ gave 9 ∷ gave 10 ∷ [])) nothing
accept_loop-kept_example = accept_loop-kept false 4 (interrupted ∷ gave 9 ∷ gave 10 ∷ []) nothing

-- Descriptor 9 is lost.
loses_connection :
    accept_loop false 4 (interrupted ∷ gave 9 ∷ gave 10 ∷ []) nothing ≡ (got 10, nothing)
unfolding accept_loop
loses_connection = refl
