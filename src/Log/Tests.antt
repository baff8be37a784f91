-- ===== src/Log/Tests.antt =====
-- Log lines of ttw/log.cc at small patterns, and the theorems at them.
use ttw.Prelude.{ℕ, ◌≡◌, refl, true, false, not, none, some, List, [], ◌∷◌, leb, if◌then◌else◌}
use ttw.Prelude.Text.{Bytes, codes}
use ttw.Json.Print.{show_nat, digits_onto}
use ttw.Log.{
  rank, info, debug, LogEvent, Piece, literal, directive, split_pattern, resolve, layout, format,
  write_format, to_string,
}
use ttw.Log.Loggers.{Logger, logger, Appenders, log, add_appender}
use ttw.Log.Patterns.{plain, show_pieces, render, all_known, format-show_pieces}
use ttw.Log.Laid.{add, Reach, here, next, Reach-IsLaid}
use ttw.Log.Appenders.{IsLaid, log-after_event, after_event, occurrences}

abbrev event : LogEvent
event = record {
  message = codes "up";
  logger_name = codes "root";
  time = 0;
  file_name = codes "a.cc";
  line = 12;
  thread_name = codes "t";
}

abbrev no_date : ℕ → Bytes
no_date t = []

-- 5%[%p{}]%l{} %m{}
abbrev pieces : List Piece
pieces =
    literal (codes "5%[")
    ∷ directive (codes "p") []
    ∷ literal (codes "]")
    ∷ directive (codes "l") []
    ∷ directive (codes "m") (codes "x")
    ∷ []

pieces-plain : plain false pieces ≡ true
unfolding plain
pieces-plain = refl

one_line : format no_date (layout (codes "%p:%l%%%m%q%m")) info event ≡ codes "INFO:12%up"
unfolding format layout split_pattern resolve write_format to_string show_nat digits_onto
one_line = refl

format-show_pieces_example :
    (format no_date (layout (show_pieces pieces)) info event ≡ render no_date info event pieces)
    × ((layout (show_pieces pieces)).error ≡ not (all_known pieces))
format-show_pieces_example = format-show_pieces no_date info event pieces pieces-plain

abbrev blank : Appenders
blank p = record { level = debug; layout = none; to_file = false; output = [] }

abbrev root : Logger
root = logger (codes "root")

abbrev with_two : Logger × Appenders
with_two = add_appender 7 root blank

two-Reach : Reach root blank with_two.0 with_two.1
two-Reach = next here (add 7)

Reach-IsLaid_example : IsLaid with_two.0 with_two.1
Reach-IsLaid_example = Reach-IsLaid (codes "root") with_two.0 blank with_two.1 two-Reach

two-IsLaid : IsLaid with_two.0 with_two.1
two-IsLaid = Reach-IsLaid (codes "root") with_two.0 blank with_two.1 two-Reach

log-after_event_example :
    (k : Appenders) × (log no_date info event with_two.0 with_two.1 ≡ some k)
    × ((q : ℕ)
        → k q
          ≡ after_event no_date info event with_two.1
              (if leb (rank with_two.0.level) (rank info)
                then occurrences q with_two.0.appenders
                else 0)
              q)
log-after_event_example = log-after_event no_date info event with_two.0 with_two.1 two-IsLaid
