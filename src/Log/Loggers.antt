-- ===== src/Log/Loggers.antt =====
-- `Logger`, the appenders and `LogManage` of ttw/log.h and log.cc. Appenders and loggers are shared: an address of a heap,
-- 0 the null pointer. The text that an appender has written is its `output`, and its stream does not fail.
use ttw.Prelude.{
  ℕ, Bool, true, false, not, Option, none, some, List, [], ◌∷◌, ◌++◌, ◌==◌, leb, if◌then◌else◌,
}
use ttw.Prelude.Text.{Bytes, codes, eq_bytes}
use ttw.Prelude.Dict.{find, assign, remove, bytes_key}
use ttw.Log.{Level, rank, debug, LogEvent, Layout, layout, format}

pub record LogAppender : Type 0 where
  pub level : Level
  pub layout : Option Layout
  pub to_file : Bool
  pub output : Bytes

pub record Logger : Type 0 where
  pub name : Bytes
  pub level : Level
  pub appenders : List ℕ
  pub layout : Option Layout

unfoldable pub logger : Bytes → Logger
unfolding layout
logger name = record {
  name = name;
  level = debug;
  appenders = [];
  layout = some (layout (codes "%d{%Y-%m-%d %H:%M:%S}%T[%p]%T[%c]%T%f:%l%T%m%n"));
}

abbrev pub Appenders : Type 0
Appenders = ℕ → LogAppender

abbrev pub put_appender : Appenders → ℕ → LogAppender → Appenders
put_appender h p a q = if q == p then a else h q

-- `log` of an appender, none where it follows a null layout.
unfoldable pub append_event : (ℕ → Bytes) → Level → LogEvent → LogAppender → Option LogAppender
append_event date level event a =
    if leb (rank a.level) (rank level)
    then elim a.layout [
      | none ↦ none
      | some l ↦ some (record a {
        output = a.output ++ (format date l level event ++ (if a.to_file then 10 ∷ [] else []));
      })
    ]
    else some a

unfoldable pub append_all : (ℕ → Bytes) → Level → LogEvent → List ℕ → Appenders → Option Appenders
unfolding append_event
append_all date level event [] h = some h
append_all date level event (p ∷ ps) h = elim (append_event date level event (h p)) [
  | none ↦ none
  | some a ↦ append_all date level event ps (put_appender h p a)
]

-- `Logger::log`
unfoldable pub log : (ℕ → Bytes) → Level → LogEvent → Logger → Appenders → Option Appenders
unfolding append_all
log date level event l h = elim (leb (rank l.level) (rank level)) [
  | true ↦ append_all date level event l.appenders h
  | false ↦ some h
]

-- `LogAppender::setLayout`, also of the null pointer.
abbrev pub set_appender_layout : ℕ → Option Layout → Appenders → Appenders
set_appender_layout p v h = put_appender h p (record (h p) { layout = v })

-- The loop of `Logger::setLayout`, which gives each appender a null layout too.
abbrev pub lay_out : Option Layout → List ℕ → Appenders → Appenders
lay_out v [] h = h
lay_out v (p ∷ ps) h = lay_out v ps (set_appender_layout p v h)

unfoldable pub set_layout : Option Layout → Logger → Appenders → Logger × Appenders
set_layout v l h = (record l { layout = v }, lay_out v l.appenders h)

unfoldable pub add_appender : ℕ → Logger → Appenders → Logger × Appenders
add_appender p l h = (
  record l { appenders = l.appenders ++ (p ∷ []) },
  elim (h p).layout [ none ↦ set_appender_layout p l.layout h | some v ↦ h ],
)

abbrev pub erase_appender : ℕ → List ℕ → List ℕ
erase_appender p [] = []
erase_appender p (q ∷ qs) = if q == p then qs else q ∷ erase_appender p qs

unfoldable pub del_appender : ℕ → Logger → Logger
del_appender p l = record l { appenders = erase_appender p l.appenders }

unfoldable pub clear_appender : Logger → Logger
clear_appender l = record l { appenders = [] }

-- `LogManage`: its map, and the loggers.
pub record LogManage : Type 0 where
  pub loggers : ℕ → Logger
  pub log_map : List (Bytes × ℕ)

-- `getLogger`, 0 for the null pointer.
unfoldable pub get_logger : ℕ → Bytes → LogManage → ℕ × LogManage
unfolding find assign logger
get_logger fresh name m = elim (find name m.log_map) [
  | some p ↦ (p, m)
  | none ↦
      if eq_bytes name (codes "root")
      then (
        fresh,
        record m {
          loggers = λ q. if q == fresh then logger (codes "root") else m.loggers q;
          log_map = assign name fresh m.log_map;
        },
      )
      else (0, m)
]

pub add_logger : Bytes → ℕ → LogManage → LogManage
unfolding assign
add_logger name v m = if not (v == 0) then record m { log_map = assign name v m.log_map } else m

pub del_logger : Bytes → LogManage → LogManage
unfolding find remove
del_logger name m = elim (find name m.log_map) [
  | none ↦ m
  | some _ ↦ record m { log_map = remove name m.log_map }
]
