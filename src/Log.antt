-- ===== src/Log.antt =====
-- `LogLevel` and `Layout` of ttw/log.h and log.cc. What strftime gives for a time is the parameter `date`.
pub mod Patterns
pub mod Loggers
pub mod Appenders
pub mod Laid
mod Tests
use ttw.Prelude.{
  ℕ, zero, suc, Bool, true, false, not, ◌&&◌, Option, none, some, List, [], ◌∷◌, ◌++◌, ◌==◌, leb,
  if◌then◌else◌, length,
}
use ttw.Prelude.Text.{Bytes, codes, eq_bytes}
use ttw.Prelude.Dict.{find, assign, remove, bytes_key}
use ttw.Json.Print.{show_nat}
use ttw.Messages.{lower}

pub data Level : Type 0 where
  unknow : Level
  debug : Level
  info : Level
  warn : Level
  error : Level
  fatal : Level

abbrev pub rank : Level → ℕ
rank unknow = 0
rank debug = 1
rank info = 2
rank warn = 3
rank error = 4
rank fatal = 5

-- `LogLevel::ToString` and `LogLevel::FormString`.
unfoldable pub to_string : Level → Bytes
to_string debug = codes "DEBUG"
to_string info = codes "INFO"
to_string warn = codes "WARN"
to_string error = codes "ERROR"
to_string fatal = codes "FATAL"
to_string unknow = codes "UNKNOW"

abbrev level_named : Bytes → Level
level_named str =
    if eq_bytes str (codes "debug")
    then debug
    else if eq_bytes str (codes "info")
    then info
    else if eq_bytes str (codes "warn")
    then warn
    else if eq_bytes str (codes "error")
    then error
    else if eq_bytes str (codes "fatal")
    then fatal
    else unknow

unfoldable pub form_string : Bytes → Level
form_string str = level_named (lower str)

-- The read accesses of a `LogEvent`.
pub record LogEvent : Type 0 where
  pub message : Bytes
  pub logger_name : Bytes
  pub time : ℕ
  pub file_name : Bytes
  pub line : ℕ
  pub thread_name : Bytes

pub data Format : Type 0 where
  message_format : Format
  level_format : Format
  name_format : Format
  line_break_format : Format
  date_time_format : Bytes → Format
  file_name_format : Format
  line_format : Format
  thread_name_format : Format
  tab_format : Format
  string_format : Bytes → Format

-- What a `format` method writes.
unfoldable pub write_format : (ℕ → Bytes) → Level → LogEvent → Format → Bytes
unfolding to_string
write_format date level event message_format = event.message
write_format date level event level_format = to_string level
write_format date level event name_format = event.logger_name
write_format date level event line_break_format = 10 ∷ []
write_format date level event (date_time_format f) = date event.time
write_format date level event file_name_format = event.file_name
write_format date level event line_format = show_nat event.line
write_format date level event thread_name_format = event.thread_name
write_format date level event tab_format = 9 ∷ []
write_format date level event (string_format s) = s

-- The tuples of `Layout::explain`: a text, or the name of a format with its argument.
pub data Piece : Type 0 where
  literal : Bytes → Piece
  directive : Bytes → Bytes → Piece

abbrev pub flush : Bytes → List Piece → List Piece
flush [] l = l
flush (c ∷ cs) l = literal (c ∷ cs) ∷ l

-- The text up to the next closing brace, and what stands behind it.
abbrev pub braces : Bytes → Bytes × Bytes
braces [] = ([], [])
braces (c ∷ cs) =
    let (str, rest) = braces cs in elim (c == b'}') [ true ↦ ([], cs) | false ↦ (c ∷ str, rest) ]

-- The argument of a format, and the rest of the pattern.
abbrev pub with_argument : (Bytes → Bytes → List Piece) → Bytes → Bytes → List Piece
with_argument again fmt [] = directive fmt [] ∷ again [] []
with_argument again fmt (e ∷ es) = elim (e == b'{') [
  | true ↦ (let (str, rest) = braces es in directive fmt str ∷ again rest [])
  | false ↦ directive fmt [] ∷ again (e ∷ es) []
]

abbrev pub after_percent : (Bytes → Bytes → List Piece) → Bytes → Bytes → List Piece
after_percent again [] nstr = flush nstr (directive [] [] ∷ again [] [])
after_percent again (d ∷ ds) nstr = elim (d == b'%') [
  | true ↦ again ds (nstr ++ (b'%' ∷ []))
  | false ↦ flush nstr (with_argument again (d ∷ []) ds)
]

-- The loop of `explain` over the pattern, with `nstr`.
unfoldable pub split_pattern : ℕ → Bytes → Bytes → List Piece
split_pattern fuel [] nstr = flush nstr []
split_pattern zero (c ∷ cs) nstr = []
split_pattern (suc fuel) (c ∷ cs) nstr = elim (c == b'%') [
  | false ↦ split_pattern fuel cs (nstr ++ (c ∷ []))
  | true ↦ after_percent (split_pattern fuel) cs nstr
]

-- `formatsMap`
abbrev pub formats_map : Bytes → Option (Bytes → Format)
formats_map [] = none
formats_map (c ∷ d ∷ cs) = none
formats_map (c ∷ []) =
    if c == b'm'
    then some (λ s. message_format)
    else if c == b'p'
    then some (λ s. level_format)
    else if c == b'c'
    then some (λ s. name_format)
    else if c == b'n'
    then some (λ s. line_break_format)
    else if c == b'd'
    then some date_time_format
    else if c == b'f'
    then some (λ s. file_name_format)
    else if c == b'l'
    then some (λ s. line_format)
    else if c == b'N'
    then some (λ s. thread_name_format)
    else if c == b'T'
    then some (λ s. tab_format)
    else none

-- The formats up to the first name that is not known, and whether there is one: `m_error`.
unfoldable pub resolve : List Piece → List Format × Bool
resolve [] = ([], false)
resolve (literal s ∷ ps) = let (fs, e) = resolve ps in (string_format s ∷ fs, e)
resolve (directive fmt str ∷ ps) =
    let (fs, e) = resolve ps in
    elim (formats_map fmt) [ none ↦ ([], true) | some make ↦ (make str ∷ fs, e) ]

pub record Layout : Type 0 where
  pub error : Bool
  pub pattern : Bytes
  pub formats : List Format

-- The constructor, with `explain`.
unfoldable pub layout : Bytes → Layout
unfolding split_pattern resolve
layout pattern =
    let (fs, e) = resolve (split_pattern (length pattern) pattern []) in
    record { error = e; pattern = pattern; formats = fs }

abbrev pub write_formats : (ℕ → Bytes) → Level → LogEvent → List Format → Bytes
unfolding write_format
write_formats date level event [] = []
write_formats date level event (f ∷ fs) =
    write_format date level event f ++ write_formats date level event fs

-- `Layout::format`
unfoldable pub format : (ℕ → Bytes) → Layout → Level → LogEvent → Bytes
unfolding write_formats
format date l level event = write_formats date level event l.formats
