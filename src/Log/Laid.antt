-- ===== src/Log/Laid.antt =====
-- The layouts of the appenders of a `Logger` (ttw/log.cc).
use ttw.Prelude.{
  ℕ, ◌≡◌, refl, true, false, Option, none, some, List, [], ◌∷◌, arith, ◌==◌, has, has-append, sym,
  ap, ◌∙◌, Bool, Bool-cases, Option-cases, inl, inr,
}
use ttw.Prelude.Text.{Bytes}
use ttw.Log.{Level, LogEvent, Layout}
use ttw.Log.Loggers.{
  Logger, logger, Appenders, put_appender, log, lay_out, set_layout, add_appender, erase_appender,
  set_appender_layout, del_appender, clear_appender,
}
use ttw.Log.Appenders.{is_laid, IsLaid, log-after_event}

-- The operations on the appenders of a logger, with no null layout set. `set_one` is `LogAppender::setLayout`.
pub data Step : Logger → Appenders → Logger → Appenders → Type 0 where
  set :
      {l : Logger} {h : Appenders} (v : Layout)
      → Step l h (set_layout (some v) l h).0 (set_layout (some v) l h).1
  set_one :
      {l : Logger} {h : Appenders} (p : ℕ) (v : Layout)
      → Step l h l (set_appender_layout p (some v) h)
  add :
      {l : Logger} {h : Appenders} (p : ℕ) → Step l h (add_appender p l h).0 (add_appender p l h).1
  del : {l : Logger} {h : Appenders} (p : ℕ) → Step l h (del_appender p l) h
  clear : {l : Logger} {h : Appenders} → Step l h (clear_appender l) h
  logs :
      {l : Logger} {h k : Appenders} (date : ℕ → Bytes) (level : Level) (event : LogEvent)
      → log date level event l h ≡ some k
      → Step l h l k

lay_out_keeps :
    (v : Layout) (ps : List ℕ) (h : Appenders) (p : ℕ)
    → is_laid (h p) ≡ true
    → is_laid (lay_out (some v) ps h p) ≡ true
lay_out_keeps v [] h p e = e
lay_out_keeps v (q ∷ ps) h p e =
    lay_out_keeps v ps (put_appender h q (record (h q) { layout = some v })) p (ground (arith, e))

lay_out-is_laid :
    (v : Layout) (ps : List ℕ) (h : Appenders) (p : ℕ)
    → has p ps ≡ true
    → is_laid (lay_out (some v) ps h p) ≡ true
lay_out-is_laid v [] h p e = cc
lay_out-is_laid v (q ∷ ps) h p e = elim (Bool-cases (p == q)) [
  | inl y ↦
      lay_out_keeps v ps (put_appender h q (record (h q) { layout = some v })) p (ground (arith, y))
  | inr n ↦
      lay_out-is_laid v ps (put_appender h q (record (h q) { layout = some v })) p
        (ground (arith, n, e))
]

has-erase_appender : (p q : ℕ) (ps : List ℕ) → has p (erase_appender q ps) ≡ true → has p ps ≡ true
has-erase_appender p q [] e = e
has-erase_appender p q (x ∷ ps) e = ground (arith, e, has-erase_appender p q ps)

abbrev has_layout : Logger → Bool
has_layout l = elim l.layout [ none ↦ false | some _ ↦ true ]

-- The logger has a layout too, which `addAppender` hands on.
record IsLaidOut (l : Logger) (h : Appenders) : Type 0 where
  own : has_layout l ≡ true
  laid : IsLaid l h

-- Each operation keeps a layout in the logger and in each of its appenders.
set_layout-IsLaidOut :
    (v : Layout) (l : Logger) (h : Appenders)
    → IsLaidOut (set_layout (some v) l h).0 (set_layout (some v) l h).1
unfolding set_layout
set_layout-IsLaidOut v l h = record {
  own = refl;
  laid = λ p i. lay_out-is_laid v l.appenders h p i;
}

add_appender-IsLaidOut :
    (p : ℕ) (l : Logger) (h : Appenders)
    → IsLaidOut l h
    → IsLaidOut (add_appender p l h).0 (add_appender p l h).1
unfolding add_appender
add_appender-IsLaidOut p l h is = record {
  own = is.own;
  laid = λ q i.
      ground
        (arith, has-append q l.appenders (p ∷ []), i, is.laid q, is.own, Option-cases l.layout);
}

set_appender_layout-is_laid :
    (p : ℕ) (v : Layout) (h : Appenders) (q : ℕ)
    → is_laid (h q) ≡ true
    → is_laid (set_appender_layout p (some v) h q) ≡ true
set_appender_layout-is_laid p v h q e = ground (arith, e)

log-IsLaid :
    (date : ℕ → Bytes) (level : Level) (event : LogEvent) (l : Logger) (h k : Appenders)
    → IsLaid l h
    → log date level event l h ≡ some k
    → IsLaid l k
log-IsLaid date level event l h k laid e q i =
    let (j, same, all) = log-after_event date level event l h laid in
    let equal : ◌≡◌ {A = Option Appenders} (some k) (some j) = sym e ∙ same in
    ap (λ (o : Option Appenders). elim o [ none ↦ false | some g ↦ is_laid (g q) ]) equal
    ∙ ap is_laid (all q)
    ∙ laid q i

Step-IsLaidOut :
    {l : Logger} {h : Appenders} {m : Logger} {k : Appenders}
    → Step l h m k
    → IsLaidOut l h
    → IsLaidOut m k
Step-IsLaidOut {l = l} {h = h} (set v) is = set_layout-IsLaidOut v l h
Step-IsLaidOut {l = l} {h = h} (set_one p v) is = record {
  own = is.own;
  laid = λ q i. set_appender_layout-is_laid p v h q (is.laid q i);
}
Step-IsLaidOut {l = l} {h = h} (add p) is = add_appender-IsLaidOut p l h is
Step-IsLaidOut {l = l} (del p) is =
    unfold del_appender in
    record { own = is.own; laid = λ q i. is.laid q (has-erase_appender q p l.appenders i) }
Step-IsLaidOut clear is =
    unfold clear_appender in record { own = is.own; laid = λ q i. absurd (cc) }
Step-IsLaidOut {l = l} {h = h} {k = k} (logs date level event e) is = record {
  own = is.own;
  laid = log-IsLaid date level event l h k is.laid e;
}

pub data Reach (l : Logger) (h : Appenders) : Logger → Appenders → Type 0 where
  here : Reach l h l h
  next : {m n : Logger} {j k : Appenders} → Reach l h m j → Step m j n k → Reach l h n k

reached :
    {l : Logger} {h : Appenders} {m : Logger} {k : Appenders}
    → IsLaidOut l h
    → Reach l h m k
    → IsLaidOut m k
reached is here = is
reached is (next before step) = Step-IsLaidOut step (reached is before)

logger-IsLaidOut : (name : Bytes) (h : Appenders) → IsLaidOut (logger name) h
unfolding logger
logger-IsLaidOut name h = record { own = refl; laid = λ p i. absurd (cc) }

-- From a new logger, through any run of `addAppender`, `delAppender`, `clearAppender`, the `setLayout` of the logger
-- and of appenders with layouts that are not null, and events that are logged, every appender of the logger has a
-- layout.
pub Reach-IsLaid :
    (name : Bytes) (l : Logger) (h k : Appenders) → Reach (logger name) h l k → IsLaid l k
Reach-IsLaid name l h k run = (reached (logger-IsLaidOut name h) run).laid
