-- ===== src/Log/Appenders.antt =====
-- What `Logger::log` of ttw/log.cc writes to its appenders.
use ttw.Prelude.{
  ℕ, zero, suc, ◌≡◌, refl, Bool, true, false, Option, none, some, List, [], ◌∷◌, ◌++◌, arith, ◌==◌,
  leb, if◌then◌else◌, if_true, if_false, has, append_nil, append_assoc, sym, ap, ◌∙◌, Bool-cases,
  inl, inr,
}
use ttw.Prelude.Text.{Bytes}
use ttw.Log.{Level, rank, LogEvent, format}
use ttw.Log.Loggers.{LogAppender, Logger, Appenders, put_appender, append_event, append_all, log}

abbrev pub is_laid : LogAppender → Bool
is_laid a = elim a.layout [ none ↦ false | some v ↦ true ]

-- Every appender of the logger has a layout.
abbrev pub IsLaid : Logger → Appenders → Type 0
IsLaid l h = (p : ℕ) → has p l.appenders ≡ true → is_laid (h p) ≡ true

-- What an appender with a layout writes for an event.
unfoldable pub line_of : (ℕ → Bytes) → Level → LogEvent → LogAppender → Bytes
line_of date level event a = elim a.layout [
  | none ↦ []
  | some v ↦
      if leb (rank a.level) (rank level)
      then format date v level event ++ (if a.to_file then 10 ∷ [] else [])
      else []
]

abbrev pub occurrences : ℕ → List ℕ → ℕ
occurrences p [] = 0
occurrences p (q ∷ qs) = let n = occurrences p qs in if p == q then suc n else n

abbrev pub copies : ℕ → Bytes → Bytes
copies zero text = []
copies (suc n) text = text ++ copies n text

abbrev pub with_output : LogAppender → Bytes → LogAppender
with_output a text = record a { output = a.output ++ text }

module _ (date : ℕ → Bytes) (level : Level) (event : LogEvent) where
  abbrev line : LogAppender → Bytes
  line = line_of date level event

  append_event-line :
      (a : LogAppender)
      → is_laid a ≡ true
      → append_event date level event a ≡ some (with_output a (line a))
  unfolding append_event line_of
  append_event-line a e = elim (Bool-cases (leb (rank a.level) (rank level))) [
    | inl y ↦ ground (arith, e, y)
    | inr n ↦ ground (arith, e, n, append_nil a.output)
  ]

  line-with_output : (a : LogAppender) (text : Bytes) → line (with_output a text) ≡ line a
  unfolding line_of
  line-with_output a text = refl

  -- The appender after the event, where its address stands so often in the list.
  abbrev pub after_event : Appenders → ℕ → ℕ → LogAppender
  after_event h n q = with_output (h q) (copies n (line (h q)))

  written_twice :
      (a : LogAppender) (n : ℕ)
      → with_output (with_output a (line a)) (copies n (line (with_output a (line a))))
        ≡ with_output a (copies (suc n) (line a))
  written_twice a n =
      ap (λ text. with_output (with_output a (line a)) (copies n text))
        (line-with_output a (line a))
      ∙ ap (λ out. record a { output = out }) (append_assoc a.output (line a) (copies n (line a)))

  address : (p q : ℕ) → (q == p) ≡ true → p ≡ q
  address p q y = ground (arith, y)

  after_first :
      (h : Appenders) (p q n : ℕ)
      → after_event (put_appender h p (with_output (h p) (line (h p)))) n q
        ≡ after_event h (if q == p then suc n else n) q
  after_first h p q n = elim (Bool-cases (q == p)) [
    | inl y ↦
        ap (λ a. with_output a (copies n (line a))) (if_true _ _ y)
        ∙ written_twice (h p) n
        ∙ ap (λ r. after_event h (suc n) r) (address p q y)
        ∙ ap (λ k. after_event h k q) (sym (if_true _ _ y))
    | inr x ↦
        ap (λ a. with_output a (copies n (line a))) (if_false _ _ x)
        ∙ ap (λ k. after_event h k q) (sym (if_false _ _ x))
  ]

  append_all-first :
      (p : ℕ) (ps : List ℕ) (h : Appenders) (a : LogAppender)
      → append_event date level event (h p) ≡ some a
      → append_all date level event (p ∷ ps) h ≡ append_all date level event ps (put_appender h p a)
  unfolding append_all
  append_all-first p ps h a e =
      ap
        (λ o. elim o as (λ x. Option Appenders) [
          | none ↦ none
          | some b ↦ append_all date level event ps (put_appender h p b)
        ])
        e

  log_on :
      (l : Logger) (h : Appenders)
      → leb (rank l.level) (rank level) ≡ true
      → log date level event l h ≡ append_all date level event l.appenders h
  unfolding log
  log_on l h y =
      ap
        (λ b. elim b as (λ x. Option Appenders) [
          | true ↦ append_all date level event l.appenders h
          | false ↦ some h
        ])
        y

  log_off :
      (l : Logger) (h : Appenders)
      → leb (rank l.level) (rank level) ≡ false
      → log date level event l h ≡ some h
  unfolding log
  log_off l h n =
      ap
        (λ b. elim b as (λ x. Option Appenders) [
          | true ↦ append_all date level event l.appenders h
          | false ↦ some h
        ])
        n

  append_all-after_event :
      (ps : List ℕ) (h : Appenders)
      → ((p : ℕ) → has p ps ≡ true → is_laid (h p) ≡ true)
      → (k : Appenders) × (append_all date level event ps h ≡ some k)
        × ((q : ℕ) → k q ≡ after_event h (occurrences q ps) q)
  unfolding append_all
  append_all-after_event [] h laid = (h, refl, λ q. nothing (h q))
    where
      nothing : (a : LogAppender) → a ≡ with_output a []
      nothing a = ap (λ out. record a { output = out }) (sym (append_nil a.output))
  append_all-after_event (p ∷ ps) h laid =
      let first = append_event-line (h p) (laid p (ground arith)) in
      let next = put_appender h p (with_output (h p) (line (h p))) in
      let (k, e, all) =
        append_all-after_event ps next
          (λ q i. still q (laid q (ground (arith, i))) (laid p (ground arith))) in
      (
        k,
        append_all-first p ps h (with_output (h p) (line (h p))) first ∙ e,
        λ q. all q ∙ after_first h p q (occurrences q ps),
      )
    where
      still :
          (q : ℕ)
          → is_laid (h q) ≡ true
          → is_laid (h p) ≡ true
          → is_laid (put_appender h p (with_output (h p) (line (h p))) q) ≡ true
      still q e d = ground (arith, e, d)

  -- Where each appender of the logger has a layout, `log` follows no null layout; it writes the line of each appender to
  -- it, once for each time that it stands in the list and only from the level of the logger and of the appender on, and
  -- changes nothing else.
  pub log-after_event :
      (l : Logger) (h : Appenders)
      → IsLaid l h
      → (k : Appenders) × (log date level event l h ≡ some k)
        × ((q : ℕ)
            → k q
              ≡ after_event h
                  (if leb (rank l.level) (rank level) then occurrences q l.appenders else 0)
                  q)
  unfolding log
  log-after_event l h laid = elim (Bool-cases (leb (rank l.level) (rank level))) [
    | inl y ↦
        let (k, e, all) = append_all-after_event l.appenders h laid in
        (k, log_on l h y ∙ e, λ q. all q ∙ ap (λ n. after_event h n q) (sym (if_true _ _ y)))
    | inr n ↦ (
      h,
      log_off l h n,
      λ q.
          ap (λ out. record (h q) { output = out }) (sym (append_nil (h q).output))
          ∙ ap (λ m. after_event h m q) (sym (if_false _ _ n)),
    )
  ]
