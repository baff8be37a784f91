-- ===== src/Log/Patterns.antt =====
-- The patterns of `Layout` (ttw/log.cc): what `explain` finds in the text of a list of pieces.
use ttw.Prelude.{
  ℕ, zero, suc, ◌≤◌, ◌≡◌, refl, Bool, true, false, not, ◌&&◌, none, some, List, [], ◌∷◌, ◌++◌,
  arith, ◌==◌, if◌then◌else◌, if_false, subst, length, length-append, append_assoc, append_nil, sym,
  ap, ◌∙◌, Bool-cases, inl, inr, ◌⊎◌,
}
use ttw.Prelude.Text.{Bytes, eq_bytes}
use ttw.Log.{
  Level, LogEvent, Piece, literal, directive, flush, braces, with_argument, after_percent,
  split_pattern, formats_map, resolve, layout, format, write_format, write_formats, to_string,
  form_string, debug, info, warn, error, fatal, unknow,
}

-- A name that is printed, in either case, reads as its level.
pub form_string-to_string : (l : Level) → form_string (to_string l) ≡ l
unfolding form_string to_string eq_bytes
form_string-to_string debug = refl
form_string-to_string info = refl
form_string-to_string warn = refl
form_string-to_string error = refl
form_string-to_string fatal = refl
form_string-to_string unknow = refl

-- The text of the pieces: percent signs doubled, each argument in braces.
abbrev pub escape : Bytes → Bytes
escape [] = []
escape (c ∷ cs) = if c == b'%' then b'%' ∷ b'%' ∷ escape cs else c ∷ escape cs

unfoldable pub show_pieces : List Piece → Bytes
show_pieces [] = []
show_pieces (literal s ∷ ps) = escape s ++ show_pieces ps
show_pieces (directive fmt str ∷ ps) = b'%' ∷ (fmt ++ (b'{' ∷ (str ++ (b'}' ∷ show_pieces ps))))

abbrev pub no_brace : Bytes → Bool
no_brace [] = true
no_brace (c ∷ cs) = not (c == b'}') && no_brace cs

abbrev pub one_letter : Bytes → Bool
one_letter [] = false
one_letter (c ∷ []) = not (c == b'%')
one_letter (c ∷ d ∷ cs) = false

-- No literal is empty or, with the flag, comes right behind another; names are one byte, arguments hold no closing brace.
unfoldable pub plain : Bool → List Piece → Bool
plain after [] = true
plain after (literal [] ∷ ps) = false
plain after (literal (c ∷ cs) ∷ ps) = not after && plain true ps
plain after (directive fmt str ∷ ps) = one_letter fmt && (no_brace str && plain false ps)

braces-other :
    (c : ℕ) (cs : Bytes)
    → (c == b'}') ≡ false
    → braces (c ∷ cs) ≡ (c ∷ (braces cs).0, (braces cs).1)
braces-other c cs h =
    ap
      (λ b. elim b as (λ x. Bytes × Bytes) [
        | true ↦ ([], cs)
        | false ↦ (c ∷ (braces cs).0, (braces cs).1)
      ])
      h

braces-no_brace :
    (str rest : Bytes) → no_brace str ≡ true → braces (str ++ (b'}' ∷ rest)) ≡ (str, rest)
braces-no_brace [] rest n = refl
braces-no_brace (c ∷ cs) rest n =
    braces-other c (cs ++ (b'}' ∷ rest)) (ground (arith, n))
    ∙ ap (λ (x : Bytes × Bytes). (c ∷ x.0, x.1)) (braces-no_brace cs rest (ground (arith, n)))

split_other :
    (fuel c : ℕ) (cs nstr : Bytes)
    → (c == b'%') ≡ false
    → split_pattern (suc fuel) (c ∷ cs) nstr ≡ split_pattern fuel cs (nstr ++ (c ∷ []))
unfolding split_pattern
split_other fuel c cs nstr h =
    ap
      (λ b. elim b as (λ x. List Piece) [
        | false ↦ split_pattern fuel cs (nstr ++ (c ∷ []))
        | true ↦ after_percent (split_pattern fuel) cs nstr
      ])
      h

split_percent :
    (fuel : ℕ) (cs nstr : Bytes)
    → split_pattern (suc fuel) (b'%' ∷ b'%' ∷ cs) nstr ≡ split_pattern fuel cs (nstr ++ (b'%' ∷ []))
unfolding split_pattern
split_percent fuel cs nstr = refl

split_directive :
    (fuel c : ℕ) (str rest nstr : Bytes)
    → (c == b'%') ≡ false
    → no_brace str ≡ true
    → split_pattern (suc fuel) (b'%' ∷ c ∷ b'{' ∷ (str ++ (b'}' ∷ rest))) nstr
      ≡ flush nstr (directive (c ∷ []) str ∷ split_pattern fuel rest [])
unfolding split_pattern
split_directive fuel c str rest nstr h n =
    ap
      (λ b. elim b as (λ x. List Piece) [
        | true ↦ split_pattern fuel (b'{' ∷ (str ++ (b'}' ∷ rest))) (nstr ++ (b'%' ∷ []))
        | false ↦
            flush nstr (with_argument (split_pattern fuel) (c ∷ []) (b'{' ∷ (str ++ (b'}' ∷ rest))))
      ])
      h
    ∙ ap (λ (x : Bytes × Bytes). flush nstr (directive (c ∷ []) x.0 ∷ split_pattern fuel x.1 []))
        (braces-no_brace str rest n)

escape_other : (c : ℕ) (cs : Bytes) → (c == b'%') ≡ false → escape (c ∷ cs) ≡ c ∷ escape cs
escape_other c cs h = if_false _ _ h

escape_percent : (cs : Bytes) → escape (b'%' ∷ cs) ≡ b'%' ∷ b'%' ∷ escape cs
escape_percent cs = refl

-- The loop takes the text in front of the rest for the literal.
abbrev Reads : Bytes → Bytes → Bytes → Bytes → ℕ → Type 0
Reads text rest s nstr fuel =
    (g : ℕ) × (length rest ≤ g) × (split_pattern fuel text nstr ≡ split_pattern g rest (nstr ++ s))

module _ (text rest s : Bytes)
    (more : (nstr : Bytes) (fuel : ℕ) → length text ≤ fuel → Reads text rest s nstr fuel) where
  Reads-percent :
      (nstr : Bytes) (fuel : ℕ)
      → length (b'%' ∷ b'%' ∷ text) ≤ fuel
      → Reads (b'%' ∷ b'%' ∷ text) rest (b'%' ∷ s) nstr fuel
  Reads-percent nstr zero l = absurd (omega (arith, l))
  Reads-percent nstr (suc fuel) l =
      let (g, enough, e) = more (nstr ++ (b'%' ∷ [])) fuel (omega (arith, l)) in
      (
        g,
        enough,
        split_percent fuel text nstr
            ∙ e
            ∙ ap (split_pattern g rest) (append_assoc nstr (b'%' ∷ []) s),
      )

  Reads-other :
      (c : ℕ) (nstr : Bytes) (fuel : ℕ)
      → (c == b'%') ≡ false
      → length (c ∷ text) ≤ fuel
      → Reads (c ∷ text) rest (c ∷ s) nstr fuel
  Reads-other c nstr zero h l = absurd (omega (arith, l))
  Reads-other c nstr (suc fuel) h l =
      let (g, enough, e) = more (nstr ++ (c ∷ [])) fuel (omega (arith, l)) in
      (
        g,
        enough,
        split_other fuel c text nstr h
            ∙ e
            ∙ ap (split_pattern g rest) (append_assoc nstr (c ∷ []) s),
      )

Reads-escape :
    (s rest nstr : Bytes) (fuel : ℕ)
    → length (escape s ++ rest) ≤ fuel
    → Reads (escape s ++ rest) rest s nstr fuel
Reads-escape [] rest nstr fuel l = (fuel, l, ap (split_pattern fuel rest) (sym (append_nil nstr)))
Reads-escape (c ∷ cs) rest nstr fuel l = elim (Bool-cases (c == b'%')) [
  | inl y ↦
      let same : c ≡ b'%' = ground (arith, y) in
      subst (λ d. Reads (escape (d ∷ cs) ++ rest) rest (d ∷ cs) nstr fuel) (sym same)
        (Reads-percent (escape cs ++ rest) rest cs (Reads-escape cs rest) nstr fuel
          (subst (λ d. length (escape (d ∷ cs) ++ rest) ≤ fuel) same l))
  | inr n ↦
      subst (λ text. Reads (text ++ rest) rest (c ∷ cs) nstr fuel) (sym (escape_other c cs n))
        (Reads-other (escape cs ++ rest) rest cs (Reads-escape cs rest) c nstr fuel n
          (subst (λ text. length (text ++ rest) ≤ fuel) (escape_other c cs n) l))
]

none_before :
    (after : Bool) (nstr : Bytes) → not after ≡ true → ((after ≡ true) ⊎ (nstr ≡ [])) → nstr ≡ []
none_before after nstr n (inl y) = ground (arith, n, y)
none_before after nstr n (inr e) = e

flush-literal :
    (c : ℕ) (cs nstr : Bytes) (ps : List Piece)
    → nstr ≡ []
    → flush (nstr ++ (c ∷ cs)) ps ≡ flush nstr (literal (c ∷ cs) ∷ ps)
flush-literal c cs nstr ps e =
    ap (λ n. flush (n ++ (c ∷ cs)) ps) e ∙ sym (ap (λ n. flush n (literal (c ∷ cs) ∷ ps)) e)

-- The loop, with the text before it in `nstr`, finds the pieces.
split_show :
    (ps : List Piece) (after : Bool) (nstr : Bytes) (fuel : ℕ)
    → plain after ps ≡ true
    → length (show_pieces ps) ≤ fuel
    → ((after ≡ true) ⊎ (nstr ≡ []))
    → split_pattern fuel (show_pieces ps) nstr ≡ flush nstr ps
unfolding show_pieces plain
split_show [] after nstr fuel p l h = unfold split_pattern in refl
split_show (literal [] ∷ ps) after nstr fuel p l h = cc
split_show (literal (c ∷ cs) ∷ ps) after nstr fuel p l h =
    let (g, enough, e) = Reads-escape (c ∷ cs) (show_pieces ps) nstr fuel l in
    e
    ∙ split_show ps true (nstr ++ (c ∷ cs)) g (ground (arith, p)) enough (inl refl)
    ∙ flush-literal c cs nstr ps (none_before after nstr (ground (arith, p)) h)
split_show (directive [] str ∷ ps) after nstr fuel p l h = cc
split_show (directive (c ∷ d ∷ cs) str ∷ ps) after nstr fuel p l h = cc
split_show (directive (c ∷ []) str ∷ ps) after nstr zero p l h = absurd (omega (arith, l))
split_show (directive (c ∷ []) str ∷ ps) after nstr (suc fuel) p l h =
    split_directive fuel c str (show_pieces ps) nstr (ground (arith, p)) (ground (arith, p))
    ∙ ap (λ qs. flush nstr (directive (c ∷ []) str ∷ qs))
        (split_show ps false [] fuel (ground (arith, p))
          (omega (arith, l, length-append str (b'}' ∷ show_pieces ps))) (inr refl))

-- `explain` finds in the text of a list of pieces just these pieces: no literal is empty or next to another one, a name is
-- one byte other than a percent sign, and an argument holds no closing brace.
pub split_pattern-show_pieces :
    (ps : List Piece)
    → plain false ps ≡ true
    → split_pattern (length (show_pieces ps)) (show_pieces ps) [] ≡ ps
split_pattern-show_pieces ps p =
    split_show ps false [] (length (show_pieces ps)) p (omega arith) (inr refl)

-- What the pieces write, up to the first name that is not known.
unfoldable pub render : (ℕ → Bytes) → Level → LogEvent → List Piece → Bytes
render date level event [] = []
render date level event (literal s ∷ ps) = s ++ render date level event ps
render date level event (directive fmt str ∷ ps) = elim (formats_map fmt) [
  | none ↦ []
  | some make ↦ write_format date level event (make str) ++ render date level event ps
]

unfoldable pub all_known : List Piece → Bool
all_known [] = true
all_known (literal s ∷ ps) = all_known ps
all_known (directive fmt str ∷ ps) = elim (formats_map fmt) [
  | none ↦ false
  | some make ↦ all_known ps
]

resolve-render :
    (date : ℕ → Bytes) (level : Level) (event : LogEvent) (ps : List Piece)
    → write_formats date level event (resolve ps).0 ≡ render date level event ps
unfolding resolve render write_formats write_format
resolve-render date level event [] = refl
resolve-render date level event (literal s ∷ ps) =
    ap (λ z. s ++ z) (resolve-render date level event ps)
resolve-render date level event (directive fmt str ∷ ps) =
    ground (arith, resolve-render date level event ps)

resolve-all_known : (ps : List Piece) → (resolve ps).1 ≡ not (all_known ps)
unfolding resolve all_known
resolve-all_known [] = refl
resolve-all_known (literal s ∷ ps) = resolve-all_known ps
resolve-all_known (directive fmt str ∷ ps) = ground (arith, resolve-all_known ps)

-- A layout of the text of such pieces writes for an event what the pieces write up to the first name that is not
-- known, and has an error just where there is such a name.
pub format-show_pieces :
    (date : ℕ → Bytes) (level : Level) (event : LogEvent) (ps : List Piece)
    → plain false ps ≡ true
    → (format date (layout (show_pieces ps)) level event ≡ render date level event ps)
      × ((layout (show_pieces ps)).error ≡ not (all_known ps))
unfolding format layout
format-show_pieces date level event ps p = (
  ap (λ qs. write_formats date level event (resolve qs).0) (split_pattern-show_pieces ps p)
      ∙ resolve-render date level event ps,
  ap (λ qs. (resolve qs).1) (split_pattern-show_pieces ps p) ∙ resolve-all_known ps,
)
