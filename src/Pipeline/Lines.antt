-- ===== src/Pipeline/Lines.antt =====
-- The lines of the logger are never cut.
use ferret_os.Common.{
  ℕ, suc, ◌+◌, ◌^◌, ◌≤◌, ◌<◌, ◌≡◌, refl, ◌∙◌, List, [], ◌∷◌, ◌++◌, length, length-append, arith, ok,
}
use mathlib.Core.List.{append_assoc}
use ferret_os.Sys.{LineBuf, new_line, str, as_bytes}
use ferret_os.Sys.Line.{IsLine, new_line-IsLine, str-as_bytes, take_all}
use ferret_os.Sys.Digits.{IsDecimal, u32-width}
use ferret_os.Pipeline.{
  Reading, field, log_line, text_log_t, text_seq, text_release, text_raw, text_avg, text_latency,
  text_misses, text_dropped, text_newline,
}
use ferret_os.Pipeline.Wire.{IsReading}

-- The text consists of labels, each with the decimal digits of its number. The last comes first.
unfoldable pub Printed : List (List ℕ × ℕ) → List ℕ → Type 0
Printed [] text = text ≡ []
Printed ((label, v) ∷ fields) text =
    (front : List ℕ) × (ds : List ℕ) × (text ≡ front ++ (label ++ ds))
    × IsDecimal v ds
    × Printed fields front

-- The line has printed the fields, in at most `len` bytes.
pub record Shows (n len : ℕ) (fields : List (List ℕ × ℕ)) (l : LineBuf) : Type 0 where
  pub line : IsLine n l
  pub printed : Printed fields (as_bytes l)
  pub short : length (as_bytes l) ≤ len

new_line-Shows : (n : ℕ) → Shows n 0 [] (new_line n)
unfolding new_line as_bytes Printed
new_line-Shows n = record { line = new_line-IsLine n; printed = refl; short = omega arith }

str-whole :
    (n : ℕ) (more : List ℕ) (l : LineBuf)
    → IsLine n l
    → length (as_bytes l) + length more ≤ n
    → IsLine n (str l more) × (as_bytes (str l more) ≡ as_bytes l ++ more)
str-whole n more l is room =
    let (line, cut) = str-as_bytes n l more is in
    (line, cut ∙ take_all n (as_bytes l ++ more) (omega (arith, length-append (as_bytes l) more)))

field-Shows :
    (n len width v : ℕ) (fields : List (List ℕ × ℕ)) (label : List ℕ) (l : LineBuf)
    → Shows n len fields l
    → width < 10
    → v < 10 ^ suc width
    → len + length label + suc width ≤ n
    → (l' : LineBuf) × (field l label v ≡ ok l')
      × Shows n (len + length label + suc width) ((label, v) ∷ fields) l'
unfolding field Printed
field-Shows n len width v fields label l s narrow small room =
    let short = s.short in
    let (line, labelled) = str-whole n label l s.line (omega arith) in
    let (ds, l', runs, dec, few, cut, line') =
      u32-width n width v (str l label) line narrow small in
    let size = length-append (as_bytes l) label in
    let size' = length-append (as_bytes l ++ label) ds in
    let text : as_bytes l' ≡ (as_bytes l ++ label) ++ ds =
      cut ∙ rw labelled (take_all n ((as_bytes l ++ label) ++ ds) (omega (arith, size, size'))) in
    (
      l',
      runs,
      record {
        line = line';
        printed = (as_bytes l, ds, text ∙ append_assoc (as_bytes l) label ds, dec, s.printed);
        short = rw text (omega (arith, size, size'));
      },
    )

newline-Shows :
    (n len : ℕ) (fields : List (List ℕ × ℕ)) (l : LineBuf)
    → Shows n len fields l
    → len + 1 ≤ n
    → (text : List ℕ) × Printed fields text × (as_bytes (str l text_newline) ≡ text ++ text_newline)
newline-Shows n len fields l s room =
    let short = s.short in
    (as_bytes l, s.printed, (str-whole n text_newline l s.line (omega arith)).1)

-- The fields of the line for a reading, the last first.
abbrev pub log_fields : ℕ → Reading → List (List ℕ × ℕ)
log_fields now r =
    (text_dropped, r.dropped)
    ∷ (text_misses, r.misses)
    ∷ (text_latency, r.latency)
    ∷ (text_avg, r.avg)
    ∷ (text_raw, r.raw)
    ∷ (text_release, r.release)
    ∷ (text_seq, r.seq)
    ∷ (text_log_t, now)
    ∷ []

-- For numbers that fit their machine words, the line of the logger for a reading is made without a panic
-- and is not cut: it holds every field whole, and the newline.
pub log_line-Printed :
    (now : ℕ) (r : Reading)
    → now < 2 ^ 32
    → IsReading r
    → (l : LineBuf) × (text : List ℕ) × (log_line now r ≡ ok l)
      × Printed (log_fields now r) text
      × (as_bytes l ≡ text ++ text_newline)
unfolding log_line
log_line-Printed now r small w =
    let seq_fits = w.seq_fits in
    let release_fits = w.release_fits in
    let raw_fits = w.raw_fits in
    let avg_fits = w.avg_fits in
    let latency_fits = w.latency_fits in
    let misses_fits = w.misses_fits in
    let dropped_fits = w.dropped_fits in
    let (l₁, e₁, s₁) =
      field-Shows 112 0 9 now _ text_log_t (new_line 112) (new_line-Shows 112) (omega arith)
        (omega arith) (omega arith) in
    let (l₂, e₂, s₂) =
      field-Shows 112 18 9 r.seq _ text_seq l₁ s₁ (omega arith) (omega arith) (omega arith) in
    let (l₃, e₃, s₃) =
      field-Shows 112 33 9 r.release _ text_release l₂ s₂ (omega arith) (omega arith)
        (omega arith) in
    let (l₄, e₄, s₄) =
      field-Shows 112 52 4 r.raw _ text_raw l₃ s₃ (omega arith) (omega arith) (omega arith) in
    let (l₅, e₅, s₅) =
      field-Shows 112 62 4 r.avg _ text_avg l₄ s₄ (omega arith) (omega arith) (omega arith) in
    let (l₆, e₆, s₆) =
      field-Shows 112 72 2 r.latency _ text_latency l₅ s₅ (omega arith) (omega arith)
        (omega arith) in
    let (l₇, e₇, s₇) =
      field-Shows 112 84 2 r.misses _ text_misses l₆ s₆ (omega arith) (omega arith) (omega arith) in
    let (l₈, e₈, s₈) =
      field-Shows 112 95 4 r.dropped _ text_dropped l₇ s₇ (omega arith) (omega arith)
        (omega arith) in
    let (text, printed, whole) = newline-Shows 112 109 (log_fields now r) l₈ s₈ (omega arith) in
    (str l₈ text_newline, text, rw (e₁, e₂, e₃, e₄, e₅, e₆, e₇, e₈) refl, printed, whole)
