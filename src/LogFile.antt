-- ===== src/LogFile.antt =====
-- The log file of ze_coap_server_root.h: `logstr`, `sprintf` into it, and FWRITE.
use Prim.Native.Char.{code}
use Prim.Native.String.{String}
use mathlib.Core.List.{append_assoc, append-nil}
use ze_sense_server.Prelude.{
  ℕ, ◌+◌, ◌≤◌, ◌<◌, ◌≡◌, refl, sym, ap, ◌==◌, ltb, if◌then◌else◌, List, [], ◌∷◌, ◌++◌, length,
  length-append, arith,
}
use ze_sense_server.Prelude.Result.{Result, ok, fault, out_of_bounds, ◌>>=◌}

-- The bytes of an ASCII text.
abbrev pub codes : String → List ℕ
codes String.[] = []
codes (String.◌∷◌ c s) = code c ∷ codes s

abbrev pub logstr_size : ℕ
logstr_size = 100

-- The lines that were handed to `fputs`, the oldest first.
abbrev pub LogFile : Type 0
LogFile = List (List ℕ)

-- `sprintf(logstr, ..)` of a text, which ends with a zero, and FWRITE.
unfoldable pub write_line : List ℕ → LogFile → Result LogFile
write_line text logfd =
    if ltb (length text) logstr_size then ok (logfd ++ text ∷ []) else fault out_of_bounds

unfoldable pub write_lines : List (List ℕ) → LogFile → Result LogFile
write_lines [] logfd = ok logfd
write_lines (text ∷ texts) logfd = do f ← write_line text logfd; write_lines texts f

-- What "%s" prints of an array.
unfoldable pub c_string : List ℕ → Result (List ℕ)
c_string [] = fault out_of_bounds
c_string (c ∷ cs) = if c == 0 then ok [] else c_string cs >>= λ rest. ok (c ∷ rest)

pub write_line-fits :
    (text : List ℕ) (logfd : LogFile)
    → length text < logstr_size
    → write_line text logfd ≡ ok (logfd ++ text ∷ [])
unfolding write_line
write_line-fits text logfd h = ground arith

module _ (print_d : ℕ → List ℕ) where
  -- `print_d` is what "%d" prints of an `int`: a text with a number in it.
  abbrev pub printed : String × ℕ × String → List ℕ
  printed (before, n, behind) = codes before ++ print_d n ++ codes behind

  -- An `int` prints in at most eleven characters.
  abbrev pub ShortNumbers : Type 0
  ShortNumbers = (n : ℕ) → length (print_d n) ≤ 11

  pub length-printed :
      (before behind : String) (n : ℕ)
      → length (printed (before, n, behind))
        ≡ length (codes before) + length (print_d n) + length (codes behind)
  length-printed before behind n = omega (
    arith,
    length-append (codes before ++ print_d n) (codes behind),
    length-append (codes before) (print_d n),
  )

-- Every line fits.
abbrev pub AllFit : List (List ℕ) → Type 0
AllFit [] = Unit
AllFit (text ∷ texts) = (length text < logstr_size) × AllFit texts

pub write_lines-fit :
    (texts : List (List ℕ)) (logfd : LogFile)
    → AllFit texts
    → write_lines texts logfd ≡ ok (logfd ++ texts)
unfolding write_lines
write_lines-fit [] logfd h = ap ok (sym (append-nil logfd))
write_lines-fit (text ∷ texts) logfd (h, hs) =
    rw (write_line-fits text logfd h, write_lines-fit texts (logfd ++ text ∷ []) hs)
      (simp append_assoc)

abbrev pub NoZero : List ℕ → Type 0
NoZero [] = Unit
NoZero (c ∷ cs) = (0 < c) × NoZero cs

-- A string in front of a zero is printed whole.
pub c_string-whole : (s rest : List ℕ) → NoZero s → c_string (s ++ 0 ∷ rest) ≡ ok s
unfolding c_string
c_string-whole [] rest h = refl
c_string-whole (c ∷ s) rest (h, hs) = rw (c_string-whole s rest hs) (ground arith)
