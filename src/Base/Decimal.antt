-- ===== src/Base/Decimal.antt =====
-- Go's `strconv.FormatInt` and `fmt.Sprintf("%v")` at an int64, and `strconv.ParseInt` in base ten.
use Prim.Native.Nat.{ℕ, zero, suc, ◌+◌, ◌-◌, ◌*◌, ◌/◌, ◌%◌, ◌^◌, ◌≤◌, ◌<◌}
use Prim.Native.Char.{Char, code, nul}
use Prim.Native.String.{String}
use mathlib.Core.Path.{◌≡◌, refl, ◌∙◌}
use mathlib.Core.Logic.{inl, inr}
use mathlib.Core.Bool.{Bool, true, false, ◌&&◌}
use mathlib.Core.Option.{Option, none, some}
use native.Mathlib.Omega.{arith}
use onepanel.Base.Tests.{nat_eq, nat_eq_iff, if◌then◌else◌, ltb, leb, Bool-cases}
use onepanel.Base.Errors.{Result, ok, err, plain}

-- `negsuc n` is -(n + 1)
pub data ℤ : Type 0 where
  pos : ℕ → ℤ
  negsuc : ℕ → ℤ

abbrev pick : String → ℕ → Char
pick String.[] n = nul
pick (String.◌∷◌ c s) zero = c
pick (String.◌∷◌ c s) (suc n) = pick s n

digit : ℕ → Char
digit n = pick "0123456789" n

-- the loop that writes digits from the right, as long as a tenth is left
digits : ℕ → ℕ → String → String
digits zero n out = out
digits (suc f) n out =
    let rest = digits f (n / 10) (String.◌∷◌ (digit (n % 10)) out) in
    if ltb n 10 then String.◌∷◌ (digit n) out else rest

unfoldable pub format_nat : ℕ → String
unfolding digits digit
format_nat n = digits (suc n) n String.[]

unfoldable pub format_int : ℤ → String
unfolding format_nat
format_int (pos n) = format_nat n
format_int (negsuc n) = String.◌∷◌ "-" (format_nat (suc n))

-- the value of the digits, or none at another character
scan : String → ℕ → Option ℕ
scan String.[] acc = some acc
scan (String.◌∷◌ c s) acc =
    let rest = scan s (acc * 10 + (code c - b'0')) in
    if leb b'0' (code c) && leb (code c) b'9' then rest else none

-- at least one digit, and a value that an int64 holds
in_range : ℕ → Option ℕ → Option ℕ
in_range limit none = none
in_range limit (some n) = if leb n limit then some n else none

unsigned : ℕ → String → Option ℕ
unfolding in_range scan
unsigned limit String.[] = none
unsigned limit (String.◌∷◌ c s) = in_range limit (scan (String.◌∷◌ c s) 0)

positive : Option ℕ → Result ℤ
positive none = err (plain "invalid syntax")
positive (some n) = ok (pos n)

negative : Option ℕ → Result ℤ
negative none = err (plain "invalid syntax")
negative (some zero) = ok (pos 0)
negative (some (suc n)) = ok (negsuc n)

abbrev pub max_int64 : ℕ
max_int64 = 2 ^ 63 - 1

-- strconv.ParseInt(s, 10, 64)
unfoldable pub parse_int : String → Result ℤ
unfolding unsigned positive negative
parse_int String.[] = err (plain "invalid syntax")
parse_int (String.◌∷◌ c s) = elim (nat_eq (code c) b'-') [
  | true ↦ negative (unsigned (2 ^ 63) s)
  | false ↦ elim (nat_eq (code c) b'+') [
    | true ↦ positive (unsigned max_int64 s)
    | false ↦ positive (unsigned max_int64 (String.◌∷◌ c s))
  ]
]

-- the ten digits, each with its value
all_below : ℕ → (ℕ → Bool) → Bool
all_below zero p = true
all_below (suc n) p = p n && all_below n p

at_below : (n : ℕ) (p : ℕ → Bool) (x : ℕ) → all_below n p ≡ true → x < n → p x ≡ true
unfolding all_below
at_below zero p x h lt = absurd (omega arith)
at_below (suc n) p x h lt = ground (arith, at_below n p x)

code-digit : (n : ℕ) → n < 10 → code (digit n) ≡ b'0' + n
code-digit n h =
    (nat_eq_iff (code (digit n)) (b'0' + n)).0
      (at_below 10 (λ k. nat_eq (code (digit k)) (b'0' + k)) n (unfold all_below digit in refl) h)

scan-digit :
    (n acc : ℕ) (s : String) → n < 10 → scan (String.◌∷◌ (digit n) s) acc ≡ scan s (acc * 10 + n)
unfolding scan
scan-digit n acc s h = ground (arith, code-digit n h)

scan-digits : (f n : ℕ) (out : String) → n < f → scan (digits f n out) 0 ≡ scan out n
unfolding digits
scan-digits zero n out h = absurd (omega arith)
scan-digits (suc f) n out h = elim (Bool-cases (ltb n 10)) [
  | inl small ↦ rw small (ground (arith, scan-digit n 0 out))
  | inr large ↦ rw large (
      ground (
        arith,
        scan-digits f (n / 10) (String.◌∷◌ (digit (n % 10)) out),
        scan-digit (n % 10) (n / 10) out,
      ))
]

scan_all : (n : ℕ) → scan (digits (suc n) n String.[]) 0 ≡ some n
scan_all n = scan-digits (suc n) n String.[] (omega arith) ∙ unfold scan in refl

-- the first character is a digit
digits_head :
    (f n : ℕ) (out : String)
    → n < f
    → (d : ℕ) × (s : String) × (d < 10) × (digits f n out ≡ String.◌∷◌ (digit d) s)
unfolding digits
digits_head zero n out h = absurd (omega arith)
digits_head (suc f) n out h = elim (Bool-cases (ltb n 10)) [
  | inl small ↦ (n, out, ground arith, rw small)
  | inr large ↦
      let (d, s, lt, e) = digits_head f (n / 10) (String.◌∷◌ (digit (n % 10)) out) (ground arith) in
      (d, s, lt, rw large e)
]

parse_digits :
    (d n : ℕ) (s : String)
    → d < 10
    → n ≤ max_int64
    → scan (String.◌∷◌ (digit d) s) 0 ≡ some n
    → parse_int (String.◌∷◌ (digit d) s) ≡ ok (pos n)
unfolding parse_int unsigned in_range positive
parse_digits d n s lt fits e = ground (arith, code-digit d lt)

-- The text of every int64 from 0 is read back.
pub parse_int-format_nat : (n : ℕ) → n ≤ max_int64 → parse_int (format_nat n) ≡ ok (pos n)
unfolding format_nat
parse_int-format_nat n h =
    let (d, s, lt, e) = digits_head (suc n) n String.[] (omega arith) in
    rw e (parse_digits d n s lt h (rw e at (scan_all n)))

-- Two numbers of one text are equal.
pub format_nat-injective :
    (m n : ℕ) → m ≤ max_int64 → n ≤ max_int64 → format_nat m ≡ format_nat n → m ≡ n
format_nat-injective m n hm hn e = cc (parse_int-format_nat m hm, parse_int-format_nat n hn)
