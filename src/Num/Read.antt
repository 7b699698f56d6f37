-- ===== src/Num/Read.antt =====
-- czl_get_number_from_str of code/czl_lib.c and what it calls: the number that a text begins with.
-- A text is the list of its characters in front of the 0 that ends it.
use czl.Prelude.{
  ℕ, zero, suc, ◌-◌, ◌*◌, ◌%◌, Bool, true, false, ◌&&◌, ◌||◌, Option, none, some, List, [], ◌∷◌,
  leb, ◌==◌, if◌then◌else◌,
}
use czl.Opt.Var.{long_word, Number, Fpu}
use czl.Num.{atoi, is_exp}

abbrev pub is_digit : ℕ → Bool
is_digit c = leb 48 c && leb c 57

abbrev pub is_hex : ℕ → Bool
is_hex c = is_digit c || (leb 97 c && leb c 102) || (leb 65 c && leb c 70)

abbrev pub is_bit : ℕ → Bool
is_bit c = leb 48 c && leb c 49

-- `mark` as a czl_long: -1 or 1.
abbrev pub mark_long : Bool → ℕ
mark_long minus = if minus then long_word - 1 else 1

-- What the loop of czl_get_dec_number_from_str leaves: the characters in `value`, the rest of the
-- text, and the flags.
pub record DecScan : Type 0 where
  pub value : List ℕ
  pub rest : List ℕ
  pub flag_point : Bool
  pub flag_f : Bool

abbrev pub keep : ℕ → DecScan → DecScan
keep c d = record d { value = c ∷ d.value }

-- `room` is the number of characters that still go into `value`, `last` is `*(s-1)`.
abbrev pub dec_scan : (room : ℕ) → (last : ℕ) → (flag_point flag_e flag_f : Bool) → List ℕ → DecScan
dec_scan zero last p e f s = record { value = []; rest = s; flag_point = p; flag_f = f }
dec_scan (suc n) last p e f [] = record { value = []; rest = []; flag_point = p; flag_f = f }
dec_scan (suc n) last p e f (c ∷ s) =
    let stop : DecScan = record { value = []; rest = c ∷ s; flag_point = p; flag_f = f } in
    let point = keep c (dec_scan n c true e f s) in
    let minus = keep c (dec_scan n c p e true s) in
    let exp = keep c (dec_scan n c p true f s) in
    let digit = keep c (dec_scan n c p e f s) in
    if c == 46
    then if p || e then stop else point
    else if c == 45
    then if is_exp last then minus else stop
    else if is_exp c
    then if e then stop else exp
    else if is_digit c
    then digit
    else stop

-- The last characters of `value`, from the last one on, which are given back: a sign, then an `e`.
abbrev pub unread_exp : List ℕ → List ℕ → List ℕ
unread_exp [] rest = rest
unread_exp (c ∷ back) rest = if is_exp c then c ∷ rest else rest

abbrev pub unread : List ℕ → List ℕ → List ℕ
unread [] rest = rest
unread (c ∷ back) rest = if c == 45 then unread_exp back (c ∷ rest) else unread_exp (c ∷ back) rest

abbrev pub reverse_onto : List ℕ → List ℕ → List ℕ
reverse_onto [] back = back
reverse_onto (c ∷ s) back = reverse_onto s (c ∷ back)

-- `mark*czl_atoi(value, radix)`; `none` where czl_atoi runs in front of the text.
abbrev pub times_mark : Bool → Option ℕ → Option Number
times_mark minus none = none
times_mark minus (some n) =
    some (record { is_float = false; bits = mark_long minus * n % long_word })

-- The characters of a hexadecimal or binary number, `room` of them at most.
abbrev pub radix_scan : (ℕ → Bool) → (room : ℕ) → List ℕ → List ℕ × List ℕ
radix_scan ok zero s = ([], s)
radix_scan ok (suc n) [] = ([], [])
radix_scan ok (suc n) (c ∷ s) =
    let (value, rest) = radix_scan ok n s in if ok c then (c ∷ value, rest) else ([], c ∷ s)

abbrev pub radix_number :
    (radix : ℕ) → (minus : Bool) → List ℕ × List ℕ → Option (Option Number × List ℕ)
radix_number radix minus ([], rest) = none
radix_number radix minus (c ∷ value, rest) = some (times_mark minus (atoi (c ∷ value) radix), rest)

unfoldable pub hex_number : (minus : Bool) → List ℕ → Option (Option Number × List ℕ)
hex_number minus s = radix_number 16 minus (radix_scan is_hex 31 s)

unfoldable pub bin_number : (minus : Bool) → List ℕ → Option (Option Number × List ℕ)
bin_number minus s = radix_number 2 minus (radix_scan is_bit 159 s)

-- czl_find_number_header_from_str: whether there is a minus, the radix, and the rest of the text.
pub record Header : Type 0 where
  pub minus : Bool
  pub radix : ℕ
  pub body : List ℕ

abbrev pub with_radix : (minus : Bool) → (next : ℕ) → (digits rest : List ℕ) → Header
with_radix minus x s t =
    if x == 120 || x == 88
    then record { minus = minus; radix = 16; body = t }
    else if x == 98 || x == 66
    then record { minus = minus; radix = 2; body = t }
    else record { minus = minus; radix = 10; body = s }

abbrev pub find_radix : (minus : Bool) → List ℕ → Option Header
find_radix minus [] = none
find_radix minus (c ∷ []) =
    if is_digit c then some (record { minus = minus; radix = 10; body = c ∷ [] }) else none
find_radix minus (c ∷ x ∷ s) =
    if c == 46 && is_digit x
    then some (record { minus = minus; radix = 10; body = c ∷ x ∷ s })
    else if c == 48
    then some (with_radix minus x (c ∷ x ∷ s) s)
    else if is_digit c
    then some (record { minus = minus; radix = 10; body = c ∷ x ∷ s })
    else none

unfoldable pub find_number_header : List ℕ → Option Header
find_number_header [] = none
find_number_header (c ∷ s) = if c == 45 then find_radix true s else find_radix false (c ∷ s)

-- czl_numstr_ignore_sign_filt.
abbrev pub is_space : ℕ → Bool
is_space c = c == 32 || c == 9 || c == 10 || c == 13

unfoldable pub ignore_sign_filt : List ℕ → List ℕ
ignore_sign_filt [] = []
ignore_sign_filt (c ∷ s) = if is_space c then ignore_sign_filt s else c ∷ s

-- `atof` is the C library's, as the bits of a double.
module _ (F : Fpu) (atof : List ℕ → ℕ) where
  abbrev pub dec_value : (minus : Bool) → DecScan → Option Number
  dec_value minus d =
      if d.flag_point || d.flag_f
      then some
          (record { is_float = true; bits = F.mul (F.of_long (mark_long minus)) (atof d.value) })
      else times_mark minus (atoi d.value 10)

  -- `last` is the character in front of the number.
  unfoldable pub dec_number : (minus : Bool) → (last : ℕ) → List ℕ → Option Number × List ℕ
  dec_number minus last s =
      let d = dec_scan 31 last false false false s in
      (dec_value minus d, unread (reverse_onto d.value []) d.rest)

  abbrev pub by_radix : Option Header → Option (Option Number × List ℕ)
  by_radix none = none
  by_radix (some h) =
      if h.radix == 10
      then some (dec_number h.minus 0 h.body)
      else if h.radix == 16
      then hex_number h.minus h.body
      else bin_number h.minus h.body

  -- NULL, or the number and the rest of the text.
  unfoldable pub get_number_from_str : List ℕ → Option (Option Number × List ℕ)
  get_number_from_str s = by_radix (find_number_header (ignore_sign_filt s))
