-- ===== src/Num/ReadBack.antt =====
-- czl_get_number_from_str of code/czl_lib.c on what czl_itoa64 writes.
use czl.Prelude.{
  ℕ, zero, suc, ◌-◌, ◌*◌, ◌%◌, ◌^◌, ◌<◌, ◌≤◌, ◌≡◌, ◌≢◌, ◌∙◌, refl, ap, Bool, true, false, some,
  List, [], ◌∷◌, ◌==◌, ◌||◌, length, arith, All, Bool-cases, inl, inr,
}
use czl.Opt.Var.{long_word, is_negative, neg_long, Number, Fpu}
use czl.Num.{itoa64, is_exp}
use czl.Num.RoundTrip.{IsDigit, decimal, written, digits-split, atoi-plain, digit_sum-decimal}
use czl.Num.Read.{
  is_digit, is_space, mark_long, DecScan, keep, dec_scan, unread, reverse_onto, find_radix,
  find_number_header, ignore_sign_filt, dec_number, get_number_from_str,
}

-- Digits are all taken, as far as there is room.
abbrev plain_scan : List ℕ → DecScan
plain_scan s = record { value = s; rest = []; flag_point = false; flag_f = false }

dec_scan-digits :
    (n last : ℕ) (s : List ℕ)
    → All IsDigit s
    → length s ≤ n
    → dec_scan n last false false false s ≡ plain_scan s
dec_scan-digits zero last [] v le = refl
dec_scan-digits zero last (c ∷ s) v le = absurd (omega arith)
dec_scan-digits (suc n) last [] v le = refl
dec_scan-digits (suc n) last (c ∷ s) v le =
    let h = v.0 in
    let point : (c == 46) ≡ false = ground arith in
    let minus : (c == 45) ≡ false = ground arith in
    let exp : is_exp c ≡ false = ground arith in
    let digit : is_digit c ≡ true = ground arith in
    rw (point, minus, exp, digit) (ap (keep c) (dec_scan-digits n c s v.1 (omega (arith, le))))

reverse-IsDigit :
    (s back : List ℕ) → All IsDigit s → All IsDigit back → All IsDigit (reverse_onto s back)
reverse-IsDigit [] back hs hb = hb
reverse-IsDigit (c ∷ s) back hs hb = reverse-IsDigit s (c ∷ back) hs.1 (hs.0, hb)

-- No digit is given back.
unread-digits : (back : List ℕ) → All IsDigit back → unread back [] ≡ []
unread-digits [] h = refl
unread-digits (c ∷ back) h =
    let d = h.0 in
    let minus : (c == 45) ≡ false = ground arith in
    let exp : is_exp c ≡ false = ground arith in rw (minus, exp) refl

find_radix-digits :
    (minus : Bool) (s : List ℕ)
    → All IsDigit s
    → 0 < length s
    → find_radix minus s ≡ some (record { minus = minus; radix = 10; body = s })
find_radix-digits minus [] h lt = absurd (omega arith)
find_radix-digits minus (c ∷ []) h lt =
    let d = h.0 in let digit : is_digit c ≡ true = ground arith in rw digit refl
find_radix-digits minus (c ∷ x ∷ s) h lt =
    let d = h.0 in
    let e = h.1.0 in
    let point : (c == 46) ≡ false = ground arith in
    let digit : is_digit c ≡ true = ground arith in
    let hex : ((x == 120) || (x == 88)) ≡ false = ground arith in
    let bin : ((x == 98) || (x == 66)) ≡ false = ground arith in
    elim (Bool-cases (c == 48)) [
      | inl z ↦ rw (point, z, hex, bin) refl
      | inr n ↦ rw (point, n, digit) refl
    ]

header-digits :
    (s : List ℕ)
    → All IsDigit s
    → 0 < length s
    → find_number_header (ignore_sign_filt s)
      ≡ some (record { minus = false; radix = 10; body = s })
unfolding find_number_header ignore_sign_filt
header-digits [] h lt = absurd (omega arith)
header-digits (c ∷ s) h lt =
    let d = h.0 in
    let space : is_space c ≡ false = ground arith in
    let minus : (c == 45) ≡ false = ground arith in
    rw (space, minus) (find_radix-digits false (c ∷ s) h lt)

header-minus :
    (s : List ℕ)
    → All IsDigit s
    → 0 < length s
    → find_number_header (ignore_sign_filt (45 ∷ s))
      ≡ some (record { minus = true; radix = 10; body = s })
unfolding find_number_header ignore_sign_filt
header-minus s h lt = find_radix-digits true s h lt

abbrev pub long_number : ℕ → Number
long_number num = record { is_float = false; bits = num }

module _ (F : Fpu) (atof : List ℕ → ℕ) where
  dec_number-digits :
      (minus : Bool) (s : List ℕ)
      → All IsDigit s
      → 0 < length s
      → length s ≤ 20
      → decimal s < long_word
      → dec_number F atof minus 0 s
        ≡ (some (long_number (mark_long minus * decimal s % long_word)), [])
  unfolding dec_number
  dec_number-digits minus s h lt le small =
      let scan = dec_scan-digits 31 0 s h (omega (arith, le)) in
      let value = atoi-plain s lt (digits-split s h) ∙ ap some (digit_sum-decimal s le small) in
      let back = unread-digits (reverse_onto s []) (reverse-IsDigit s [] h tt) in
      rw (scan, value, back) refl

  -- For every czl_long but the least, czl_get_number_from_str reads what czl_itoa64 writes as that
  -- integer, with its sign, to the end of the text.
  pub get_number_from_str-itoa64 :
      (num : ℕ)
      → num < long_word
      → num ≢ 2 ^ 63
      → (s : List ℕ) × ((itoa64 num ≡ some s)
          × (get_number_from_str F atof s ≡ some (some (long_number num), [])))
  unfolding itoa64 get_number_from_str
  get_number_from_str-itoa64 num h ne = elim (Bool-cases (is_negative num)) [
    | inl n ↦
        let low : 2 ^ 63 ≤ num = ground arith in
        let m : neg_long num ≡ long_word - num = ground arith in
        let w = written (neg_long num) (omega (arith, m, low, ne)) in
        let small : decimal w.0 < long_word = omega (arith, w.4, m, low) in
        let read = dec_number-digits true w.0 w.2 w.5 (omega (arith, w.3)) small in
        let value : mark_long true * decimal w.0 % long_word ≡ num =
          omega (arith, w.4, m, h, low) in
        (
          45 ∷ w.0,
          (
            rw (n, w.1) refl,
            rw (header-minus w.0 w.2 w.5)
                (ap some (read ∙ ap (λ v. (some (long_number v), [])) value)),
          ),
        )
    | inr n ↦
        let small : num < 2 ^ 63 = ground arith in
        let w = written num small in
        let read =
          dec_number-digits false w.0 w.2 w.5 (omega (arith, w.3)) (omega (arith, w.4, h)) in
        let value : mark_long false * decimal w.0 % long_word ≡ num = omega (arith, w.4, h) in
        (
          w.0,
          (
            rw n w.1,
            rw (header-digits w.0 w.2 w.5)
                (ap some (read ∙ ap (λ v. (some (long_number v), [])) value)),
          ),
        )
  ]
