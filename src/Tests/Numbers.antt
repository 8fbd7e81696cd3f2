-- ===== src/Tests/Numbers.antt =====
-- A small version of `openssl::bn`: a number is its big-endian digits; a list that is not in normal
-- form stands for a negative number.
use rust_osshkeys.Prelude.{
  suc, zero, ◌*◌, ◌≡◌, refl, arith, sym, ◌∙◌, ap, Bytes, [], ◌∷◌, Bool, true, false, not, ◌&&◌, ltb,
  length, if◌then◌else◌, Bool-cases, inl, inr, All, Outcome, ok, panic,
}
use rust_osshkeys.Sshbuf.Endian.{IsByte}
use rust_osshkeys.External.BigNums.{BigNums, NoLeadingZero}

-- A call that succeeds.
abbrev pub succeed : {A : Type 0} → A → Outcome Unit A
succeed a = ok a

abbrev pub starts_well : Bytes → Bool
starts_well [] = true
starts_well (b ∷ _) = ltb 0 b

abbrev pub all_bytes : Bytes → Bool
all_bytes [] = true
all_bytes (b ∷ bs) = ltb b 256 && all_bytes bs

abbrev pub is_normal : Bytes → Bool
is_normal b = starts_well b && all_bytes b

abbrev pub strip : Bytes → Bytes
strip [] = []
strip (zero ∷ bs) = strip bs
strip (b ∷ bs) = b ∷ bs

all_bytes-IsByte : (b : Bytes) → all_bytes b ≡ true → All IsByte b
all_bytes-IsByte [] h = tt
all_bytes-IsByte (b ∷ bs) h = (ground arith, all_bytes-IsByte bs (ground arith))

IsByte-all_bytes : (b : Bytes) → All IsByte b → all_bytes b ≡ true
IsByte-all_bytes [] h = refl
IsByte-all_bytes (b ∷ bs) (hb, h) = ground (arith, IsByte-all_bytes bs h)

abbrev pub digits : Bytes → Bytes
digits v = if is_normal v then v else []

pub digits-IsByte : (v : Bytes) → All IsByte (digits v)
digits-IsByte v = elim (Bool-cases (is_normal v)) [
  | inl y ↦ rw y (all_bytes-IsByte v (ground arith))
  | inr n ↦ rw n tt
]

starts_well-NoLeadingZero : (v : Bytes) → starts_well v ≡ true → NoLeadingZero v
starts_well-NoLeadingZero [] h = tt
starts_well-NoLeadingZero (b ∷ _) h = ground arith

NoLeadingZero-starts_well : (v : Bytes) → NoLeadingZero v → starts_well v ≡ true
NoLeadingZero-starts_well [] h = refl
NoLeadingZero-starts_well (b ∷ _) h = ground arith

pub digits-NoLeadingZero : (v : Bytes) → NoLeadingZero (digits v)
digits-NoLeadingZero v = elim (Bool-cases (is_normal v)) [
  | inl y ↦ rw y (starts_well-NoLeadingZero v (ground arith))
  | inr n ↦ rw n tt
]

strip_normal : (v : Bytes) → NoLeadingZero v → strip v ≡ v
strip_normal [] h = refl
strip_normal (zero ∷ bs) h = absurd (omega arith)
strip_normal (suc b ∷ bs) h = refl

pub strip-digits : (v : Bytes) → not (is_normal v) ≡ false → strip (digits v) ≡ v
strip-digits v h =
    let y : is_normal v ≡ true = ground arith in
    rw y (strip_normal v (starts_well-NoLeadingZero v (ground arith)))

pub digits_of_strip :
    (d v : Bytes) → All IsByte d → NoLeadingZero d → succeed (strip d) ≡ ok v → digits v ≡ d
digits_of_strip d v h k e =
    let e' : succeed d ≡ ok v = ap ok (sym (strip_normal d k)) ∙ e in
    let same : d ≡ v = cc in
    let y : is_normal d ≡ true =
      ground (arith, IsByte-all_bytes d h, NoLeadingZero-starts_well d k) in
    rw (sym same, y) refl

abbrev pub remainder_by : Bytes → Bytes → Outcome Unit Bytes
remainder_by a [] = panic
remainder_by a (_ ∷ _) = ok a

abbrev pub remainder : Bytes → Bytes → Outcome Unit Bytes
remainder a b = remainder_by a (digits b)

pub remainder_zero : (a b : Bytes) → digits b ≡ [] → remainder a b ≡ panic
remainder_zero a b h = ap (remainder_by a) h

abbrev pub numbers : BigNums
numbers = record {
  BigNum = Bytes;
  from_slice = λ d. ok (strip d);
  to_vec = digits;
  num_bits = λ d. length d * 8;
  from_u32 = λ n. ok (strip (n ∷ []));
  sub = λ a b. ok a;
  rem = remainder;
  is_negative = λ v. not (is_normal v);
  to_vec-IsByte = digits-IsByte;
  to_vec-NoLeadingZero = digits-NoLeadingZero;
  from_slice-to_vec = λ v h. ap ok (strip-digits v h);
  to_vec_of_from_slice = digits_of_strip;
  rem_zero = remainder_zero;
}
