-- ===== src/Format/Pubkey/SameRules.antt =====
-- Rules for comparing two values by their encodings.
use rust_osshkeys.Prelude.{
  ◌≡◌, ◌↔◌, ◌∙◌, refl, sym, ap, Bytes, Bool, true, false, ◌&&◌, ok, err, panic, Outcome,
  if◌then◌else◌,
}
use rust_osshkeys.Error.{OsshResult}
use rust_osshkeys.Keys.Ecdsa.{EcCurve, nistp256, nistp384, nistp521, curve_eq}
use rust_osshkeys.Keys.Equality.{unwrap}

pub both : (a b : Bool) → (a && b) ≡ true → (a ≡ true) × (b ≡ true)
both true b h = (refl, h)
both false b h = cc

pub both_true : (a b : Bool) → a ≡ true → b ≡ true → (a && b) ≡ true
both_true a b ha hb = rw (ha, hb) refl

pub curve_eq_iff : (a b : EcCurve) → (curve_eq a b ≡ true) ↔ (a ≡ b)
unfolding curve_eq
curve_eq_iff nistp256 nistp256 = (λ h. refl, λ h. refl)
curve_eq_iff nistp384 nistp384 = (λ h. refl, λ h. refl)
curve_eq_iff nistp521 nistp521 = (λ h. refl, λ h. refl)
curve_eq_iff nistp256 nistp384 = (λ h. cc, λ h. cc)
curve_eq_iff nistp256 nistp521 = (λ h. cc, λ h. cc)
curve_eq_iff nistp384 nistp256 = (λ h. cc, λ h. cc)
curve_eq_iff nistp384 nistp521 = (λ h. cc, λ h. cc)
curve_eq_iff nistp521 nistp256 = (λ h. cc, λ h. cc)
curve_eq_iff nistp521 nistp384 = (λ h. cc, λ h. cc)

pub unwrap-eq-ok : (m : Outcome Unit Bool) {b : Bool} → unwrap m ≡ ok b → m ≡ ok b
unwrap-eq-ok (ok a) h = cc
unwrap-eq-ok (err e) h = cc
unwrap-eq-ok panic h = cc

-- Two calls that return the same bytes, which are decoded to two values.
pub same_decoded :
    {A : Type 0} (decode : Bytes → OsshResult A) (x y : Bytes) (a b : A) {p q : OsshResult Bytes}
    → p ≡ ok x
    → q ≡ ok y
    → decode x ≡ ok a
    → decode y ≡ ok b
    → p ≡ q
    → a ≡ b
same_decoded {A = A} decode x y a b hp hq ha hb h =
    let same : x ≡ y = cc in
    let all : ◌≡◌ {A = OsshResult A} (ok a) (ok b) = sym ha ∙ ap decode same ∙ hb in cc

pub ok_true : (x : Bool) → ◌≡◌ {A = OsshResult Bool} (ok x) (ok true) → x ≡ true
ok_true x h = cc

pub if-eq-true :
    (c : Bool) (m : OsshResult Bool)
    → (if c then m else ok false) ≡ ok true
    → (c ≡ true) × (m ≡ ok true)
if-eq-true true m h = (refl, h)
if-eq-true false m h = cc
