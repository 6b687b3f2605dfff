-- ===== src/Prelude/Fields.antt =====
-- Words made of bit fields, by shift and width: `value |= (v & mask) << shift` for each field in
-- turn, and `(value & mask) >> shift`.
use Prim.Native.Nat.{ℕ, zero, suc, ◌+◌, ◌-◌, ◌*◌, ◌/◌, ◌%◌, ◌^◌, ◌≤◌, ◌<◌, bit_or}
use Prim.Native.Nat.pow
use mathlib.Core.Path.{◌≡◌, refl, sym, ap, ap₂, ◌∙◌}
use mathlib.Core.List.{List, [], ◌∷◌}
use native.Mathlib.Omega.{arith}
use native.Mathlib.Nat.{
  add-mul-div_right, add-mul-mod_self_right, div-eq_of_lt, mod-lt, mul_comm, mul-le-mul_right,
  zero-add, mod-eq_of_lt, mul_assoc,
}
use hardware_drivers.Prelude.Lists.{length}
use hardware_drivers.Prelude.Bits.{bit_or_disjoint}

abbrev pub field : ℕ → ℕ → ℕ → ℕ
field word k width = word / 2 ^ k % 2 ^ width

-- `acc |= (v & (2 ^ w - 1)) << k`, field by field.
unfoldable pub pack : List (ℕ × ℕ) → List ℕ → ℕ → ℕ
pack [] vs acc = acc
pack (f ∷ fs) [] acc = acc
pack ((k, w) ∷ fs) (v ∷ vs) acc = pack fs vs (bit_or acc (v % 2 ^ w * 2 ^ k))

unfoldable pub unpack : List (ℕ × ℕ) → ℕ → List ℕ
unpack [] word = []
unpack ((k, w) ∷ fs) word = field word k w ∷ unpack fs word

-- The values, each cut to the width of its field.
unfoldable pub cut : List (ℕ × ℕ) → List ℕ → List ℕ
cut [] vs = []
cut (f ∷ fs) [] = []
cut ((k, w) ∷ fs) (v ∷ vs) = v % 2 ^ w ∷ cut fs vs

-- The fields stand in order from bit `b` on and end within 32 bits.
abbrev pub IsLayout : ℕ → List (ℕ × ℕ) → Type 0
IsLayout b [] = b ≤ 32
IsLayout b ((k, w) ∷ fs) = (b ≤ k) × IsLayout (k + w) fs

pow_add : (a b : ℕ) → 2 ^ (a + b) ≡ 2 ^ a * 2 ^ b
pow_add zero b = rw (zero-add b) (omega arith)
pow_add (suc a) b =
    ap (λ (t : ℕ). 2 ^ t) (omega arith)
    ∙ pow.suc 2 (a + b)
    ∙ ap (λ (t : ℕ). t * 2) (pow_add a b)
    ∙ mul_assoc (2 ^ a) (2 ^ b) 2
    ∙ ap (λ (t : ℕ). 2 ^ a * t) (mul_comm (2 ^ b) 2)
    ∙ sym (mul_assoc (2 ^ a) 2 (2 ^ b))
    ∙ ap (λ (t : ℕ). t * 2 ^ b) (sym (pow.suc 2 a))

pow_pos : (a : ℕ) → 0 < 2 ^ a
pow_pos zero = omega arith
pow_pos (suc a) = omega (arith, pow.suc 2 a, pow_pos a)

pow_mono : (a b : ℕ) → a ≤ b → 2 ^ a ≤ 2 ^ b
pow_mono a b h =
    let e : 2 ^ (a + (b - a)) ≡ 2 ^ b = ap (λ (t : ℕ). 2 ^ t) (omega arith) in
    grind (arith, e, pow_add a (b - a), pow_pos a, pow_pos (b - a))

-- One more field above a word.
module _ (acc b k w v : ℕ) (low : acc < 2 ^ b) (le : b ≤ k) where
  with_field : bit_or acc (v % 2 ^ w * 2 ^ k) ≡ acc + v % 2 ^ w * 2 ^ k
  with_field = bit_or_disjoint k acc (v % 2 ^ w) (grind (arith, pow_mono b k))

  with_field_lt : bit_or acc (v % 2 ^ w * 2 ^ k) < 2 ^ (k + w)
  with_field_lt =
      let x = v % 2 ^ w in
      let le' : (x + 1) * 2 ^ k ≤ 2 ^ w * 2 ^ k =
        mul-le-mul_right (2 ^ k) (omega (arith, mod-lt v (pow_pos w))) in
      let e : (x + 1) * 2 ^ k ≡ x * 2 ^ k + 2 ^ k = grind arith in
      rw with_field (omega (arith, e, le', pow_mono b k le, pow_add k w, mul_comm (2 ^ w) (2 ^ k)))

  -- It shows the value, and hides nothing below.
  field_self : field (bit_or acc (v % 2 ^ w * 2 ^ k)) k w ≡ v % 2 ^ w
  field_self =
      let below : acc / 2 ^ k ≡ 0 = div-eq_of_lt (omega (arith, pow_mono b k le)) in
      rw (with_field, add-mul-div_right acc (v % 2 ^ w) (pow_pos k), below, zero-add)
        (mod-eq_of_lt (mod-lt v (pow_pos w)))

  field_below : (j n : ℕ) → j + n ≤ b → field (bit_or acc (v % 2 ^ w * 2 ^ k)) j n ≡ field acc j n
  field_below j n h =
      let x = v % 2 ^ w in
      let y = x * 2 ^ (k - (j + n)) in
      let split : x * 2 ^ k ≡ y * 2 ^ n * 2 ^ j =
        ap (λ (t : ℕ). x * 2 ^ t) (omega arith)
        ∙ ap (λ (t : ℕ). x * t) (pow_add (k - (j + n)) (n + j))
        ∙ ap (λ (t : ℕ). x * (2 ^ (k - (j + n)) * t)) (pow_add n j)
        ∙ sym (mul_assoc x (2 ^ (k - (j + n))) (2 ^ n * 2 ^ j))
        ∙ sym (mul_assoc y (2 ^ n) (2 ^ j)) in
      rw (with_field, split, add-mul-div_right acc (y * 2 ^ n) (pow_pos j))
        (add-mul-mod_self_right (acc / 2 ^ j) y (2 ^ n))

-- Later fields leave the lower ones as they are.
pack_below :
    (b : ℕ) (fs : List (ℕ × ℕ)) (vs : List ℕ) (acc j n : ℕ)
    → IsLayout b fs
    → acc < 2 ^ b
    → j + n ≤ b
    → field (pack fs vs acc) j n ≡ field acc j n
unfolding pack
pack_below b [] vs acc j n l low h = refl
pack_below b (f ∷ fs) [] acc j n l low h = refl
pack_below b ((k, w) ∷ fs) (v ∷ vs) acc j n l low h =
    pack_below (k + w) fs vs (bit_or acc (v % 2 ^ w * 2 ^ k)) j n l.1
      (with_field_lt acc b k w v low l.0) (omega (arith, l.0))
    ∙ field_below acc b k w v low l.0 j n h

pack_lt :
    (b : ℕ) (fs : List (ℕ × ℕ)) (vs : List ℕ) (acc : ℕ)
    → IsLayout b fs
    → acc < 2 ^ b
    → length vs ≡ length fs
    → pack fs vs acc < 2 ^ 32
unfolding pack
pack_lt b [] vs acc l low h = let p : 2 ^ b ≤ 2 ^ 32 = pow_mono b 32 l in omega (arith, p)
pack_lt b (f ∷ fs) [] acc l low h = absurd (omega (arith, h))
pack_lt b ((k, w) ∷ fs) (v ∷ vs) acc l low h =
    pack_lt (k + w) fs vs (bit_or acc (v % 2 ^ w * 2 ^ k)) l.1 (with_field_lt acc b k w v low l.0)
      (omega arith)

unpack-pack_from :
    (b : ℕ) (fs : List (ℕ × ℕ)) (vs : List ℕ) (acc : ℕ)
    → IsLayout b fs
    → acc < 2 ^ b
    → length vs ≡ length fs
    → unpack fs (pack fs vs acc) ≡ cut fs vs
unfolding pack unpack cut
unpack-pack_from b [] vs acc l low h = refl
unpack-pack_from b (f ∷ fs) [] acc l low h = absurd (omega (arith, h))
unpack-pack_from b ((k, w) ∷ fs) (v ∷ vs) acc l low h =
    let acc' = bit_or acc (v % 2 ^ w * 2 ^ k) in
    let low' = with_field_lt acc b k w v low l.0 in
    ap₂ (λ (x : ℕ) (xs : List ℕ). x ∷ xs)
      (pack_below (k + w) fs vs acc' k w l.1 low' (omega arith) ∙ field_self acc b k w v low l.0)
      (unpack-pack_from (k + w) fs vs acc' l.1 low' (omega arith))

-- A word of the fields, through a register of 32 bits, shows the values again.
pub unpack-pack :
    (fs : List (ℕ × ℕ)) (vs : List ℕ)
    → IsLayout 0 fs
    → length vs ≡ length fs
    → unpack fs (pack fs vs 0 % 2 ^ 32) ≡ cut fs vs
unpack-pack fs vs l h =
    rw (mod-eq_of_lt (pack_lt 0 fs vs 0 l (omega arith) h))
      (unpack-pack_from 0 fs vs 0 l (omega arith) h)
