-- ===== src/Chain/Word.antt =====
-- The words of the table's registers and their fields.
use hardware_drivers.Prelude.{ℕ, ◌+◌, ◌*◌, ◌%◌, ◌^◌, ◌<◌, ◌≡◌, refl, ◌∙◌, ap, arith, bit_or}
use hardware_drivers.Prelude.Bits.{bit_or_disjoint}
use hardware_drivers.Prelude.Fields.{field}
use hardware_drivers.Bus.{u32}
use hardware_drivers.Chain.{
  FpgaId, ingress_word, egress_word, flag_at, decode_ingress, decode_egress,
}

-- The fields of a request are in their ranges: a 9-bit identifier and flags of one bit.
pub record IsRequest (id : FpgaId) : Type 0 where
  pub cid : id.cid < 512
  pub fchid : id.fchid < 512
  pub extif_id : id.extif_id < 2
  pub enable_flag : id.enable_flag < 2
  pub active_flag : id.active_flag < 2
  pub direct_flag : id.direct_flag < 2
  pub virtual_flag : id.virtual_flag < 2
  pub blocking_flag : id.blocking_flag < 2

-- Flags above a word that they do not overlap add up.
or_three_flags :
    (w e a d : ℕ)
    → w < 2 ^ 16
    → bit_or (bit_or (bit_or w (flag_at e 16)) (flag_at a 17)) (flag_at d 18)
      ≡ w + e % 2 * 2 ^ 16 + a % 2 * 2 ^ 17 + d % 2 * 2 ^ 18
or_three_flags w e a d h =
    ap (λ x. bit_or (bit_or x (flag_at a 17)) (flag_at d 18)) (bit_or_disjoint 16 w (e % 2) h)
    ∙ ap (λ x. bit_or x (flag_at d 18))
        (bit_or_disjoint 17 (w + e % 2 * 2 ^ 16) (a % 2) (omega arith))
    ∙ bit_or_disjoint 18 (w + e % 2 * 2 ^ 16 + a % 2 * 2 ^ 17) (d % 2) (omega arith)

or_five_flags :
    (w x e a v b : ℕ)
    → w < 2 ^ 9
    → bit_or
        (bit_or
          (bit_or (bit_or (bit_or w (flag_at x 9)) (flag_at e 16)) (flag_at a 17))
          (flag_at v 19))
        (flag_at b 20)
      ≡ w + x % 2 * 2 ^ 9 + e % 2 * 2 ^ 16 + a % 2 * 2 ^ 17 + v % 2 * 2 ^ 19 + b % 2 * 2 ^ 20
or_five_flags w x e a v b h =
    let w1 = w + x % 2 * 2 ^ 9 in
    let w3 = w1 + e % 2 * 2 ^ 16 + a % 2 * 2 ^ 17 in
    ap
      (λ y.
        bit_or (bit_or (bit_or (bit_or y (flag_at e 16)) (flag_at a 17)) (flag_at v 19))
          (flag_at b 20))
      (bit_or_disjoint 9 w (x % 2) h)
    ∙ ap (λ y. bit_or (bit_or (bit_or y (flag_at a 17)) (flag_at v 19)) (flag_at b 20))
        (bit_or_disjoint 16 w1 (e % 2) (omega arith))
    ∙ ap (λ y. bit_or (bit_or y (flag_at v 19)) (flag_at b 20))
        (bit_or_disjoint 17 (w1 + e % 2 * 2 ^ 16) (a % 2) (omega arith))
    ∙ ap (λ y. bit_or y (flag_at b 20)) (bit_or_disjoint 19 w3 (v % 2) (omega arith))
    ∙ bit_or_disjoint 20 (w3 + v % 2 * 2 ^ 19) (b % 2) (omega arith)

-- What the 32-bit register of the sum shows of its fields.
abbrev three : ℕ → ℕ → ℕ → ℕ → ℕ
three w e a d = w + e % 2 * 2 ^ 16 + a % 2 * 2 ^ 17 + d % 2 * 2 ^ 18

three_fields :
    (w e a d : ℕ)
    → w < 512
    → e < 2
    → a < 2
    → d < 2
    → (field (u32 (three w e a d)) 0 9 ≡ w)
      × (field (u32 (three w e a d)) 16 1 ≡ e)
      × (field (u32 (three w e a d)) 17 1 ≡ a)
      × (field (u32 (three w e a d)) 18 1 ≡ d)
three_fields w e a d p q r s = (omega arith, omega arith, omega arith, omega arith)

abbrev five : ℕ → ℕ → ℕ → ℕ → ℕ → ℕ → ℕ
five w x e a v b =
    w + x % 2 * 2 ^ 9 + e % 2 * 2 ^ 16 + a % 2 * 2 ^ 17 + v % 2 * 2 ^ 19 + b % 2 * 2 ^ 20

five_fields :
    (w x e a v b : ℕ)
    → w < 512
    → x < 2
    → e < 2
    → a < 2
    → v < 2
    → b < 2
    → (field (u32 (five w x e a v b)) 9 1 ≡ x)
      × (field (u32 (five w x e a v b)) 0 9 ≡ w)
      × (field (u32 (five w x e a v b)) 16 1 ≡ e)
      × (field (u32 (five w x e a v b)) 17 1 ≡ a)
      × (field (u32 (five w x e a v b)) 19 1 ≡ v)
      × (field (u32 (five w x e a v b)) 20 1 ≡ b)
five_fields w x e a v b p q r s t u =
    (omega arith, omega arith, omega arith, omega arith, omega arith, omega arith)

-- The word that an update writes for an ingress entry, read back from the 32-bit register into any
-- request, sets its function channel and three flags to those of the update and nothing else, when
-- the function channel has 9 bits and the flags have one.
ingress_round_trip :
    (id id' : FpgaId)
    → IsRequest id
    → decode_ingress id' (u32 (ingress_word id)) ≡ record id' {
      fchid = id.fchid;
      enable_flag = id.enable_flag;
      active_flag = id.active_flag;
      direct_flag = id.direct_flag;
    }
unfolding decode_ingress ingress_word
ingress_round_trip id id' r =
    let (w, e, a, d) =
      three_fields id.fchid id.enable_flag id.active_flag id.direct_flag r.fchid r.enable_flag
        r.active_flag r.direct_flag in
    let sum =
      or_three_flags id.fchid id.enable_flag id.active_flag id.direct_flag
        (omega (arith, r.fchid)) in
    rw (sum, w, e, a, d) refl

-- The same of an egress entry: its identifiers and four flags.
egress_round_trip :
    (id id' : FpgaId)
    → IsRequest id
    → decode_egress id' (u32 (egress_word id)) ≡ record id' {
      extif_id = id.extif_id;
      cid = id.cid;
      enable_flag = id.enable_flag;
      active_flag = id.active_flag;
      virtual_flag = id.virtual_flag;
      blocking_flag = id.blocking_flag;
    }
unfolding decode_egress egress_word
egress_round_trip id id' r =
    let (x, w, e, a, v, b) =
      five_fields id.cid id.extif_id id.enable_flag id.active_flag id.virtual_flag id.blocking_flag
        r.cid r.extif_id r.enable_flag r.active_flag r.virtual_flag r.blocking_flag in
    let sum =
      or_five_flags id.cid id.extif_id id.enable_flag id.active_flag id.virtual_flag
        id.blocking_flag r.cid in
    rw (sum, x, w, e, a, v, b) refl

-- The words that an update writes for an ingress and for an egress entry, read back from the 32-bit
-- registers into any request, set the fields of the request that the table holds for the kind to
-- those of the update and no others, when the identifiers have 9 bits, the interface is 0 or 1 and
-- the flags have one bit.
pub table_words_round_trip :
    (id id' : FpgaId)
    → IsRequest id
    → (decode_ingress id' (u32 (ingress_word id)) ≡ record id' {
      fchid = id.fchid;
      enable_flag = id.enable_flag;
      active_flag = id.active_flag;
      direct_flag = id.direct_flag;
    })
      × (decode_egress id' (u32 (egress_word id)) ≡ record id' {
        extif_id = id.extif_id;
        cid = id.cid;
        enable_flag = id.enable_flag;
        active_flag = id.active_flag;
        virtual_flag = id.virtual_flag;
        blocking_flag = id.blocking_flag;
      })
table_words_round_trip id id' r = (ingress_round_trip id id' r, egress_round_trip id id' r)
